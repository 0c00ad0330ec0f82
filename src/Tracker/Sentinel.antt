-- ===== src/Tracker/Sentinel.antt =====
-- The sentinel that a reply carries: `_SENTINEL_RE`, `_parse_sentinel`, `_most_recent_sentinel` and
-- `_make_sentinel`. The pattern is
-- \[//\]: # \(revue:state=([\w]+):fp=([a-f0-9]{16}):ts=([^ )]+?)\)
use revue.Prelude.{
  ℕ, zero, suc, Bool, true, false, not, ◌&&◌, ◌||◌, Option, none, some, List, [], ◌∷◌, ◌++◌, ◌==◌,
  leb, ltb, if◌then◌else◌,
}
use revue.Prelude.Text.{Text, codes}
use revue.Prelude.Pattern.{◌>>=◌, expect, span, nonempty}

pub record Sentinel : Type 0 where
  pub state : Text
  pub fp : Text
  pub ts : Text

-- [a-f0-9]
unfoldable pub is_hex : ℕ → Bool
is_hex c = (leb b'a' c && leb c b'f') || (leb b'0' c && leb c b'9')

-- [^ )]
unfoldable pub is_stamp : ℕ → Bool
is_stamp c = not (c == b' ' || c == b')')

-- n characters that satisfy `is_hex`
unfoldable pub hexes : ℕ → Text → Option (Text × Text)
unfolding is_hex
hexes zero s = some ([], s)
hexes (suc n) [] = none
hexes (suc n) (c ∷ s) =
    let rest = hexes n s in
    if is_hex c
    then (elim rest [ none ↦ none | some (run, after) ↦ some (c ∷ run, after) ])
    else none

abbrev pub opening : Text
opening = codes "[//]: # (revue:state="

-- What `\w` matches: the word characters of ASCII, and those that `unicode_word` names above it.
unfoldable pub is_word : (ℕ → Bool) → ℕ → Bool
is_word unicode_word c =
    if ltb c 128
    then (leb b'a' c && leb c b'z')
      || (leb b'A' c && leb c b'Z')
      || (leb b'0' c && leb c b'9')
      || c == b'_'
    else unicode_word c

module _ (unicode_word : ℕ → Bool) where
  -- the pattern at the beginning of a text
  unfoldable pub match_sentinel : Text → Option Sentinel
  match_sentinel s = do
    at_state ← expect opening s
    (state, after_state) ← nonempty (span (is_word unicode_word) at_state)
    at_fp ← expect (codes ":fp=") after_state
    (fp, after_fp) ← hexes 16 at_fp
    at_ts ← expect (codes ":ts=") after_fp
    (ts, after_ts) ← nonempty (span is_stamp at_ts)
    _ ← expect (codes ")") after_ts
    some (record { state = state; fp = fp; ts = ts })

  -- _SENTINEL_RE.search(body)
  unfoldable pub parse_sentinel : Text → Option Sentinel
  parse_sentinel [] = match_sentinel []
  parse_sentinel (c ∷ s) =
      let later = parse_sentinel s in
      elim (match_sentinel (c ∷ s)) [ some m ↦ some m | none ↦ later ]

-- s > t for strings
unfoldable pub text_gt : Text → Text → Bool
text_gt [] t = false
text_gt (c ∷ s) [] = true
text_gt (c ∷ s) (d ∷ t) =
    let rest = text_gt s t in if ltb d c then true else if c == d then rest else false

-- `best` after one more reply
unfoldable pub later_of : Option Sentinel → Option Sentinel → Option Sentinel
later_of best none = best
later_of none (some m) = some m
later_of (some b) (some m) = if text_gt m.ts b.ts then some m else some b

unfoldable pub most_recent_from : (ℕ → Bool) → Option Sentinel → List Text → Option Sentinel
most_recent_from unicode_word best [] = best
most_recent_from unicode_word best (body ∷ replies) =
    most_recent_from unicode_word (later_of best (parse_sentinel unicode_word body)) replies

-- A reply is its "body".
unfoldable pub most_recent_sentinel : (ℕ → Bool) → List Text → Option Sentinel
most_recent_sentinel unicode_word replies = most_recent_from unicode_word none replies

-- `$` matches at the end, and before a last "\n"
abbrev at_end : Option (Text × Text) → Bool
at_end none = false
at_end (some (run, [])) = true
at_end (some (run, c ∷ [])) = c == 10
at_end (some (run, c ∷ d ∷ rest)) = false

-- re.match(r'^[a-f0-9]{16}$', fp)
unfoldable pub is_fingerprint : Text → Bool
is_fingerprint fp = at_end (hexes 16 fp)

-- `none` is the ValueError; `ts` is the formatted time.
unfoldable pub make_sentinel : Text → Text → Text → Option Text
make_sentinel ts state fp =
    if is_fingerprint fp
    then some (opening ++ (state ++ (codes ":fp=" ++ (fp ++ (codes ":ts=" ++ (ts ++ codes ")"))))))
    else none
