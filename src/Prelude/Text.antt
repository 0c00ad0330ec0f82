-- ===== src/Prelude/Text.antt =====
-- Python's `str` as its list of code points, with the methods that the diff code calls.
use Prim.Native.Char.{code}
use mathlib.Core.List.{append-nil, append_assoc}
use revue.Prelude.{
  All, ap, ◌∙◌, ℕ, String, ◌≡◌, ==_refl, Bool, true, false, ◌&&◌, ◌||◌, List, [], ◌∷◌, ◌++◌, refl,
  arith, leb, ◌==◌, if◌then◌else◌, any, all,
}

abbrev pub Text : Type 0
Text = List ℕ

-- a literal of the source
abbrev pub codes : String → Text
codes String.[] = []
codes (String.◌∷◌ c s) = code c ∷ codes s

-- s == t
unfoldable pub same : Text → Text → Bool
same [] [] = true
same [] (d ∷ t) = false
same (c ∷ s) [] = false
same (c ∷ s) (d ∷ t) = c == d && same s t

-- s.startswith(p)
unfoldable pub starts_with : Text → Text → Bool
starts_with s [] = true
starts_with [] (c ∷ p) = false
starts_with (d ∷ s) (c ∷ p) = d == c && starts_with s p

-- pattern in path
unfoldable pub occurs : Text → Text → Bool
occurs pattern [] = starts_with [] pattern
occurs pattern (c ∷ path) =
    let later = occurs pattern path in if starts_with (c ∷ path) pattern then true else later

-- c.isspace()
unfoldable pub is_space : ℕ → Bool
is_space c =
    (leb 9 c && leb c 13)
    || (leb 28 c && leb c 32)
    || c == 133
    || c == 160
    || c == 5760
    || (leb 8192 c && leb c 8202)
    || c == 8232
    || c == 8233
    || c == 8239
    || c == 8287
    || c == 12288

-- s.lstrip()
unfoldable pub lstrip : Text → Text
unfolding is_space
lstrip [] = []
lstrip (c ∷ s) = let rest = lstrip s in if is_space c then rest else c ∷ s

-- s.strip() == ""
unfoldable pub is_blank : Text → Bool
unfolding is_space
is_blank s = all is_space s

-- the characters that `str.splitlines` ends a line at ("\r\n" counts once)
unfoldable pub is_line_end : ℕ → Bool
is_line_end c =
    (leb 10 c && leb c 13) || (leb 28 c && leb c 30) || c == 133 || c == 8232 || c == 8233

-- `splitlines` with the characters of the current line, and whether "\r" has just ended a line
unfoldable pub split_from : Bool → Text → Text → List Text
split_from cr [] [] = []
split_from cr (d ∷ line) [] = (d ∷ line) ∷ []
split_from cr line (c ∷ s) = elim (cr && c == 10) [
  | true ↦ split_from false line s
  | false ↦ elim (is_line_end c) [
    | true ↦ line ∷ split_from (c == 13) [] s
    | false ↦ split_from false (line ++ c ∷ []) s
  ]
]

-- s.splitlines()
unfoldable pub splitlines : Text → List Text
unfolding split_from is_line_end
splitlines s = split_from false [] s

-- the decimal digits that `\d` of `re` matches, here in ASCII
unfoldable pub is_digit : ℕ → Bool
is_digit c = leb b'0' c && leb c b'9'

-- lines, each ended by "\n"
abbrev pub unlines : List Text → Text
unlines [] = []
unlines (line ∷ lines) = line ++ 10 ∷ unlines lines

abbrev pub IsLine : Text → Type 0
IsLine line = any is_line_end line ≡ false

newline : is_line_end 10 ≡ true
unfolding is_line_end
newline = refl

split_from-line :
    (line t s : Text)
    → IsLine t
    → split_from false line (t ++ 10 ∷ s) ≡ (line ++ t) ∷ split_from false [] s
unfolding split_from
split_from-line line [] s h = rw (append-nil, newline, split_from)
split_from-line line (c ∷ t) s h =
    let ordinary : is_line_end c ≡ false = ground arith in
    let others : IsLine t = ground arith in
    rw (ordinary, split_from)
      (split_from-line (line ++ c ∷ []) t s others
        ∙ ap (λ (l : Text). l ∷ split_from false [] s) (append_assoc line (c ∷ []) t))

-- Splitting undoes joining, for lines that hold no line end.
pub splitlines-unlines : (lines : List Text) → All IsLine lines → splitlines (unlines lines) ≡ lines
unfolding splitlines split_from
splitlines-unlines [] h = refl
splitlines-unlines (line ∷ lines) h =
    split_from-line [] line (unlines lines) h.0
    ∙ ap (λ ls. line ∷ ls) (splitlines-unlines lines h.1)

pub same-eq : (s t : Text) → same s t ≡ true → s ≡ t
unfolding same
same-eq [] [] h = refl
same-eq [] (d ∷ t) h = ground arith
same-eq (c ∷ s) [] h = ground arith
same-eq (c ∷ s) (d ∷ t) h = ground (arith, same-eq s t)

pub same_refl : (s : Text) → same s s ≡ true
unfolding same
same_refl [] = refl
same_refl (c ∷ s) = rw (==_refl, same) (same_refl s)
