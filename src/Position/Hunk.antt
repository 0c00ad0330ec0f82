-- ===== src/Position/Hunk.antt =====
-- `_HUNK_RE` of packaging/revue_core/src/revue_core/comments/position_adapter.py:
-- ^@@ -(\d+)(?:,(\d+))? \+(\d+)(?:,(\d+))? @@
use revue.Prelude.{ℕ, ◌+◌, ◌-◌, ◌*◌, Option, none, some, [], ◌∷◌, ◌==◌, if◌then◌else◌}
use revue.Prelude.Text.{Text, codes, is_digit}
use revue.Prelude.Pattern.{◌>>=◌, expect}

-- the digits that follow, as a number: `int(m.group(i))`
digits : ℕ → Text → ℕ × Text
unfolding is_digit
digits n [] = (n, [])
digits n (c ∷ s) =
    let rest = digits (n * 10 + (c - b'0')) s in if is_digit c then rest else (n, c ∷ s)

-- (\d+)
number : Text → Option (ℕ × Text)
unfolding digits
number [] = none
number (c ∷ s) = if is_digit c then some (digits 0 (c ∷ s)) else none

-- (?:,(\d+))?
count_group : Text → Option ℕ × Text
unfolding number
count_group [] = (none, [])
count_group (c ∷ s) =
    if c == b','
    then (elim (number s) [ none ↦ (none, c ∷ s) | some (n, rest) ↦ (some n, rest) ])
    else (none, c ∷ s)

pub record Header : Type 0 where
  pub old_start : ℕ
  pub old_count : Option ℕ
  pub new_start : ℕ
  pub new_count : Option ℕ

-- _HUNK_RE.match(line)
unfoldable pub match_hunk : Text → Option Header
unfolding expect number count_group
match_hunk line = do
  at_old ← expect (codes "@@ -") line
  (old_start, after_old) ← number at_old
  let (old_count, after_old_count) = count_group after_old
  at_new ← expect (codes " +") after_old_count
  (new_start, after_new) ← number at_new
  let (new_count, after_new_count) = count_group after_new
  _ ← expect (codes " @@") after_new_count
  some (record {
    old_start = old_start;
    old_count = old_count;
    new_start = new_start;
    new_count = new_count;
  })
