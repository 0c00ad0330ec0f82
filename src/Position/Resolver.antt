-- ===== src/Position/Resolver.antt =====
-- `_map_diff_lines` and `line_in_diff` of core/diff_position_resolver.py. `_DIFF_HUNK_RE` is
-- `_HUNK_RE` with two of its groups not captured.
use revue.Prelude.{ℕ, ◌+◌, Bool, none, some, List, [], ◌∷◌, ◌++◌, ◌==◌, ◌&&◌, if◌then◌else◌, any}
use revue.Prelude.Text.{Text, codes, starts_with, splitlines}
use revue.Position.Hunk.{match_hunk}

-- `result`, with `cur_old` and `cur_new`
pub record Walk : Type 0 where
  pub result : List (ℕ × ℕ)
  pub cur_old : ℕ
  pub cur_new : ℕ

-- raw.startswith(("+++", "---", "diff --git")) or raw.startswith("\\ ")
unfoldable pub is_marker : Text → Bool
is_marker raw =
    any (starts_with raw) (codes "+++" ∷ codes "---" ∷ codes "diff --git" ∷ codes "\\ " ∷ [])

unfoldable pub walk_body : Walk → Text → Walk
walk_body w raw =
    if starts_with raw (codes "+")
    then record {
      result = w.result ++ (0, w.cur_new) ∷ [];
      cur_old = w.cur_old;
      cur_new = w.cur_new + 1;
    }
    else if starts_with raw (codes "-")
    then record w { cur_old = w.cur_old + 1 }
    else record {
      result = w.result ++ (w.cur_old, w.cur_new) ∷ [];
      cur_old = w.cur_old + 1;
      cur_new = w.cur_new + 1;
    }

unfoldable pub walk_plain : Walk → Text → Walk
walk_plain w raw =
    if is_marker raw then w else if w.cur_new == 0 && w.cur_old == 0 then w else walk_body w raw

unfoldable pub walk_line : Walk → Text → Walk
walk_line w raw = elim (match_hunk raw) [
  | some h ↦ record w { cur_old = h.old_start; cur_new = h.new_start }
  | none ↦ walk_plain w raw
]

unfoldable pub walk_lines : Walk → List Text → Walk
walk_lines w [] = w
walk_lines w (raw ∷ lines) = walk_lines (walk_line w raw) lines

abbrev pub walk_start : Walk
walk_start = record { result = []; cur_old = 0; cur_new = 0 }

unfoldable pub map_diff_lines : Text → List (ℕ × ℕ)
map_diff_lines diff_content = (walk_lines walk_start (splitlines diff_content)).result

unfoldable pub line_in_diff : ℕ → Text → Bool
line_in_diff line diff_content = any (λ pair. pair.1 == line) (map_diff_lines diff_content)
