-- ===== src/Position/Classify.antt =====
-- `PositionStatus`, `PositionResult` and `calculate` of comments/position_adapter.py. A message of
-- `reason` is a constructor with what is formatted into it.
use revue.Prelude.{
  ℕ, ◌+◌, Bool, Option, none, some, List, [], ◌∷◌, ◌==◌, ◌&&◌, leb, if◌then◌else◌, contains,
}
use revue.Prelude.Int.{ℤ, sub_ℕ, pos}
use revue.Prelude.Text.{Text}
use revue.Position.Parsed.{Hunk, ParsedDiff, parse_diff}

pub data PositionStatus : Type 0 where
  anchored context_line removed_line out_of_hunk : PositionStatus

pub data Reason : Type 0 where
  is_plus is_context is_removed : ℕ → Reason
  inferred_plus : ℕ → Hunk → Reason
  in_no_hunk : ℕ → Reason
  diff_is_empty : Reason

-- `replacement_line_count` may be 0, so that the end is an integer
pub record PositionResult : Type 0 where
  pub file_path : Text
  pub start_line : Option ℤ
  pub end_line : Option ℤ
  pub status : PositionStatus
  pub reason : Reason

abbrev pub unanchored : Text → PositionStatus → Reason → PositionResult
unanchored file_path status reason = record {
  file_path = file_path;
  start_line = none;
  end_line = none;
  status = status;
  reason = reason;
}

-- end_line = reported_line + replacement_line_count - 1
abbrev pub anchor_at : Text → ℕ → ℕ → Reason → PositionResult
anchor_at file_path reported_line replacement_line_count reason = record {
  file_path = file_path;
  start_line = some (pos reported_line);
  end_line = some (sub_ℕ (reported_line + replacement_line_count) 1);
  status = anchored;
  reason = reason;
}

-- old_count == 0 and new_start <= reported_line <= new_start + new_count - 1
unfoldable pub covers : ℕ → Hunk → Bool
covers line h =
    h.old_count == 0 && leb h.new_start line && leb (line + 1) (h.new_start + h.new_count)

-- the loop over `parsed.hunks`
unfoldable pub find_cover : ℕ → List Hunk → Option Hunk
find_cover line [] = none
find_cover line (h ∷ hunks) =
    let rest = find_cover line hunks in if covers line h then some h else rest

unfoldable pub classify : ParsedDiff → ℕ → Text → ℕ → PositionResult
classify parsed reported_line file_path replacement_line_count =
    if contains parsed.plus_new reported_line
    then anchor_at file_path reported_line replacement_line_count (is_plus reported_line)
    else if contains parsed.context_new reported_line
    then unanchored file_path context_line (is_context reported_line)
    else if contains parsed.minus_old reported_line
    then unanchored file_path removed_line (is_removed reported_line)
    else (elim (find_cover reported_line parsed.hunks) [
      | some h ↦
          anchor_at file_path reported_line replacement_line_count (inferred_plus reported_line h)
      | none ↦ unanchored file_path out_of_hunk (in_no_hunk reported_line)
    ])

unfoldable pub calculate : Text → ℕ → Text → ℕ → PositionResult
calculate diff_snippet reported_line file_path replacement_line_count =
    classify (parse_diff diff_snippet) reported_line file_path replacement_line_count
