-- ===== src/Guard.antt =====
-- The guard against orphaned lines:
-- packaging/revue_core/src/revue_core/comments/_orphan_line_guard.py. The tool that reads a file is a
-- parameter (`none` is an error). The two locks make each operation one step; log lines are left out.
pub mod Orphans
pub mod Reads
mod Examples
use Prim.Native.Nat.{min}
use revue.Prelude.{
  ℕ, zero, suc, ◌+◌, ◌-◌, Bool, true, false, not, ◌&&◌, Option, none, some, List, [], ◌∷◌, leb,
  length, if◌then◌else◌,
}
use revue.Prelude.Text.{Text, same, lstrip, is_blank, splitlines}
use revue.Consolidator.Findings.{ConsolidatedFinding}

-- `_leading_indent`
unfoldable pub leading_indent : Text → ℕ
leading_indent line = length line - length (lstrip line)

-- lines[line_no - 1] for the line numbers from `start_line` on, `count` of them, which are in range
unfoldable pub lines_from : List Text → ℕ → List Text
lines_from lines zero = lines
lines_from [] (suc n) = []
lines_from (line ∷ lines) (suc n) = lines_from lines n

unfoldable pub first_lines : ℕ → List Text → List Text
first_lines zero lines = []
first_lines (suc n) [] = []
first_lines (suc n) (line ∷ lines) = line ∷ first_lines n lines

-- the indents of the lines that are not blank
unfoldable pub range_indents : List Text → List ℕ
unfolding leading_indent
range_indents [] = []
range_indents (line ∷ lines) =
    let rest = range_indents lines in if is_blank line then rest else leading_indent line ∷ rest

-- min(range_indents)
unfoldable pub min_of : ℕ → List ℕ → ℕ
min_of n [] = n
min_of n (m ∷ ms) = min n (min_of m ms)

-- the first line that is not blank
unfoldable pub probe : List Text → Option Text
probe [] = none
probe (line ∷ lines) = let rest = probe lines in if is_blank line then rest else some line

unfoldable pub decide_trailing : ℕ → Option Text → Bool × ℕ × ℕ
unfolding leading_indent
decide_trailing outermost_indent none = (false, outermost_indent, 0)
decide_trailing outermost_indent (some line) =
    (leb outermost_indent (leading_indent line), outermost_indent, leading_indent line)

unfoldable pub decide : List ℕ → Option Text → Bool × ℕ × ℕ
unfolding decide_trailing min_of
decide [] trailing = (false, 0, 0)
decide (n ∷ indents) trailing = decide_trailing (min_of n indents) trailing

-- `_should_downgrade`, from line `start_line` (1 or more) on, with `count` lines
unfoldable pub should_downgrade : List Text → ℕ → ℕ → Bool × ℕ × ℕ
unfolding decide range_indents probe lines_from first_lines
should_downgrade lines start_line count =
    let from_start = lines_from lines (start_line - 1) in
    decide (range_indents (first_lines count from_start)) (probe (lines_from from_start count))

-- The counter, and the cache of the files' lines; `none` is a file whose read failed.
pub record Guard : Type 0 where
  pub guard_downgrade : ℕ
  pub content_cache : List (Text × Option (List Text))
  pub reads : List Text

unfoldable pub cached : List (Text × Option (List Text)) → Text → Option (Option (List Text))
cached [] path = none
cached ((p, entry) ∷ cache) path =
    let rest = cached cache path in if same p path then some entry else rest

abbrev pub prose_only : {Float : Type 0} → ConsolidatedFinding Float → ConsolidatedFinding Float
prose_only f = record f { code_replacement = none; replacement_line_count = 1; snippet = [] }

module _ (read_file : Text → Option Text) where
  unfoldable pub read_lines : Text → Option (List Text)
  read_lines path = elim (read_file path) [ none ↦ none | some content ↦ some (splitlines content) ]

  -- `_load_file_lines`; `reads` records the calls of the tool
  unfoldable pub load_file_lines : Text → Guard → Option (List Text) × Guard
  unfolding cached read_lines
  load_file_lines path guard = elim (cached guard.content_cache path) [
    | some entry ↦ (entry, guard)
    | none ↦ (
      read_lines path,
      record guard {
        content_cache = (path, read_lines path) ∷ guard.content_cache;
        reads = path ∷ guard.reads;
      },
    )
  ]

  module _ {Float : Type 0} where
    unfoldable pub judge :
        ConsolidatedFinding Float → Option (List Text) × Guard → ConsolidatedFinding Float × Guard
    unfolding should_downgrade
    judge f (none, guard) = (f, guard)
    judge f (some lines, guard) =
        if (should_downgrade lines f.line_number f.replacement_line_count).0
        then (prose_only f, record guard { guard_downgrade = guard.guard_downgrade + 1 })
        else (f, guard)

    -- `process`
    unfoldable pub guard_process :
        ConsolidatedFinding Float → Guard → ConsolidatedFinding Float × Guard
    unfolding judge load_file_lines
    guard_process f guard = elim f.code_replacement [
      | none ↦ (f, guard)
      | some replacement ↦
          if leb f.replacement_line_count 1
          then (f, guard)
          else judge f (load_file_lines f.file_path guard)
    ]
