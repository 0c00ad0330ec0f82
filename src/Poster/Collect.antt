-- ===== src/Poster/Collect.antt =====
-- Phase 1 of the posting, comments/poster.py: the findings, grouped by their file and line.
use revue.Prelude.{Bool, not, ◌&&◌, ◌||◌, Option, none, some, List, [], ◌∷◌, ◌++◌, if◌then◌else◌}
use revue.Prelude.Int.{ℤ, ltb_ℤ}
use revue.Prelude.Text.{Text, same}
use revue.Prelude.Dict.{get}
use revue.TerminalState.Json.{Json}
use revue.Poster.Fingerprint.{fingerprint}
use revue.Poster.Fields.{Finding, parse_findings, extract_finding_fields, items_of}
use revue.Poster.World.{ReviewResult, World, Group}

unfoldable pub same_line : ℤ → ℤ → Bool
same_line a b = not (ltb_ℤ a b || ltb_ℤ b a)

-- groups.setdefault((file_path, line), []).append(finding)
unfoldable pub add_to_group : Text → ℤ → Finding → List Group → List Group
unfolding same_line
add_to_group file_path line f [] = ((file_path, line), f ∷ []) ∷ []
add_to_group file_path line f (((path, number), items) ∷ groups) =
    let rest = add_to_group file_path line f groups in
    if same path file_path && same_line number line
    then ((path, number), items ++ f ∷ []) ∷ groups
    else ((path, number), items) ∷ rest

unfoldable pub diff_of : World → Text → Text
unfolding get
diff_of w file_path = elim (get file_path w.diff_by_file) [ none ↦ [] | some diff ↦ diff ]

-- Phase 1: the groups so far, and `seen_hunk_fps`
abbrev pub Collected : Type 0
Collected = List Group × List Text

module _ (w : World) where
  unfoldable pub add_finding : Text → Json → Collected → Collected
  unfolding diff_of add_to_group extract_finding_fields fingerprint same
  add_finding file_path f (groups, seen) = elim (extract_finding_fields w.lower w.int f) [
    | none ↦ (groups, seen)
    | some x ↦ if same x.issue [] && same x.details [] then (groups, seen) else (
      add_to_group file_path x.line x groups,
      fingerprint w.hash w.str file_path x.line (diff_of w file_path) ∷ seen,
    )
  ]

  unfoldable pub add_findings : Text → List Json → Collected → Collected
  unfolding add_finding
  add_findings file_path [] c = c
  add_findings file_path (f ∷ fs) c = add_findings file_path fs (add_finding file_path f c)

  -- a result's findings; `none` is the TypeError of a value that is not iterable
  unfoldable pub add_result : ReviewResult → Collected → Option Collected
  unfolding add_findings parse_findings items_of
  add_result rr c =
      if not (same rr.error []) || same rr.response []
      then some c
      else elim (parse_findings w.loads rr.response) [
        | none ↦ some c
        | some findings ↦ elim (items_of findings) [
          | none ↦ none
          | some fs ↦ some (add_findings rr.file_path fs c)
        ]
      ]

  unfoldable pub collect : List ReviewResult → Collected → Option Collected
  unfolding add_result
  collect [] c = some c
  collect (rr ∷ rrs) c = elim (add_result rr c) [ none ↦ none | some c' ↦ collect rrs c' ]
