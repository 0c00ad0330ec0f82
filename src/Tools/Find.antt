-- ===== src/Tools/Find.antt =====
-- `FindCodeTool.execute`: core/tools/find_code.py.
use revue.Prelude.{
  ℕ, suc, ◌+◌, ◌-◌, Bool, false, ◌&&◌, ◌==◌, ltb, leb, Option, none, some, List, [], ◌∷◌, ◌++◌, any,
  if◌then◌else◌,
}
use revue.Prelude.Int.{ℤ, pos, negsuc}
use revue.Prelude.Text.{Text, codes, occurs, splitlines}
use revue.Consolidator.Fallback.{join_lines}
use revue.ToolLoop.Dispatch.{Called, returned, raised, byte_count, utf8_length}
use revue.Tools.Sandbox.{
  text, not_utf8, os_error, FileSystem, Checked, refused, granted, stuck, Answer, gives, raises,
  check_path,
}

-- A backend's answer; `failed` is an exception that the tool lets through.
pub data Found : Type 0 where
  no_match : Found
  output : Text → Found
  failed : Text → Text → Found

-- the indices of the lines that have the query, from a line's index on
unfoldable pub matched_from : Text → ℕ → List Text → List ℕ
unfolding occurs
matched_from query i [] = []
matched_from query i (line ∷ lines) =
    let rest = matched_from query (suc i) lines in if occurs query line then i ∷ rest else rest

-- i in range(max(0, m - context_lines), m + context_lines + 1)
unfoldable pub near : ℤ → ℕ → ℕ → Bool
near (pos c) i m = leb m (i + c) && leb i (m + c)
near (negsuc c) i m = false

-- the entries of the lines to show, after the index of the last one that was shown
unfoldable pub show_from : (ℕ → Text) → ℤ → List ℕ → Option ℕ → ℕ → List Text → List Text
unfolding near
show_from str c matched prev i [] = []
show_from str c matched prev i (line ∷ lines) =
    let is_shown = any (near c i) matched in
    let rest = show_from str c matched (if is_shown then some i else prev) (suc i) lines in
    let entry = str (suc i) ++ b':' ∷ line in
    if is_shown
    then elim prev [
      | none ↦ entry ∷ rest
      | some p ↦ if ltb (suc p) i then codes "--" ∷ entry ∷ rest else entry ∷ rest
    ]
    else rest

-- `_literal_fallback` on the lines
unfoldable pub search_lines : (ℕ → Text) → Text → ℤ → List Text → Found
unfolding matched_from show_from
search_lines str query c lines = elim (matched_from query 0 lines) [
  | [] ↦ no_match
  | m ∷ ms ↦ output (join_lines (show_from str c (m ∷ ms) none 0 lines) ++ 10 ∷ [])
]

unfoldable pub literal_fallback : FileSystem → (ℕ → Text) → Text → Text → ℤ → Found
unfolding search_lines splitlines
literal_fallback fs str full_path query c = elim (fs.read_text full_path) [
  | text content ↦ search_lines str query c (splitlines content)
  | not_utf8 ↦ no_match
  | os_error kind message ↦ failed kind message
]

-- `_run_ripgrep`, by the exit code; an exception but FileNotFoundError is let through
unfoldable pub ripgrep_found : Answer (ℕ × Text) → Found
ripgrep_found (gives (code, stdout)) = if code == 0 then output stdout else no_match
ripgrep_found (raises kind message) = failed kind message

-- ripgrep, or the fallback where it is not installed
unfoldable pub search_file : FileSystem → (ℕ → Text) → Text → Text → ℤ → Found
unfolding ripgrep_found literal_fallback
search_file fs str full_path query c = elim fs.ripgrep [
  | none ↦ literal_fallback fs str full_path query c
  | some run ↦ ripgrep_found (run full_path query c)
]

-- encoded[:cap].decode("utf-8", errors="ignore")
unfoldable pub take_bytes : ℕ → Text → Text
unfolding byte_count
take_bytes cap [] = []
take_bytes cap (c ∷ s) =
    let rest = take_bytes (cap - byte_count c) s in if leb (byte_count c) cap then c ∷ rest else []

abbrev pub truncation_marker : Text
truncation_marker = 10 ∷ codes "... [truncated — output exceeded cap; refine query]" ++ 10 ∷ []

unfoldable pub cap_output : ℕ → Text → Text
unfolding utf8_length take_bytes
cap_output cap s = if leb (utf8_length s) cap then s else take_bytes cap s ++ truncation_marker

unfoldable pub result_of : ℕ → Text → Text → Found → Called
unfolding cap_output
result_of cap query path no_match = returned (record {
  content = codes "No matches for '" ++ query ++ codes "' in " ++ path ++ codes ".";
  is_error = false;
})
result_of cap query path (output s) =
    returned (record { content = cap_output cap s; is_error = false })
result_of cap query path (failed kind message) = raised kind message

unfoldable pub find_checked : FileSystem → (ℕ → Text) → ℕ → Text → Text → ℤ → Checked → Called
unfolding search_file result_of
find_checked fs str cap path query c (refused result) = returned result
find_checked fs str cap path query c (stuck kind message) = raised kind message
find_checked fs str cap path query c (granted full_path) =
    result_of cap query path (search_file fs str full_path query c)

unfoldable pub find_code : FileSystem → List Text → (ℕ → Text) → ℕ → Text → Text → ℤ → Called
unfolding find_checked check_path
find_code fs allowed_paths str cap path query context_lines =
    find_checked fs str cap path query context_lines (
      check_path fs allowed_paths (codes "find_code can only access files touched by the PR.") path)
