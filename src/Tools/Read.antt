-- ===== src/Tools/Read.antt =====
-- `ReadFileTool.execute` and `ReadLinesTool.execute`: core/tools/read_file.py and read_lines.py.
use revue.Prelude.{
  ℕ, zero, suc, ◌+◌, ◌-◌, false, ◌==◌, ltb, leb, List, [], ◌∷◌, ◌++◌, length, count, if◌then◌else◌,
}
use revue.Prelude.Int.{ℤ, pos, negsuc}
use revue.Prelude.Text.{Text, codes, splitlines}
use revue.TerminalState.Classify.{ends_with}
use revue.Consolidator.Fallback.{join_lines}
use revue.ToolLoop.Dispatch.{ToolResult, Called, returned, raised, utf8_length}
use revue.Tools.Sandbox.{
  Contents, text, not_utf8, os_error, FileSystem, error_result, Checked, refused, granted, stuck,
  check_path,
}

-- content.count("\n") + (0 if content.endswith("\n") else 1)
unfoldable pub line_count : Text → ℕ
unfolding ends_with
line_count content = count (λ c. c == 10) content + (if ends_with content (10 ∷ []) then 0 else 1)

-- a file that cannot be read
unfoldable pub unreadable : Text → ToolResult
unreadable path = error_result (codes "Error: file '" ++ path ++ codes "' is not valid UTF-8 text.")

abbrev too_large : Text
too_large =
    codes "The file is too large for full-context analysis. Omit code_replacement and write a "
    ++ codes "prose suggestion advising the developer to apply the fix in their development "
    ++ codes "environment instead of via PR suggestion."

-- the result for a file's text
unfoldable pub capped : (ℕ → Text) → ℕ → ℕ → Text → Text → ToolResult
unfolding utf8_length line_count
capped str max_bytes max_lines path content =
    if ltb max_bytes (utf8_length content)
    then error_result (
        codes "Error: file '"
        ++ path
        ++ codes "' is "
        ++ str (utf8_length content)
        ++ codes " bytes (> "
        ++ str max_bytes
        ++ codes " byte cap). "
        ++ too_large)
    else if ltb max_lines (line_count content)
    then error_result (
        codes "Error: file '"
        ++ path
        ++ codes "' has "
        ++ str (line_count content)
        ++ codes " lines (> "
        ++ str max_lines
        ++ codes " line cap). "
        ++ too_large)
    else record { content = content; is_error = false }

-- the result of reading a path that is granted
unfoldable pub with_text : Text → (Text → ToolResult) → Contents → Called
unfolding unreadable
with_text path use_text (text content) = returned (use_text content)
with_text path use_text not_utf8 = returned (unreadable path)
with_text path use_text (os_error kind message) = raised kind message

unfoldable pub read_checked : FileSystem → Text → (Text → ToolResult) → Checked → Called
unfolding with_text
read_checked fs path use_text (refused result) = returned result
read_checked fs path use_text (stuck kind message) = raised kind message
read_checked fs path use_text (granted full_path) = with_text path use_text (fs.read_text full_path)

unfoldable pub read_file : FileSystem → List Text → (ℕ → Text) → ℕ → ℕ → Text → Called
unfolding read_checked check_path capped
read_file fs allowed_paths str max_bytes max_lines path =
    read_checked fs path (capped str max_bytes max_lines path) (
      check_path fs allowed_paths
        (codes "read_file can only access files touched by the PR. If you need wider context, "
          ++ codes "omit code_replacement and explain the limitation in your prose suggestion.")
        path)

-- max(0, min(context, self._max_context))
unfoldable pub effective_context : ℕ → ℤ → ℕ
effective_context max_context (negsuc n) = 0
effective_context max_context (pos n) = if leb n max_context then n else max_context

-- max(0, around_line - 1 - effective_context)
unfoldable pub start_index : ℤ → ℕ → ℕ
start_index (pos n) context = n - suc context
start_index (negsuc n) context = 0

-- min(total, around_line + effective_context)
unfoldable pub end_index : ℕ → ℤ → ℕ → ℤ
end_index total (pos n) context = pos (if leb total (n + context) then total else n + context)
end_index total (negsuc n) context =
    if leb context n
    then negsuc (n - context)
    else pos (if leb total (context - suc n) then total else context - suc n)

unfoldable pub take {ℓ} : {A : Type ℓ} → ℕ → List A → List A
take zero xs = []
take (suc n) [] = []
take (suc n) (x ∷ xs) = x ∷ take n xs

unfoldable pub drop {ℓ} : {A : Type ℓ} → ℕ → List A → List A
drop zero xs = xs
drop (suc n) [] = []
drop (suc n) (x ∷ xs) = drop n xs

-- lines[start:stop]
unfoldable pub slice : ℕ → ℤ → List Text → List Text
unfolding take drop
slice start (pos stop) lines = drop start (take stop lines)
slice start (negsuc n) lines = drop start (take (length lines - suc n) lines)

unfoldable pub window : ℕ → ℤ → ℤ → List Text → List Text
unfolding effective_context start_index end_index slice
window max_context around_line context lines =
    let c = effective_context max_context context in
    slice (start_index around_line c) (end_index (length lines) around_line c) lines

unfoldable pub read_lines : FileSystem → List Text → ℕ → Text → ℤ → ℤ → Called
unfolding read_checked check_path window splitlines join_lines
read_lines fs allowed_paths max_context path around_line context =
    read_checked fs path
      (λ content. record {
        content = join_lines (window max_context around_line context (splitlines content));
        is_error = false;
      })
      (check_path fs allowed_paths (codes "read_lines can only access files touched by the PR.")
        path)
