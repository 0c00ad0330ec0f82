-- ===== src/Position/Parsed.antt =====
-- `ParsedDiff` and `_parse_diff` of comments/position_adapter.py. A set of line numbers is the list
-- of its members, the last one added first.
use revue.Prelude.{
  ℕ, ◌+◌, Bool, Option, none, some, List, [], ◌∷◌, ◌++◌, ◌==◌, ◌&&◌, if◌then◌else◌, any,
}
use revue.Prelude.Text.{Text, codes, starts_with, splitlines}
use revue.Position.Hunk.{Header, match_hunk}

-- (old_start, old_count, new_start, new_count)
pub record Hunk : Type 0 where
  pub old_start : ℕ
  pub old_count : ℕ
  pub new_start : ℕ
  pub new_count : ℕ

pub record ParsedDiff : Type 0 where
  pub plus_new : List ℕ
  pub context_new : List ℕ
  pub minus_old : List ℕ
  pub hunks : List Hunk

-- the result so far, with the loop's `cur_old` and `cur_new`
pub record Scan : Type 0 where
  pub parsed : ParsedDiff
  pub open parsed use *
  pub cur_old : ℕ
  pub cur_new : ℕ

-- int(m.group(i)) if m.group(i) is not None else 1
abbrev pub count_or_one : Option ℕ → ℕ
count_or_one none = 1
count_or_one (some n) = n

abbrev pub to_hunk : Header → Hunk
to_hunk h = record {
  old_start = h.old_start;
  old_count = count_or_one h.old_count;
  new_start = h.new_start;
  new_count = count_or_one h.new_count;
}

unfoldable pub enter_hunk : Scan → Header → Scan
enter_hunk s h = record {
  parsed = record s.parsed { hunks = s.hunks ++ to_hunk h ∷ [] };
  cur_old = h.old_start;
  cur_new = h.new_start;
}

-- line.startswith(("+++", "---", "diff --git", "index ", "\\ "))
unfoldable pub is_preamble : Text → Bool
is_preamble line =
    any (starts_with line)
      (codes "+++" ∷ codes "---" ∷ codes "diff --git" ∷ codes "index " ∷ codes "\\ " ∷ [])

unfoldable pub add_plus : Scan → Scan
add_plus s = record {
  parsed = record s.parsed { plus_new = s.cur_new ∷ s.plus_new };
  cur_old = s.cur_old;
  cur_new = s.cur_new + 1;
}

unfoldable pub add_minus : Scan → Scan
add_minus s = record {
  parsed = record s.parsed { minus_old = s.cur_old ∷ s.minus_old };
  cur_old = s.cur_old + 1;
  cur_new = s.cur_new;
}

unfoldable pub add_context : Scan → Scan
add_context s = record {
  parsed = record s.parsed { context_new = s.cur_new ∷ s.context_new };
  cur_old = s.cur_old + 1;
  cur_new = s.cur_new + 1;
}

unfoldable pub scan_body : Scan → Text → Scan
scan_body s line =
    if starts_with line (codes "+")
    then add_plus s
    else if starts_with line (codes "-")
    then add_minus s
    else add_context s

unfoldable pub scan_plain : Scan → Text → Scan
scan_plain s line =
    if is_preamble line then s else if s.cur_old == 0 && s.cur_new == 0 then s else scan_body s line

-- the body of the loop over `diff_snippet.splitlines()`
unfoldable pub scan_line : Scan → Text → Scan
scan_line s line = elim (match_hunk line) [ some h ↦ enter_hunk s h | none ↦ scan_plain s line ]

unfoldable pub scan_lines : Scan → List Text → Scan
scan_lines s [] = s
scan_lines s (line ∷ lines) = scan_lines (scan_line s line) lines

abbrev pub start : Scan
start = record {
  parsed = record { plus_new = []; context_new = []; minus_old = []; hunks = [] };
  cur_old = 0;
  cur_new = 0;
}

unfoldable pub parse_lines : List Text → ParsedDiff
parse_lines lines = (scan_lines start lines).parsed

unfoldable pub parse_diff : Text → ParsedDiff
parse_diff diff_snippet = parse_lines (splitlines diff_snippet)
