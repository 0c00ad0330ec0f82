-- ===== src/Position/Examples.antt =====
-- Tests of the diff code, and the theorems about it at concrete diffs.
use revue.Prelude.{◌≡◌, ◌||◌, ◌+◌, ℕ, get_elem?, contains, refl, true, some, List, [], ◌∷◌, arith}
use revue.Prelude.Text.{Text, codes, starts_with, is_line_end, splitlines, is_blank}
use revue.Position.Hunk.{Header, match_hunk}
use revue.Position.Parsed.{
  parse_diff, parse_lines, scan_lines, scan_line, scan_plain, scan_body, enter_hunk, is_preamble,
  add_context, add_minus, add_plus,
}
use revue.Position.Resolver.{line_in_diff}
use revue.Position.Classify.{anchored, calculate, classify}
use revue.Position.Adapter.{github, err, inverted_range, resolve, to_api_params}
use revue.Position.Image.{new_side, BodyLine, context, added, removed}
use revue.Position.Anchoring.{OneHunk, text_of, calculate-status, calculate-anchored}
use revue.Position.Agreement.{line_in_diff-parse_diff}

abbrev header : Text
header = codes "@@ -7,3 +7,4 @@ def f():"

abbrev parsed_header : Header
parsed_header = record { old_start = 7; old_count = some 3; new_start = 7; new_count = some 4 }

abbrev body : List BodyLine
body =
    context (codes "a")
    ∷ removed (codes "b")
    ∷ added (codes "c")
    ∷ added (codes "d")
    ∷ context (codes "e")
    ∷ []

header_test : match_hunk header ≡ some parsed_header
unfolding match_hunk
header_test = refl

body-OneHunk : OneHunk header parsed_header body
unfolding match_hunk starts_with is_line_end
body-OneHunk = record {
  matched = refl;
  numbered = omega arith;
  plain = (tt, (refl, (refl, (refl, (tt, tt)))));
  lines = (refl, (refl, (refl, (refl, (refl, (refl, tt))))));
}

calculate-status_example : (calculate (text_of header body) 9 (codes "f.py") 1).status ≡ anchored
calculate-status_example =
    calculate-status header parsed_header body body-OneHunk 2 (codes "f.py") 1 refl

anchored_test : (calculate (text_of header body) 8 (codes "f.py") 1).status ≡ anchored
anchored_test = calculate-status header parsed_header body body-OneHunk 1 (codes "f.py") 1 refl

calculate-anchored_example : (k : ℕ) × (9 ≡ 7 + k) × (get_elem? (new_side body) k ≡ some true)
calculate-anchored_example =
    calculate-anchored header parsed_header body body-OneHunk 9 (codes "f.py") 1 (λ p. ground arith)
      calculate-status_example

abbrev new_header : Text
new_header = codes "@@ -0,0 +1,4 @@"

abbrev new_parsed : Header
new_parsed = record { old_start = 0; old_count = some 0; new_start = 1; new_count = some 4 }

abbrev cut_body : List BodyLine
cut_body = added (codes "x") ∷ added (codes "y") ∷ []

cut_body-OneHunk : OneHunk new_header new_parsed cut_body
unfolding match_hunk starts_with is_line_end
cut_body-OneHunk = record {
  matched = refl;
  numbered = omega arith;
  plain = (refl, (refl, tt));
  lines = (refl, (refl, (refl, tt)));
}

line_in_diff-parse_diff_example : line_in_diff 8 (text_of header body) ≡ (
    contains (parse_diff (text_of header body)).plus_new 8
    || contains (parse_diff (text_of header body)).context_new 8)
unfolding splitlines starts_with
line_in_diff-parse_diff_example =
    line_in_diff-parse_diff 8 (text_of header body)
      (refl, (refl, (refl, (refl, (refl, (refl, tt))))))

resolve_test : (resolve 8 (text_of header body) (codes "f.py") 2).status ≡ anchored
unfolding resolve calculate classify is_blank parse_diff parse_lines scan_lines scan_line scan_plain
    scan_body enter_hunk is_preamble match_hunk starts_with splitlines add_context add_minus
    add_plus
resolve_test = refl

abbrev no_lines : ℕ
no_lines = 0

inverted_test :
    to_api_params github (resolve 8 (text_of header body) (codes "f.py") no_lines)
    ≡ err inverted_range
unfolding to_api_params resolve calculate classify is_blank parse_diff parse_lines scan_lines
    scan_line scan_plain scan_body enter_hunk is_preamble match_hunk starts_with splitlines
    add_context add_minus add_plus
inverted_test = refl

abbrev before_skip : List BodyLine
before_skip = context (codes "x") ∷ []
