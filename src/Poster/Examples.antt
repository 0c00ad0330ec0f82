-- ===== src/Poster/Examples.antt =====
-- One finding on a changed line, which one run posts and the next one does not.
use revue.Prelude.{◌≡◌, refl, true, false, ◌++◌, ◌+◌, ◌≤◌, none, some, [], ◌∷◌, any, count}
use revue.Prelude.Int.{pos, pos_part}
use revue.Prelude.Text.{Text, codes, is_blank, starts_with, splitlines}
use revue.TerminalState.Json.{
  Json, string, array, object, no_elements, element, no_members, member, integer,
}
use revue.Position.Hunk.{match_hunk}
use revue.Position.Parsed.{
  parse_diff, parse_lines, scan_lines, scan_line, scan_plain, scan_body, enter_hunk, is_preamble,
  add_context, add_minus, add_plus,
}
use revue.Position.Classify.{calculate, classify}
use revue.Position.Adapter.{github, resolve, to_api_params}
use revue.Tracker.States.{HunkState}
use revue.Poster.Fingerprint.{fingerprint, hunk_starts}
use revue.Poster.Fields.{value, type_or_value_error, Converted}
use revue.Poster.World.{ReviewResult, World}
use revue.Poster.Review.{post_review}
use revue.Poster.Opened.{is_open}
use revue.Poster.Attempts.{made, asks_for}
use revue.Poster.Repost.{post_review-posts_once}
use revue.Poster.Calls.{post_review-calls, is_post, is_evict, is_made}
use revue.Poster.Anchors.{fingerprint-same_hunk}

abbrev a_diff : Text
a_diff = codes "@@ -1,2 +1,3 @@" ++ 10 ∷ codes " a" ++ 10 ∷ codes "+b" ++ 10 ∷ codes " c"

abbrev a_finding : Json
a_finding = object (
    member (codes "issue") (string (codes "x"))
      (member (codes "line") (integer (pos 2)) no_members))

abbrev to_int : Json → Converted
to_int (integer n) = value n
to_int _ = type_or_value_error

abbrev a_world : World
a_world = record {
  loads = λ s.
      some (object (member (codes "findings") (array (element a_finding no_elements)) no_members));
  lower = λ s. s;
  int = to_int;
  severity_in = λ s. none;
  diff_by_file = (codes "f", a_diff) ∷ [];
  position_adapter = some github;
  body = λ path line items fp. some (codes "x", 1);
  sinks = λ path line f. true;
  post_answer = λ log params body. some (codes "7");
  limit_reached = λ log. false;
  evict_answer = λ log. 0;
  status = λ fp entry diff. some HunkState.untouched;
  now = 5;
  hash = λ s. s;
  str = λ n. pos_part n ∷ [];
}

abbrev a_result : ReviewResult
a_result = record { file_path = codes "f"; response = codes "{}"; error = [] }

abbrev a_fingerprint : Text
a_fingerprint = codes "f:" ++ 1 ∷ []

a_run : any (made a_fingerprint) (post_review a_world (a_result ∷ []) [] []).log ≡ true
unfolding post_review resolve calculate classify is_blank parse_diff parse_lines scan_lines
    scan_line scan_plain scan_body enter_hunk is_preamble match_hunk starts_with splitlines
    add_context add_minus add_plus to_api_params
a_run = refl

post_review-posts_once_example :
    (is_open a_fingerprint (post_review a_world (a_result ∷ []) [] []).files ≡ true)
    × (any
          (asks_for a_fingerprint)
          (post_review a_world
            (a_result ∷ [])
            []
            (post_review a_world (a_result ∷ []) [] []).files).log
        ≡ false)
post_review-posts_once_example =
    post_review-posts_once a_world a_world (a_result ∷ []) (a_result ∷ []) [] [] [] a_fingerprint
      a_run

post_review-calls_example :
    (count is_made (post_review a_world (a_result ∷ []) [] []).log
      ≡ (post_review a_world (a_result ∷ []) [] []).posted)
    × (count is_post (post_review a_world (a_result ∷ []) [] []).log
        ≤ (post_review a_world (a_result ∷ []) [] []).posted
          + (post_review a_world (a_result ∷ []) [] []).failed
          + 1)
    × (count is_evict (post_review a_world (a_result ∷ []) [] []).log ≤ 1)
post_review-calls_example = post_review-calls a_world (a_result ∷ []) [] []

fingerprint-same_hunk_example :
    fingerprint (λ s. s) (λ n. pos_part n ∷ []) (codes "f") (pos 2) a_diff
    ≡ fingerprint (λ s. s) (λ n. pos_part n ∷ []) (codes "f") (pos 3) a_diff
unfolding hunk_starts match_hunk starts_with
fingerprint-same_hunk_example =
    fingerprint-same_hunk (λ s. s) (λ n. pos_part n ∷ []) (codes "f") (pos 2) (pos 3) a_diff refl
      (refl, tt)
