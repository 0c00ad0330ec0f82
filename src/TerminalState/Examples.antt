-- ===== src/TerminalState/Examples.antt =====
-- The theorems about the classifier at concrete responses.
use revue.Prelude.{◌||◌, ◌≡◌, refl, true, false, not, ◌&&◌, Option, none, some, []}
use revue.Prelude.Int.{pos}
use revue.Prelude.Text.{Text, codes, same, starts_with}
use revue.TerminalState.Json.{
  Json, string, integer, array, no_elements, object, Members, no_members, member,
}
use revue.TerminalState.Classify.{
  classify_terminal_state, is_refusal, try_parse_json, strip_markdown_fence,
}
use revue.TerminalState.Closed.{
  reports, code_of, closed_or_raises, raises, response, status_of, unhashable_status,
  classify_terminal_state-closed,
}
use revue.TerminalState.Earned.{has_status, has_clean_form, classify_terminal_state-clean}

abbrev verdict : Members
verdict = member (codes "status") (string (codes "clean")) (
    member (codes "summary") (string (codes "ok"))
      (member (codes "confidence") (integer (pos 1)) no_members))

abbrev loads_clean : Text → Option Json
loads_clean text = some (object verdict)

abbrev loads_list : Text → Option Json
loads_list text = some (object (member (codes "status") (array no_elements) no_members))

abbrev blank_text : Json → Text
blank_text x = []

classify_terminal_state-closed_example :
    (closed_or_raises
        (classify_terminal_state loads_list blank_text blank_text (codes "{}") none 2 false)
      ≡ true)
    × ((is_refusal none
          || reports
              (code_of (response loads_list blank_text blank_text (codes "{}") none 2 false))
              (classify_terminal_state loads_list blank_text blank_text (codes "{}") none 2 false))
        ≡ true)
    × (raises (classify_terminal_state loads_list blank_text blank_text (codes "{}") none 2 false)
        ≡ (not (is_refusal none)
            && unhashable_status (
                status_of loads_list blank_text blank_text
                  (codes "{}")
                  none
                  2
                  false
                  (response loads_list blank_text blank_text (codes "{}") none 2 false))))
classify_terminal_state-closed_example =
    classify_terminal_state-closed loads_list blank_text blank_text (codes "{}") none 2 false

classify_terminal_state-clean_example :
    (try_parse_json loads_clean blank_text blank_text (strip_markdown_fence (codes "{}"))
      ≡ some verdict)
    × (is_refusal none ≡ false)
    × (has_status (codes "clean") verdict ≡ true)
    × (has_clean_form verdict ≡ true)
unfolding classify_terminal_state starts_with same
classify_terminal_state-clean_example =
    classify_terminal_state-clean loads_clean blank_text blank_text (codes "{}") none 2 false
      verdict refl
