-- ===== src/ToolLoop/Examples.antt =====
-- The theorems about the tool loops at concrete clients.
use revue.Prelude.{◌≡◌, refl, ℕ, ◌+◌, ◌&&◌, false, Option, none, some, List, [], ◌∷◌, arith}
use revue.Prelude.Text.{Text, codes, same}
use revue.ToolLoop.Dispatch.{Called, returned, raised}
use revue.ToolLoop.Messages.{text_block, tool_use_block, Message, plain}
use revue.ToolLoop.Anthropic.{Request, Response, Run, finished, anthropic_tool_loop, wants_tools}
use revue.ToolLoop.Requests.{
  AreBounded, requests_of, latest_has_tools, anthropic_tool_loop-AreBounded,
  anthropic_tool_loop-finished,
}
use revue.ToolLoop.Sent.{AreSendable, anthropic_tool_loop-AreSendable}
use revue.ToolLoop.OpenAi.{ToolCall, given, OpenAiRequest, OpenAiResponse, openai_tool_loop}
use revue.ToolLoop.Deadline.{AreTimed, openai_requests, openai_tool_loop-AreTimed}
use revue.ToolLoop.Answers.{AreAnswered, openai_tool_loop-AreAnswered}

abbrev format_sorted : List Text → Text
format_sorted names = codes "[]"

abbrev handlers : List (Text × (Text → Called))
handlers =
    (codes "read_file", λ path. returned record { content = path; is_error = false })
    ∷ (codes "find_code", λ x. raised (codes "KeyError") (codes "pattern"))
    ∷ []

-- a client that always asks for two tools
abbrev asking : Request Text → List (Request Text) → Response Text
asking r rs = record {
  content =
      text_block (codes "look")
      ∷ tool_use_block (codes "u1") (codes "read_file") (codes "a.py")
      ∷ tool_use_block (codes "u2") (codes "find_code") (codes "f")
      ∷ [];
  stop_reason = some (codes "tool_use");
  usage = none;
}

abbrev messages : List (Message Text)
messages = record { role = codes "user"; content = plain (codes "review") } ∷ []

anthropic_tool_loop-AreBounded_example : AreBounded 3 (
    requests_of
      (anthropic_tool_loop format_sorted handlers (λ r rs. some (asking r rs)) 80000 messages 3))
anthropic_tool_loop-AreBounded_example =
    anthropic_tool_loop-AreBounded format_sorted handlers (λ r rs. some (asking r rs)) 80000
      messages 3

anthropic_tool_loop-finished_example :
    (s : Run Text) × (anthropic_tool_loop format_sorted handlers
        (λ r rs. some (asking r rs))
        80000
        messages
        3
      ≡ finished s)
    × ((latest_has_tools s.sent && wants_tools s.last_stop_reason) ≡ false)
anthropic_tool_loop-finished_example =
    anthropic_tool_loop-finished format_sorted handlers (λ r rs. some (asking r rs)) 80000 messages
      3 (λ r rs. (asking r rs, refl))

anthropic_tool_loop-AreSendable_example : AreSendable (
    requests_of
      (anthropic_tool_loop format_sorted handlers (λ r rs. some (asking r rs)) 80000 messages 3))
unfolding same
anthropic_tool_loop-AreSendable_example =
    anthropic_tool_loop-AreSendable format_sorted handlers (λ r rs. some (asking r rs)) 80000
      messages 3 ((refl, refl, (refl, refl)), omega arith)

abbrev call : ToolCall
call = record { id = codes "c1"; name = codes "read_file"; arguments = codes "{}" }

abbrev calling : OpenAiRequest Text → List (OpenAiRequest Text) → Option (OpenAiResponse Text)
calling r rs = some record {
  choices = record { content = none; tool_calls = call ∷ []; reasoning_details = none } ∷ [];
  usage = none;
}

-- each request takes 80 seconds
abbrev slow_clock : List (OpenAiRequest Text) → ℕ
slow_clock [] = 0
slow_clock (r ∷ rs) = 80000 + slow_clock rs

abbrev answer : ToolCall → Text
answer tc = codes "ok"

openai_tool_loop-AreTimed_example : AreTimed slow_clock 100000 30000 5 (
    openai_requests (
      openai_tool_loop {M = Text} {R = Text} answer calling slow_clock
        (some 100000)
        30000
        (codes "auto")
        false
        (given (codes "review") ∷ [])
        5))
openai_tool_loop-AreTimed_example =
    openai_tool_loop-AreTimed answer calling slow_clock 100000 30000 (codes "auto") false
      (given (codes "review") ∷ []) 5

openai_tool_loop-AreAnswered_example : AreAnswered (
    openai_requests (
      openai_tool_loop {M = Text} {R = Text} answer calling slow_clock
        (some 100000)
        30000
        (codes "auto")
        false
        (given (codes "review") ∷ [])
        5))
openai_tool_loop-AreAnswered_example =
    openai_tool_loop-AreAnswered answer calling slow_clock (some 100000) 30000 (codes "auto") false
      (given (codes "review") ∷ []) 5 (refl, refl)
