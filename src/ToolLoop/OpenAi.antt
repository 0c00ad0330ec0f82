-- ===== src/ToolLoop/OpenAi.antt =====
-- `openai_tool_loop`, from the messages that `_openai_messages` returns. Times are in milliseconds.
-- What is the same in every request (the model, the limits, the response format and `extra_body`) is
-- left out of it, and so are the metrics event and the log; of `extra_body` only whether it has a
-- "reasoning" entry is read.
use revue.Prelude.{
  ℕ, zero, suc, ◌+◌, ◌-◌, Bool, true, false, not, ◌&&◌, ◌||◌, Option, none, some, List, [], ◌∷◌,
  ◌++◌, ltb, if◌then◌else◌,
}
use revue.Prelude.Text.{Text, codes, same}
use revue.ToolLoop.Dispatch.{Called, finalize_prompt, dispatch_tool}

abbrev pub default_finalize_reserve : ℕ
default_finalize_reserve = 30000

pub record ToolCall : Type 0 where
  pub id : Text
  pub name : Text
  pub arguments : Text

-- the messages: those given, of any form, and those of the loop
pub data OpenAiMessage (M : Type 0) : Type 0 where
  given : M → OpenAiMessage M
  assistant_message : Option Text → List ToolCall → OpenAiMessage M
  tool_message : Text → Text → OpenAiMessage M
  user_message : Text → OpenAiMessage M

pub record OpenAiRequest (M : Type 0) : Type 0 where
  pub messages : List (OpenAiMessage M)
  pub has_tools : Bool
  pub tool_choice : Option Text
  pub timeout : Option ℕ

pub record OpenAiUsage : Type 0 where
  pub prompt_tokens : ℕ
  pub completion_tokens : ℕ
  pub total_tokens : ℕ

-- `reasoning_details` is none unless it is a list
pub record Choice (R : Type 0) : Type 0 where
  pub content : Option Text
  pub tool_calls : List ToolCall
  pub reasoning_details : Option (List R)

pub record OpenAiResponse (R : Type 0) : Type 0 where
  pub choices : List (Choice R)
  pub usage : Option OpenAiUsage

pub record OpenAiRun (M R : Type 0) : Type 0 where
  pub current_messages : List (OpenAiMessage M)
  pub last_text : Text
  pub last_usage : Option OpenAiUsage
  pub last_reasoning_details : Option (List R)
  pub hit_cap_in_tool_use : Bool
  pub last_remain : Option ℕ
  pub sent : List (OpenAiRequest M)

-- `bad_choice` is the ValueError before any request; an exception of the client, or a response
-- without a choice, leaves the loop.
pub data OpenAiOutcome (M R : Type 0) : Type 0 where
  bad_choice : OpenAiOutcome M R
  escaped_after : List (OpenAiRequest M) → OpenAiOutcome M R
  completed : OpenAiRun M R → OpenAiOutcome M R

-- what `json.loads` does: a value, or the message of its error
pub data Parsed (J : Type 0) : Type 0 where
  valid : J → Parsed J
  invalid : Text → Parsed J

unfoldable pub valid_choice : Text → Bool
valid_choice choice =
    same choice (codes "auto") || same choice (codes "required") || same choice (codes "none")

abbrev pub or_empty : Option Text → Text
or_empty none = []
or_empty (some t) = t

unfoldable pub larger : ℕ → ℕ → ℕ
larger a b = if ltb a b then b else a

unfoldable pub add_openai_usage : Option OpenAiUsage → Option OpenAiUsage → Option OpenAiUsage
add_openai_usage u none = u
add_openai_usage none (some v) = some v
add_openai_usage (some u) (some v) = some record {
  prompt_tokens = u.prompt_tokens + v.prompt_tokens;
  completion_tokens = u.completion_tokens + v.completion_tokens;
  total_tokens = u.total_tokens + v.total_tokens;
}

unfoldable pub is_zero : ℕ → Bool
is_zero zero = true
is_zero (suc n) = false

-- the messages that answer the calls
module _ {J : Type 0} (format_sorted : List Text → Text) (handlers : List (Text × (J → Called)))
    (loads : Text → Parsed J) (empty_object : J) where
  unfoldable pub tool_input : Text → Parsed J
  tool_input [] = valid empty_object
  tool_input (c ∷ raw_args) = loads (c ∷ raw_args)

  unfoldable pub answer_of : ToolCall → Text
  unfolding tool_input dispatch_tool
  answer_of tc = elim (tool_input tc.arguments) [
    | invalid message ↦
        codes "Error: tool arguments were not valid JSON ("
        ++ message
        ++ codes "). Please retry with a syntactically valid JSON object."
    | valid x ↦ (dispatch_tool format_sorted handlers tc.name x).content
  ]

-- the tool messages of a turn, with the answers
unfoldable pub tool_messages :
    {M : Type 0} → (ToolCall → Text) → List ToolCall → List (OpenAiMessage M)
tool_messages answer [] = []
tool_messages answer (tc ∷ tcs) = tool_message tc.id (answer tc) ∷ tool_messages answer tcs

module _ {M R : Type 0} (answer : ToolCall → Text)
    (create : OpenAiRequest M → List (OpenAiRequest M) → Option (OpenAiResponse R))
    (clock : List (OpenAiRequest M) → ℕ) (deadline : Option ℕ) (finalize_reserve : ℕ)
    (tool_choice_first_turn : Text) (reasoning_on : Bool) where
  -- now > deadline - finalize_reserve
  unfoldable pub is_overdue : OpenAiRun M R → Bool
  is_overdue s = elim deadline [ none ↦ false | some d ↦ ltb d (clock s.sent + finalize_reserve) ]

  -- `_last_remain` after the check
  unfoldable pub remain_of : OpenAiRun M R → Option ℕ
  remain_of s = elim deadline [ none ↦ s.last_remain | some d ↦ some (d - clock s.sent) ]

  unfoldable pub tool_choice_of : Bool → Option Text
  tool_choice_of is_first =
      if is_first && not (same tool_choice_first_turn (codes "auto")) && not reasoning_on
      then some tool_choice_first_turn
      else none

  unfoldable pub turn_request : Bool → OpenAiRun M R → OpenAiRequest M
  unfolding tool_choice_of
  turn_request is_first s = record {
    messages = s.current_messages;
    has_tools = true;
    tool_choice = tool_choice_of is_first;
    timeout = none;
  }

  -- the variables after a response without calls
  unfoldable pub after_text :
      OpenAiRun M R → OpenAiRequest M → OpenAiResponse R → Choice R → OpenAiRun M R
  unfolding remain_of
  after_text s request resp choice = record {
    current_messages = s.current_messages;
    last_text = or_empty choice.content;
    last_usage = resp.usage;
    last_reasoning_details = choice.reasoning_details;
    hit_cap_in_tool_use = s.hit_cap_in_tool_use;
    last_remain = remain_of s;
    sent = request ∷ s.sent;
  }

  -- the variables after the calls of a response; is_last in the last iteration
  unfoldable pub after_calls :
      Bool → OpenAiRun M R → OpenAiRequest M → OpenAiResponse R → Choice R → OpenAiRun M R
  unfolding remain_of tool_messages
  after_calls is_last s request resp choice = record {
    current_messages =
        s.current_messages
        ++ assistant_message choice.content choice.tool_calls
          ∷ tool_messages answer choice.tool_calls;
    last_text = s.last_text;
    last_usage = resp.usage;
    last_reasoning_details = s.last_reasoning_details;
    hit_cap_in_tool_use = is_last || s.hit_cap_in_tool_use;
    last_remain = remain_of s;
    sent = request ∷ s.sent;
  }

  -- the loop, with the number of iterations that are left
  unfoldable pub openai_iterate : ℕ → Bool → OpenAiRun M R → OpenAiOutcome M R
  unfolding is_overdue turn_request after_text after_calls is_zero
  openai_iterate zero is_first s = completed s
  openai_iterate (suc n) is_first s = elim (is_overdue s) [
    | true ↦ completed (record s { hit_cap_in_tool_use = true })
    | false ↦ elim (create (turn_request is_first s) s.sent) [
      | none ↦ escaped_after (turn_request is_first s ∷ s.sent)
      | some resp ↦ elim resp.choices [
        | [] ↦ escaped_after (turn_request is_first s ∷ s.sent)
        | choice ∷ choices ↦ elim choice.tool_calls [
          | [] ↦ completed (after_text s (turn_request is_first s) resp choice)
          | tc ∷ tcs ↦
              openai_iterate n false
                (after_calls (is_zero n) s (turn_request is_first s) resp choice)
        ]
      ]
    ]
  ]

  unfoldable pub timeout_of : OpenAiRun M R → Option ℕ
  unfolding larger
  timeout_of s = elim deadline [
    | none ↦ none
    | some d ↦ some (larger 1000 (elim s.last_remain [ none ↦ d - clock s.sent | some r ↦ r ]))
  ]

  unfoldable pub finalize_request : OpenAiRun M R → OpenAiRequest M
  unfolding timeout_of
  finalize_request s = record {
    messages = s.current_messages ++ user_message finalize_prompt ∷ [];
    has_tools = false;
    tool_choice = none;
    timeout = timeout_of s;
  }

  unfoldable pub after_openai_finalize : OpenAiRun M R → OpenAiResponse R → Choice R → OpenAiRun M R
  unfolding finalize_request add_openai_usage
  after_openai_finalize s resp choice = record s {
    current_messages = s.current_messages ++ user_message finalize_prompt ∷ [];
    last_text = or_empty choice.content;
    last_usage = add_openai_usage s.last_usage resp.usage;
    last_reasoning_details = choice.reasoning_details;
    sent = finalize_request s ∷ s.sent;
  }

  unfoldable pub openai_finalize : OpenAiOutcome M R → OpenAiOutcome M R
  unfolding after_openai_finalize finalize_request
  openai_finalize bad_choice = bad_choice
  openai_finalize (escaped_after sent) = escaped_after sent
  openai_finalize (completed s) = elim s.hit_cap_in_tool_use [
    | false ↦ completed s
    | true ↦ elim (create (finalize_request s) s.sent) [
      | none ↦ escaped_after (finalize_request s ∷ s.sent)
      | some resp ↦ elim resp.choices [
        | [] ↦ escaped_after (finalize_request s ∷ s.sent)
        | choice ∷ choices ↦ completed (after_openai_finalize s resp choice)
      ]
    ]
  ]

  unfoldable pub openai_start : List (OpenAiMessage M) → OpenAiRun M R
  openai_start messages = record {
    current_messages = messages;
    last_text = [];
    last_usage = none;
    last_reasoning_details = none;
    hit_cap_in_tool_use = false;
    last_remain = none;
    sent = [];
  }

  unfoldable pub openai_tool_loop : List (OpenAiMessage M) → ℕ → OpenAiOutcome M R
  unfolding valid_choice openai_iterate openai_finalize openai_start
  openai_tool_loop messages max_iterations =
      if valid_choice tool_choice_first_turn
      then openai_finalize (openai_iterate max_iterations true (openai_start messages))
      else bad_choice
