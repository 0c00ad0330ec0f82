-- ===== src/ToolLoop/Anthropic.antt =====
-- `anthropic_tool_loop`. What is the same in every request (the model, the limits, `system` and
-- `output_config`) is left out of it, and so are the metrics event and the log.
use revue.Prelude.{
  ℕ, zero, suc, ◌+◌, Bool, true, false, not, ◌&&◌, ◌||◌, Option, none, some, List, [], ◌∷◌, ◌++◌,
  leb, if◌then◌else◌,
}
use revue.Prelude.Text.{Text, codes, same}
use revue.ToolLoop.Dispatch.{Called, dispatch_tool}
use revue.ToolLoop.Messages.{
  Block, text_block, tool_use_block, tool_result_block, opaque, ToolResultBlock, string_payload,
  Message, text_of, assistant_blocks, strip_cache, cumulative_tool_result_bytes, as_blocks, message,
  add_prompt,
}

-- a request, with tools or without
pub record Request (J : Type 0) : Type 0 where
  pub messages : List (Message J)
  pub has_tools : Bool

pub record Usage : Type 0 where
  pub input_tokens : ℕ
  pub output_tokens : ℕ
  pub cache_creation_input_tokens : ℕ
  pub cache_read_input_tokens : ℕ

pub record Response (J : Type 0) : Type 0 where
  pub content : List (Block J)
  pub stop_reason : Option Text
  pub usage : Option Usage

unfoldable pub is_text : Option Text → Text → Bool
is_text none t = false
is_text (some s) t = same s t

abbrev pub wants_tools : Option Text → Bool
wants_tools stop_reason = is_text stop_reason (codes "tool_use")

-- the mark of the last result that is not an error
unfoldable pub has_success : List ToolResultBlock → Bool
has_success [] = false
has_success (r ∷ rs) = not r.is_error || has_success rs

unfoldable pub mark_last : List ToolResultBlock → List ToolResultBlock
unfolding has_success
mark_last [] = []
mark_last (r ∷ rs) =
    let marked = mark_last rs in
    if has_success rs
    then r ∷ marked
    else if r.is_error
    then r ∷ rs
    else record r { cached = true } ∷ rs

-- the sum of a response's usage and the finalize call's
unfoldable pub add_usage : Option Usage → Option Usage → Option Usage
add_usage u none = u
add_usage none (some v) = some v
add_usage (some u) (some v) = some record {
  input_tokens = u.input_tokens + v.input_tokens;
  output_tokens = u.output_tokens + v.output_tokens;
  cache_creation_input_tokens = u.cache_creation_input_tokens + v.cache_creation_input_tokens;
  cache_read_input_tokens = u.cache_read_input_tokens + v.cache_read_input_tokens;
}

-- The loop's variables, with the requests that were sent, the latest first.
pub record Run (J : Type 0) : Type 0 where
  pub current_messages : List (Message J)
  pub last_text : Text
  pub last_usage : Option Usage
  pub last_stop_reason : Option Text
  pub sent : List (Request J)

-- An exception of the client leaves the loop.
pub data Outcome (J : Type 0) : Type 0 where
  escaped : List (Request J) → Outcome J
  finished : Run J → Outcome J

module _ {J : Type 0} where
  abbrev pub tool_request : Run J → Request J
  tool_request s = record { messages = s.current_messages; has_tools = true }

  abbrev pub start_run : List (Message J) → Run J
  start_run messages = record {
    current_messages = messages;
    last_text = [];
    last_usage = none;
    last_stop_reason = none;
    sent = [];
  }

  abbrev pub final_request : Run J → Request J
  final_request s = record { messages = add_prompt s.current_messages; has_tools = false }

  -- the variables after the finalize call
  unfoldable pub after_finalize : Run J → Response J → Run J
  unfolding add_prompt text_of add_usage
  after_finalize s resp = record {
    current_messages = add_prompt s.current_messages;
    last_text = text_of resp.content;
    last_usage = add_usage s.last_usage resp.usage;
    last_stop_reason = resp.stop_reason;
    sent = final_request s ∷ s.sent;
  }

  module _ (create : Request J → List (Request J) → Option (Response J)) where
    unfoldable pub finalize : Run J → Outcome J
    unfolding after_finalize is_text
    finalize s =
        if wants_tools s.last_stop_reason
        then (elim (create (final_request s) s.sent) [
          | none ↦ escaped (final_request s ∷ s.sent)
          | some resp ↦ finished (after_finalize s resp)
        ])
        else finished s

    unfoldable pub and_finalize : Outcome J → Outcome J
    unfolding finalize
    and_finalize (escaped sent) = escaped sent
    and_finalize (finished s) = finalize s

module _ {J : Type 0} (format_sorted : List Text → Text)
    (handlers : List (Text × (J → Called))) where
  -- the results of the tool_use blocks of a response
  unfoldable pub tool_results : List (Block J) → List ToolResultBlock
  unfolding dispatch_tool
  tool_results [] = []
  tool_results (text_block t ∷ bs) = tool_results bs
  tool_results (tool_use_block i name x ∷ bs) =
      record {
        tool_use_id = i;
        payload = string_payload (dispatch_tool format_sorted handlers name x).content;
        is_error = (dispatch_tool format_sorted handlers name x).is_error;
        cached = false;
      }
      ∷ tool_results bs
  tool_results (tool_result_block r ∷ bs) = tool_results bs
  tool_results (opaque x ∷ bs) = tool_results bs

  -- the history after a turn that calls tools
  unfoldable pub extend : List (Message J) → List (Block J) → List (Message J)
  unfolding assistant_blocks strip_cache tool_results mark_last as_blocks
  extend messages content =
      strip_cache (messages ++ message (codes "assistant") (assistant_blocks content) ∷ [])
      ++ message (codes "user") (as_blocks (mark_last (tool_results content))) ∷ []

  -- the variables after a response of the loop
  unfoldable pub after_response : Run J → Request J → Response J → Run J
  unfolding is_text text_of extend
  after_response s request resp =
      if wants_tools resp.stop_reason
      then record {
        current_messages = extend s.current_messages resp.content;
        last_text = s.last_text;
        last_usage = resp.usage;
        last_stop_reason = resp.stop_reason;
        sent = request ∷ s.sent;
      }
      else record {
        current_messages = s.current_messages;
        last_text = text_of resp.content;
        last_usage = resp.usage;
        last_stop_reason = resp.stop_reason;
        sent = request ∷ s.sent;
      }

  module _ (create : Request J → List (Request J) → Option (Response J)) (cap : ℕ) where
    -- the loop, with the number of iterations that are left
    unfoldable pub iterate : ℕ → Run J → Outcome J
    unfolding after_response cumulative_tool_result_bytes
    iterate zero s = finished s
    iterate (suc n) s = elim (create (tool_request s) s.sent) [
      | none ↦ escaped (tool_request s ∷ s.sent)
      | some resp ↦
          (let s' = after_response s (tool_request s) resp in
            let rest = iterate n s' in
            if wants_tools resp.stop_reason
              && not (leb cap (cumulative_tool_result_bytes s'.current_messages))
            then rest
            else finished s')
    ]

    unfoldable pub anthropic_tool_loop : List (Message J) → ℕ → Outcome J
    unfolding iterate and_finalize
    anthropic_tool_loop messages max_iterations =
        and_finalize create (iterate max_iterations (start_run messages))
