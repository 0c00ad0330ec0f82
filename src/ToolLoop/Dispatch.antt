-- ===== src/ToolLoop/Dispatch.antt =====
-- `_dispatch_tool`, and the constants of both loops.
use revue.Prelude.{ℕ, ◌+◌, Bool, true, none, some, List, [], ◌∷◌, ◌++◌, ltb, if◌then◌else◌}
use revue.Prelude.Text.{Text, codes}
use revue.Prelude.Dict.{get}

-- `ToolResult`
pub record ToolResult : Type 0 where
  pub content : Text
  pub is_error : Bool

-- What a handler does: it returns, or it raises an exception of a type, with a message.
pub data Called : Type 0 where
  returned : ToolResult → Called
  raised : Text → Text → Called

abbrev pub finalize_prompt : Text
finalize_prompt =
    codes "You have enough context now — synthesize the findings you've identified "
    ++ codes "so far from the files you've already read and emit your final JSON response."

unfoldable pub keys {ℓ} : {A : Type ℓ} → List (Text × A) → List Text
keys [] = []
keys ((k, a) ∷ d) = k ∷ keys d

-- the result that is reported for a call
unfoldable pub reported : Text → Called → ToolResult
reported name (returned result) = result
reported name (raised kind message) = record {
  content = codes "Error invoking '" ++ name ++ codes "': " ++ kind ++ codes ": " ++ message;
  is_error = true;
}

-- `_dispatch_tool`; `format_sorted` formats the sorted list of the handlers' names
module _ {J : Type 0} (format_sorted : List Text → Text)
    (handlers : List (Text × (J → Called))) where
  unfoldable pub dispatch_tool : Text → J → ToolResult
  unfolding get keys reported
  dispatch_tool name tool_input = elim (get name handlers) [
    | none ↦ record {
      content =
          codes "Error: tool '"
          ++ name
          ++ codes "' is not available. Available tools: "
          ++ format_sorted (keys handlers);
      is_error = true;
    }
    | some handler ↦ reported name (handler tool_input)
  ]

-- the bytes of a code point in UTF-8
unfoldable pub byte_count : ℕ → ℕ
byte_count c = if ltb c 128 then 1 else if ltb c 2048 then 2 else if ltb c 65536 then 3 else 4

-- len(s.encode("utf-8"))
unfoldable pub utf8_length : Text → ℕ
unfolding byte_count
utf8_length [] = 0
utf8_length (c ∷ s) = byte_count c + utf8_length s
