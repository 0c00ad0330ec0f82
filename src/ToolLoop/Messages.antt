-- ===== src/ToolLoop/Messages.antt =====
-- The messages of `anthropic_tool_loop`, and what the loop does to them.
use revue.Prelude.{ℕ, ◌+◌, Bool, false, Option, none, some, List, [], ◌∷◌, ◌++◌, if◌then◌else◌}
use revue.Prelude.Text.{Text, codes, same}
use revue.ToolLoop.Dispatch.{finalize_prompt, utf8_length}

-- the content of a tool_result: a string, or blocks, each with its text if it is a text block
pub data Payload : Type 0 where
  string_payload : Text → Payload
  block_payload : List (Option Text) → Payload

-- `cached`: the block has a cache_control
pub record ToolResultBlock : Type 0 where
  pub tool_use_id : Text
  pub payload : Payload
  pub is_error : Bool
  pub cached : Bool

-- the blocks of a message; `opaque` is any block of the caller of another type
pub data Block (J : Type 0) : Type 0 where
  text_block : Text → Block J
  tool_use_block : Text → Text → J → Block J
  tool_result_block : ToolResultBlock → Block J
  opaque : J → Block J

pub data Content (J : Type 0) : Type 0 where
  plain : Text → Content J
  blocks : List (Block J) → Content J

pub record Message (J : Type 0) : Type 0 where
  pub role : Text
  pub content : Content J

-- the bytes of a tool_result's content
unfoldable pub inner_bytes : List (Option Text) → ℕ
unfolding utf8_length
inner_bytes [] = 0
inner_bytes (none ∷ inners) = inner_bytes inners
inner_bytes (some t ∷ inners) = utf8_length t + inner_bytes inners

unfoldable pub payload_bytes : Payload → ℕ
unfolding inner_bytes
payload_bytes (string_payload t) = utf8_length t
payload_bytes (block_payload inners) = inner_bytes inners

module _ {J : Type 0} where
  -- "".join(b.text for b in content if b.type == "text")
  unfoldable pub text_of : List (Block J) → Text
  text_of [] = []
  text_of (text_block t ∷ bs) = t ++ text_of bs
  text_of (tool_use_block i n x ∷ bs) = text_of bs
  text_of (tool_result_block r ∷ bs) = text_of bs
  text_of (opaque x ∷ bs) = text_of bs

  -- the assistant's turn, as it is echoed
  unfoldable pub assistant_blocks : List (Block J) → List (Block J)
  assistant_blocks [] = []
  assistant_blocks (text_block t ∷ bs) = text_block t ∷ assistant_blocks bs
  assistant_blocks (tool_use_block i n x ∷ bs) = tool_use_block i n x ∷ assistant_blocks bs
  assistant_blocks (tool_result_block r ∷ bs) = assistant_blocks bs
  assistant_blocks (opaque x ∷ bs) = assistant_blocks bs

  -- prior_block.pop("cache_control", None), for the tool_result blocks
  unfoldable pub strip_blocks : List (Block J) → List (Block J)
  strip_blocks [] = []
  strip_blocks (text_block t ∷ bs) = text_block t ∷ strip_blocks bs
  strip_blocks (tool_use_block i n x ∷ bs) = tool_use_block i n x ∷ strip_blocks bs
  strip_blocks (tool_result_block r ∷ bs) =
      tool_result_block (record r { cached = false }) ∷ strip_blocks bs
  strip_blocks (opaque x ∷ bs) = opaque x ∷ strip_blocks bs

  unfoldable pub strip_content : Content J → Content J
  unfolding strip_blocks
  strip_content (plain t) = plain t
  strip_content (blocks bs) = blocks (strip_blocks bs)

  unfoldable pub strip_cache : List (Message J) → List (Message J)
  unfolding strip_content
  strip_cache [] = []
  strip_cache (m ∷ ms) =
      let rest = strip_cache ms in
      (if same m.role (codes "user") then record m { content = strip_content m.content } else m)
      ∷ rest

  unfoldable pub block_bytes : List (Block J) → ℕ
  unfolding payload_bytes
  block_bytes [] = 0
  block_bytes (text_block t ∷ bs) = block_bytes bs
  block_bytes (tool_use_block i n x ∷ bs) = block_bytes bs
  block_bytes (tool_result_block r ∷ bs) = payload_bytes r.payload + block_bytes bs
  block_bytes (opaque x ∷ bs) = block_bytes bs

  unfoldable pub content_bytes : Content J → ℕ
  unfolding block_bytes
  content_bytes (plain t) = 0
  content_bytes (blocks bs) = block_bytes bs

  -- `_cumulative_tool_result_bytes`
  unfoldable pub cumulative_tool_result_bytes : List (Message J) → ℕ
  unfolding content_bytes
  cumulative_tool_result_bytes [] = 0
  cumulative_tool_result_bytes (m ∷ ms) =
      let rest = cumulative_tool_result_bytes ms in
      if same m.role (codes "user") then content_bytes m.content + rest else rest

  -- the tool_result blocks of a message
  unfoldable pub as_blocks : List ToolResultBlock → List (Block J)
  as_blocks [] = []
  as_blocks (r ∷ rs) = tool_result_block r ∷ as_blocks rs

  abbrev pub message : Text → List (Block J) → Message J
  message role bs = record { role = role; content = blocks bs }

  -- the last message with the text appended to its list of blocks, or a new message
  unfoldable pub add_prompt : List (Message J) → List (Message J)
  add_prompt [] = record { role = codes "user"; content = plain finalize_prompt } ∷ []
  add_prompt (m ∷ m' ∷ ms) = m ∷ add_prompt (m' ∷ ms)
  add_prompt (m ∷ []) = elim m.content [
    | plain t ↦ m ∷ record { role = codes "user"; content = plain finalize_prompt } ∷ []
    | blocks bs ↦
        if same m.role (codes "user")
        then record m { content = blocks (bs ++ text_block finalize_prompt ∷ []) } ∷ []
        else m ∷ record { role = codes "user"; content = plain finalize_prompt } ∷ []
  ]
