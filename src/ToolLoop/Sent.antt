-- ===== src/ToolLoop/Sent.antt =====
-- What `anthropic_tool_loop` sends, request by request.
use revue.Prelude.{
  ◌≡◌, refl, sym, ◌∙◌, ap, subst, Bool, true, false, not, ◌&&◌, List, [], ◌∷◌, ◌++◌, All, Option, ℕ,
  zero, suc, ◌≤◌, leb, arith, Bool-cases, Option-cases, inl, inr,
}
use revue.Prelude.Text.{Text, codes, same}
use revue.ToolLoop.Dispatch.{Called, finalize_prompt}
use revue.ToolLoop.Messages.{
  Block, text_block, tool_use_block, tool_result_block, opaque, Message, message, add_prompt,
  cumulative_tool_result_bytes, assistant_blocks, strip_cache, as_blocks,
}
use revue.ToolLoop.Anthropic.{
  Request, Response, Run, Outcome, escaped, finished, iterate, finalize, and_finalize,
  after_response, after_finalize, anthropic_tool_loop, tool_request, final_request, start_run,
  wants_tools, is_text, extend, tool_results, mark_last,
}
use revue.ToolLoop.Requests.{requests_of}
use revue.ToolLoop.Conversation.{
  IsConversation, uses_in, results_in, content_uses, extend-IsConversation,
}
use revue.ToolLoop.Breakpoints.{breakpoints, breakpoints-extend, breakpoints-snoc}

module _ {J : Type 0} where
  -- a conversation in which it is the assistant's turn and nothing is left to answer, with at most
  -- one cache breakpoint in the tool results
  abbrev pub IsSendable : List (Message J) → Type 0
  IsSendable ms = IsConversation true [] false [] ms × (breakpoints ms ≤ 1)

  uses-snoc_text : (bs : List (Block J)) (t : Text) → uses_in (bs ++ text_block t ∷ []) ≡ uses_in bs
  uses-snoc_text [] t = refl
  uses-snoc_text (text_block t' ∷ bs) t = uses-snoc_text bs t
  uses-snoc_text (tool_use_block i n x ∷ bs) t = ap (λ ids. i ∷ ids) (uses-snoc_text bs t)
  uses-snoc_text (tool_result_block r ∷ bs) t = uses-snoc_text bs t
  uses-snoc_text (opaque x ∷ bs) t = uses-snoc_text bs t

  results-snoc_text :
      (bs : List (Block J)) (t : Text) → results_in (bs ++ text_block t ∷ []) ≡ results_in bs
  results-snoc_text [] t = refl
  results-snoc_text (text_block t' ∷ bs) t = results-snoc_text bs t
  results-snoc_text (tool_use_block i n x ∷ bs) t = results-snoc_text bs t
  results-snoc_text (tool_result_block r ∷ bs) t =
      ap (λ ids. r.tool_use_id ∷ ids) (results-snoc_text bs t)
  results-snoc_text (opaque x ∷ bs) t = results-snoc_text bs t

  -- one more text block in the last message
  IsConversation-snoc_text :
      (user : Bool) (ids : List Text) (next : Bool) (asked : List Text) (ms : List (Message J))
      (role : Text) (bs : List (Block J)) (t : Text)
      → IsConversation user ids next asked (ms ++ message role bs ∷ [])
      → IsConversation user ids next asked (ms ++ message role (bs ++ text_block t ∷ []) ∷ [])
  IsConversation-snoc_text user ids next asked [] role bs t h =
      (h.0, results-snoc_text bs t ∙ h.1, (h.2.0, uses-snoc_text bs t ∙ h.2.1))
  IsConversation-snoc_text user ids next asked (m ∷ ms) role bs t h = (
    h.0,
    h.1,
    IsConversation-snoc_text (not user) (content_uses m.content) next asked ms role bs t h.2,
  )

  add_prompt-snoc :
      (ms : List (Message J)) (bs : List (Block J))
      → add_prompt (ms ++ message (codes "user") bs ∷ [])
        ≡ ms ++ message (codes "user") (bs ++ text_block finalize_prompt ∷ []) ∷ []
  unfolding add_prompt same
  add_prompt-snoc [] bs = refl
  add_prompt-snoc (m ∷ []) bs = refl
  add_prompt-snoc (m ∷ m' ∷ ms) bs = ap (λ rest. m ∷ rest) (add_prompt-snoc (m' ∷ ms) bs)

  -- the last message is the user's, with blocks
  abbrev EndsInBlocks : List (Message J) → Type 0
  EndsInBlocks ms =
      (before : List (Message J)) × ((bs : List (Block J)) × (ms
          ≡ before ++ message (codes "user") bs ∷ []))

  add_prompt-IsSendable :
      (ms : List (Message J)) → EndsInBlocks ms → IsSendable ms → IsSendable (add_prompt ms)
  add_prompt-IsSendable ms (before, (bs, e)) h =
      let old : IsSendable (before ++ message (codes "user") bs ∷ []) = subst IsSendable e h in
      subst IsSendable (sym (ap add_prompt e ∙ add_prompt-snoc before bs)) (
        IsConversation-snoc_text true [] false [] before (codes "user") bs finalize_prompt old.0,
        subst (λ n. n ≤ 1) (sym (breakpoints-snoc before bs finalize_prompt)) old.1,
      )

  abbrev pub AreSendable : List (Request J) → Type 0
  AreSendable rs = All (λ (r : Request J). IsSendable r.messages) rs

  -- the loop's invariant
  record IsRunning (s : Run J) : Type 0 where
    sendable : IsSendable s.current_messages
    ends : wants_tools s.last_stop_reason ≡ true → EndsInBlocks s.current_messages
    requests : AreSendable s.sent

  -- what holds of an outcome before the finalize call
  abbrev IsFair : Outcome J → Type 0
  IsFair (escaped sent) = AreSendable sent
  IsFair (finished s) = IsRunning s

module _ {J : Type 0} (create : Request J → List (Request J) → Option (Response J)) where
  finalize-AreSendable : (s : Run J) → IsRunning s → AreSendable (requests_of (finalize create s))
  unfolding finalize after_finalize requests_of
  finalize-AreSendable s h = elim (Bool-cases (wants_tools s.last_stop_reason)) [
    | inr e ↦ rw (e, finalize) h.requests
    | inl e ↦
        let prompted = add_prompt-IsSendable s.current_messages (h.ends e) h.sendable in
        elim (Option-cases (create (final_request s) s.sent)) [
          | inl f ↦ rw (e, f, finalize) (prompted, h.requests)
          | inr (resp, f) ↦ rw (e, f, finalize) (prompted, h.requests)
        ]
  ]

  and_finalize-AreSendable :
      (o : Outcome J) → IsFair o → AreSendable (requests_of (and_finalize create o))
  unfolding and_finalize requests_of
  and_finalize-AreSendable (escaped sent) h = h
  and_finalize-AreSendable (finished s) h = finalize-AreSendable s h

module _ {J : Type 0} (format_sorted : List Text → Text)
    (handlers : List (Text × (J → Called))) where
  extend-ends :
      (ms : List (Message J)) (content : List (Block J))
      → EndsInBlocks (extend format_sorted handlers ms content)
  unfolding extend
  extend-ends ms content = (
    strip_cache (ms ++ message (codes "assistant") (assistant_blocks content) ∷ []),
    (as_blocks (mark_last (tool_results format_sorted handlers content)), refl),
  )

  after_response-IsRunning :
      (s : Run J) (resp : Response J)
      → IsRunning s
      → IsRunning (after_response format_sorted handlers s (tool_request s) resp)
  unfolding after_response
  after_response-IsRunning s resp h = elim (Bool-cases (wants_tools resp.stop_reason)) [
    | inl e ↦
        rw (e, after_response)
          record {
            sendable = (
              extend-IsConversation format_sorted handlers s.current_messages resp.content
                  h.sendable.0,
              breakpoints-extend format_sorted handlers s.current_messages resp.content,
            );
            ends = λ again. extend-ends s.current_messages resp.content;
            requests = (h.sendable, h.requests);
          }
    | inr e ↦
        rw (e, after_response)
          record {
            sendable = h.sendable;
            ends = λ again. ground (arith, e, again);
            requests = (h.sendable, h.requests);
          }
  ]

  module _ (create : Request J → List (Request J) → Option (Response J)) (cap : ℕ) where
    iterate-IsFair :
        (n : ℕ) (s : Run J) → IsRunning s → IsFair (iterate format_sorted handlers create cap n s)
    unfolding iterate
    iterate-IsFair zero s h = h
    iterate-IsFair (suc n) s h = elim (Option-cases (create (tool_request s) s.sent)) [
      | inl e ↦ rw (e, iterate) (h.sendable, h.requests)
      | inr (resp, e) ↦
          let s' = after_response format_sorted handlers s (tool_request s) resp in
          let now = after_response-IsRunning s resp h in
          elim (Bool-cases (
            wants_tools resp.stop_reason
            && not (leb cap (cumulative_tool_result_bytes s'.current_messages)))) [
              | inl go ↦ rw (e, go, iterate) (iterate-IsFair n s' now)
              | inr stop ↦ rw (e, stop, iterate) now
            ]
    ]

    -- When the given messages alternate between the user and the assistant, from the user to the
    -- user, with each tool_use answered by the tool_result blocks of the next message, and have one
    -- cached tool_result of the user's at most, then each request of `anthropic_tool_loop`, the
    -- finalize call too, has messages of that form: whatever the client answers and the tools do.
    pub anthropic_tool_loop-AreSendable :
        (messages : List (Message J)) (max_iterations : ℕ)
        → IsSendable messages
        → AreSendable (
            requests_of
              (anthropic_tool_loop format_sorted handlers create cap messages max_iterations))
    unfolding anthropic_tool_loop is_text
    anthropic_tool_loop-AreSendable messages n h =
        and_finalize-AreSendable create
          (iterate format_sorted handlers create cap n (start_run messages))
          (iterate-IsFair n (start_run messages)
            record { sendable = h; ends = λ no. cc; requests = tt })
