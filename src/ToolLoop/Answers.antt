-- ===== src/ToolLoop/Answers.antt =====
-- The answers to the tool calls in `openai_tool_loop`.
use revue.Prelude.{
  ◌≡◌, refl, sym, subst, ℕ, zero, suc, Bool, true, false, Option, List, [], ◌∷◌, ◌++◌, All,
  Bool-cases, Option-cases, inl, inr,
}
use revue.Prelude.Text.{Text}
use revue.ToolLoop.Dispatch.{finalize_prompt}
use revue.ToolLoop.OpenAi.{
  ToolCall, OpenAiMessage, given, assistant_message, tool_message, user_message, OpenAiRequest,
  OpenAiResponse, OpenAiRun, OpenAiOutcome, bad_choice, escaped_after, completed, is_zero,
  is_overdue, turn_request, after_text, after_calls, tool_messages, openai_iterate,
  finalize_request, after_openai_finalize, openai_finalize, openai_start, openai_tool_loop,
  valid_choice,
}
use revue.ToolLoop.Deadline.{openai_requests, List-cases}

abbrev ids_of : List ToolCall → List Text
ids_of [] = []
ids_of (tc ∷ tcs) = tc.id ∷ ids_of tcs

-- Each tool message answers the next call that waits for an answer, and every other message stands
-- where none waits, as does the end.
abbrev pub IsAnswered : {M : Type 0} → List Text → List (OpenAiMessage M) → Type 0
IsAnswered waiting [] = waiting ≡ []
IsAnswered waiting (given m ∷ ms) = (waiting ≡ []) × IsAnswered [] ms
IsAnswered waiting (user_message t ∷ ms) = (waiting ≡ []) × IsAnswered [] ms
IsAnswered waiting (assistant_message t tcs ∷ ms) = (waiting ≡ []) × IsAnswered (ids_of tcs) ms
IsAnswered waiting (tool_message id t ∷ ms) =
    (later : List Text) × (waiting ≡ id ∷ later) × IsAnswered later ms

tool_messages-IsAnswered :
    (M : Type 0) (answer : ToolCall → Text) (tcs : List ToolCall)
    → IsAnswered {M = M} (ids_of tcs) (tool_messages answer tcs)
unfolding tool_messages
tool_messages-IsAnswered M answer [] = refl
tool_messages-IsAnswered M answer (tc ∷ tcs) =
    (ids_of tcs, refl, tool_messages-IsAnswered M answer tcs)

module _ {M : Type 0} where
  IsAnswered-append :
      (waiting : List Text) (ms ns : List (OpenAiMessage M))
      → IsAnswered waiting ms
      → IsAnswered [] ns
      → IsAnswered waiting (ms ++ ns)
  IsAnswered-append waiting [] ns h k = subst (λ w. IsAnswered w ns) (sym h) k
  IsAnswered-append waiting (given m ∷ ms) ns h k = (h.0, IsAnswered-append [] ms ns h.1 k)
  IsAnswered-append waiting (user_message t ∷ ms) ns h k = (h.0, IsAnswered-append [] ms ns h.1 k)
  IsAnswered-append waiting (assistant_message t tcs ∷ ms) ns h k =
      (h.0, IsAnswered-append (ids_of tcs) ms ns h.1 k)
  IsAnswered-append waiting (tool_message id t ∷ ms) ns h k =
      (h.0, h.1, IsAnswered-append h.0 ms ns h.2 k)

  abbrev pub AreAnswered : List (OpenAiRequest M) → Type 0
  AreAnswered rs = All (λ (r : OpenAiRequest M). IsAnswered [] r.messages) rs

module _ {M R : Type 0} (answer : ToolCall → Text)
    (create : OpenAiRequest M → List (OpenAiRequest M) → Option (OpenAiResponse R))
    (clock : List (OpenAiRequest M) → ℕ) (deadline : Option ℕ) (finalize_reserve : ℕ)
    (tool_choice_first_turn : Text) (reasoning_on : Bool) where
  abbrev IsAnsweredRun : OpenAiRun M R → Type 0
  IsAnsweredRun s = IsAnswered [] s.current_messages × AreAnswered s.sent

  abbrev IsAnsweredOutcome : OpenAiOutcome M R → Type 0
  IsAnsweredOutcome bad_choice = Unit
  IsAnsweredOutcome (escaped_after sent) = AreAnswered sent
  IsAnsweredOutcome (completed s) = IsAnsweredRun s

  openai_iterate-IsAnswered :
      (n : ℕ) (is_first : Bool) (s : OpenAiRun M R)
      → IsAnsweredRun s
      → IsAnsweredOutcome (
          openai_iterate answer create clock deadline finalize_reserve tool_choice_first_turn
            reasoning_on n is_first s)
  unfolding openai_iterate after_text after_calls turn_request
  openai_iterate-IsAnswered zero is_first s h = h
  openai_iterate-IsAnswered (suc n) is_first s h =
      let request =
        turn_request answer create clock deadline finalize_reserve tool_choice_first_turn
          reasoning_on is_first s in
      elim (Bool-cases (
        is_overdue answer create clock deadline finalize_reserve tool_choice_first_turn reasoning_on
          s)) [
            | inl late ↦ rw (late, openai_iterate) h
            | inr early ↦ elim (Option-cases (create request s.sent)) [
              | inl e ↦ rw (early, e, openai_iterate) (h.0, h.1)
              | inr (resp, e) ↦ elim (List-cases resp.choices) [
                | inl f ↦ rw (early, e, f, openai_iterate) (h.0, h.1)
                | inr (choice, (choices, f)) ↦ elim (List-cases choice.tool_calls) [
                  | inl g ↦ rw (early, e, f, g, openai_iterate) (h.0, (h.0, h.1))
                  | inr (tc, (tcs, g)) ↦
                      rw (early, e, f, g, openai_iterate)
                        (openai_iterate-IsAnswered n false
                          (after_calls answer create clock deadline finalize_reserve
                            tool_choice_first_turn reasoning_on (is_zero n) s request resp choice)
                          (
                            IsAnswered-append [] s.current_messages
                                (assistant_message choice.content choice.tool_calls
                                  ∷ tool_messages answer choice.tool_calls)
                                h.0 (refl, tool_messages-IsAnswered M answer choice.tool_calls),
                            (h.0, h.1),
                          ))
                ]
              ]
            ]
          ]

  openai_finalize-AreAnswered :
      (o : OpenAiOutcome M R)
      → IsAnsweredOutcome o
      → AreAnswered (
          openai_requests (
            openai_finalize answer create clock deadline finalize_reserve tool_choice_first_turn
              reasoning_on o))
  unfolding openai_finalize openai_requests after_openai_finalize finalize_request
  openai_finalize-AreAnswered bad_choice h = tt
  openai_finalize-AreAnswered (escaped_after sent) h = h
  openai_finalize-AreAnswered (completed s) h =
      let request =
        finalize_request answer create clock deadline finalize_reserve tool_choice_first_turn
          reasoning_on s in
      let prompted =
        IsAnswered-append [] s.current_messages (user_message finalize_prompt ∷ []) h.0
          (refl, refl) in
      elim (Bool-cases s.hit_cap_in_tool_use) [
        | inr open_end ↦ rw (open_end, openai_finalize) h.1
        | inl capped ↦ elim (Option-cases (create request s.sent)) [
          | inl e ↦ rw (capped, e, openai_finalize) (prompted, h.1)
          | inr (resp, e) ↦ elim (List-cases resp.choices) [
            | inl f ↦ rw (capped, e, f, openai_finalize) (prompted, h.1)
            | inr (choice, (choices, f)) ↦ rw (capped, e, f, openai_finalize) (prompted, h.1)
          ]
        ]
      ]

  -- When each tool message among the given messages answers the tool calls before it, in their
  -- order, then so it is in every request of `openai_tool_loop`: a call of a tool that is missing,
  -- that raises, or whose arguments are no JSON is answered too, before anything else is said.
  pub openai_tool_loop-AreAnswered :
      (messages : List (OpenAiMessage M)) (max_iterations : ℕ)
      → IsAnswered [] messages
      → AreAnswered (
          openai_requests (
            openai_tool_loop answer create clock deadline finalize_reserve tool_choice_first_turn
              reasoning_on messages max_iterations))
  unfolding openai_tool_loop openai_start openai_requests
  openai_tool_loop-AreAnswered messages n h =
      let start =
        openai_start answer create clock deadline finalize_reserve tool_choice_first_turn
          reasoning_on messages in
      elim (Bool-cases (valid_choice tool_choice_first_turn)) [
        | inr e ↦ rw (e, openai_tool_loop) tt
        | inl e ↦
            rw (e, openai_tool_loop)
              (openai_finalize-AreAnswered
                (openai_iterate answer create clock deadline finalize_reserve tool_choice_first_turn
                  reasoning_on n true start)
                (openai_iterate-IsAnswered n true start (h, tt)))
      ]
