-- ===== src/ToolLoop/Requests.antt =====
-- The requests that `anthropic_tool_loop` sends.
use revue.Prelude.{
  ℕ, zero, suc, ◌+◌, ◌≤◌, ◌≡◌, refl, Bool, true, false, Option, some, List, ◌∷◌, [], count, all,
  length, arith, Option-cases, Bool-cases, inl, inr, not, ◌&&◌, leb, subst,
}
use revue.Prelude.Text.{Text}
use revue.ToolLoop.Dispatch.{Called}
use revue.ToolLoop.Messages.{Message, cumulative_tool_result_bytes}
use revue.ToolLoop.Anthropic.{
  Request, Response, Run, Outcome, escaped, finished, iterate, finalize, and_finalize,
  after_response, after_finalize, anthropic_tool_loop, tool_request, final_request, start_run,
  wants_tools,
}

no_more : (n : ℕ) → 0 + n ≡ n
no_more n = omega arith

module _ {J : Type 0} where
  -- the requests that an outcome has made, the latest first
  unfoldable pub requests_of : Outcome J → List (Request J)
  requests_of (escaped sent) = sent
  requests_of (finished s) = s.sent

  abbrev with_tools : Request J → Bool
  with_tools r = r.has_tools

  -- n requests at most, all with tools
  abbrev AreToolCalls : ℕ → List (Request J) → Type 0
  AreToolCalls n rs = (length rs ≤ n) × (all with_tools rs ≡ true)

  -- n requests with tools at most, and then at most one without
  abbrev pub AreBounded : ℕ → List (Request J) → Type 0
  AreBounded n [] = Unit
  AreBounded n (r ∷ rs) =
      (all with_tools rs ≡ true) × (count with_tools (r ∷ rs) ≤ n) × (length (r ∷ rs) ≤ suc n)

  abbrev pub latest_has_tools : List (Request J) → Bool
  latest_has_tools [] = false
  latest_has_tools (r ∷ rs) = r.has_tools

  count_tools : (rs : List (Request J)) → count with_tools rs ≤ length rs
  count_tools [] = omega arith
  count_tools (r ∷ rs) = ground (arith, count_tools rs)

  tool_calls-bounded : (n : ℕ) (rs : List (Request J)) → AreToolCalls n rs → AreBounded n rs
  tool_calls-bounded n [] h = tt
  tool_calls-bounded n (r ∷ rs) h = ground (arith, h.0, h.1, count_tools (r ∷ rs))

  final-bounded :
      (n : ℕ) (r : Request J) (rs : List (Request J))
      → r.has_tools ≡ false
      → AreToolCalls n rs
      → AreBounded n (r ∷ rs)
  final-bounded n r rs final h = ground (arith, final, h.0, h.1, count_tools rs)

module _ {J : Type 0} (create : Request J → List (Request J) → Option (Response J)) where
  finalize-AreBounded :
      (n : ℕ) (s : Run J) → AreToolCalls n s.sent → AreBounded n (requests_of (finalize create s))
  unfolding finalize after_finalize requests_of
  finalize-AreBounded n s h = elim (Bool-cases (wants_tools s.last_stop_reason)) [
    | inr e ↦ rw (e, finalize) (tool_calls-bounded n s.sent h)
    | inl e ↦ elim (Option-cases (create (final_request s) s.sent)) [
      | inl f ↦ rw (e, f, finalize) (final-bounded n (final_request s) s.sent refl h)
      | inr (resp, f) ↦ rw (e, f, finalize) (final-bounded n (final_request s) s.sent refl h)
    ]
  ]

  and_finalize-AreBounded :
      (n : ℕ) (o : Outcome J)
      → AreToolCalls n (requests_of o)
      → AreBounded n (requests_of (and_finalize create o))
  unfolding and_finalize requests_of
  and_finalize-AreBounded n (escaped sent) h = tool_calls-bounded n sent h
  and_finalize-AreBounded n (finished s) h = finalize-AreBounded n s h

module _ {J : Type 0} (format_sorted : List Text → Text)
    (handlers : List (Text × (J → Called))) where
  sent-after_response :
      (s : Run J) (request : Request J) (resp : Response J)
      → (after_response format_sorted handlers s request resp).sent ≡ request ∷ s.sent
  unfolding after_response
  sent-after_response s request resp = ground arith

  stop-after_response :
      (s : Run J) (request : Request J) (resp : Response J)
      → (after_response format_sorted handlers s request resp).last_stop_reason ≡ resp.stop_reason
  unfolding after_response
  stop-after_response s request resp = ground arith

  module _ (create : Request J → List (Request J) → Option (Response J)) (cap : ℕ) where
    iterate-AreToolCalls :
        (n m : ℕ) (s : Run J)
        → AreToolCalls m s.sent
        → AreToolCalls (m + n) (requests_of (iterate format_sorted handlers create cap n s))
    unfolding iterate requests_of
    iterate-AreToolCalls zero m s h = ground (arith, h.0, h.1)
    iterate-AreToolCalls (suc n) m s h = elim (Option-cases (create (tool_request s) s.sent)) [
      | inl e ↦ rw (e, iterate) (ground (arith, h.0, h.1))
      | inr (resp, e) ↦
          let s' = after_response format_sorted handlers s (tool_request s) resp in
          let sent = sent-after_response s (tool_request s) resp in
          let now : AreToolCalls (suc m) s'.sent = rw sent (ground (arith, h.0, h.1)) in
          let later = iterate-AreToolCalls n (suc m) s' now in
          elim (Bool-cases (
            wants_tools resp.stop_reason
            && not (leb cap (cumulative_tool_result_bytes s'.current_messages)))) [
              | inl go ↦ rw (e, go, iterate) (ground (arith, later.0, later.1))
              | inr stop ↦ rw (e, stop, iterate) (ground (arith, now.0, now.1))
            ]
    ]

    -- Whatever the client answers, and also when it raises, `anthropic_tool_loop` sends at most
    -- max_iterations requests with tools, and after them at most one without.
    pub anthropic_tool_loop-AreBounded :
        (messages : List (Message J)) (max_iterations : ℕ)
        → AreBounded max_iterations (
            requests_of
              (anthropic_tool_loop format_sorted handlers create cap messages max_iterations))
    unfolding anthropic_tool_loop
    anthropic_tool_loop-AreBounded messages n =
        and_finalize-AreBounded create n
          (iterate format_sorted handlers create cap n (start_run messages))
          (subst
            (λ k.
              AreToolCalls k
                (requests_of (iterate format_sorted handlers create cap n (start_run messages))))
            (no_more n) (iterate-AreToolCalls n 0 (start_run messages) (omega arith, refl)))

    iterate-finished :
        ((r : Request J) (rs : List (Request J)) → (resp : Response J) × (create r rs ≡ some resp))
        → (n : ℕ) (s : Run J)
        → (s' : Run J) × (iterate format_sorted handlers create cap n s ≡ finished s')
    unfolding iterate
    iterate-finished answers zero s = (s, refl)
    iterate-finished answers (suc n) s =
        let given = answers (tool_request s) s.sent in
        let s' = after_response format_sorted handlers s (tool_request s) given.0 in
        elim (Bool-cases (
          wants_tools given.0.stop_reason
          && not (leb cap (cumulative_tool_result_bytes s'.current_messages)))) [
            | inl go ↦
                let later = iterate-finished answers n s' in
                (later.0, rw (given.1, go, iterate) later.1)
            | inr stop ↦ (s', rw (given.1, stop, iterate))
          ]

    finalize-finished :
        ((r : Request J) (rs : List (Request J)) → (resp : Response J) × (create r rs ≡ some resp))
        → (s : Run J)
        → (s' : Run J) × (finalize create s ≡ finished s')
          × ((latest_has_tools s'.sent && wants_tools s'.last_stop_reason) ≡ false)
    unfolding finalize after_finalize
    finalize-finished answers s =
        let given = answers (final_request s) s.sent in
        elim (Bool-cases (wants_tools s.last_stop_reason)) [
          | inl e ↦ (after_finalize s given.0, rw (e, given.1, finalize), refl)
          | inr e ↦ (s, rw (e, finalize), ground (arith, e))
        ]

    -- If the client answers every request, then `anthropic_tool_loop` returns, and never in the middle
    -- of a tool use: when the last response asks for a tool, it is that of the request without tools.
    pub anthropic_tool_loop-finished :
        (messages : List (Message J)) (max_iterations : ℕ)
        → ((r : Request J) (rs : List (Request J))
            → (resp : Response J) × (create r rs ≡ some resp))
        → (s : Run J) × (anthropic_tool_loop format_sorted handlers create cap messages
              max_iterations
            ≡ finished s)
          × ((latest_has_tools s.sent && wants_tools s.last_stop_reason) ≡ false)
    unfolding anthropic_tool_loop and_finalize
    anthropic_tool_loop-finished messages n answers =
        let ran = iterate-finished answers n (start_run messages) in
        let ended = finalize-finished answers ran.0 in
        (ended.0, rw (ran.1, and_finalize) ended.1, ended.2)
