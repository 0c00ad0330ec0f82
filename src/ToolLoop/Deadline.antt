-- ===== src/ToolLoop/Deadline.antt =====
-- The wall clock in `openai_tool_loop`.
use revue.Prelude.{
  ◌≡◌, ◌⊎◌, refl, ap, ◌∙◌, ℕ, zero, suc, ◌+◌, ◌-◌, ◌≤◌, Bool, true, false, Option, none, some, List,
  [], ◌∷◌, all, length, arith, Bool-cases, Option-cases, inl, inr,
}
use revue.Prelude.Text.{Text}
use revue.ToolLoop.OpenAi.{
  ToolCall, OpenAiMessage, OpenAiRequest, OpenAiResponse, OpenAiRun, OpenAiOutcome, bad_choice,
  escaped_after, completed, larger, is_zero, is_overdue, remain_of, turn_request, after_text,
  after_calls, openai_iterate, timeout_of, finalize_request, after_openai_finalize, openai_finalize,
  openai_start, openai_tool_loop, valid_choice,
}

-- the requests that an outcome has made, the latest first
unfoldable pub openai_requests : {M R : Type 0} → OpenAiOutcome M R → List (OpenAiRequest M)
openai_requests bad_choice = []
openai_requests (escaped_after sent) = sent
openai_requests (completed s) = s.sent

pub List-cases :
    {A : Type 0} (xs : List A) → (xs ≡ []) ⊎ ((x : A) × ((ys : List A) × (xs ≡ x ∷ ys)))
List-cases [] = inl refl
List-cases (x ∷ xs) = inr (x, (xs, refl))

module _ {M : Type 0} (clock : List (OpenAiRequest M) → ℕ) (d : ℕ) (finalize_reserve : ℕ) where
  -- each request with tools is sent when the time that is reserved has not begun
  abbrev pub IsOnTime : List (OpenAiRequest M) → Type 0
  IsOnTime [] = Unit
  IsOnTime (r ∷ rs) = (r.has_tools ≡ true → clock rs + finalize_reserve ≤ d) × IsOnTime rs

  -- the time that was left before the latest of the requests, or that is left if there is none
  abbrev pub left_before : List (OpenAiRequest M) → ℕ
  left_before [] = d - clock []
  left_before (r ∷ rs) = d - clock rs

  -- the timeout of a request without tools
  abbrev pub HasTimeout : List (OpenAiRequest M) → Type 0
  HasTimeout [] = Unit
  HasTimeout (r ∷ rs) = r.has_tools ≡ false → r.timeout ≡ some (larger 1000 (left_before rs))

  abbrev captured : List (OpenAiRequest M) → Option ℕ
  captured [] = none
  captured (r ∷ rs) = some (d - clock rs)

  captured-left :
      (rs : List (OpenAiRequest M))
      → elim (captured rs) [ none ↦ d - clock rs | some r ↦ r ] ≡ left_before rs
  captured-left [] = refl
  captured-left (r ∷ rs) = refl

  -- bound requests at most, all of them with tools, on time
  record AreTurns (bound : ℕ) (rs : List (OpenAiRequest M)) : Type 0 where
    on_time : IsOnTime rs
    with_tools : all (λ (r : OpenAiRequest M). r.has_tools) rs ≡ true
    few : length rs ≤ bound

  -- what is promised of all requests
  pub record AreTimed (bound : ℕ) (rs : List (OpenAiRequest M)) : Type 0 where
    pub on_time : IsOnTime rs
    pub timeout : HasTimeout rs
    pub few : length rs ≤ suc bound

  turns-AreTimed : (bound : ℕ) (rs : List (OpenAiRequest M)) → AreTurns bound rs → AreTimed bound rs
  turns-AreTimed bound [] h = record { on_time = tt; timeout = tt; few = omega arith }
  turns-AreTimed bound (r ∷ rs) h = record {
    on_time = h.on_time;
    timeout = λ uncapped. ground (arith, uncapped, h.with_tools);
    few = omega (arith, h.few);
  }

module _ {M R : Type 0} (answer : ToolCall → Text)
    (create : OpenAiRequest M → List (OpenAiRequest M) → Option (OpenAiResponse R))
    (clock : List (OpenAiRequest M) → ℕ) (d : ℕ) (finalize_reserve : ℕ)
    (tool_choice_first_turn : Text) (reasoning_on : Bool) where
  abbrev IsTimedRun : ℕ → OpenAiRun M R → Type 0
  IsTimedRun bound s =
      AreTurns clock d finalize_reserve bound s.sent
      × (s.last_remain ≡ captured clock d finalize_reserve s.sent)

  abbrev IsTimedOutcome : ℕ → OpenAiOutcome M R → Type 0
  IsTimedOutcome bound bad_choice = Unit
  IsTimedOutcome bound (escaped_after sent) = AreTurns clock d finalize_reserve bound sent
  IsTimedOutcome bound (completed s) = IsTimedRun bound s

  next-AreTurns :
      (bound n : ℕ) (is_first : Bool) (s : OpenAiRun M R)
      → length s.sent + suc n ≤ bound
      → is_overdue answer create clock
          (some d)
          finalize_reserve
          tool_choice_first_turn
          reasoning_on
          s
        ≡ false
      → AreTurns clock d finalize_reserve bound s.sent
      → AreTurns clock d finalize_reserve bound (
          turn_request answer create clock
            (some d)
            finalize_reserve
            tool_choice_first_turn
            reasoning_on
            is_first
            s
          ∷ s.sent)
  unfolding is_overdue turn_request
  next-AreTurns bound n is_first s room early h = record {
    on_time = (λ capped. ground (arith, early), h.on_time);
    with_tools = h.with_tools;
    few = omega (arith, room);
  }

  openai_iterate-IsTimed :
      (bound n : ℕ) (is_first : Bool) (s : OpenAiRun M R)
      → length s.sent + n ≤ bound
      → IsTimedRun bound s
      → IsTimedOutcome bound (
          openai_iterate answer create clock
            (some d)
            finalize_reserve
            tool_choice_first_turn
            reasoning_on
            n
            is_first
            s)
  unfolding openai_iterate after_text after_calls remain_of
  openai_iterate-IsTimed bound zero is_first s room h = h
  openai_iterate-IsTimed bound (suc n) is_first s room h =
      let request =
        turn_request answer create clock (some d) finalize_reserve tool_choice_first_turn
          reasoning_on is_first s in
      elim (Bool-cases (
        is_overdue answer create clock (some d) finalize_reserve tool_choice_first_turn reasoning_on
          s)) [
            | inl late ↦ rw (late, openai_iterate) h
            | inr early ↦
                let turns = next-AreTurns bound n is_first s room early h.0 in
                elim (Option-cases (create request s.sent)) [
                  | inl e ↦ rw (early, e, openai_iterate) turns
                  | inr (resp, e) ↦ elim (List-cases resp.choices) [
                    | inl f ↦ rw (early, e, f, openai_iterate) turns
                    | inr (choice, (choices, f)) ↦ elim (List-cases choice.tool_calls) [
                      | inl g ↦ rw (early, e, f, g, openai_iterate) (turns, refl)
                      | inr (tc, (tcs, g)) ↦
                          rw (early, e, f, g, openai_iterate)
                            (openai_iterate-IsTimed bound n false
                              (after_calls answer create clock (some d) finalize_reserve
                                tool_choice_first_turn reasoning_on (is_zero n) s request resp
                                choice)
                              (omega (arith, room)) (turns, refl))
                    ]
                  ]
                ]
          ]

  finalize_request-HasTimeout :
      (s : OpenAiRun M R)
      → s.last_remain ≡ captured clock d finalize_reserve s.sent
      → HasTimeout clock d finalize_reserve (
          finalize_request answer create clock
            (some d)
            finalize_reserve
            tool_choice_first_turn
            reasoning_on
            s
          ∷ s.sent)
  unfolding finalize_request timeout_of
  finalize_request-HasTimeout s h uncapped =
      ap (λ (o : Option ℕ). some (larger 1000 (elim o [ none ↦ d - clock s.sent | some r ↦ r ]))) h
      ∙ ap (λ n. some (larger 1000 n)) (captured-left clock d finalize_reserve s.sent)

  finalize-AreTimed :
      (bound : ℕ) (s : OpenAiRun M R)
      → IsTimedRun bound s
      → AreTimed clock d finalize_reserve bound (
          finalize_request answer create clock
            (some d)
            finalize_reserve
            tool_choice_first_turn
            reasoning_on
            s
          ∷ s.sent)
  unfolding finalize_request
  finalize-AreTimed bound s h = record {
    on_time = (λ capped. ground (arith, capped), h.0.on_time);
    timeout = finalize_request-HasTimeout s h.1;
    few = omega (arith, h.0.few);
  }

  openai_finalize-AreTimed :
      (bound : ℕ) (o : OpenAiOutcome M R)
      → IsTimedOutcome bound o
      → AreTimed clock d finalize_reserve bound (
          openai_requests (
            openai_finalize answer create clock
              (some d)
              finalize_reserve
              tool_choice_first_turn
              reasoning_on
              o))
  unfolding openai_finalize openai_requests after_openai_finalize
  openai_finalize-AreTimed bound bad_choice h = record {
    on_time = tt;
    timeout = tt;
    few = omega arith;
  }
  openai_finalize-AreTimed bound (escaped_after sent) h =
      turns-AreTimed clock d finalize_reserve bound sent h
  openai_finalize-AreTimed bound (completed s) h =
      let request =
        finalize_request answer create clock (some d) finalize_reserve tool_choice_first_turn
          reasoning_on s in
      let last = finalize-AreTimed bound s h in
      elim (Bool-cases s.hit_cap_in_tool_use) [
        | inr uncapped ↦
            rw (uncapped, openai_finalize)
              (turns-AreTimed clock d finalize_reserve bound s.sent h.0)
        | inl capped ↦ elim (Option-cases (create request s.sent)) [
          | inl e ↦ rw (capped, e, openai_finalize) last
          | inr (resp, e) ↦ elim (List-cases resp.choices) [
            | inl f ↦ rw (capped, e, f, openai_finalize) last
            | inr (choice, (choices, f)) ↦ rw (capped, e, f, openai_finalize) last
          ]
        ]
      ]

  -- With a deadline, `openai_tool_loop` sends no request with tools once the clock has passed
  -- deadline - finalize_reserve, and max_iterations + 1 requests at most. The timeout of the
  -- finalize call is the time that was left before the latest request with tools was sent (if there
  -- was one), with a second at least: the time which that request took is not subtracted.
  pub openai_tool_loop-AreTimed :
      (messages : List (OpenAiMessage M)) (max_iterations : ℕ)
      → AreTimed clock d finalize_reserve max_iterations (
          openai_requests (
            openai_tool_loop answer create clock
              (some d)
              finalize_reserve
              tool_choice_first_turn
              reasoning_on
              messages
              max_iterations))
  unfolding openai_tool_loop openai_start openai_requests
  openai_tool_loop-AreTimed messages n =
      let start =
        openai_start answer create clock (some d) finalize_reserve tool_choice_first_turn
          reasoning_on messages in
      let ran =
        openai_iterate-IsTimed n n true start (omega arith)
          (record { on_time = tt; with_tools = refl; few = omega arith }, refl) in
      elim (Bool-cases (valid_choice tool_choice_first_turn)) [
        | inr e ↦ rw (e, openai_tool_loop) record { on_time = tt; timeout = tt; few = omega arith }
        | inl e ↦
            rw (e, openai_tool_loop)
              (openai_finalize-AreTimed n
                (openai_iterate answer create clock (some d) finalize_reserve tool_choice_first_turn
                  reasoning_on n true start)
                ran)
      ]
