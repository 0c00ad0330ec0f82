-- ===== src/License/Answers.antt =====
-- The answers of the license service that decide a run, by their status and body alone.
use revue.Prelude.{
  ℕ, ◌≡◌, ◌≢◌, ◌∙◌, sym, refl, Bool, true, false, not, ◌&&◌, ◌||◌, ◌==◌, leb, none, some, List, [],
  ◌∷◌, if◌then◌else◌, arith, Bool-cases, inl, inr, subst,
}
use revue.License.Retry.{
  Body, Reply, network_error, response, Step, accept, reject_invalid, reject_revoked, unreachable,
  transient, Outcome, validated, api_unreachable, call_api, step_of, call_api_with_retry,
}
use revue.License.Attempts.{first_final, three_steps, step_at, call_api_with_retry-first_final}

-- a network error, or a server error
abbrev pub is_down : Reply → Bool
is_down network_error = true
is_down (response status_code json) = leb 500 status_code

-- the attempt that decides: the first that is not down, else the third
abbrev pub deciding : (ℕ → Reply) → ℕ
deciding client = if is_down (client 1) then (if is_down (client 2) then 3 else 2) else 1

-- neither a refusal nor an answer with a body
abbrev pub is_no_answer : Reply → Bool
is_no_answer network_error = true
is_no_answer (response status_code none) = not (status_code == 401 || status_code == 403)
is_no_answer (response status_code (some body)) =
    not (status_code == 401 || status_code == 403) && not (status_code == 200)

-- what an answer says of the key, where it is the deciding one
abbrev pub Says : Outcome → Reply → Type 0
Says (validated body) reply = (reply ≡ response 200 (some body)) × (body.valid ≡ true)
Says api_unreachable reply = is_no_answer reply ≡ true
Says _ reply = Unit

-- the outcome of one answer
abbrev outcome_of : Step → Outcome
outcome_of step = first_final (step ∷ [])

step_of-down : (reply : Reply) → is_down reply ≡ true → step_of (call_api reply) ≡ transient
unfolding step_of call_api
step_of-down network_error h = refl
step_of-down (response status_code none) h = ground arith
step_of-down (response status_code (some body)) h = ground arith

step_of-up : (reply : Reply) → is_down reply ≡ false → step_of (call_api reply) ≢ transient
unfolding step_of call_api
step_of-up network_error h e = absurd (cc)
step_of-up (response status_code none) h e = ground arith
step_of-up (response status_code (some body)) h e = ground arith

Says-accept :
    (reply : Reply) (body : Body)
    → step_of (call_api reply) ≡ accept body
    → Says (validated body) reply
unfolding step_of call_api
Says-accept network_error body e = absurd (cc)
Says-accept (response status_code none) body e = absurd (ground arith)
Says-accept (response status_code (some answer)) body e =
    let ok : status_code ≡ 200 = ground arith in
    let valid : answer.valid ≡ true = ground arith in
    let step : accept answer ≡ accept body = sym (rw (ok, valid) refl) ∙ e in
    let one : answer ≡ body = cc in
    (rw (ok, one) refl, subst (λ (b : Body). b.valid ≡ true) one valid)

Says-unreachable :
    (reply : Reply) → step_of (call_api reply) ≡ unreachable → is_no_answer reply ≡ true
unfolding step_of call_api
Says-unreachable network_error e = refl
Says-unreachable (response status_code none) e = ground arith
Says-unreachable (response status_code (some body)) e = ground arith

Says-transient : (reply : Reply) → step_of (call_api reply) ≡ transient → is_no_answer reply ≡ true
unfolding step_of call_api
Says-transient network_error e = refl
Says-transient (response status_code none) e = ground arith
Says-transient (response status_code (some body)) e = ground arith

Says-outcome_of :
    (reply : Reply) (step : Step) → step_of (call_api reply) ≡ step → Says (outcome_of step) reply
Says-outcome_of reply (accept body) e = Says-accept reply body e
Says-outcome_of reply reject_invalid e = tt
Says-outcome_of reply reject_revoked e = tt
Says-outcome_of reply unreachable e = Says-unreachable reply e
Says-outcome_of reply transient e = Says-transient reply e

first_final-up :
    (step : Step) (steps : List Step)
    → step ≢ transient
    → first_final (step ∷ steps) ≡ outcome_of step
first_final-up (accept body) steps h = refl
first_final-up reject_invalid steps h = refl
first_final-up reject_revoked steps h = refl
first_final-up unreachable steps h = refl
first_final-up transient steps h = absurd (h refl)

three_steps-deciding :
    (client : ℕ → Reply)
    → first_final (three_steps client) ≡ outcome_of (step_at client (deciding client))
three_steps-deciding client = elim (Bool-cases (is_down (client 1))) [
  | inr up ↦ rw up (first_final-up (step_at client 1) _ (step_of-up (client 1) up))
  | inl down ↦
      rw (down, step_of-down (client 1) down)
        (elim (Bool-cases (is_down (client 2))) [
          | inr up ↦ rw up (first_final-up (step_at client 2) _ (step_of-up (client 2) up))
          | inl down2 ↦ rw (down2, step_of-down (client 2) down2) refl
        ])
]

-- the outcome of the retry loop is what the deciding answer says
pub Says-call_api_with_retry :
    (client : ℕ → Reply) (o : Outcome)
    → (call_api_with_retry client).0 ≡ o
    → Says o (client (deciding client))
Says-call_api_with_retry client o e =
    let now : outcome_of (step_at client (deciding client)) ≡ o =
      sym (three_steps-deciding client) ∙ sym (call_api_with_retry-first_final client).0 ∙ e in
    subst (λ p. Says p (client (deciding client))) now
      (Says-outcome_of (client (deciding client)) (step_at client (deciding client)) refl)
