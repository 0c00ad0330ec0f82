-- ===== src/Poster/Attempts.antt =====
-- What one attempt to post a comment, with its second try, adds to the calls of the platform.
use revue.Prelude.{
  ℕ, ◌≡◌, refl, ap, ◌∙◌, Bool, true, false, not, ◌||◌, Option, none, some, ◌∷◌, any, ◌==◌,
  Bool-cases, Option-cases, inl, inr,
}
use revue.Prelude.Text.{Text, same}
use revue.Position.Adapter.{ApiParams}
use revue.Poster.World.{Call, post, evict, World, State}
use revue.Poster.Run.{call_post, evict_and_retry, retry, post_with_params_or_evict_and_retry}

-- whether a call asks for a comment with this fingerprint, and whether the platform has made it
abbrev pub asks_for : Text → Call → Bool
asks_for fp (post k params body lines id) = same k fp
asks_for fp evict = false

abbrev pub made : Text → Call → Bool
made fp (post k params body lines none) = false
made fp (post k params body lines (some id)) = same k fp
made fp evict = false

module _ (w : World) (fp k : Text) (params : ApiParams) (body : Text) (lines : ℕ) where
  -- what one attempt to post adds to the calls
  abbrev pub Adds : State → State × Option Text → Type 0
  Adds s r =
      (r.0.files ≡ s.files)
      × (any (made fp) r.0.log
          ≡ (elim r.1 [ none ↦ false | some id ↦ same k fp ] || any (made fp) s.log))

  Adds-call_post : (s : State) → Adds s (call_post w k params body lines s)
  unfolding call_post
  Adds-call_post s = elim (Option-cases (w.post_answer s.log params body)) [
    | inl e ↦ (refl, rw e refl)
    | inr (id, e) ↦ (refl, rw e refl)
  ]

  Adds-evict_and_retry : (s : State) → Adds s (evict_and_retry w k params body lines s)
  unfolding evict_and_retry
  Adds-evict_and_retry s = elim (Bool-cases (w.evict_answer s.log == 0)) [
    | inl e ↦ rw (e, evict_and_retry) (refl, refl)
    | inr e ↦
        rw (e, evict_and_retry) (Adds-call_post (record s { evicted = true; log = evict ∷ s.log }))
  ]

  Adds-retry :
      (s : State) (r : State × Option Text) → Adds s r → Adds s (retry w k params body lines r)
  unfolding retry
  Adds-retry s (s', some id) h = h
  Adds-retry s (s', none) h = elim (Bool-cases (not (w.limit_reached s'.log) || s'.evicted)) [
    | inl e ↦ rw (e, retry) h
    | inr e ↦
        let t = Adds-evict_and_retry s' in
        rw (e, retry)
          (
            t.0 ∙ h.0,
            t.1
                ∙ ap
                    (λ b.
                      (elim (evict_and_retry w k params body lines s').1 [
                        | none ↦ false
                        | some id ↦ same k fp
                      ])
                      || b)
                    h.1,
          )
  ]

  pub Adds-post_with_params :
      (s : State) → Adds s (post_with_params_or_evict_and_retry w k params body lines s)
  unfolding post_with_params_or_evict_and_retry
  Adds-post_with_params s = Adds-retry s _ (Adds-call_post s)

  -- the same calls, where they ask for other fingerprints
  abbrev pub Asks : State → State × Option Text → Type 0
  Asks s r = any (asks_for fp) r.0.log ≡ any (asks_for fp) s.log

  module _ (other : same k fp ≡ false) where
    Asks-call_post : (s : State) → Asks s (call_post w k params body lines s)
    unfolding call_post
    Asks-call_post s = rw other refl

    Asks-evict_and_retry : (s : State) → Asks s (evict_and_retry w k params body lines s)
    unfolding evict_and_retry
    Asks-evict_and_retry s = elim (Bool-cases (w.evict_answer s.log == 0)) [
      | inl e ↦ rw (e, evict_and_retry) refl
      | inr e ↦
          rw (e, evict_and_retry)
            (Asks-call_post (record s { evicted = true; log = evict ∷ s.log }))
    ]

    Asks-retry :
        (s : State) (r : State × Option Text) → Asks s r → Asks s (retry w k params body lines r)
    unfolding retry
    Asks-retry s (s', some id) h = h
    Asks-retry s (s', none) h = elim (Bool-cases (not (w.limit_reached s'.log) || s'.evicted)) [
      | inl e ↦ rw (e, retry) h
      | inr e ↦ rw (e, retry) (Asks-evict_and_retry s' ∙ h)
    ]

    pub Asks-post_with_params :
        (s : State) → Asks s (post_with_params_or_evict_and_retry w k params body lines s)
    unfolding post_with_params_or_evict_and_retry
    Asks-post_with_params s = Asks-retry s (call_post w k params body lines s) (Asks-call_post s)
