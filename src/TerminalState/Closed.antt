-- ===== src/TerminalState/Closed.antt =====
-- Which states the classifier gives, and when.
use revue.Prelude.{
  ◌≡◌, refl, subst, sym, ℕ, [], ◌∷◌, any, ◌||◌, if◌then◌else◌, Bool, true, false, not, ◌&&◌, Option,
  none, some, arith, Bool-cases, Option-cases, inl, inr,
}
use revue.Prelude.Int.{pos}
use revue.Prelude.Text.{Text, codes, same, same-eq, same_refl}
use revue.TerminalState.Json.{
  Json, Members, null, boolean, floating, string, array, object, integer, get_member, as_string,
  as_object, is_hashable,
}
use revue.TerminalState.Classify.{
  TerminalState, findings, clean, error, is_error_code, make_error, handle_findings, handle_clean,
  handle_error, handle, schema_error, no_verdict, is_refusal, try_parse_json, strip_markdown_fence,
  classify_terminal_state,
}

-- a status that is a list or an object
abbrev pub unhashable_status : Option Json → Bool
unhashable_status none = false
unhashable_status (some status) = not (is_hashable status)

-- the closed set of codes
abbrev pub is_known : Text → Bool
is_known code = any (same code) (
    codes "max_iterations_no_verdict"
    ∷ codes "invalid_response_schema"
    ∷ codes "tool_unavailable"
    ∷ codes "model_refusal"
    ∷ codes "internal_error"
    ∷ [])

-- an error state has a code of the closed set
abbrev pub has_closed_code : TerminalState → Bool
has_closed_code (findings m) = true
has_closed_code (clean m) = true
has_closed_code (error code message iterations_used) = is_known code

-- the code of the "error" object of a response whose status is "error"
abbrev pub code_in : Option Json → Option Json → Option Text
code_in status err = elim (as_string status) [
  | none ↦ none
  | some name ↦
      if same name (codes "error")
      then (elim (as_object err) [ none ↦ none | some m ↦ as_string (get_member (codes "code") m) ])
      else none
]

abbrev pub code_of : Option Members → Option Text
code_of none = none
code_of (some parsed) =
    code_in (get_member (codes "status") parsed) (get_member (codes "error") parsed)

-- an error state with this code
abbrev pub has_code : Text → Option TerminalState → Bool
has_code code none = false
has_code code (some (findings m)) = false
has_code code (some (clean m)) = false
has_code code (some (error c message iterations_used)) = same c code

-- the code that is to be reported for the model's own, if it gives one
abbrev pub reports : Option Text → Option TerminalState → Bool
reports none s = true
reports (some code) s = has_code (if is_known code then code else codes "internal_error") s

abbrev pub closed_or_raises : Option TerminalState → Bool
closed_or_raises none = true
closed_or_raises (some s) = has_closed_code s

abbrev pub raises : Option TerminalState → Bool
raises none = true
raises (some s) = false

module _ (loads : Text → Option Json) (str : Json → Text) (repr : Json → Text) where
  closed-make_error :
      (code message : Text) (iterations_used : Option Json)
      → has_closed_code (make_error loads str repr code message iterations_used) ≡ true
  unfolding make_error is_error_code same
  closed-make_error code message iterations_used = elim (Bool-cases (is_error_code code)) [
    | inl e ↦ rw (e, make_error) e
    | inr e ↦ rw (e, make_error)
  ]

  closed-schema_error :
      (message : Text) → has_closed_code (schema_error loads str repr message) ≡ true
  closed-schema_error message = closed-make_error (codes "invalid_response_schema") message none

  closed-handle_findings :
      (parsed : Members) → has_closed_code (handle_findings loads str repr parsed) ≡ true
  unfolding handle_findings
  closed-handle_findings parsed = grind (arith, closed-make_error, closed-schema_error)

  closed-handle_clean :
      (parsed : Members) → has_closed_code (handle_clean loads str repr parsed) ≡ true
  unfolding handle_clean
  closed-handle_clean parsed =
      elim (Option-cases (as_string (get_member (codes "summary") parsed))) [
        | inl e ↦ rw (e, handle_clean) (closed-make_error _ _ _)
        | inr (summary, e) ↦ rw (e, handle_clean) (grind (arith, closed-make_error))
      ]

  closed-handle_error :
      (parsed : Members) → has_closed_code (handle_error loads str repr parsed) ≡ true
  unfolding handle_error
  closed-handle_error parsed = elim (Option-cases (as_object (get_member (codes "error") parsed))) [
    | inl e ↦ rw (e, handle_error) (closed-make_error _ _ _)
    | inr (err, e) ↦ elim (Option-cases (as_string (get_member (codes "code") err))) [
      | inl f ↦ rw (e, f, handle_error) (closed-make_error _ _ _)
      | inr (code, f) ↦ rw (e, f, handle_error) (closed-make_error _ _ _)
    ]
  ]

  closed-handle :
      (status : Json) (parsed : Members) (iterations_used : ℕ)
      → closed_or_raises (handle loads str repr status parsed iterations_used) ≡ true
  unfolding handle
  closed-handle status parsed iterations_used =
      grind
        (arith, closed-make_error, closed-handle_findings, closed-handle_clean, closed-handle_error)

  raises-handle :
      (status : Json) (parsed : Members) (iterations_used : ℕ)
      → raises (handle loads str repr status parsed iterations_used) ≡ not (is_hashable status)
  unfolding handle
  raises-handle status parsed iterations_used = ground arith

  has_code-make_error :
      (code message : Text) (iterations_used : Option Json)
      → reports (some code) (some (make_error loads str repr code message iterations_used)) ≡ true
  unfolding make_error is_error_code
  has_code-make_error code message iterations_used = elim (Bool-cases (is_error_code code)) [
    | inl e ↦ rw (e, make_error) (same_refl code)
    | inr e ↦ rw (e, make_error) (same_refl (codes "internal_error"))
  ]

  reports-handle_error :
      (parsed : Members) (err : Members) (code : Text)
      → as_object (get_member (codes "error") parsed) ≡ some err
      → as_string (get_member (codes "code") err) ≡ some code
      → reports (some code) (some (handle_error loads str repr parsed)) ≡ true
  unfolding handle_error
  reports-handle_error parsed err code e f = rw (e, f, handle_error) (has_code-make_error code _ _)

  reports-error :
      (parsed : Members) (iterations_used : ℕ)
      → reports
          (code_in (some (string (codes "error"))) (get_member (codes "error") parsed))
          (handle loads str repr (string (codes "error")) parsed iterations_used)
        ≡ true
  unfolding handle same is_hashable as_string
  reports-error parsed iterations_used =
      elim (Option-cases (as_object (get_member (codes "error") parsed))) [
        | inl e ↦ rw e refl
        | inr (err, e) ↦ elim (Option-cases (as_string (get_member (codes "code") err))) [
          | inl f ↦ rw (e, f) refl
          | inr (code, f) ↦ rw (e, f) (reports-handle_error parsed err code e f)
        ]
      ]

  reports-handle :
      (status : Json) (parsed : Members) (iterations_used : ℕ)
      → reports
          (code_in (some status) (get_member (codes "error") parsed))
          (handle loads str repr status parsed iterations_used)
        ≡ true
  unfolding as_string
  reports-handle null parsed iterations_used = refl
  reports-handle (boolean b) parsed iterations_used = refl
  reports-handle (integer n) parsed iterations_used = refl
  reports-handle (floating t z) parsed iterations_used = refl
  reports-handle (array xs) parsed iterations_used = refl
  reports-handle (object m) parsed iterations_used = refl
  reports-handle (string name) parsed iterations_used =
      elim (Bool-cases (same name (codes "error"))) [
        | inr other ↦ rw other refl
        | inl e ↦
            subst
              (λ n.
                reports (code_in (some (string n)) (get_member (codes "error") parsed))
                  (handle loads str repr (string n) parsed iterations_used)
                ≡ true)
              (sym (same-eq name (codes "error") e)) (reports-error parsed iterations_used)
      ]

  closed-no_verdict :
      (hit_iteration_cap : Bool) (iterations_used : ℕ)
      → has_closed_code (no_verdict loads str repr hit_iteration_cap iterations_used) ≡ true
  unfolding no_verdict
  closed-no_verdict hit_iteration_cap iterations_used =
      grind (arith, closed-make_error, closed-schema_error)

  module _ (raw_text : Text) (stop_reason : Option Text) (iterations_used : ℕ)
      (hit_iteration_cap : Bool) where
    -- the JSON object in the text
    abbrev pub response : Option Members
    response = try_parse_json loads str repr (strip_markdown_fence raw_text)

    abbrev pub status_of : Option Members → Option Json
    status_of none = none
    status_of (some parsed) = get_member (codes "status") parsed

    -- `classify_terminal_state` gives a state whose error code, if it is an error, is one of the
    -- five of ERROR_CODES. Where the stop reason is no refusal and the response is an object with
    -- the status "error" and an "error" object that has a text as its code, the state is an error
    -- with that code if it is one of the five, and with "internal_error" if it is not. It raises only
    -- where the stop reason is no refusal and the response is an object whose status is a list or an
    -- object, and there it does.
    pub classify_terminal_state-closed :
        (closed_or_raises (
            classify_terminal_state loads str repr raw_text stop_reason iterations_used
              hit_iteration_cap)
          ≡ true)
        × ((is_refusal stop_reason
              || reports (code_of response) (
                  classify_terminal_state loads str repr raw_text stop_reason iterations_used
                    hit_iteration_cap))
            ≡ true)
        × (raises (
              classify_terminal_state loads str repr raw_text stop_reason iterations_used
                hit_iteration_cap)
            ≡ (not (is_refusal stop_reason) && unhashable_status (status_of response)))
    unfolding classify_terminal_state
    classify_terminal_state-closed = elim (Bool-cases (is_refusal stop_reason)) [
      | inl e ↦
          rw (e, classify_terminal_state)
            (
              closed-make_error (codes "model_refusal") (codes "model returned stop_reason=refusal")
                  (some (integer (pos iterations_used))),
              refl,
              refl,
            )
      | inr e ↦ elim (Option-cases response) [
        | inl f ↦
            rw (e, f, classify_terminal_state)
              (closed-no_verdict hit_iteration_cap iterations_used, refl, refl)
        | inr (parsed, f) ↦ elim (Option-cases (get_member (codes "status") parsed)) [
          | inl g ↦
              rw (e, f, g, classify_terminal_state)
                (closed-no_verdict hit_iteration_cap iterations_used, refl, refl)
          | inr (status, g) ↦
              rw (e, f, g, classify_terminal_state)
                (
                  closed-handle status parsed iterations_used,
                  reports-handle status parsed iterations_used,
                  raises-handle status parsed iterations_used,
                )
        ]
      ]
    ]
