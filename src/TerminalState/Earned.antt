-- ===== src/TerminalState/Earned.antt =====
-- What a "clean" verdict takes.
use revue.Prelude.{
  ◌≡◌, sym, ap, ◌∙◌, ◌++◌, ℕ, Bool, true, false, not, ◌&&◌, Option, none, some, arith, Bool-cases,
  Option-cases, inl, inr, if◌then◌else◌,
}
use revue.Prelude.Int.{pos}
use revue.Prelude.Text.{Text, codes, same, same-eq, is_blank}
use revue.TerminalState.Json.{
  Json, Members, integer, get_member, has_member, as_string, as_object, is_list, is_number,
  is_hashable,
}
use revue.TerminalState.Classify.{
  TerminalState, findings, clean, error, is_error_code, make_error, handle_findings, handle_clean,
  handle_error, handle, no_verdict, is_refusal, try_parse_json, strip_markdown_fence,
  classify_terminal_state,
}

abbrev pub has_text : Option Text → Bool
has_text none = false
has_text (some s) = not (is_blank s)

abbrev pub is_name : Text → Option Text → Bool
is_name name none = false
is_name name (some s) = same s name

-- parsed["status"] == name
abbrev pub has_status : Text → Members → Bool
has_status name parsed = is_name name (as_string (get_member (codes "status") parsed))

abbrev clean_of : Option TerminalState → Option Members
clean_of none = none
clean_of (some (findings m)) = none
clean_of (some (clean m)) = some m
clean_of (some (error code message iterations_used)) = none

-- what the branch of a clean status checks
abbrev pub has_clean_form : Members → Bool
has_clean_form parsed =
    has_text (as_string (get_member (codes "summary") parsed))
    && is_number (get_member (codes "confidence") parsed)
    && not (has_member (codes "findings") parsed)
    && not (has_member (codes "error") parsed)

module _ (loads : Text → Option Json) (str : Json → Text) (repr : Json → Text) where
  clean-make_error :
      (code message : Text) (iterations_used : Option Json)
      → clean_of (some (make_error loads str repr code message iterations_used)) ≡ none
  unfolding make_error
  clean-make_error code message iterations_used = elim (Bool-cases (is_error_code code)) [
    | inl e ↦ rw (e, make_error)
    | inr e ↦ rw (e, make_error)
  ]

  clean-handle_findings :
      (parsed : Members) → clean_of (some (handle_findings loads str repr parsed)) ≡ none
  unfolding handle_findings
  clean-handle_findings parsed =
      elim (Bool-cases (is_list (get_member (codes "findings") parsed))) [
        | inr e ↦ rw (e, handle_findings) (clean-make_error _ _ _)
        | inl e ↦ elim (Bool-cases (has_member (codes "error") parsed)) [
          | inl f ↦ rw (e, f, handle_findings) (clean-make_error _ _ _)
          | inr f ↦ rw (e, f, handle_findings)
        ]
      ]

  clean-handle_error :
      (parsed : Members) → clean_of (some (handle_error loads str repr parsed)) ≡ none
  unfolding handle_error
  clean-handle_error parsed = elim (Option-cases (as_object (get_member (codes "error") parsed))) [
    | inl e ↦ rw (e, handle_error) (clean-make_error _ _ _)
    | inr (err, e) ↦ elim (Option-cases (as_string (get_member (codes "code") err))) [
      | inl f ↦ rw (e, f, handle_error) (clean-make_error _ _ _)
      | inr (code, f) ↦ rw (e, f, handle_error) (clean-make_error _ _ _)
    ]
  ]

  clean-handle_clean :
      (parsed : Members)
      → clean_of (some (handle_clean loads str repr parsed))
        ≡ (if has_clean_form parsed then some parsed else none)
  unfolding handle_clean
  clean-handle_clean parsed =
      elim (Option-cases (as_string (get_member (codes "summary") parsed))) [
        | inl e ↦ rw (e, handle_clean) (clean-make_error _ _ _)
        | inr (summary, e) ↦ elim (Bool-cases (is_blank summary)) [
          | inl f ↦ rw (e, f, handle_clean) (clean-make_error _ _ _)
          | inr f ↦ elim (Bool-cases (is_number (get_member (codes "confidence") parsed))) [
            | inr g ↦ rw (e, f, g, handle_clean) (clean-make_error _ _ _)
            | inl g ↦ elim (Bool-cases (has_member (codes "findings") parsed)) [
              | inl k ↦ rw (e, f, g, k, handle_clean) (clean-make_error _ _ _)
              | inr k ↦ elim (Bool-cases (has_member (codes "error") parsed)) [
                | inl l ↦ rw (e, f, g, k, l, handle_clean) (clean-make_error _ _ _)
                | inr l ↦ rw (e, f, g, k, l, handle_clean)
              ]
            ]
          ]
        ]
      ]

  clean-unhashable :
      (status : Json) (parsed : Members)
      → is_hashable status ≡ false
      → none ≡ (
          if is_name (codes "clean") (as_string (some status)) && has_clean_form parsed
          then some parsed
          else none)
  unfolding is_hashable as_string
  clean-unhashable status parsed h = ground arith

  findings-clean :
      (name : Text) → same name (codes "findings") ≡ true → same name (codes "clean") ≡ false
  unfolding same
  findings-clean name h = rw (same-eq name (codes "findings") h)

  clean-branches :
      (name : Text) (parsed : Members) (iterations_used : ℕ) (status : Json)
      → clean_of (
          if same name (codes "findings")
          then some (handle_findings loads str repr parsed)
          else if same name (codes "clean")
          then some (handle_clean loads str repr parsed)
          else if same name (codes "error")
          then some (handle_error loads str repr parsed)
          else some (
              make_error loads str repr
                (codes "invalid_response_schema")
                (codes "response.status="
                  ++ repr status
                  ++ codes " is not one of ['clean', 'error', 'findings']")
                (some (integer (pos iterations_used)))))
        ≡ (if same name (codes "clean") && has_clean_form parsed then some parsed else none)
  clean-branches name parsed iterations_used status =
      elim (Bool-cases (same name (codes "findings"))) [
        | inl e ↦ rw (e, findings-clean name e) (clean-handle_findings parsed)
        | inr e ↦ elim (Bool-cases (same name (codes "clean"))) [
          | inl f ↦ rw (e, f) (clean-handle_clean parsed)
          | inr f ↦ elim (Bool-cases (same name (codes "error"))) [
            | inl g ↦ rw (e, f, g) (clean-handle_error parsed)
            | inr g ↦ rw (e, f, g) (clean-make_error _ _ _)
          ]
        ]
      ]

  -- of the handlers, only that of the clean status gives a clean verdict
  clean-handle :
      (status : Json) (parsed : Members) (iterations_used : ℕ)
      → clean_of (handle loads str repr status parsed iterations_used) ≡ (
          if is_name (codes "clean") (as_string (some status)) && has_clean_form parsed
          then some parsed
          else none)
  unfolding handle
  clean-handle status parsed iterations_used = elim (Bool-cases (is_hashable status)) [
    | inr e ↦ rw (e, handle) (clean-unhashable status parsed e)
    | inl e ↦ elim (Option-cases (as_string (some status))) [
      | inl f ↦ rw (e, f, handle) (clean-make_error _ _ _)
      | inr (name, f) ↦ rw (e, f, handle) (clean-branches name parsed iterations_used status)
    ]
  ]

  abbrev expected : Bool → Option Members → Option Members
  expected refused none = none
  expected refused (some parsed) =
      if not refused && has_status (codes "clean") parsed && has_clean_form parsed
      then some parsed
      else none

  clean-no_verdict :
      (hit_iteration_cap : Bool) (iterations_used : ℕ)
      → clean_of (some (no_verdict loads str repr hit_iteration_cap iterations_used)) ≡ none
  unfolding no_verdict
  clean-no_verdict true iterations_used = clean-make_error _ _ _
  clean-no_verdict false iterations_used = clean-make_error _ _ _

  module _ (raw_text : Text) (stop_reason : Option Text) (iterations_used : ℕ)
      (hit_iteration_cap : Bool) where
    abbrev response : Option Members
    response = try_parse_json loads str repr (strip_markdown_fence raw_text)

    clean-classify :
        clean_of (
          classify_terminal_state loads str repr raw_text stop_reason iterations_used
            hit_iteration_cap)
        ≡ expected (is_refusal stop_reason) response
    unfolding classify_terminal_state
    clean-classify = elim (Bool-cases (is_refusal stop_reason)) [
      | inl e ↦ elim (Option-cases response) [
        | inl f ↦ rw (e, f, classify_terminal_state) (clean-make_error _ _ _)
        | inr (parsed, f) ↦ rw (e, f, classify_terminal_state) (clean-make_error _ _ _)
      ]
      | inr e ↦ elim (Option-cases response) [
        | inl f ↦
            rw (e, f, classify_terminal_state) (clean-no_verdict hit_iteration_cap iterations_used)
        | inr (parsed, f) ↦ elim (Option-cases (get_member (codes "status") parsed)) [
          | inl g ↦
              rw (e, f, g, classify_terminal_state)
                (clean-no_verdict hit_iteration_cap iterations_used)
          | inr (status, g) ↦
              rw (e, f, g, classify_terminal_state) (clean-handle status parsed iterations_used)
        ]
      ]
    ]

    -- A "clean" verdict of `classify_terminal_state` is the response itself, and it has earned it:
    -- the model did not refuse, the status is "clean", the summary is a string that is not blank,
    -- the confidence is a number and no bool, and there are neither findings nor an error in it.
    pub classify_terminal_state-clean :
        (parsed : Members)
        → classify_terminal_state loads str repr raw_text stop_reason iterations_used
            hit_iteration_cap
          ≡ some (clean parsed)
        → (try_parse_json loads str repr (strip_markdown_fence raw_text) ≡ some parsed)
          × (is_refusal stop_reason ≡ false)
          × (has_status (codes "clean") parsed ≡ true)
          × (has_clean_form parsed ≡ true)
    classify_terminal_state-clean parsed h =
        let earned : expected (is_refusal stop_reason) response ≡ some parsed =
          sym clean-classify ∙ ap clean_of h in
        ground (arith, earned)
