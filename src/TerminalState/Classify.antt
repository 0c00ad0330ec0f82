-- ===== src/TerminalState/Classify.antt =====
-- `classify_terminal_state` and its handlers.
use revue.Prelude.{
  ℕ, Bool, true, false, not, ◌||◌, ◌==◌, Option, none, some, List, [], ◌∷◌, ◌++◌, any,
  if◌then◌else◌,
}
use revue.Prelude.Int.{pos}
use revue.Prelude.Text.{Text, codes, same, starts_with, is_space, is_blank, lstrip}
use revue.TerminalState.Json.{
  Json, string, integer, Members, get_member, has_member, as_string, as_object, is_list, is_number,
  as_int, is_hashable, is_truthy,
}

abbrev pub error_codes : List Text
error_codes =
    codes "max_iterations_no_verdict"
    ∷ codes "invalid_response_schema"
    ∷ codes "tool_unavailable"
    ∷ codes "model_refusal"
    ∷ codes "internal_error"
    ∷ []

unfoldable pub is_error_code : Text → Bool
is_error_code code = any (same code) error_codes

-- `TerminalState`; an error has its code, its message and the iterations, if they are known
pub data TerminalState : Type 0 where
  findings clean : Members → TerminalState
  error : Text → Text → Option Json → TerminalState

-- s.rstrip() and s.strip()
unfoldable pub rstrip : Text → Text
rstrip [] = []
rstrip (c ∷ s) = elim (rstrip s) [ [] ↦ if is_space c then [] else c ∷ [] | d ∷ t ↦ c ∷ d ∷ t ]

-- "\n".join(s.split("\n")[1:])
unfoldable pub after_newline : Text → Text
after_newline [] = []
after_newline (c ∷ s) = let rest = after_newline s in if c == 10 then s else rest

-- "\n".join(s.split("\n")[:-1])
unfoldable pub before_newline : Text → Text
before_newline [] = []
before_newline (c ∷ s) =
    let rest = before_newline s in if any (λ d. d == 10) s then c ∷ rest else []

-- s.endswith(p)
unfoldable pub ends_with : Text → Text → Bool
ends_with [] p = same [] p
ends_with (c ∷ s) p = let rest = ends_with s p in if same (c ∷ s) p then true else rest

unfoldable pub strip : Text → Text
unfolding rstrip lstrip
strip s = rstrip (lstrip s)

unfoldable pub open_fence : Text → Text
unfolding after_newline
open_fence s = if starts_with s (codes "```") then after_newline s else s

unfoldable pub close_fence : Text → Text
unfolding before_newline ends_with
close_fence s = if ends_with s (codes "```") then before_newline s else s

-- `_strip_markdown_fence`
unfoldable pub strip_markdown_fence : Text → Text
unfolding strip open_fence close_fence
strip_markdown_fence text = strip (close_fence (open_fence (strip text)))

unfoldable pub is_refusal : Option Text → Bool
is_refusal none = false
is_refusal (some reason) = same reason (codes "refusal")

module _ (loads : Text → Option Json) (str : Json → Text) (repr : Json → Text) where
  -- `_try_parse_json`
  unfoldable pub try_parse_json : Text → Option Members
  unfolding as_object
  try_parse_json [] = none
  try_parse_json (c ∷ text) = as_object (loads (c ∷ text))

  -- `TerminalState.error`
  unfoldable pub make_error : Text → Text → Option Json → TerminalState
  unfolding is_error_code
  make_error code message iterations_used =
      if is_error_code code
      then error code message iterations_used
      else error (codes "internal_error")
          (message ++ codes " (original code: " ++ repr (string code) ++ codes ")") iterations_used

  abbrev pub schema_error : Text → TerminalState
  schema_error message = make_error (codes "invalid_response_schema") message none

  unfoldable pub handle_findings : Members → TerminalState
  unfolding get_member is_list has_member make_error
  handle_findings parsed =
      if not (is_list (get_member (codes "findings") parsed))
      then schema_error (
          codes "response carries status=findings but no findings array — "
          ++ codes "the schema requires both")
      else if has_member (codes "error") parsed
      then schema_error (
          codes "response carries both status=findings and an error block; "
          ++ codes "the three-state contract is exclusive")
      else findings parsed

  unfoldable pub handle_clean : Members → TerminalState
  unfolding get_member as_string is_number has_member is_blank make_error
  handle_clean parsed = elim (as_string (get_member (codes "summary") parsed)) [
    | none ↦ schema_error (
        codes "status=clean response missing required 'summary' field; "
        ++ codes "a bare clean is indistinguishable from a silent bail-out")
    | some summary ↦
        if is_blank summary
        then schema_error (
            codes "status=clean response missing required 'summary' field; "
            ++ codes "a bare clean is indistinguishable from a silent bail-out")
        else if not (is_number (get_member (codes "confidence") parsed))
        then schema_error
            (codes "status=clean response missing required numeric 'confidence' field")
        else if has_member (codes "findings") parsed || has_member (codes "error") parsed
        then schema_error (codes "status=clean response carries other branch fields")
        else clean parsed
  ]

  -- str(err.get("message") or "")
  unfoldable pub message_of : Option Json → Text
  unfolding is_truthy
  message_of none = []
  message_of (some x) = if is_truthy x then str x else []

  unfoldable pub handle_error : Members → TerminalState
  unfolding get_member as_object as_string as_int message_of make_error
  handle_error parsed = elim (as_object (get_member (codes "error") parsed)) [
    | none ↦ schema_error (codes "status=error response missing required 'error' object")
    | some err ↦ elim (as_string (get_member (codes "code") err)) [
      | none ↦ schema_error (codes "error.code must be a string from the closed set")
      | some code ↦
          make_error code (message_of (get_member (codes "message") err))
            (as_int (get_member (codes "iterations_used") err))
    ]
  ]

  -- the handler of `_BRANCH_HANDLERS` for a status, on the response; `none` is a TypeError
  unfoldable pub handle : Json → Members → ℕ → Option TerminalState
  unfolding handle_findings handle_clean handle_error is_hashable as_string
  handle status parsed iterations_used =
      if not (is_hashable status)
      then none
      else (let unknown =
            make_error (codes "invalid_response_schema")
              (codes "response.status="
                ++ repr status
                ++ codes " is not one of ['clean', 'error', 'findings']")
              (some (integer (pos iterations_used))) in
          elim (as_string (some status)) [
            | none ↦ some unknown
            | some name ↦
                if same name (codes "findings")
                then some (handle_findings parsed)
                else if same name (codes "clean")
                then some (handle_clean parsed)
                else if same name (codes "error")
                then some (handle_error parsed)
                else some unknown
          ])

  -- no response, no JSON object, or no status
  unfoldable pub no_verdict : Bool → ℕ → TerminalState
  unfolding make_error
  no_verdict hit_iteration_cap iterations_used =
      if hit_iteration_cap
      then make_error (codes "max_iterations_no_verdict")
          (codes "tool loop ran out of iterations before the model emitted a "
            ++ codes "structured verdict")
          (some (integer (pos iterations_used)))
      else make_error (codes "invalid_response_schema")
          (codes "response was empty, not JSON, or missing the 'status' discriminator")
          (some (integer (pos iterations_used)))

  unfoldable pub classify_terminal_state : Text → Option Text → ℕ → Bool → Option TerminalState
  unfolding is_refusal try_parse_json strip_markdown_fence get_member no_verdict handle make_error
  classify_terminal_state raw_text stop_reason iterations_used hit_iteration_cap =
      if is_refusal stop_reason
      then some (
          make_error (codes "model_refusal") (codes "model returned stop_reason=refusal")
            (some (integer (pos iterations_used))))
      else (elim (try_parse_json (strip_markdown_fence raw_text)) [
        | none ↦ some (no_verdict hit_iteration_cap iterations_used)
        | some parsed ↦ elim (get_member (codes "status") parsed) [
          | none ↦ some (no_verdict hit_iteration_cap iterations_used)
          | some status ↦ handle status parsed iterations_used
        ]
      ])
