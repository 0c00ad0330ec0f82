-- ===== src/Verdict/Codes.antt =====
-- The tally of the error codes.
use revue.Prelude.{
  ℕ, suc, ◌+◌, ◌≡◌, refl, Bool, true, false, ◌&&◌, Option-cases, inl, inr, Option, none, some, List,
  [], ◌∷◌, String, str_eq, eq_iff, if◌then◌else◌, count, arith,
}
use revue.Verdict.{
  AgentStatus, has_status, bump, code_of, count_code, count_codes, compute_run_verdict,
}

-- errors_by_code.get(code, 0)
abbrev pub tally : String → List (String × ℕ) → ℕ
tally code [] = 0
tally code ((k, n) ∷ counts) = let rest = tally code counts in if str_eq k code then n else rest

abbrev pub is_code : String → Option String → Bool
is_code code none = false
is_code code (some k) = str_eq k code

tally-bump :
    (code k : String) (counts : List (String × ℕ))
    → tally code (bump k counts)
      ≡ (if str_eq k code then suc (tally code counts) else tally code counts)
unfolding bump
tally-bump code k [] = ground arith
tally-bump code k ((j, n) ∷ counts) =
    ground (arith, eq_iff j k, eq_iff j code, eq_iff k code, tally-bump code k counts)

same_as_empty :
    (k code : String) → str_eq "" code ≡ false → str_eq k "" ≡ true → str_eq k code ≡ false
same_as_empty k code h e = rw ((eq_iff k "").0 e) h

tally-count_code :
    (code : String) (o : Option String) (counts : List (String × ℕ))
    → tally code (count_code o counts)
      ≡ (if is_code code o then suc (tally code counts) else tally code counts)
unfolding count_code
tally-count_code code none counts = refl
tally-count_code code (some k) counts = tally-bump code k counts

module _ {Float : Type 0} where
  abbrev pub erred_with : String → AgentStatus Float → Bool
  erred_with code s = has_status "error" s && is_code code s.error_code

  is_code-code_of :
      (code : String) (s : AgentStatus Float)
      → str_eq "" code ≡ false
      → is_code code (code_of s) ≡ erred_with code s
  unfolding code_of
  is_code-code_of code s h = elim (Option-cases s.error_code) [
    | inl e ↦ rw e (ground arith)
    | inr (k, e) ↦ rw e (ground (arith, eq_iff k "", same_as_empty k code h))
  ]

  tally-count_codes :
      (code : String) (counts : List (String × ℕ)) (statuses : List (AgentStatus Float))
      → str_eq "" code ≡ false
      → tally code (count_codes counts statuses)
        ≡ tally code counts + count (erred_with code) statuses
  unfolding count_codes
  tally-count_codes code counts [] h = omega arith
  tally-count_codes code counts (s ∷ statuses) h = ground (
    arith,
    tally-count_code code (code_of s) counts,
    is_code-code_of code s h,
    tally-count_codes code (count_code (code_of s) counts) statuses h,
  )

  -- The tally of a non-empty error code is the number of agents that erred with that code.
  tally-errors_by_code :
      (code : String) (statuses : List (AgentStatus Float))
      → str_eq "" code ≡ false
      → tally code (compute_run_verdict statuses).errors_by_code ≡ count (erred_with code) statuses
  unfolding compute_run_verdict
  tally-errors_by_code code statuses h = omega (arith, tally-count_codes code [] statuses h)
