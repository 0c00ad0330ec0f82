-- ===== src/Verdict/Order.antt =====
-- The verdict and the order in which the agents are listed.
use mathlib.Core.List.{Perm, Permᴰ}
use mathlib.Core.Logic.{∥∥₁_elim}
use native.Mathlib.Nat.{ℕ_set}
use revue.Prelude.{suc, ◌≡◌, refl, ap, ◌∙◌, Bool, List, count, length, arith}
use revue.Verdict.{AgentStatus, has_status, compute_run_verdict}

module _ {ℓ} {A : Type ℓ} where
  count-Permᴰ : (p : A → Bool) {xs ys : List A} → Permᴰ xs ys → count p xs ≡ count p ys
  count-Permᴰ p Permᴰ.nil = refl
  count-Permᴰ p (Permᴰ.cons e r) = rw e (ground (arith, count-Permᴰ p r))
  count-Permᴰ p (Permᴰ.swap e f) = rw (e, f) (ground arith)
  count-Permᴰ p (Permᴰ.trans r s) = count-Permᴰ p r ∙ count-Permᴰ p s

  count-perm : (p : A → Bool) {xs ys : List A} → Perm xs ys → count p xs ≡ count p ys
  count-perm p r = ∥∥₁_elim r (ℕ_set _ _) (count-Permᴰ p)

  length-Permᴰ : {xs ys : List A} → Permᴰ xs ys → length xs ≡ length ys
  length-Permᴰ Permᴰ.nil = refl
  length-Permᴰ (Permᴰ.cons e r) = ap suc (length-Permᴰ r)
  length-Permᴰ (Permᴰ.swap e f) = refl
  length-Permᴰ (Permᴰ.trans r s) = length-Permᴰ r ∙ length-Permᴰ s

  length-perm : {xs ys : List A} → Perm xs ys → length xs ≡ length ys
  length-perm r = ∥∥₁_elim r (ℕ_set _ _) length-Permᴰ

-- Statuses that are a permutation of one another give the same verdict and the same three counts.
compute_run_verdict-perm :
    {Float : Type 0} {xs ys : List (AgentStatus Float)}
    → Perm xs ys
    → ((compute_run_verdict xs).verdict ≡ (compute_run_verdict ys).verdict)
      × ((compute_run_verdict xs).clean_count ≡ (compute_run_verdict ys).clean_count)
      × ((compute_run_verdict xs).finding_count ≡ (compute_run_verdict ys).finding_count)
      × ((compute_run_verdict xs).error_count ≡ (compute_run_verdict ys).error_count)
unfolding compute_run_verdict
compute_run_verdict-perm r =
    let cleans = count-perm (has_status "clean") r in
    let findings = count-perm (has_status "findings") r in
    let errors = count-perm (has_status "error") r in
    (rw (length-perm r, cleans, findings, errors), cleans, findings, errors)
