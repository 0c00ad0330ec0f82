-- ===== src/Runner/Complete.antt =====
-- Every agent of a run has a result.
use mathlib.Core.List.Perm
use mathlib.Core.List.{Perm, perm_middle, append-nil}
use revue.Prelude.{
  ◌≡◌, refl, sym, ap, ◌∙◌, subst, Bool, true, false, not, List, [], ◌∷◌, ◌++◌, map, all, All,
  String, arith, Bool-cases, inl, inr,
}
use revue.Router.Signal.{filter}
use revue.Runner.{
  Analysed, verdict, findings_list, raised, AgentRunResult, result_of, timed_out_result, run_one,
  collect_results, has_completed, mark_timed_out, run_agents_parallel,
}

partition-perm {ℓ} :
    {A : Type ℓ} (p : A → Bool) (xs : List A) → Perm (filter p xs ++ filter (λ x. not (p x)) xs) xs
unfolding filter
partition-perm p [] = Perm.refl []
partition-perm p (x ∷ xs) = elim (Bool-cases (p x)) [
  | inl e ↦ rw (e, filter) (Perm.cons x (partition-perm p xs))
  | inr e ↦
      rw (e, filter)
        (Perm.trans (perm_middle (filter p xs) (filter (λ y. not (p y)) xs))
          (Perm.cons x (partition-perm p xs)))
]

filter-same {ℓ} :
    {A : Type ℓ} (p q : A → Bool) (xs : List A)
    → All (λ x. p x ≡ q x) xs
    → filter (λ x. not (p x)) xs ≡ filter (λ x. not (q x)) xs
unfolding filter
filter-same p q [] h = refl
filter-same p q (x ∷ xs) h = rw h.0 (elim (Bool-cases (q x)) [
  | inl e ↦ rw (e, filter) (filter-same p q xs h.1)
  | inr e ↦ rw (e, filter) (ap (λ ys. x ∷ ys) (filter-same p q xs h.1))
])

filter-all {ℓ} :
    {A : Type ℓ} (p : A → Bool) (xs : List A) → all p xs ≡ true → filter (λ x. not (p x)) xs ≡ []
unfolding filter
filter-all p [] h = refl
filter-all p (x ∷ xs) h = elim (Bool-cases (p x)) [
  | inl e ↦ rw (e, filter) (filter-all p xs (ground arith))
  | inr e ↦ absurd (ground arith)
]

module _ {Float F A : Type 0} (name : A → String) (analyse : A → Analysed Float F) where
  abbrev pub names : List (AgentRunResult Float F) → List String
  names results = map (λ r. r.agent_name) results

  result_of-name : (n : String) (o : Analysed Float F) → (result_of n o).agent_name ≡ n
  unfolding result_of
  result_of-name n (verdict v) = refl
  result_of-name n (findings_list fs) = refl
  result_of-name n (raised kind message) = refl

  names-collect_results : (xs : List A) → names (collect_results name analyse xs) ≡ map name xs
  unfolding collect_results run_one
  names-collect_results [] = refl
  names-collect_results (x ∷ xs) =
      rw (result_of-name (name x) (analyse x), names-collect_results xs) refl

  names-mark_timed_out : (xs : List A) → names (mark_timed_out name analyse xs) ≡ map name xs
  unfolding mark_timed_out timed_out_result
  names-mark_timed_out [] = refl
  names-mark_timed_out (x ∷ xs) = ap (λ l. name x ∷ l) (names-mark_timed_out xs)

-- the results of a run, as those of the completed agents and those of the others
pub run_agents_parallel-parts :
    {Float F A : Type 0} (name : A → String) (analyse : A → Analysed Float F) (finished : A → Bool)
    (agents completed : List A) (is_timeout : Bool)
    → Perm completed (filter finished agents)
    → All (λ a. has_completed name analyse completed a ≡ finished a) agents
    → all finished agents ≡ not is_timeout
    → run_agents_parallel name analyse agents completed is_timeout
      ≡ collect_results name analyse completed
        ++ mark_timed_out name analyse (filter (λ a. not (finished a)) agents)
unfolding run_agents_parallel
run_agents_parallel-parts name analyse finished [] completed is_timeout order named over =
    sym (ap (λ l. collect_results name analyse l ++ []) (Perm.eq-nil order))
run_agents_parallel-parts name analyse finished (x ∷ xs) completed true order named over =
    ap (λ l. collect_results name analyse completed ++ mark_timed_out name analyse l)
      (filter-same (has_completed name analyse completed) finished (x ∷ xs) named)
run_agents_parallel-parts name analyse finished (x ∷ xs) completed false order named over = sym (
    ap (λ l. collect_results name analyse completed ++ mark_timed_out name analyse l)
      (filter-all finished (x ∷ xs) over)
    ∙ append-nil (collect_results name analyse completed))

map-append : {A B : Type 0} (f : A → B) (xs ys : List A) → map f (xs ++ ys) ≡ map f xs ++ map f ys
map-append f [] ys = refl
map-append f (x ∷ xs) ys = ap (λ l. f x ∷ l) (map-append f xs ys)

-- A parallel run has exactly one result for each agent, whatever the agents return or raise, in
-- whatever order they complete and however many are cut off by the timeout: if the completed agents
-- are, in some order, those that have finished, no other agent has the name of one of them, and
-- `as_completed` raises TimeoutError just when some agent has not finished, then the names of the
-- results are those of the agents, up to their order.
pub run_agents_parallel-perm :
    {Float F A : Type 0} (name : A → String) (analyse : A → Analysed Float F) (finished : A → Bool)
    (agents completed : List A) (is_timeout : Bool)
    → Perm completed (filter finished agents)
    → All (λ a. has_completed name analyse completed a ≡ finished a) agents
    → all finished agents ≡ not is_timeout
    → Perm
        (map
          (λ (r : AgentRunResult Float F). r.agent_name)
          (run_agents_parallel name analyse agents completed is_timeout))
        (map name agents)
run_agents_parallel-perm {Float} {F} name analyse finished agents completed is_timeout order named
      over =
    let others = filter (λ a. not (finished a)) agents in
    let parts =
      run_agents_parallel-parts name analyse finished agents completed is_timeout order named
        over in
    let listed : names name analyse (run_agents_parallel name analyse agents completed is_timeout)
        ≡ map name (completed ++ others) =
      ap (names name analyse) parts
      ∙ map-append (λ (r : AgentRunResult Float F). r.agent_name)
          (collect_results name analyse completed) (mark_timed_out name analyse others)
      ∙ ap (λ l. l ++ names name analyse (mark_timed_out name analyse others))
          (names-collect_results name analyse completed)
      ∙ ap (λ l. map name completed ++ l) (names-mark_timed_out name analyse others)
      ∙ sym (map-append name completed others) in
    subst (λ l. Perm l (map name agents)) (sym listed)
      (Perm.map name (Perm.trans (Perm.append_right others order) (partition-perm finished agents)))
