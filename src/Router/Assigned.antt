-- ===== src/Router/Assigned.antt =====
-- The files that `assign_files_to_agents` hands out.
use mathlib.Core.List.Perm
use mathlib.Core.List.{Perm, perm_middle, append_assoc, append-nil}
use revue.Prelude.{
  ◌≡◌, refl, ap, subst, ◌∙◌, ℕ, ◌+◌, ◌%◌, suc, zero, Bool, true, false, ◌||◌, Option, none, some,
  List, [], ◌∷◌, ◌++◌, get_elem?, length, arith, Bool-cases, Option-cases, inl, inr,
}
use revue.Prelude.Text.{Text, same, same_refl}
use revue.Prelude.Dict.{get, put, get-put}
use revue.Router.Triggers.{
  FileChange, listed, assign, no_files, nth_agent, assign_from, assign_files_to_agents,
}

-- all paths of an assignment
abbrev pub all_files : List (Text × List Text) → List Text
all_files [] = []
all_files ((k, paths) ∷ d) = paths ++ all_files d

abbrev pub paths_of : List FileChange → List Text
paths_of [] = []
paths_of (fc ∷ changes) = fc.file_path ∷ paths_of changes

abbrev has_key : Text → List (Text × List Text) → Bool
has_key j d = elim (get j d) [ none ↦ false | some paths ↦ true ]

has_key-cons :
    (j k : Text) (paths : List Text) (d : List (Text × List Text))
    → has_key j ((k, paths) ∷ d) ≡ (same k j || has_key j d)
unfolding get
has_key-cons j k paths d = elim (Bool-cases (same k j)) [
  | inl e ↦ rw (e, has_key) refl
  | inr e ↦ rw (e, has_key) refl
]

assign-perm :
    (agent path : Text) (d : List (Text × List Text))
    → has_key agent d ≡ true
    → Perm (all_files (assign agent path d)) (path ∷ all_files d)
unfolding assign get
assign-perm agent path [] h = cc
assign-perm agent path ((k, paths) ∷ d) h = elim (Bool-cases (same k agent)) [
  | inl here ↦
      rw (here, assign)
        (rw (append_assoc paths (path ∷ []) (all_files d)) (perm_middle paths (all_files d)))
  | inr there ↦
      let later : has_key agent d ≡ true = ground (arith, has_key-cons agent k paths d, there, h) in
      rw (there, assign)
        (Perm.trans (Perm.append_left paths (assign-perm agent path d later))
          (perm_middle paths (all_files d)))
]

has_key-assign :
    (j agent path : Text) (d : List (Text × List Text))
    → has_key j (assign agent path d) ≡ has_key j d
unfolding assign get
has_key-assign j agent path [] = refl
has_key-assign j agent path ((k, paths) ∷ d) = ground (arith, has_key-assign j agent path d)

has_key-put :
    (j k : Text) (d : List (Text × List Text)) → has_key j (put k [] d) ≡ (same k j || has_key j d)
has_key-put j k d =
    ap (λ (o : Option (List Text)). elim o [ none ↦ false | some paths ↦ true ]) (get-put j k [] d)
    ∙ elim (Bool-cases (same k j)) [ inl e ↦ rw e refl | inr e ↦ rw e refl ]

has_key-no_files :
    (j : Text) (d : List (Text × List Text)) (names : List Text)
    → has_key j (no_files d names) ≡ (listed j names || has_key j d)
unfolding no_files listed
has_key-no_files j d [] = refl
has_key-no_files j d (name ∷ names) =
    ground (arith, has_key-no_files j (put name [] d) names, has_key-put j name d)

abbrev IsUnused : List (Text × List Text) → Type 0
IsUnused [] = Unit
IsUnused (entry ∷ d) = (entry.1 ≡ []) × IsUnused d

put-IsUnused : (k : Text) (d : List (Text × List Text)) → IsUnused d → IsUnused (put k [] d)
unfolding put
put-IsUnused k [] h = (refl, tt)
put-IsUnused k ((j, paths) ∷ d) h = ground (arith, put-IsUnused k d h.1, h.0, h.1)

no_files-IsUnused :
    (d : List (Text × List Text)) (names : List Text) → IsUnused d → IsUnused (no_files d names)
unfolding no_files
no_files-IsUnused d [] h = h
no_files-IsUnused d (name ∷ names) h =
    no_files-IsUnused (put name [] d) names (put-IsUnused name d h)

all_files-IsUnused : (d : List (Text × List Text)) → IsUnused d → all_files d ≡ []
all_files-IsUnused [] h = refl
all_files-IsUnused ((k, paths) ∷ d) h = rw (h.0, all_files-IsUnused d h.1)

listed-get_elem? :
    (xs : List Text) (k : ℕ) (name : Text) → get_elem? xs k ≡ some name → listed name xs ≡ true
unfolding listed
listed-get_elem? [] k name h = ground arith
listed-get_elem? (x ∷ xs) zero name h = ground (arith, h, same_refl x)
listed-get_elem? (x ∷ xs) (suc k) name h = ground (arith, listed-get_elem? xs k name h)

nth_agent-listed :
    (first : Text) (names : List Text) (i : ℕ)
    → listed (nth_agent first names i) (first ∷ names) ≡ true
unfolding nth_agent
nth_agent-listed first names i =
    elim (Option-cases (get_elem? (first ∷ names) (i % suc (length names)))) [
      | inl e ↦ rw (e, nth_agent) (unfold listed in rw (same_refl first))
      | inr (name, e) ↦
          rw (e, nth_agent) (listed-get_elem? (first ∷ names) (i % suc (length names)) name e)
    ]

assign_from-perm :
    (first : Text) (names : List Text) (i : ℕ) (changes : List FileChange)
    (d : List (Text × List Text))
    → ((j : Text) → listed j (first ∷ names) ≡ true → has_key j d ≡ true)
    → Perm (all_files (assign_from first names i changes d)) (paths_of changes ++ all_files d)
unfolding assign_from
assign_from-perm first names i [] d h = Perm.refl (all_files d)
assign_from-perm first names i (fc ∷ changes) d h =
    let agent = nth_agent first names i in
    let d' = assign agent fc.file_path d in
    Perm.trans
      (assign_from-perm first names (i + 1) changes d'
        (λ j member. has_key-assign j agent fc.file_path d ∙ h j member))
      (Perm.trans
        (Perm.append_left (paths_of changes)
          (assign-perm agent fc.file_path d (h agent (nth_agent-listed first names i))))
        (perm_middle (paths_of changes) (all_files d)))

-- With at least one agent, `assign_files_to_agents` hands out each changed file exactly once: the
-- assigned paths are a permutation of those of the changes.
pub assign_files_to_agents-perm :
    (first : Text) (names : List Text) (changes : List FileChange)
    → Perm (all_files (assign_files_to_agents (first ∷ names) changes)) (paths_of changes)
unfolding assign_files_to_agents
assign_files_to_agents-perm first names changes =
    let d = no_files [] (first ∷ names) in
    let unused = all_files-IsUnused d (no_files-IsUnused [] (first ∷ names) tt) in
    let p =
      assign_from-perm first names 0 changes d
        (λ j member. ground (arith, has_key-no_files j [] (first ∷ names), member)) in
    subst (λ e. Perm (all_files (assign_from first names 0 changes d)) e)
      (ap (λ e. paths_of changes ++ e) unused ∙ append-nil (paths_of changes)) p
