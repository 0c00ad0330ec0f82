-- ===== src/Poster/Opened.antt =====
-- The fingerprints that the store has as unresolved, and those that `merged_prior` has.
use revue.Prelude.{
  ℕ, ◌≡◌, refl, ap, ◌∙◌, subst, Bool, true, false, ◌&&◌, ◌||◌, Option, none, some, List, [], ◌∷◌,
  map, any, arith, Bool-cases, Option-cases, inl, inr,
}
use revue.Prelude.Int.{ℤ}
use revue.Prelude.Text.{Text, same, same-eq, same_refl}
use revue.Prelude.Dict.{get, put, get-put}
use revue.StateStore.Operations.{CommentState}
use revue.Tracker.Prior.{Prior, merged_entry, merge_all, build_prior}
use revue.Poster.Store.{
  Entry, Files, findings_at, save_finding, mark_resolved, is_unresolved, collect_findings,
  collect_files, get_unresolved_fingerprints,
}
use revue.Poster.World.{Tracked}
use revue.Poster.Review.{local_entry, merged_prior}

-- fp in d
abbrev pub has {ℓ} : {A : Type ℓ} → Text → List (Text × A) → Bool
has fp d = elim (get fp d) [ none ↦ false | some a ↦ true ]

pub has-put {ℓ} :
    {A : Type ℓ} (fp k : Text) (a : A) (d : List (Text × A))
    → has fp (put k a d) ≡ (same k fp || has fp d)
has-put fp k a d = rw (get-put fp k a d, has) (ground arith)

has_cons {ℓ} :
    {A : Type ℓ} (fp k : Text) (a : A) (d : List (Text × A))
    → has fp ((k, a) ∷ d) ≡ (same k fp || has fp d)
unfolding get
has_cons fp k a d = elim (Bool-cases (same k fp)) [
  | inl s ↦ rw (s, has, get) refl
  | inr s ↦ rw (s, has, get) refl
]

abbrev pub is_open_at : Text → Text × Entry → Bool
is_open_at fp (k, e) = same k fp && is_unresolved e.state

abbrev pub is_open_in : Text → Text × List (Text × Entry) → Bool
is_open_in fp (path, findings) = any (is_open_at fp) findings

-- The store has an unresolved entry for the fingerprint.
abbrev pub is_open : Text → Files → Bool
is_open fp files = any (is_open_in fp) files

put-open :
    (fp : Text) (e : Entry) (d : List (Text × Entry))
    → is_unresolved e.state ≡ true
    → any (is_open_at fp) (put fp e d) ≡ true
unfolding put
put-open fp e [] h = rw (same_refl fp, h) refl
put-open fp e ((k, b) ∷ d) h = elim (Bool-cases (same k fp)) [
  | inl s ↦ rw (s, put) (rw (s, h) refl)
  | inr s ↦ rw (s, put) (ground (arith, put-open fp e d h))
]

put-keeps :
    (fp k : Text) (e : Entry) (d : List (Text × Entry))
    → same k fp ≡ false
    → any (is_open_at fp) d ≡ true
    → any (is_open_at fp) (put k e d) ≡ true
unfolding put
put-keeps fp k e [] n h = absurd (cc)
put-keeps fp k e ((j, b) ∷ d) n h = elim (Bool-cases (same j k)) [
  | inl s ↦
      let one : j ≡ k = same-eq j k s in
      let other : same j fp ≡ false = ap (λ x. same x fp) one ∙ n in rw (s, put) (ground arith)
  | inr s ↦ rw (s, put) (ground (arith, put-keeps fp k e d n))
]

files-put-open :
    (fp path : Text) (d : List (Text × Entry)) (files : Files)
    → any (is_open_at fp) d ≡ true
    → is_open fp (put path d files) ≡ true
unfolding put
files-put-open fp path d [] h = rw h refl
files-put-open fp path d ((p, b) ∷ files) h = elim (Bool-cases (same p path)) [
  | inl s ↦ rw (s, put) (rw h refl)
  | inr s ↦ rw (s, put) (ground (arith, files-put-open fp path d files h))
]

files-put-keeps :
    (fp path : Text) (d : List (Text × Entry)) (files : Files)
    → (any (is_open_at fp) (findings_at path files) ≡ true → any (is_open_at fp) d ≡ true)
    → is_open fp files ≡ true
    → is_open fp (put path d files) ≡ true
unfolding put findings_at get
files-put-keeps fp path d [] f h = absurd (cc)
files-put-keeps fp path d ((p, b) ∷ files) f h = elim (Bool-cases (same p path)) [
  | inl s ↦
      let f' : any (is_open_at fp) b ≡ true → any (is_open_at fp) d ≡ true =
        subst (λ x. any (is_open_at fp) x ≡ true → any (is_open_at fp) d ≡ true)
          (rw (s, get, findings_at) refl) f in
      rw (s, put) (ground (arith, f'))
  | inr s ↦
      let f' : any (is_open_at fp) (findings_at path files) ≡ true → any (is_open_at fp) d ≡ true =
        subst (λ x. any (is_open_at fp) x ≡ true → any (is_open_at fp) d ≡ true)
          (rw (s, get, findings_at) refl) f in
      rw (s, put) (ground (arith, files-put-keeps fp path d files f'))
]

-- Saving a finding leaves its fingerprint open, and the others as they were.
pub save_finding-opens :
    (now : ℕ) (path fp id : Text) (line : ℤ) (body : Text) (thread : Option Text) (files : Files)
    → is_open fp (save_finding now path fp id line body thread files) ≡ true
unfolding save_finding is_unresolved
save_finding-opens now path fp id line body thread files =
    files-put-open fp path _ files (put-open fp _ (findings_at path files) refl)

pub save_finding-keeps :
    (now : ℕ) (path fp' id : Text) (line : ℤ) (body : Text) (thread : Option Text) (files : Files)
    (fp : Text)
    → is_open fp files ≡ true
    → is_open fp (save_finding now path fp' id line body thread files) ≡ true
unfolding save_finding is_unresolved
save_finding-keeps now path fp' id line body thread files fp h = elim (Bool-cases (same fp' fp)) [
  | inl e ↦
      subst (λ k. is_open k (save_finding now path fp' id line body thread files) ≡ true)
        (same-eq fp' fp e) (save_finding-opens now path fp' id line body thread files)
  | inr e ↦ files-put-keeps fp path _ files (put-keeps fp fp' _ (findings_at path files) e) h
]

-- Resolving another fingerprint leaves this one open.
pub mark_resolved-keeps :
    (now : ℕ) (path k : Text) (state : CommentState) (reason : Option Text) (files : Files)
    (fp : Text)
    → same k fp ≡ false
    → is_open fp files ≡ true
    → is_open fp (mark_resolved now path k state reason files).0 ≡ true
unfolding mark_resolved
mark_resolved-keeps now path k state reason files fp n h =
    elim (Option-cases (get k (findings_at path files))) [
      | inl e ↦ rw (e, mark_resolved) h
      | inr (entry, e) ↦
          rw (e, mark_resolved)
            (files-put-keeps fp path _ files (put-keeps fp k _ (findings_at path files) n) h)
    ]

has-collect_findings :
    (fp path : Text) (d : List (Text × Entry)) (result : List (Text × (Text × Entry)))
    → (any (is_open_at fp) d || has fp result) ≡ true
    → has fp (collect_findings path d result) ≡ true
unfolding collect_findings
has-collect_findings fp path [] result h = h
has-collect_findings fp path ((k, e) ∷ d) result h = elim (Bool-cases (is_unresolved e.state)) [
  | inl o ↦
      rw (o, collect_findings)
        (has-collect_findings fp path d (put k (path, e) result)
          (rw (has-put fp k (path, e) result) (ground arith)))
  | inr o ↦ rw (o, collect_findings) (has-collect_findings fp path d result (ground arith))
]

has-collect_files :
    (fp : Text) (files : Files) (result : List (Text × (Text × Entry)))
    → (is_open fp files || has fp result) ≡ true
    → has fp (collect_files files result) ≡ true
unfolding collect_files
has-collect_files fp [] result h = h
has-collect_files fp ((path, d) ∷ files) result h =
    has-collect_files fp files (collect_findings path d result)
      (elim (Bool-cases (any (is_open_at fp) d || has fp result)) [
        | inl e ↦ rw (has-collect_findings fp path d result e) (ground arith)
        | inr e ↦ ground arith
      ])

has-map-local_entry :
    (fp : Text) (d : List (Text × (Text × Entry))) → has fp (map local_entry d) ≡ has fp d
unfolding get local_entry
has-map-local_entry fp [] = refl
has-map-local_entry fp ((k, (path, e)) ∷ d) = rw (has_cons fp k (path, e) d) (
    has_cons fp k (local_entry (k, (path, e))).1 (map local_entry d)
    ∙ ap (λ b. same k fp || b) (has-map-local_entry fp d))

has-merge_all :
    (fp : Text) (merged local : List (Text × Prior Tracked))
    → (has fp merged || has fp local) ≡ true
    → has fp (merge_all merged local) ≡ true
unfolding merge_all get
has-merge_all fp merged [] h = ground arith
has-merge_all fp merged ((k, entry) ∷ local) h =
    has-merge_all fp (put k (merged_entry (get k merged) entry) merged) local
      (rw (has-put fp k (merged_entry (get k merged) entry) merged) (ground arith))

-- An open fingerprint is one that `merged_prior` has, whatever is read from the platform.
pub has-merged_prior :
    (fp : Text) (api_fps : List (Text × Prior Tracked)) (files : Files)
    → is_open fp files ≡ true
    → has fp (merged_prior api_fps files) ≡ true
unfolding merged_prior build_prior get_unresolved_fingerprints
has-merged_prior fp api_fps files h =
    has-merge_all fp api_fps (map local_entry (get_unresolved_fingerprints files)) (
      rw (has-map-local_entry fp (get_unresolved_fingerprints files))
        (rw (has-collect_files fp files [] (ground arith)) (ground arith)))
