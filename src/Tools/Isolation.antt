-- ===== src/Tools/Isolation.antt =====
-- What the file tools can tell apart.
use revue.Prelude.{
  ℕ, ◌≡◌, refl, sym, ap, ◌∙◌, true, false, Option, none, some, List, Bool, Bool-cases, Option-cases,
  inl, inr,
}
use revue.Prelude.Int.{ℤ}
use revue.Prelude.Text.{Text}
use revue.ToolLoop.Dispatch.{ToolResult}
use revue.Tools.Sandbox.{
  FileSystem, is_allowed, Checked, refused, granted, stuck, Answer, gives, raises, check_exists,
  check_destination, check_resolved, check_path,
}
use revue.Tools.Read.{with_text, read_checked, read_file, read_lines}
use revue.Tools.Find.{Found, literal_fallback, search_file, ripgrep_found, find_checked, find_code}

-- the full path of a file that the pull request touches
abbrev IsInside : FileSystem → List Text → Text → Type 0
IsInside fs allowed_paths p =
    (relpath : Text) × (fs.relative_to p ≡ some relpath) × (is_allowed allowed_paths relpath ≡ true)

-- ripgrep's answer, where it is installed
abbrev rg : FileSystem → Text → Text → ℤ → Option (Answer (ℕ × Text))
rg fs p query c = elim fs.ripgrep [ none ↦ none | some run ↦ some (run p query c) ]

abbrev or_fallback : Found → Option (Answer (ℕ × Text)) → Found
or_fallback found none = found
or_fallback found (some answer) = ripgrep_found answer

search_file-rg :
    (fs : FileSystem) (str : ℕ → Text) (p query : Text) (c : ℤ)
    → search_file fs str p query c
      ≡ or_fallback (literal_fallback fs str p query c) (rg fs p query c)
unfolding search_file
search_file-rg fs str p query c = elim (Option-cases fs.ripgrep) [
  | inl e ↦ rw (e, search_file, rg) refl
  | inr (run, e) ↦ rw (e, search_file, rg) refl
]

-- Two file systems with the same paths, which agree on the files that the pull request touches.
pub record Agree (allowed_paths : List Text) (fs fs' : FileSystem) : Type 0 where
  pub resolve : (p : Text) → fs.resolve p ≡ fs'.resolve p
  pub relative_to : (p : Text) → fs.relative_to p ≡ fs'.relative_to p
  pub exists : (p : Text) → IsInside fs allowed_paths p → fs.exists p ≡ fs'.exists p
  pub read_text : (p : Text) → IsInside fs allowed_paths p → fs.read_text p ≡ fs'.read_text p
  pub ripgrep :
      (p query : Text) (c : ℤ) → IsInside fs allowed_paths p → rg fs p query c ≡ rg fs' p query c

-- a granted path is inside
abbrev IsGuarded : FileSystem → List Text → Checked → Type 0
IsGuarded fs allowed_paths (refused r) = Unit
IsGuarded fs allowed_paths (stuck kind message) = Unit
IsGuarded fs allowed_paths (granted p) = IsInside fs allowed_paths p

module _ (allowed_paths : List Text) (fs : FileSystem) where
  check_exists-IsGuarded :
      (path p : Text) (answer : Answer Bool)
      → IsInside fs allowed_paths p
      → IsGuarded fs allowed_paths (check_exists path p answer)
  unfolding check_exists
  check_exists-IsGuarded path p (gives true) h = h
  check_exists-IsGuarded path p (gives false) h = tt
  check_exists-IsGuarded path p (raises kind message) h = tt

  check_destination-IsGuarded :
      (path p : Text) → IsGuarded fs allowed_paths (check_destination fs allowed_paths path p)
  unfolding check_destination
  check_destination-IsGuarded path p = elim (Option-cases (fs.relative_to p)) [
    | inl e ↦ rw (e, check_destination) tt
    | inr (r, e) ↦
        rw (e, check_destination)
          (elim (Bool-cases (is_allowed allowed_paths r)) [
            | inr f ↦ rw f tt
            | inl f ↦ rw f (check_exists-IsGuarded path p (fs.exists p) (r, e, f))
          ])
  ]

  check_resolved-IsGuarded :
      (path : Text) (answer : Answer Text)
      → IsGuarded fs allowed_paths (check_resolved fs allowed_paths path answer)
  unfolding check_resolved
  check_resolved-IsGuarded path (gives p) = check_destination-IsGuarded path p
  check_resolved-IsGuarded path (raises kind message) = tt

  check_path-IsGuarded :
      (advice path : Text) → IsGuarded fs allowed_paths (check_path fs allowed_paths advice path)
  unfolding check_path
  check_path-IsGuarded advice path = elim (Bool-cases (is_allowed allowed_paths path)) [
    | inl e ↦ rw (e, check_path) (check_resolved-IsGuarded path (fs.resolve path))
    | inr e ↦ rw (e, check_path) tt
  ]

module _ (allowed_paths : List Text) (fs fs' : FileSystem)
    (agree : Agree allowed_paths fs fs') where
  check_destination-agrees :
      (path p : Text)
      → check_destination fs allowed_paths path p ≡ check_destination fs' allowed_paths path p
  unfolding check_destination
  check_destination-agrees path p = elim (Option-cases (fs.relative_to p)) [
    | inl e ↦ rw (e, sym (agree.relative_to p) ∙ e, check_destination) refl
    | inr (r, e) ↦
        rw (e, sym (agree.relative_to p) ∙ e, check_destination)
          (elim (Bool-cases (is_allowed allowed_paths r)) [
            | inr f ↦ rw f refl
            | inl f ↦ rw (agree.exists p (r, e, f)) refl
          ])
  ]

  check_resolved-agrees :
      (path : Text) (answer : Answer Text)
      → check_resolved fs allowed_paths path answer ≡ check_resolved fs' allowed_paths path answer
  unfolding check_resolved
  check_resolved-agrees path (gives p) = check_destination-agrees path p
  check_resolved-agrees path (raises kind message) = refl

  check_path-agrees :
      (advice path : Text)
      → check_path fs allowed_paths advice path ≡ check_path fs' allowed_paths advice path
  unfolding check_path
  check_path-agrees advice path =
      rw (agree.resolve path) (rw (check_resolved-agrees path (fs'.resolve path)) refl)

  read_checked-agrees :
      (path : Text) (use_text : Text → ToolResult) (c : Checked)
      → IsGuarded fs allowed_paths c
      → read_checked fs path use_text c ≡ read_checked fs' path use_text c
  unfolding read_checked
  read_checked-agrees path use_text (refused r) h = refl
  read_checked-agrees path use_text (stuck kind message) h = refl
  read_checked-agrees path use_text (granted p) h =
      ap (with_text path use_text) (agree.read_text p h)

  literal_fallback-agrees :
      (str : ℕ → Text) (p query : Text) (c : ℤ)
      → IsInside fs allowed_paths p
      → literal_fallback fs str p query c ≡ literal_fallback fs' str p query c
  unfolding literal_fallback
  literal_fallback-agrees str p query c h = rw (agree.read_text p h, literal_fallback) refl

  search_file-agrees :
      (str : ℕ → Text) (p query : Text) (c : ℤ)
      → IsInside fs allowed_paths p
      → search_file fs str p query c ≡ search_file fs' str p query c
  search_file-agrees str p query c h =
      search_file-rg fs str p query c
      ∙ ap (or_fallback (literal_fallback fs str p query c)) (agree.ripgrep p query c h)
      ∙ ap (λ found. or_fallback found (rg fs' p query c)) (literal_fallback-agrees str p query c h)
      ∙ sym (search_file-rg fs' str p query c)

  find_checked-agrees :
      (str : ℕ → Text) (cap : ℕ) (path query : Text) (c : ℤ) (k : Checked)
      → IsGuarded fs allowed_paths k
      → find_checked fs str cap path query c k ≡ find_checked fs' str cap path query c k
  unfolding find_checked
  find_checked-agrees str cap path query c (refused r) h = refl
  find_checked-agrees str cap path query c (stuck kind message) h = refl
  find_checked-agrees str cap path query c (granted p) h =
      rw (search_file-agrees str p query c h) refl

-- The three tools cannot tell two file systems apart that resolve paths alike and agree on the files
-- of the pull request: whatever the path, the line, the query and the caps, what lies outside the
-- repository, and what the pull request does not touch, has no influence on a result.
pub tools-isolated :
    (allowed_paths : List Text) (fs fs' : FileSystem) (agree : Agree allowed_paths fs fs')
    (str : ℕ → Text) (max_bytes max_lines max_context cap : ℕ) (path query : Text)
    (line context : ℤ)
    → (read_file fs allowed_paths str max_bytes max_lines path
        ≡ read_file fs' allowed_paths str max_bytes max_lines path)
      × (read_lines fs allowed_paths max_context path line context
          ≡ read_lines fs' allowed_paths max_context path line context)
      × (find_code fs allowed_paths str cap path query context
          ≡ find_code fs' allowed_paths str cap path query context)
unfolding read_file read_lines find_code
tools-isolated allowed_paths fs fs' agree str max_bytes max_lines max_context cap path query line
      context =
    (
      read_checked-agrees allowed_paths fs fs' agree path _ _
            (check_path-IsGuarded allowed_paths fs _ path)
          ∙ ap (read_checked fs' path _) (check_path-agrees allowed_paths fs fs' agree _ path),
      read_checked-agrees allowed_paths fs fs' agree path _ _
            (check_path-IsGuarded allowed_paths fs _ path)
          ∙ ap (read_checked fs' path _) (check_path-agrees allowed_paths fs fs' agree _ path),
      find_checked-agrees allowed_paths fs fs' agree str cap path query context _
            (check_path-IsGuarded allowed_paths fs _ path)
          ∙ ap (find_checked fs' str cap path query context)
              (check_path-agrees allowed_paths fs fs' agree _ path),
    )
