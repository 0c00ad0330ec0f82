-- ===== src/Tools/Bounds.antt =====
-- How much the file tools return.
use revue.Prelude.{
  ◌++◌, ℕ, zero, suc, ◌+◌, ◌-◌, ◌*◌, ◌≤◌, ◌<◌, ◌≡◌, refl, ap, ◌∙◌, subst, true, false, Bool, List,
  [], ◌∷◌, length, leb, ltb, arith, inl, inr, Bool-cases, Option-cases, if◌then◌else◌,
}
use revue.Prelude.Int.{ℤ, pos, negsuc, neg_part}
use revue.Prelude.Text.{Text}
use revue.ToolLoop.Dispatch.{ToolResult, Called, returned, raised, utf8_length}
use revue.Tools.Sandbox.{
  text, not_utf8, os_error, FileSystem, is_allowed, Checked, refused, granted, stuck, Answer, gives,
  raises, check_exists, check_destination, check_resolved, check_path,
}
use revue.Tools.Read.{
  line_count, capped, unreadable, with_text, read_checked, read_file, effective_context,
  start_index, end_index, take, drop, slice, window,
}

-- a refusal is an error
abbrev IsRefusal : Checked → Type 0
IsRefusal (refused r) = r.is_error ≡ true
IsRefusal (stuck kind message) = Unit
IsRefusal (granted p) = Unit

check_exists-IsRefusal :
    (path p : Text) (answer : Answer Bool) → IsRefusal (check_exists path p answer)
unfolding check_exists
check_exists-IsRefusal path p (gives true) = tt
check_exists-IsRefusal path p (gives false) = refl
check_exists-IsRefusal path p (raises kind message) = tt

module _ (fs : FileSystem) (allowed_paths : List Text) where
  check_destination-IsRefusal :
      (path p : Text) → IsRefusal (check_destination fs allowed_paths path p)
  unfolding check_destination
  check_destination-IsRefusal path p = elim (Option-cases (fs.relative_to p)) [
    | inl f ↦ rw (f, check_destination) refl
    | inr (r, f) ↦
        rw (f, check_destination)
          (elim (Bool-cases (is_allowed allowed_paths r)) [
            | inr g ↦ rw g refl
            | inl g ↦ rw g (check_exists-IsRefusal path p (fs.exists p))
          ])
  ]

  check_resolved-IsRefusal :
      (path : Text) (answer : Answer Text) → IsRefusal (check_resolved fs allowed_paths path answer)
  unfolding check_resolved
  check_resolved-IsRefusal path (gives p) = check_destination-IsRefusal path p
  check_resolved-IsRefusal path (raises kind message) = tt

  check_path-IsRefusal : (advice path : Text) → IsRefusal (check_path fs allowed_paths advice path)
  unfolding check_path
  check_path-IsRefusal advice path = elim (Bool-cases (is_allowed allowed_paths path)) [
    | inr e ↦ rw (e, check_path) refl
    | inl e ↦ rw (e, check_path) (check_resolved-IsRefusal path (fs.resolve path))
  ]

module _ (max_bytes max_lines : ℕ) where
  -- a result that is no error is within the caps
  abbrev IsCapped : ToolResult → Type 0
  IsCapped r =
      r.is_error ≡ false → (utf8_length r.content ≤ max_bytes) × (line_count r.content ≤ max_lines)

  capped-IsCapped :
      (str : ℕ → Text) (path content : Text)
      → IsCapped (capped str max_bytes max_lines path content)
  unfolding capped
  capped-IsCapped str path content = elim (Bool-cases (ltb max_bytes (utf8_length content))) [
    | inl e ↦ rw (e, capped) (λ h. absurd (cc))
    | inr e ↦
        rw (e, capped)
          (elim (Bool-cases (ltb max_lines (line_count content))) [
            | inl f ↦ rw f (λ h. absurd (cc))
            | inr f ↦ rw f (λ h. (ground arith, ground arith))
          ])
  ]

  abbrev AllCapped : Called → Type 0
  AllCapped (returned r) = IsCapped r
  AllCapped (raised kind message) = Unit

  read_checked-AllCapped :
      (fs : FileSystem) (str : ℕ → Text) (path : Text) (c : Checked)
      → IsRefusal c
      → AllCapped (read_checked fs path (capped str max_bytes max_lines path) c)
  unfolding read_checked with_text unreadable
  read_checked-AllCapped fs str path (refused r) e = λ h. absurd (cc)
  read_checked-AllCapped fs str path (stuck kind message) e = tt
  read_checked-AllCapped fs str path (granted p) e =
      elim (fs.read_text p)
        as (λ t. AllCapped (with_text path (capped str max_bytes max_lines path) t)) [
          | text content ↦ capped-IsCapped str path content
          | not_utf8 ↦ λ h. absurd (cc)
          | os_error kind message ↦ tt
        ]

-- What `read_file` returns without an error has at most `max_bytes` bytes in UTF-8 and at most
-- `max_lines` lines.
pub read_file-capped :
    (fs : FileSystem) (allowed_paths : List Text) (str : ℕ → Text) (max_bytes max_lines : ℕ)
    (path : Text) (r : ToolResult)
    → read_file fs allowed_paths str max_bytes max_lines path ≡ returned r
    → r.is_error ≡ false
    → (utf8_length r.content ≤ max_bytes) × (line_count r.content ≤ max_lines)
unfolding read_file
read_file-capped fs allowed_paths str max_bytes max_lines path r e h =
    subst (AllCapped max_bytes max_lines) e
      (read_checked-AllCapped max_bytes max_lines fs str path _
        (check_path-IsRefusal fs allowed_paths _ path))
      h

length-take :
    (n : ℕ) (xs : List Text) → length (take n xs) ≡ (if leb n (length xs) then n else length xs)
unfolding take
length-take zero xs = ground arith
length-take (suc n) [] = ground arith
length-take (suc n) (x ∷ xs) = ground (arith, length-take n xs)

length-drop : (n : ℕ) (xs : List Text) → length (drop n xs) ≡ length xs - n
unfolding drop
length-drop zero xs = omega arith
length-drop (suc n) [] = omega arith
length-drop (suc n) (x ∷ xs) = omega (arith, length-drop n xs)

length-slice :
    (start : ℕ) (stop : ℕ) (lines : List Text)
    → length (slice start (pos stop) lines)
      ≡ (if leb stop (length lines) then stop else length lines) - start
unfolding slice
length-slice start stop lines =
    length-drop start (take stop lines) ∙ ap (λ n. n - start) (length-take stop lines)

effective_context-le : (m : ℕ) (c : ℤ) → effective_context m c ≤ m
unfolding effective_context
effective_context-le m (pos n) = ground arith
effective_context-le m (negsuc n) = omega arith

-- A window has at most 2 * max_context + 1 lines, when the line is not further below 0 than the
-- context reaches.
pub window-bounded :
    (max_context : ℕ) (line context : ℤ) (lines : List Text)
    → neg_part line ≤ effective_context max_context context
    → length (window max_context line context lines) ≤ 2 * max_context + 1
unfolding window start_index end_index
window-bounded max_context (pos n) context lines h =
    let c = effective_context max_context context in
    let total = length lines in
    ground (
      arith,
      effective_context-le max_context context,
      length-slice (n - suc c) (if leb total (n + c) then total else n + c) lines,
    )
window-bounded max_context (negsuc n) context lines h =
    let c = effective_context max_context context in
    let total = length lines in
    ground (
      arith,
      effective_context-le max_context context,
      length-slice 0 (if leb total (c - suc n) then total else c - suc n) lines,
    )

append-take-drop : (n : ℕ) (xs : List Text) → xs ≡ take n xs ++ drop n xs
unfolding take drop
append-take-drop zero xs = refl
append-take-drop (suc n) [] = refl
append-take-drop (suc n) (x ∷ xs) = ap (λ l. x ∷ l) (append-take-drop n xs)

-- Where the line is further below 0 than the context reaches, the window's end is negative and is
-- counted from the file's end: the window is the file without its last lines, as many as the line is
-- further below 0 (all of them where the file has no more), however small `max_context` is.
pub window-negative :
    (max_context : ℕ) (line context : ℤ) (lines : List Text)
    → effective_context max_context context < neg_part line
    → (cut : List Text) × (lines ≡ window max_context line context lines ++ cut)
      × (length (window max_context line context lines)
          ≡ length lines - (neg_part line - effective_context max_context context))
unfolding window start_index end_index slice drop
window-negative max_context (pos n) context lines h = absurd (omega (arith, h))
window-negative max_context (negsuc n) context lines h =
    let c = effective_context max_context context in
    let kept = length lines - suc (n - c) in
    let far : leb c n ≡ true = ground arith in
    (
      drop kept lines,
      rw (far, window) (append-take-drop kept lines),
      rw (far, window) (ground (arith, length-take kept lines)),
    )
