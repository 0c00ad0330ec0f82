-- ===== src/Position/Anchoring.antt =====
-- `calculate` against the new file that a hunk describes.
use revue.Prelude.{
  ℕ, zero, suc, ◌+◌, ◌-◌, ◌≤◌, ◌<◌, ◌≡◌, ◌≢◌, refl, sym, ◌∙◌, ◌&&◌, length, ltb, Bool, true, false,
  not, some, List, [], ◌∷◌, leb, if◌then◌else◌, get_elem?, All, contains, arith,
}
use revue.Prelude.Text.{Text, IsLine, unlines, splitlines-unlines}
use revue.Position.Hunk.{Header, match_hunk}
use revue.Position.Parsed.{
  start, enter_hunk, to_hunk, count_or_one, scan_line, scan_lines, parse_lines, parse_diff,
}
use revue.Position.Classify.{
  anchored, context_line, removed_line, out_of_hunk, covers, find_cover, classify, calculate,
}
use revue.Position.Image.{
  BodyLine, context, added, removed, render_all, IsPlain, new_side, old_side, is_mark, marks,
  same_mark, Extends, scan-Extends,
}

-- A diff of one hunk: a header line that `_HUNK_RE` matches, and a body.
pub record OneHunk (header : Text) (h : Header) (body : List BodyLine) : Type 0 where
  pub matched : match_hunk header ≡ some h
  pub numbered : 0 < h.old_start + h.new_start
  pub plain : All IsPlain body
  pub lines : All IsLine (header ∷ render_all body)

abbrev pub text_of : Text → List BodyLine → Text
text_of header body = unlines (header ∷ render_all body)

abbrev pub IsAdded : BodyLine → Type 0
IsAdded (added t) = Unit
IsAdded _ = ⊥

All-added-mark :
    (b : List BodyLine) (k : ℕ)
    → All IsAdded b
    → is_mark same_mark (get_elem? (new_side b) k) ≡ ltb k (length b)
All-added-mark [] k h = ground arith
All-added-mark (added t ∷ b) zero h = ground arith
All-added-mark (added t ∷ b) (suc k) h = ground (arith, All-added-mark b k h.1)
All-added-mark (context t ∷ b) k h = absurd h.0
All-added-mark (removed t ∷ b) k h = absurd h.0

All-added-context :
    (b : List BodyLine) (k : ℕ) → All IsAdded b → is_mark not (get_elem? (new_side b) k) ≡ false
All-added-context [] k h = refl
All-added-context (added t ∷ b) zero h = refl
All-added-context (added t ∷ b) (suc k) h = All-added-context b k h.1
All-added-context (context t ∷ b) k h = absurd h.0
All-added-context (removed t ∷ b) k h = absurd h.0

All-added-old_side : (b : List BodyLine) → All IsAdded b → old_side b ≡ []
All-added-old_side [] h = refl
All-added-old_side (added t ∷ b) h = All-added-old_side b h.1
All-added-old_side (context t ∷ b) h = absurd h.0
All-added-old_side (removed t ∷ b) h = absurd h.0

marks-add :
    (p : Bool → Bool) (xs : List Bool) (n k : ℕ) → marks p xs n (n + k) ≡ is_mark p (get_elem? xs k)
marks-add p xs n k = let offset : n + k - n ≡ k = omega arith in rw offset (ground arith)

module _ (header : Text) (h : Header) (body : List BodyLine) (one : OneHunk header h body) where
  parse-text_of :
      parse_diff (text_of header body) ≡ (scan_lines (enter_hunk start h) (render_all body)).parsed
  unfolding parse_diff parse_lines scan_lines scan_line
  parse-text_of =
      rw (splitlines-unlines (header ∷ render_all body) one.lines, parse_lines)
        (rw (one.matched, scan_lines, scan_line))

  sets :
      (l : ℕ)
      → Extends l (enter_hunk start h) body (scan_lines (enter_hunk start h) (render_all body))
  unfolding enter_hunk
  sets l = scan-Extends l (enter_hunk start h) body one.numbered one.plain

  plus_new-text_of :
      (l : ℕ)
      → contains (parse_diff (text_of header body)).plus_new l
        ≡ marks same_mark (new_side body) h.new_start l
  unfolding enter_hunk
  plus_new-text_of l = rw parse-text_of (sets l).plus

  context_new-text_of :
      (l : ℕ)
      → contains (parse_diff (text_of header body)).context_new l
        ≡ marks not (new_side body) h.new_start l
  unfolding enter_hunk
  context_new-text_of l = rw parse-text_of (sets l).context

  minus_old-text_of :
      (l : ℕ)
      → contains (parse_diff (text_of header body)).minus_old l
        ≡ marks same_mark (old_side body) h.old_start l
  unfolding enter_hunk
  minus_old-text_of l = rw parse-text_of (sets l).minus

  hunks-text_of : (parse_diff (text_of header body)).hunks ≡ to_hunk h ∷ []
  unfolding enter_hunk
  hunks-text_of = rw parse-text_of (sets 0).kept

  status-text_of :
      (l : ℕ) (file_path : Text) (replacement_line_count : ℕ)
      → (calculate (text_of header body) l file_path replacement_line_count).status ≡ (
          if marks same_mark (new_side body) h.new_start l
          then anchored
          else if marks not (new_side body) h.new_start l
          then context_line
          else if marks same_mark (old_side body) h.old_start l
          then removed_line
          else if covers l (to_hunk h)
          then anchored
          else out_of_hunk)
  unfolding calculate classify find_cover
  status-text_of l file_path rlc =
      rw (plus_new-text_of l, context_new-text_of l, minus_old-text_of l, hunks-text_of, classify)
        (ground arith)

  -- For a diff of one hunk (`OneHunk`: a header that `_HUNK_RE` matches, which does not number both
  -- sides from 0, and a body in which no changed line looks like a file header, all without line
  -- ends): `calculate` gives line k of the new side the status anchored if the hunk adds it, and
  -- context_line otherwise.
  pub calculate-status :
      (k : ℕ) (file_path : Text) (replacement_line_count : ℕ) {mark : Bool}
      → get_elem? (new_side body) k ≡ some mark
      → (calculate (text_of header body) (h.new_start + k) file_path replacement_line_count).status
        ≡ (if mark then anchored else context_line)
  calculate-status k file_path rlc {mark} e =
      let l = h.new_start + k in
      rw
        (
          status-text_of,
          marks-add same_mark (new_side body) h.new_start k,
          marks-add not (new_side body) h.new_start k,
          e,
        )
        (ground arith)

  -- For a diff of one hunk (`OneHunk`) whose header announces an old line, `calculate` anchors a
  -- line only if the hunk adds it.
  pub calculate-anchored :
      (l : ℕ) (file_path : Text) (replacement_line_count : ℕ)
      → count_or_one h.old_count ≢ 0
      → (calculate (text_of header body) l file_path replacement_line_count).status ≡ anchored
      → (k : ℕ) × (l ≡ h.new_start + k) × (get_elem? (new_side body) k ≡ some true)
  unfolding covers
  calculate-anchored l file_path rlc some_old e =
      let now = sym (status-text_of l file_path rlc) ∙ e in
      (l - h.new_start, ground arith, ground arith)

  -- For a diff of one hunk (`OneHunk`): if the header announces no old line and the body consists
  -- of added lines, no more than the header announces, then exactly the announced lines are
  -- anchored, also where the body was cut off before them, and every other line is out of the hunk.
  calculate-truncated :
      (l : ℕ) (file_path : Text) (replacement_line_count : ℕ)
      → h.old_count ≡ some 0
      → All IsAdded body
      → length body ≤ count_or_one h.new_count
      → (calculate (text_of header body) l file_path replacement_line_count).status ≡ (
          if leb h.new_start l && ltb l (h.new_start + count_or_one h.new_count)
          then anchored
          else out_of_hunk)
  unfolding covers
  calculate-truncated l file_path rlc no_old all_added short =
      let k = l - h.new_start in
      rw (status-text_of, All-added-old_side body all_added)
        (ground (arith, All-added-mark body k all_added, All-added-context body k all_added))
