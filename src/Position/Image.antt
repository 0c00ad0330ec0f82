-- ===== src/Position/Image.antt =====
-- What the body of a hunk says, independently of the parser: a patch's lines, and the lines of the
-- new file that they describe.
use revue.Prelude.{
  ℕ, suc, ◌+◌, ◌-◌, ◌<◌, ◌≡◌, Bool, true, false, not, ◌&&◌, ◌||◌, Option, none, some, List, [], ◌∷◌,
  ◌==◌, leb, ltb, get_elem?, All, contains, arith, inl, inr, Bool-cases,
}
use revue.Prelude.Text.{Text, codes, starts_with}
use revue.Position.Hunk.{match_hunk}
use revue.Position.Parsed.{
  Scan, is_preamble, add_plus, add_minus, add_context, scan_body, scan_plain, scan_line, scan_lines,
}

pub data BodyLine : Type 0 where
  context added removed : Text → BodyLine

abbrev pub render : BodyLine → Text
render (context t) = b' ' ∷ t
render (added t) = b'+' ∷ t
render (removed t) = b'-' ∷ t

abbrev pub render_all : List BodyLine → List Text
render_all [] = []
render_all (x ∷ b) = render x ∷ render_all b

-- The parser takes "+++" and "---" for file headers wherever they stand.
abbrev pub IsPlain : BodyLine → Type 0
IsPlain (context t) = Unit
IsPlain (added t) = starts_with t (codes "++") ≡ false
IsPlain (removed t) = starts_with t (codes "--") ≡ false

-- the lines of the new file, in order: whether each is added
abbrev pub new_side : List BodyLine → List Bool
new_side [] = []
new_side (context t ∷ b) = false ∷ new_side b
new_side (added t ∷ b) = true ∷ new_side b
new_side (removed t ∷ b) = new_side b

-- the lines of the old file, in order: whether each is removed
abbrev pub old_side : List BodyLine → List Bool
old_side [] = []
old_side (context t ∷ b) = false ∷ old_side b
old_side (added t ∷ b) = old_side b
old_side (removed t ∷ b) = true ∷ old_side b

abbrev pub is_mark : (Bool → Bool) → Option Bool → Bool
is_mark p none = false
is_mark p (some x) = p x

-- whether line `l` lies in a side that begins at line `n`, with a mark that satisfies `p`
abbrev pub marks : (Bool → Bool) → List Bool → ℕ → ℕ → Bool
marks p xs n l = leb n l && is_mark p (get_elem? xs (l - n))

marks_from :
    (p : Bool → Bool) (x : Bool) (xs : List Bool) (n l d : ℕ)
    → l ≡ n + suc d
    → marks p (x ∷ xs) n l ≡ marks p xs (n + 1) l
marks_from p x xs n l d e =
    let after : l - n ≡ suc d = omega arith in
    let before : l - (n + 1) ≡ d = omega arith in rw (after, before) (ground arith)

pub marks-cons :
    (p : Bool → Bool) (x : Bool) (xs : List Bool) (n l : ℕ)
    → marks p (x ∷ xs) n l ≡ ((n == l && p x) || marks p xs (n + 1) l)
marks-cons p x xs n l = elim (Bool-cases (ltb l n)) [
  | inl under ↦ ground arith
  | inr reached ↦ elim (Bool-cases (n == l)) [
    | inl here ↦ let at : l - n ≡ 0 = ground arith in rw at (ground arith)
    | inr past ↦
        let beyond : l ≡ n + suc (l - n - 1) = ground arith in
        rw (marks_from p x xs n l (l - n - 1) beyond) (ground arith)
  ]
]

step_context :
    (s : Scan) (t : Text)
    → 0 < s.cur_old + s.cur_new
    → scan_line s (render (context t)) ≡ add_context s
unfolding scan_line scan_plain scan_body is_preamble match_hunk starts_with
step_context s t h = ground arith

step_added :
    (s : Scan) (t : Text)
    → 0 < s.cur_old + s.cur_new
    → starts_with t (codes "++") ≡ false
    → scan_line s (render (added t)) ≡ add_plus s
unfolding scan_line scan_plain scan_body is_preamble match_hunk starts_with
step_added s t h p = ground arith

step_removed :
    (s : Scan) (t : Text)
    → 0 < s.cur_old + s.cur_new
    → starts_with t (codes "--") ≡ false
    → scan_line s (render (removed t)) ≡ add_minus s
unfolding scan_line scan_plain scan_body is_preamble match_hunk starts_with
step_removed s t h p = ground arith

abbrev pub same_mark : Bool → Bool
same_mark b = b

module _ (l : ℕ) where
  -- what the scan of a body adds to the sets of line numbers
  pub record Extends (s : Scan) (b : List BodyLine) (t : Scan) : Type 0 where
    pub plus :
        contains t.plus_new l ≡ (contains s.plus_new l || marks same_mark (new_side b) s.cur_new l)
    pub context :
        contains t.context_new l ≡ (contains s.context_new l || marks not (new_side b) s.cur_new l)
    pub minus :
        contains t.minus_old l
        ≡ (contains s.minus_old l || marks same_mark (old_side b) s.cur_old l)
    pub kept : t.hunks ≡ s.hunks

  pub scan-Extends :
      (s : Scan) (b : List BodyLine)
      → 0 < s.cur_old + s.cur_new
      → All IsPlain b
      → Extends s b (scan_lines s (render_all b))
  unfolding scan_lines add_plus add_minus add_context
  scan-Extends s [] h p = ground arith
  scan-Extends s (context t ∷ b) h p =
      rw (step_context s t h, scan_lines)
        (let rest = scan-Extends (add_context s) b (omega arith) p.1 in
          ground (
            arith,
            rest,
            marks-cons same_mark false (new_side b) s.cur_new l,
            marks-cons not false (new_side b) s.cur_new l,
            marks-cons same_mark false (old_side b) s.cur_old l,
          ))
  scan-Extends s (added t ∷ b) h p =
      rw (step_added s t h p.0, scan_lines)
        (let rest = scan-Extends (add_plus s) b (omega arith) p.1 in
          ground (
            arith,
            rest,
            marks-cons same_mark true (new_side b) s.cur_new l,
            marks-cons not true (new_side b) s.cur_new l,
          ))
  scan-Extends s (removed t ∷ b) h p =
      rw (step_removed s t h p.0, scan_lines)
        (let rest = scan-Extends (add_minus s) b (omega arith) p.1 in
          ground (arith, rest, marks-cons same_mark true (old_side b) s.cur_old l))
