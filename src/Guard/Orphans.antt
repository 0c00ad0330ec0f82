-- ===== src/Guard/Orphans.antt =====
-- When the guard takes a replacement away.
use revue.Prelude.{
  ◌≡◌, refl, ap, ◌∙◌, ◌-◌, ℕ, suc, Bool, true, false, not, ◌&&◌, ◌||◌, none, some, List, [], ◌∷◌,
  ◌++◌, leb, length, any, all, arith,
}
use revue.Prelude.Text.{Text, is_blank}
use revue.Guard.{
  leading_indent, lines_from, first_lines, range_indents, min_of, probe, decide_trailing, decide,
  should_downgrade,
}

lines_from-append : (pre lines : List Text) → lines_from (pre ++ lines) (length pre) ≡ lines
unfolding lines_from
lines_from-append [] lines = refl
lines_from-append (line ∷ pre) lines = lines_from-append pre lines

first_lines-append : (range lines : List Text) → first_lines (length range) (range ++ lines) ≡ range
unfolding first_lines
first_lines-append [] lines = refl
first_lines-append (line ∷ range) lines = ap (λ ls. line ∷ ls) (first_lines-append range lines)

probe-append :
    (blanks lines : List Text) → all is_blank blanks ≡ true → probe (blanks ++ lines) ≡ probe lines
unfolding probe
probe-append [] lines h = refl
probe-append (line ∷ blanks) lines h = ground (arith, probe-append blanks lines)

-- a line of the range, not blank, that is indented by `indent` at most
abbrev pub reaches : ℕ → Text → Bool
reaches indent line = not (is_blank line) && leb (leading_indent line) indent

min_of-leb :
    (n indent : ℕ) (ms : List ℕ)
    → leb (min_of n ms) indent ≡ (leb n indent || any (λ m. leb m indent) ms)
unfolding min_of
min_of-leb n indent [] = ground arith
min_of-leb n indent (m ∷ ms) = ground (arith, min_of-leb m indent ms)

any-range_indents :
    (indent : ℕ) (range : List Text)
    → any (λ m. leb m indent) (range_indents range) ≡ any (reaches indent) range
unfolding range_indents
any-range_indents indent [] = refl
any-range_indents indent (line ∷ range) = ground (arith, any-range_indents indent range)

decide-some :
    (indents : List ℕ) (line : Text)
    → (decide indents (some line)).0 ≡ any (λ m. leb m (leading_indent line)) indents
unfolding decide decide_trailing
decide-some [] line = refl
decide-some (n ∷ indents) line = min_of-leb n (leading_indent line) indents

decide-none : (indents : List ℕ) → (decide indents none).0 ≡ false
unfolding decide decide_trailing
decide-none [] = refl
decide-none (n ∷ indents) = refl

should_downgrade-append :
    (pre range after : List Text)
    → should_downgrade (pre ++ (range ++ after)) (suc (length pre)) (length range)
      ≡ decide (range_indents range) (probe after)
unfolding should_downgrade
should_downgrade-append pre range after =
    let offset : suc (length pre) - 1 ≡ length pre = omega arith in
    rw (
      offset,
      lines_from-append pre (range ++ after),
      lines_from-append range after,
      first_lines-append range after,
    )

probe-blanks : (blanks : List Text) → all is_blank blanks ≡ true → probe blanks ≡ none
unfolding probe
probe-blanks [] h = refl
probe-blanks (line ∷ blanks) h = ground (arith, probe-blanks blanks)

probe-text :
    (line : Text) (rest : List Text) → is_blank line ≡ false → probe (line ∷ rest) ≡ some line
unfolding probe
probe-text line rest h = rw (h, probe)

module _ (pre range blanks : List Text) (blank : all is_blank blanks ≡ true) where
  -- For a range of lines in a file, followed by blank lines and then by another line,
  -- `_should_downgrade` holds exactly if some line of the range that is not blank is indented at most
  -- as far as that other line. At the end of the file it does not hold.
  pub should_downgrade-reaches :
      (trailing : Text) (rest : List Text)
      → is_blank trailing ≡ false
      → ((should_downgrade
            (pre ++ (range ++ (blanks ++ trailing ∷ rest)))
            (suc (length pre))
            (length range)).0
          ≡ any (reaches (leading_indent trailing)) range)
        × ((should_downgrade (pre ++ (range ++ blanks)) (suc (length pre)) (length range)).0
            ≡ false)
  should_downgrade-reaches trailing rest some_text = (
    rw
        (
          should_downgrade-append pre range (blanks ++ trailing ∷ rest),
          probe-append blanks (trailing ∷ rest) blank,
          probe-text trailing rest some_text,
        )
        (decide-some (range_indents range) trailing
          ∙ any-range_indents (leading_indent trailing) range),
    rw (should_downgrade-append pre range blanks, probe-blanks blanks blank)
        (decide-none (range_indents range)),
  )
