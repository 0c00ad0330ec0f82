-- ===== src/Position/Agreement.antt =====
-- The two diff parsers of the program, `_parse_diff` and `_map_diff_lines`, beside one another.
use revue.Prelude.{
  ℕ, ◌≡◌, refl, Bool, false, ◌||◌, List, [], ◌∷◌, ◌==◌, any, any-append, All, contains, arith,
  Option-cases, inl, inr,
}
use revue.Prelude.Text.{Text, codes, starts_with, splitlines}
use revue.Position.Hunk.{match_hunk}
use revue.Position.Parsed.{
  Scan, start, enter_hunk, is_preamble, add_plus, add_minus, add_context, scan_body, scan_plain,
  scan_line, scan_lines, parse_lines, parse_diff,
}
use revue.Position.Resolver.{
  Walk, walk_start, is_marker, walk_body, walk_plain, walk_line, walk_lines, map_diff_lines,
  line_in_diff,
}

abbrev has_new_line : ℕ → ℕ × ℕ → Bool
has_new_line l pair = pair.1 == l

-- git's "index <old>..<new>" line, which only `_parse_diff` skips
abbrev pub IsNotIndex : Text → Type 0
IsNotIndex line = starts_with line (codes "index ") ≡ false

module _ (l : ℕ) where
  record Agree (s : Scan) (w : Walk) : Type 0 where
    old : s.cur_old ≡ w.cur_old
    new : s.cur_new ≡ w.cur_new
    found : any (has_new_line l) w.result ≡ (contains s.plus_new l || contains s.context_new l)

  walk_body-Agree :
      (line : Text) (s : Scan) (w : Walk) → Agree s w → Agree (scan_body s line) (walk_body w line)
  unfolding scan_body walk_body add_plus add_minus add_context
  walk_body-Agree line s w h = ground (
    arith,
    any-append (has_new_line l) w.result ((0, w.cur_new) ∷ []),
    any-append (has_new_line l) w.result ((w.cur_old, w.cur_new) ∷ []),
  )

  walk_plain-Agree :
      (line : Text) (s : Scan) (w : Walk)
      → IsNotIndex line
      → Agree s w
      → Agree (scan_plain s line) (walk_plain w line)
  unfolding scan_plain walk_plain is_preamble is_marker
  walk_plain-Agree line s w n h = ground (arith, walk_body-Agree line s w h)

  walk_line-Agree :
      (line : Text) (s : Scan) (w : Walk)
      → IsNotIndex line
      → Agree s w
      → Agree (scan_line s line) (walk_line w line)
  unfolding scan_line walk_line enter_hunk
  walk_line-Agree line s w n h = elim (Option-cases (match_hunk line)) [
    | inl e ↦ rw (e, scan_line, walk_line) (walk_plain-Agree line s w n h)
    | inr (hd, e) ↦ rw (e, scan_line, walk_line) (ground (arith, h.found))
  ]

  walk_lines-Agree :
      (lines : List Text) (s : Scan) (w : Walk)
      → All IsNotIndex lines
      → Agree s w
      → Agree (scan_lines s lines) (walk_lines w lines)
  unfolding scan_lines walk_lines
  walk_lines-Agree [] s w n h = h
  walk_lines-Agree (line ∷ lines) s w n h =
      walk_lines-Agree lines (scan_line s line) (walk_line w line) n.1
        (walk_line-Agree line s w n.0 h)

-- For a diff none of whose lines begins with "index ", `line_in_diff` holds of exactly the lines
-- that `_parse_diff` puts into `plus_new` or into `context_new`.
pub line_in_diff-parse_diff :
    (l : ℕ) (diff : Text)
    → All IsNotIndex (splitlines diff)
    → line_in_diff l diff
      ≡ (contains (parse_diff diff).plus_new l || contains (parse_diff diff).context_new l)
unfolding line_in_diff map_diff_lines parse_diff parse_lines
line_in_diff-parse_diff l diff n =
    (walk_lines-Agree l (splitlines diff) start walk_start n
      (record { old = refl; new = refl; found = refl })).found
