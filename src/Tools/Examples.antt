-- ===== src/Tools/Examples.antt =====
-- The theorems about the file tools, at a repository of two files.
use revue.Prelude.{
  ℕ, ◌+◌, ◌-◌, ◌*◌, ◌≤◌, ◌<◌, ◌≡◌, refl, true, false, Option, none, some, List, [], ◌∷◌, ◌++◌,
  length, if◌then◌else◌, arith, ◌⊎◌,
}
use revue.Prelude.Int.{pos, negsuc, neg_part}
use revue.Prelude.Text.{Text, codes, same}
use revue.TerminalState.Classify.{ends_with}
use revue.ToolLoop.Dispatch.{ToolResult, utf8_length, byte_count}
use revue.Tools.Sandbox.{text, FileSystem, is_allowed, gives}
use revue.Tools.Read.{read_file, read_lines, line_count, effective_context, window}
use revue.Tools.Find.{find_code, cap_output, take_bytes, truncation_marker}
use revue.Tools.Isolation.{Agree, tools-isolated}
use revue.Tools.Bounds.{read_file-capped, window-bounded, window-negative}
use revue.Tools.Cut.{IsLongest, cap_output-cuts}

-- "a" is touched; "b" has another content in each of the two
abbrev a_file_system : Text → FileSystem
a_file_system other = record {
  resolve = λ p. gives p;
  relative_to = λ p. some p;
  exists = λ p. gives true;
  read_text = λ p. if same (codes "a") p then text (codes "x") else text other;
  ripgrep = none;
}

-- Where the touched path is read, both have the same text.
same_text :
    (one two p r : Text)
    → ◌≡◌ {A = Option Text} (some p) (some r)
    → is_allowed (codes "a" ∷ []) r ≡ true
    → (a_file_system one).read_text p ≡ (a_file_system two).read_text p
unfolding is_allowed same
same_text one two p r e h = ground arith

they-Agree : Agree (codes "a" ∷ []) (a_file_system (codes "y")) (a_file_system (codes "z"))
they-Agree = record {
  resolve = λ p. refl;
  relative_to = λ p. refl;
  exists = λ p h. refl;
  read_text = λ p h. same_text (codes "y") (codes "z") p h.0 h.1 h.2;
  ripgrep = λ p query c h. refl;
}

abbrev no_digits : ℕ → Text
no_digits n = []

tools-isolated_example :
    (read_file (a_file_system (codes "y")) (codes "a" ∷ []) no_digits 9 9 (codes "b")
      ≡ read_file (a_file_system (codes "z")) (codes "a" ∷ []) no_digits 9 9 (codes "b"))
    × (read_lines (a_file_system (codes "y")) (codes "a" ∷ []) 9 (codes "b") (pos 1) (pos 2)
        ≡ read_lines (a_file_system (codes "z")) (codes "a" ∷ []) 9 (codes "b") (pos 1) (pos 2))
    × (find_code
          (a_file_system (codes "y"))
          (codes "a" ∷ [])
          no_digits
          9
          (codes "b")
          (codes "y")
          (pos 2)
        ≡ find_code
            (a_file_system (codes "z"))
            (codes "a" ∷ [])
            no_digits
            9
            (codes "b")
            (codes "y")
            (pos 2))
tools-isolated_example =
    tools-isolated (codes "a" ∷ []) (a_file_system (codes "y")) (a_file_system (codes "z"))
      they-Agree no_digits 9 9 9 9 (codes "b") (codes "y") (pos 1) (pos 2)

abbrev a_read : ToolResult
a_read = record { content = codes "x"; is_error = false }

read_file-capped_example : (utf8_length a_read.content ≤ 9) × (line_count a_read.content ≤ 9)
unfolding read_file is_allowed same utf8_length byte_count line_count ends_with
read_file-capped_example =
    read_file-capped (a_file_system (codes "y")) (codes "a" ∷ []) no_digits 9 9 (codes "a") a_read
      refl refl

abbrev five : List Text
five = codes "1" ∷ codes "2" ∷ codes "3" ∷ codes "4" ∷ codes "5" ∷ []

window-bounded_example : length (window 1 (pos 3) (pos 50) five) ≤ 2 * 1 + 1
window-bounded_example = window-bounded 1 (pos 3) (pos 50) five (omega arith)

window-negative_example :
    (cut : List Text) × (five ≡ window 1 (negsuc 1) (pos 50) five ++ cut)
    × (length (window 1 (negsuc 1) (pos 50) five)
        ≡ length five - (neg_part (negsuc 1) - effective_context 1 (pos 50)))
unfolding effective_context
window-negative_example = window-negative 1 (negsuc 1) (pos 50) five (omega arith)

cap_output-cuts_example :
    ((utf8_length (codes "ab") ≤ 1) × (cap_output 1 (codes "ab") ≡ codes "ab"))
    ⊎ (p : Text) × (1 < utf8_length (codes "ab"))
      × IsLongest 1 (codes "ab") p
      × (cap_output 1 (codes "ab") ≡ p ++ truncation_marker)
cap_output-cuts_example = cap_output-cuts 1 (codes "ab")

cut_test : take_bytes 1 (codes "ab") ≡ codes "a"
unfolding take_bytes byte_count
cut_test = refl
