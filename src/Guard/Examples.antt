-- ===== src/Guard/Examples.antt =====
-- The theorems about the guard at a concrete file.
use revue.Prelude.{◌≡◌, refl, ℕ, false, Option, some, List, [], ◌∷◌, ◌++◌, any}
use revue.Prelude.Text.{Text, codes, is_blank}
use revue.Consolidator.Findings.{ConsolidatedFinding, singleton}
use revue.Guard.{leading_indent, should_downgrade}
use revue.Guard.Orphans.{reaches, should_downgrade-reaches}

abbrev above : List Text
above = codes "def f():" ∷ []

abbrev range : List Text
range = codes "  if a:" ∷ codes "    b()" ∷ []

abbrev blanks : List Text
blanks = codes " " ∷ []

abbrev below : Text
below = codes "  c()"

should_downgrade-reaches_example :
    ((should_downgrade (above ++ (range ++ (blanks ++ below ∷ []))) 2 2).0
      ≡ any (reaches (leading_indent below)) range)
    × ((should_downgrade (above ++ (range ++ blanks)) 2 2).0 ≡ false)
unfolding is_blank
should_downgrade-reaches_example = should_downgrade-reaches above range blanks refl below [] refl

abbrev read_file : Text → Option Text
read_file path = some (codes "def f():\n  if a:\n    b()\n  c()\n")

abbrev finding : ConsolidatedFinding ℕ
finding = record {
  file_path = codes "a.py";
  line_number = 2;
  severity = "high";
  issue = codes "bad";
  suggestion = codes "mend";
  confidence = 90;
  category = codes "style";
  attribution = [];
  code_replacement = some (codes "  pass" ∷ []);
  replacement_line_count = 2;
  snippet = [];
  group_type = singleton;
}
