-- ===== src/StateStore/Examples.antt =====
-- The theorems about the store at a concrete sequence of calls.
use revue.Prelude.{◌≡◌, ℕ, ◌+◌, none, some, List, [], ◌∷◌}
use revue.Prelude.Text.{Text, codes}
use revue.StateStore.Operations.{Pr, github, wont_fix, resolved}
use revue.StateStore.View.{state_at}
use revue.StateStore.Refinement.{
  Operation, save, transition, summarise, apply_all, replay, apply_all-refines,
}

abbrev str : ℕ → Text
str n = (48 + n) ∷ []

abbrev percentage : ℕ → ℕ → ℕ
percentage fixed total = 0

abbrev pr : Pr
pr = record { platform = github; repo_full_name = codes "o/r"; pr_number = 7 }

abbrev operations : List Operation
operations =
    save 1 pr (codes "f1") (codes "c1") (codes "a.py") 3 (codes "bad")
    ∷ save 2 pr (codes "f2") (codes "c2") (codes "a.py") 9 (codes "worse")
    ∷ transition 3 pr (codes "f1") resolved none none
    ∷ summarise 4 pr (codes "s") 2 1 0 1 1
    ∷ transition 5 pr (codes "f1") wont_fix (some (codes "by design")) none
    ∷ []

apply_all-refines_example :
    state_at (codes "github/o/r/7") (codes "f1") (apply_all str percentage operations [])
    ≡ replay str percentage (codes "github/o/r/7") (codes "f1") operations none
unfolding state_at
apply_all-refines_example =
    apply_all-refines str percentage (codes "github/o/r/7") (codes "f1") operations []
