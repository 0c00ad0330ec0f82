-- ===== src/Consolidator/Vote/Majority.antt =====
-- The vote against the number of votes.
use revue.Prelude.{
  ◌≡◌, refl, ◌↔◌, ◌≤◌, ◌+◌, ℕ, true, false, some, List, [], ◌∷◌, ◌==◌, ltb, if◌then◌else◌, length,
  count, arith, Bool-cases, inl, inr,
}
use revue.Consolidator.Vote.{tally_line, counter, most_common, threshold, decide_vote, vote}

-- counts[x]
abbrev lookup : ℕ → List (ℕ × ℕ) → ℕ
lookup x [] = 0
lookup x ((l, c) ∷ counts) = let rest = lookup x counts in if l == x then c else rest

abbrev pub votes : ℕ → List ℕ → ℕ
votes x lines = count (λ line. line == x) lines

abbrev one_at : ℕ → ℕ → ℕ
one_at line x = if line == x then 1 else 0

lookup-tally_line :
    (x line : ℕ) (counts : List (ℕ × ℕ))
    → lookup x (tally_line line counts) ≡ lookup x counts + one_at line x
unfolding tally_line
lookup-tally_line x line [] = ground arith
lookup-tally_line x line ((l, c) ∷ counts) = ground (arith, lookup-tally_line x line counts)

lookup-counter :
    (x : ℕ) (counts : List (ℕ × ℕ)) (lines : List ℕ)
    → lookup x (counter counts lines) ≡ lookup x counts + votes x lines
unfolding counter
lookup-counter x counts [] = omega arith
lookup-counter x counts (line ∷ lines) =
    ground (arith, lookup-counter x (tally_line line counts) lines, lookup-tally_line x line counts)

-- no count exceeds what `f` allows its line
abbrev IsBelow : (ℕ → ℕ) → List (ℕ × ℕ) → Type 0
IsBelow f [] = Unit
IsBelow f (entry ∷ counts) = (entry.1 ≤ f entry.0) × IsBelow f counts

IsBelow-mono :
    (f g : ℕ → ℕ) (counts : List (ℕ × ℕ))
    → ((x : ℕ) → f x ≤ g x)
    → IsBelow f counts
    → IsBelow g counts
IsBelow-mono f g [] h b = tt
IsBelow-mono f g (entry ∷ counts) h b =
    (omega (arith, h entry.0, b.0), IsBelow-mono f g counts h b.1)

IsBelow-tally_line :
    (f : ℕ → ℕ) (line : ℕ) (counts : List (ℕ × ℕ))
    → IsBelow f counts
    → IsBelow (λ x. f x + one_at line x) (tally_line line counts)
unfolding tally_line
IsBelow-tally_line f line [] b = ground arith
IsBelow-tally_line f line ((l, c) ∷ counts) b = ground (
  arith,
  IsBelow-tally_line f line counts b.1,
  IsBelow-mono f (λ x. f x + one_at line x) counts (λ x. omega arith) b.1,
)

IsBelow-counter :
    (f : ℕ → ℕ) (counts : List (ℕ × ℕ)) (lines : List ℕ)
    → IsBelow f counts
    → IsBelow (λ x. f x + votes x lines) (counter counts lines)
unfolding counter
IsBelow-counter f counts [] b = IsBelow-mono f (λ x. f x + 0) counts (λ x. omega arith) b
IsBelow-counter f counts (line ∷ lines) b =
    IsBelow-mono (λ x. f x + one_at line x + votes x lines) (λ x. f x + votes x (line ∷ lines))
      (counter (tally_line line counts) lines) (λ x. ground arith)
      (IsBelow-counter (λ x. f x + one_at line x) (tally_line line counts) lines
        (IsBelow-tally_line f line counts b))

below-most_common :
    (f : ℕ → ℕ) (best : ℕ × ℕ) (counts : List (ℕ × ℕ))
    → best.1 ≤ f best.0
    → IsBelow f counts
    → (most_common best counts).1 ≤ f (most_common best counts).0
unfolding most_common
below-most_common f best [] h b = h
below-most_common f best (entry ∷ counts) h b = elim (Bool-cases (ltb best.1 entry.1)) [
  | inl less ↦ rw (less, most_common) (below-most_common f entry counts b.0 b.1)
  | inr more ↦ rw (more, most_common) (below-most_common f best counts h b.1)
]

most_common-max :
    (x : ℕ) (best : ℕ × ℕ) (counts : List (ℕ × ℕ))
    → (best.1 ≤ (most_common best counts).1) × (lookup x counts ≤ (most_common best counts).1)
unfolding most_common
most_common-max x best [] = (omega arith, omega arith)
most_common-max x best (entry ∷ counts) = elim (Bool-cases (ltb best.1 entry.1)) [
  | inl less ↦ rw (less, most_common) (ground (arith, most_common-max x entry counts, less))
  | inr more ↦ rw (more, most_common) (ground (arith, most_common-max x best counts, more))
]

-- two lines cannot have more votes together than there are
votes-sum :
    (x y : ℕ) (lines : List ℕ) → (x == y) ≡ false → votes x lines + votes y lines ≤ length lines
votes-sum x y [] h = omega arith
votes-sum x y (line ∷ lines) h = ground (arith, votes-sum x y lines h)

-- what the first of the largest counts is
winner :
    (x : ℕ) (entry : ℕ × ℕ) (counts : List (ℕ × ℕ)) (lines : List ℕ)
    → counter [] lines ≡ entry ∷ counts
    → ((most_common entry counts).1 ≡ votes (most_common entry counts).0 lines)
      × (votes x lines ≤ (most_common entry counts).1)
winner x entry counts lines e =
    let best = most_common entry counts in
    let all_below : IsBelow (λ l. 0 + votes l lines) (entry ∷ counts) =
      rw e at (IsBelow-counter (λ l. 0) [] lines tt) in
    let below = below-most_common (λ l. 0 + votes l lines) entry counts all_below.0 all_below.1 in
    let at_best = most_common-max best.0 entry counts in
    let at_x = most_common-max x entry counts in
    let look_best : lookup best.0 (entry ∷ counts) ≡ 0 + votes best.0 lines =
      rw e at (lookup-counter best.0 [] lines) in
    let look_x : lookup x (entry ∷ counts) ≡ 0 + votes x lines =
      rw e at (lookup-counter x [] lines) in
    (ground arith, ground arith)

decide_vote-votes :
    (x : ℕ) (lines : List ℕ) (counts : List (ℕ × ℕ))
    → 2 ≤ length lines
    → counter [] lines ≡ counts
    → (decide_vote (length lines) counts ≡ some x) ↔ (threshold (length lines) ≤ votes x lines)
unfolding decide_vote
decide_vote-votes x lines [] many e =
    let none_voted : 0 ≡ 0 + votes x lines = rw e at (lookup-counter x [] lines) in
    ((λ h. ground arith), (λ h. absurd (ground arith)))
decide_vote-votes x lines (entry ∷ counts) many e =
    let best = most_common entry counts in
    let (won, most) = winner x entry counts lines e in
    (
      (λ h. ground arith),
      (λ h.
          let same : (x == best.0) ≡ true = ground (arith, votes-sum x best.0 lines) in
          ground arith),
    )

-- the votes that a winner may miss: none of two, else one
abbrev pub missing : ℕ → ℕ
missing n = if n == 2 then 0 else 1

enough : (n v : ℕ) → 2 ≤ n → (threshold n ≤ v) ↔ (n ≤ v + missing n)
enough n v many = ((λ h. ground arith), (λ h. ground arith))

-- Of two or more lines, `_majority_vote_line` returns line x exactly if x has enough votes: both of
-- two, and of three or more all votes or all but one.
pub vote-votes :
    (x : ℕ) (lines : List ℕ)
    → 2 ≤ length lines
    → (vote lines ≡ some x) ↔ (length lines ≤ votes x lines + missing (length lines))
unfolding vote
vote-votes x [] many = absurd (omega (arith, many))
vote-votes x (line ∷ []) many = absurd (omega (arith, many))
vote-votes x (line ∷ other ∷ lines) many =
    let all_lines = line ∷ other ∷ lines in
    let decided = decide_vote-votes x all_lines (counter [] all_lines) many refl in
    let bridge = enough (length all_lines) (votes x all_lines) many in
    ((λ h. bridge.0 (decided.0 h)), (λ h. decided.1 (bridge.1 h)))
