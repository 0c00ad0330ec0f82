-- ===== src/Prelude/Pattern.antt =====
-- Steps of a regular expression that is matched from left to right, each on the text that is left.
use revue.Prelude.{ℕ, Bool, Option, none, some, [], ◌∷◌, ◌==◌, if◌then◌else◌}
use revue.Prelude.Text.{Text}

infixl 5 ◌>>=◌
abbrev pub ◌>>=◌ {ℓ κ} : {A : Type ℓ} {B : Type κ} → Option A → (A → Option B) → Option B
none >>= f = none
some a >>= f = f a

-- a literal of the pattern
unfoldable pub expect : Text → Text → Option Text
expect [] s = some s
expect (c ∷ p) [] = none
expect (c ∷ p) (d ∷ s) = let rest = expect p s in if d == c then rest else none

-- the longest run of characters that satisfy `p`, and the rest
unfoldable pub span : (ℕ → Bool) → Text → Text × Text
span p [] = ([], [])
span p (c ∷ s) = let (run, rest) = span p s in if p c then (c ∷ run, rest) else ([], c ∷ s)

-- a run of at least one character
unfoldable pub nonempty : Text × Text → Option (Text × Text)
nonempty ([], rest) = none
nonempty (c ∷ run, rest) = some (c ∷ run, rest)
