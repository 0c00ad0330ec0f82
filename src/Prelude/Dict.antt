-- ===== src/Prelude/Dict.antt =====
-- Python's `dict` with `str` keys, as the list of its entries in the order of insertion.
use revue.Prelude.{
  ◌≡◌, refl, true, Option, none, some, List, [], ◌∷◌, if◌then◌else◌, Bool-cases, inl, inr,
}
use revue.Prelude.Text.{Text, same, same-eq, same_refl}

module _ {ℓ} {A : Type ℓ} where
  -- d.get(key)
  unfoldable pub get : Text → List (Text × A) → Option A
  get key [] = none
  get key ((k, a) ∷ d) = let rest = get key d in if same k key then some a else rest

  -- d[key] = value
  unfoldable pub put : Text → A → List (Text × A) → List (Text × A)
  put key a [] = (key, a) ∷ []
  put key a ((k, b) ∷ d) =
      let rest = put key a d in if same k key then (k, a) ∷ d else (k, b) ∷ rest

  -- d.update(entries)
  unfoldable pub update : List (Text × A) → List (Text × A) → List (Text × A)
  unfolding put
  update d [] = d
  update d ((k, a) ∷ entries) = update (put k a d) entries

  get-here :
      (j k : Text) (a : A) (d : List (Text × A)) → same k j ≡ true → get j ((k, a) ∷ d) ≡ some a
  unfolding get
  get-here j k a d h = rw h

  -- Reading after writing.
  pub get-put :
      (j k : Text) (a : A) (d : List (Text × A))
      → get j (put k a d) ≡ (if same k j then some a else get j d)
  unfolding get put
  get-put j k a [] = refl
  get-put j k a ((i, b) ∷ d) = elim (Bool-cases (same i k)) [
    | inl e ↦
        let one = same-eq i k e in
        rw (e, put) (rw one (elim (Bool-cases (same k j)) [ inl f ↦ rw f | inr f ↦ rw f ]))
    | inr e ↦
        rw (e, put)
          (elim (Bool-cases (same i j)) [
            | inl f ↦
                let other = same-eq i j f in
                rw (f, get)
                  (elim (Bool-cases (same k j)) [
                    | inl g ↦
                        let clash = same-eq k j g in
                        absurd
                          (let yes_same : same i k ≡ true = rw (other, clash) (same_refl j) in cc)
                    | inr g ↦ rw g
                  ])
            | inr f ↦ rw (f, get) (get-put j k a d)
          ])
  ]
