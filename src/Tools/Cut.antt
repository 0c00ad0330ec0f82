-- ===== src/Tools/Cut.antt =====
-- Where `find_code` cuts its output.
use revue.Prelude.{
  ℕ, ◌+◌, ◌-◌, ◌≤◌, ◌<◌, ◌≡◌, refl, ap, true, [], ◌∷◌, ◌++◌, leb, arith, ◌⊎◌, inl, inr, Bool-cases,
}
use revue.Prelude.Text.{Text}
use revue.ToolLoop.Dispatch.{byte_count, utf8_length}
use revue.Tools.Find.{take_bytes, truncation_marker, cap_output}

-- p is the longest beginning of s, in whole characters, that fits into the cap
abbrev pub IsLongest : ℕ → Text → Text → Type 0
IsLongest limit s p =
    (rest : Text) × (s ≡ p ++ rest)
    × (utf8_length p ≤ limit)
    × ((rest ≡ [])
        ⊎ (c : ℕ) × (more : Text) × (rest ≡ c ∷ more) × (limit < utf8_length p + byte_count c))

longer :
    (limit c : ℕ) (s p : Text)
    → leb (byte_count c) limit ≡ true
    → IsLongest (limit - byte_count c) s p
    → IsLongest limit (c ∷ s) (c ∷ p)
unfolding utf8_length
longer limit c s p fits h =
    let b = byte_count c in
    let room : b ≤ limit = ground arith in
    (
      h.0,
      ap (λ t. c ∷ t) h.1,
      omega (arith, h.2, room),
      elim h.3 [
        | inl e ↦ inl e
        | inr (d, more, e, over) ↦ inr (d, more, e, omega (arith, over, room))
      ],
    )

take_bytes-IsLongest : (limit : ℕ) (s : Text) → IsLongest limit s (take_bytes limit s)
unfolding take_bytes utf8_length
take_bytes-IsLongest limit [] = ([], refl, omega arith, inl refl)
take_bytes-IsLongest limit (c ∷ s) = elim (Bool-cases (leb (byte_count c) limit)) [
  | inr e ↦ rw (e, take_bytes) (c ∷ s, refl, omega arith, inr (c, s, refl, ground arith))
  | inl e ↦
      rw (e, take_bytes) (longer limit c s _ e (take_bytes-IsLongest (limit - byte_count c) s))
]

-- Output that fits into the cap is returned as it is; of any other, the longest beginning that fits,
-- in whole characters, and the marker.
pub cap_output-cuts :
    (limit : ℕ) (s : Text)
    → ((utf8_length s ≤ limit) × (cap_output limit s ≡ s))
      ⊎ (p : Text) × (limit < utf8_length s)
        × IsLongest limit s p
        × (cap_output limit s ≡ p ++ truncation_marker)
unfolding cap_output
cap_output-cuts limit s = elim (Bool-cases (leb (utf8_length s) limit)) [
  | inl e ↦ inl (ground arith, rw (e, cap_output) refl)
  | inr e ↦
      inr (take_bytes limit s, ground arith, take_bytes-IsLongest limit s, rw (e, cap_output) refl)
]
