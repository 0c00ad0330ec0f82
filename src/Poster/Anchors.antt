-- ===== src/Poster/Anchors.antt =====
-- Which lines of a file share a fingerprint.
use revue.Prelude.{
  ℕ, ◌≡◌, ◌≢◌, refl, sym, ◌∙◌, Bool, true, false, not, Option, none, some, List, [], ◌∷◌, any,
  arith, Bool-cases, Option-cases, inl, inr, All,
}
use revue.Prelude.Int.{ℤ, pos, ltb_ℤ}
use revue.Prelude.Text.{Text}
use revue.Poster.Fingerprint.{hunk_starts, best_start, hunk_start_for_line, fingerprint}

-- the hunk starts at or before a line
abbrev reaches : ℤ → ℕ → Bool
reaches line start = not (ltb_ℤ line (pos start))

-- a start reaches both lines or neither of them
abbrev pub Together : ℤ → ℤ → ℕ → Type 0
Together line line' start = reaches line start ≡ reaches line' start

best_start-Together :
    (line line' : ℤ) (best : Option ℕ) (starts : List ℕ)
    → All (Together line line') starts
    → best_start line best starts ≡ best_start line' best starts
unfolding best_start
best_start-Together line line' best [] h = refl
best_start-Together line line' best (start ∷ starts) h =
    elim (Bool-cases (ltb_ℤ line (pos start))) [
      | inl e ↦
          let e' : ltb_ℤ line' (pos start) ≡ true = ground (arith, h.0) in
          rw (e, best_start) (rw (e', best_start) (best_start-Together line line' best starts h.1))
      | inr e ↦
          let e' : ltb_ℤ line' (pos start) ≡ false = ground (arith, h.0) in
          rw (e, best_start)
            (rw (e', best_start) (best_start-Together line line' (some start) starts h.1))
    ]

best_start-some :
    (line : ℤ) (best : ℕ) (starts : List ℕ) → best_start line (some best) starts ≢ none
unfolding best_start
best_start-some line best [] e = absurd (cc)
best_start-some line best (start ∷ starts) e = elim (Bool-cases (ltb_ℤ line (pos start))) [
  | inl f ↦ best_start-some line best starts (sym (rw (f, best_start) refl) ∙ e)
  | inr f ↦ best_start-some line start starts (sym (rw (f, best_start) refl) ∙ e)
]

best_start-reached :
    (line : ℤ) (starts : List ℕ)
    → any (reaches line) starts ≡ true
    → best_start line none starts ≢ none
unfolding best_start
best_start-reached line [] h e = absurd (cc)
best_start-reached line (start ∷ starts) h e = elim (Bool-cases (ltb_ℤ line (pos start))) [
  | inl f ↦ best_start-reached line starts (ground arith) (sym (rw (f, best_start) refl) ∙ e)
  | inr f ↦ best_start-some line start starts (sym (rw (f, best_start) refl) ∙ e)
]

-- Two lines share a fingerprint when some hunk of the diff starts at or before one of them, and every hunk that starts
-- at or before either of them starts at or before both: a finding that moves within its hunk
-- keeps its fingerprint.
pub fingerprint-same_hunk :
    (hash : Text → Text) (str : ℤ → Text) (file_path : Text) (line line' : ℤ) (diff : Text)
    → any (reaches line) (hunk_starts diff) ≡ true
    → All (Together line line') (hunk_starts diff)
    → fingerprint hash str file_path line diff ≡ fingerprint hash str file_path line' diff
unfolding fingerprint hunk_start_for_line
fingerprint-same_hunk hash str file_path line line' diff reached together =
    elim (Option-cases (best_start line none (hunk_starts diff))) [
      | inl e ↦ absurd (best_start-reached line (hunk_starts diff) reached e)
      | inr (best, e) ↦
          let e' : best_start line' none (hunk_starts diff) ≡ some best =
            sym (best_start-Together line line' none (hunk_starts diff) together) ∙ e in
          rw (e, e', hunk_start_for_line) refl
    ]
