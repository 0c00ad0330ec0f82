-- ===== src/Tracker/RoundTrip.antt =====
-- Writing a sentinel, and reading it.
use mathlib.Core.List.{append_assoc}
use revue.Prelude.{
  ℕ, zero, suc, ◌≡◌, ◌≢◌, refl, Bool, true, false, not, none, some, [], ◌∷◌, ◌++◌, ◌==◌, all, arith,
  ==_refl,
}
use revue.Prelude.Text.{Text, codes}
use revue.Prelude.Pattern.{expect, span, nonempty}
use revue.Tracker.Sentinel.{
  Sentinel, is_stamp, hexes, opening, is_word, match_sentinel, parse_sentinel, make_sentinel,
  is_fingerprint,
}

expect-append : (p s : Text) → expect p (p ++ s) ≡ some s
unfolding expect
expect-append [] s = refl
expect-append (c ∷ p) s = rw (==_refl, expect) (expect-append p s)

span-append :
    (p : ℕ → Bool) (run : Text) (c : ℕ) (s : Text)
    → all p run ≡ true
    → p c ≡ false
    → span p (run ++ c ∷ s) ≡ (run, c ∷ s)
unfolding span
span-append p [] c s h n = rw (n, span)
span-append p (d ∷ run) c s h n =
    let first : p d ≡ true = ground arith in
    let others : all p run ≡ true = ground arith in
    rw (first, span) (rw (span-append p run c s others n))

hexes-append : (n : ℕ) (fp s : Text) → hexes n fp ≡ some (fp, []) → hexes n (fp ++ s) ≡ some (fp, s)
unfolding hexes
hexes-append zero [] s h = refl
hexes-append zero (c ∷ fp) s h = ground arith
hexes-append (suc n) [] s h = ground arith
hexes-append (suc n) (c ∷ fp) s h = ground (arith, hexes-append n fp s)

run_step :
    (p : ℕ → Bool) (run : Text) (c : ℕ) (s : Text)
    → all p run ≡ true
    → run ≢ []
    → p c ≡ false
    → nonempty (span p (run ++ c ∷ s)) ≡ some (run, c ∷ s)
unfolding nonempty
run_step p [] c s h some_run n = absurd (some_run refl)
run_step p (d ∷ run) c s h some_run n = rw (span-append p (d ∷ run) c s h n)

abbrev pub sentinel_text : Text → Text → Text → Text
sentinel_text ts state fp =
    opening ++ (state ++ (codes ":fp=" ++ (fp ++ (codes ":ts=" ++ (ts ++ codes ")")))))

sentinel_text-append :
    (ts state fp after : Text)
    → sentinel_text ts state fp ++ after
      ≡ opening
        ++ (state ++ (codes ":fp=" ++ (fp ++ (codes ":ts=" ++ (ts ++ (codes ")" ++ after))))))
sentinel_text-append ts state fp after = simp append_assoc

module _ (unicode_word : ℕ → Bool) where
  -- what `_make_sentinel` may be given, for its text to be read back
  pub record IsWritable (ts state fp : Text) : Type 0 where
    pub state_word : all (is_word unicode_word) state ≡ true
    pub state_some : state ≢ []
    pub fp_hex : hexes 16 fp ≡ some (fp, [])
    pub ts_stamp : all is_stamp ts ≡ true
    pub ts_some : ts ≢ []

  colon : is_word unicode_word b':' ≡ false
  unfolding is_word
  colon = refl

  close : is_stamp b')' ≡ false
  unfolding is_stamp
  close = refl

  match_written :
      (ts state fp rest : Text)
      → IsWritable ts state fp
      → match_sentinel unicode_word (
          opening
          ++ (state ++ (codes ":fp=" ++ (fp ++ (codes ":ts=" ++ (ts ++ (codes ")" ++ rest)))))))
        ≡ some (record { state = state; fp = fp; ts = ts })
  unfolding match_sentinel
  match_written ts state fp rest ok =
      let at_ts = ts ++ (codes ")" ++ rest) in
      let at_fp = fp ++ (codes ":ts=" ++ at_ts) in
      let after_state = codes "fp=" ++ at_fp in
      rw (
        expect-append opening (state ++ b':' ∷ after_state),
        run_step (is_word unicode_word) state b':' after_state ok.state_word ok.state_some colon,
        expect-append (codes ":fp=") at_fp,
        hexes-append 16 fp (codes ":ts=" ++ at_ts) ok.fp_hex,
        expect-append (codes ":ts=") at_ts,
        run_step is_stamp ts b')' rest ok.ts_stamp ok.ts_some close,
        expect-append (codes ")") rest,
      )

  not_open : (c : ℕ) (s : Text) → (c == b'[') ≡ false → match_sentinel unicode_word (c ∷ s) ≡ none
  unfolding match_sentinel expect
  not_open c s h = rw h

  parse_skips :
      (before s : Text) {m : Sentinel}
      → all (λ c. not (c == b'[')) before ≡ true
      → match_sentinel unicode_word s ≡ some m
      → s ≢ []
      → parse_sentinel unicode_word (before ++ s) ≡ some m
  unfolding parse_sentinel
  parse_skips [] [] h e n = absurd (n refl)
  parse_skips [] (c ∷ s) h e n = rw (e, parse_sentinel)
  parse_skips (c ∷ before) s h e n =
      let here : (c == b'[') ≡ false = ground arith in
      let later : all (λ c. not (c == b'[')) before ≡ true = ground arith in
      rw (not_open c (before ++ s) here, parse_sentinel) (parse_skips before s later e n)

  -- After any text without "[", `_parse_sentinel` reads from a text the state, the fingerprint and
  -- the time that `_make_sentinel` wrote into it, whatever follows: if the state is a word, the
  -- fingerprint is 16 hexadecimal digits, and the time has no space and no ")".
  pub parse_sentinel-make_sentinel :
      (before ts state fp after : Text)
      → all (λ c. not (c == b'[')) before ≡ true
      → IsWritable ts state fp
      → (sentinel : Text) × (make_sentinel ts state fp ≡ some sentinel)
        × (parse_sentinel unicode_word (before ++ (sentinel ++ after))
            ≡ some (record { state = state; fp = fp; ts = ts }))
  unfolding make_sentinel is_fingerprint
  parse_sentinel-make_sentinel before ts state fp after h ok = (
    sentinel_text ts state fp,
    rw ok.fp_hex,
    parse_skips before (sentinel_text ts state fp ++ after) h
        (rw (sentinel_text-append ts state fp after) (match_written ts state fp after ok))
        (λ e. cc),
  )
