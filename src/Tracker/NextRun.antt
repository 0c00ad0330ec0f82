-- ===== src/Tracker/NextRun.antt =====
-- What a run posts, and what the next run makes of it.
use mathlib.Core.List.{append_assoc, append-nil}
use revue.Prelude.{
  ℕ, ◌≡◌, ◌≢◌, refl, Bool, true, false, not, List, [], ◌∷◌, ◌++◌, none, some, if◌then◌else◌, all,
  all-append, arith, ◌⊎◌, inl, inr, Bool-cases, Option-cases, ◌==◌,
}
use revue.Prelude.Text.{Text, codes, same}
use revue.Position.Resolver.{line_in_diff}
use revue.Tracker.States.{
  HunkState, fully, auto_resolved, platform_resolved, resolve_reply_posted, legal, is_terminal,
}
use revue.Tracker.Sentinel.{Sentinel, make_sentinel, parse_sentinel}
use revue.Tracker.Exec.{Result, ok, Log, Call, resolve_inline_comment}
use revue.Tracker.Run.{
  World, PriorEntry, ResolutionResult, resolve_reply, removed_message, resolved_message, check_diff,
  resolution_status, prior_state_of,
}
use revue.Tracker.Legality.{no_log}
use revue.Tracker.Calls.{Answers, verdict-cases}
use revue.Tracker.RoundTrip.{IsWritable, parse_sentinel-make_sentinel}

abbrev is_plain : ℕ → Bool
is_plain c = not (c == b'[')

module _ (w : World) (fingerprint : Text) (e : PriorEntry) (new_diff : Text) where
  abbrev closing : Text → Text → List Call
  closing message sentinel =
      resolve_inline_comment e.pr_num e.platform_comment_id (resolve_reply message sentinel) ∷ []

  -- the call of a run that returns RESOLVE_REPLY_POSTED
  abbrev Closed : Text → Result HunkState × Log → Type 0
  Closed sentinel run =
      run.0 ≡ ok resolve_reply_posted
      → (run.1.calls ≡ closing removed_message sentinel)
        ⊎ (run.1.calls ≡ closing resolved_message sentinel)

  module _ (sentinel : Text)
      (made : make_sentinel w.now (codes "auto_resolved") fingerprint ≡ some sentinel) where
    removed-Closed :
        (a : HunkState)
        → line_in_diff e.line_number new_diff ≡ false
        → Closed sentinel (check_diff w a fingerprint e new_diff no_log)
    unfolding check_diff
    removed-Closed a gone h = ground arith

    failed-Closed :
        (a : HunkState)
        → line_in_diff e.line_number new_diff ≡ true
        → w.resolve e.comment_body e.snippet new_diff e.prior_follow_up_body ≡ none
        → Closed sentinel (check_diff w a fingerprint e new_diff no_log)
    unfolding check_diff
    failed-Closed a there fails h = ground arith

    addressed-Closed :
        (a : HunkState) (r : ResolutionResult)
        → line_in_diff e.line_number new_diff ≡ true
        → Answers w fingerprint e new_diff r
        → r.verdict ≡ fully
        → Closed sentinel (check_diff w a fingerprint e new_diff no_log)
    unfolding check_diff
    addressed-Closed a r there ans v h = ground arith

    unaddressed-Closed :
        (a : HunkState) (r : ResolutionResult)
        → line_in_diff e.line_number new_diff ≡ true
        → Answers w fingerprint e new_diff r
        → r.verdict ≢ fully
        → Closed sentinel (check_diff w a fingerprint e new_diff no_log)
    unfolding check_diff
    unaddressed-Closed a r there ans v h = ground arith

    check_diff-Closed :
        (a : HunkState) → Closed sentinel (check_diff w a fingerprint e new_diff no_log)
    check_diff-Closed a = elim (Bool-cases (line_in_diff e.line_number new_diff)) [
      | inr gone ↦ removed-Closed a gone
      | inl there ↦
          elim (Option-cases (w.resolve e.comment_body e.snippet new_diff e.prior_follow_up_body)) [
            | inl fails ↦ failed-Closed a there fails
            | inr (r, ans) ↦ elim (verdict-cases r.verdict) [
              | inl v ↦ addressed-Closed a r there ans v
              | inr (inl v) ↦ unaddressed-Closed a r there ans (rw v (λ p. cc))
              | inr (inr v) ↦ unaddressed-Closed a r there ans (rw v (λ p. cc))
            ]
          ]
    ]

    resolution_status-Closed : Closed sentinel (resolution_status w fingerprint e new_diff no_log)
    unfolding resolution_status
    resolution_status-Closed h = ground (arith, check_diff-Closed (prior_state_of e.sentinel_state))

  -- the reply that closes a thread, and what is read from it
  read_back :
      (unicode_word : ℕ → Bool) (message : Text)
      → all is_plain message ≡ true
      → IsWritable unicode_word w.now (codes "auto_resolved") fingerprint
      → (sentinel : Text) × (make_sentinel w.now (codes "auto_resolved") fingerprint
          ≡ some sentinel)
        × (parse_sentinel unicode_word (resolve_reply message sentinel)
            ≡ some (record { state = codes "auto_resolved"; fp = fingerprint; ts = w.now }))
  unfolding resolve_reply
  read_back unicode_word message plain writable =
      let before = codes "✅ " ++ (message ++ 10 ∷ 10 ∷ []) in
      let no_bracket : all is_plain before ≡ true =
        ground (arith, all-append is_plain message (10 ∷ 10 ∷ [])) in
      let (sentinel, made, read) =
        parse_sentinel-make_sentinel unicode_word before w.now (codes "auto_resolved") fingerprint
          [] no_bracket writable in
      (sentinel, made, rw (append_assoc, append_assoc, append-nil) at read)

  next_run :
      (next : PriorEntry) (next_diff : Text)
      → ((resolution_status w fingerprint
            (record next { sentinel_state = codes "auto_resolved" })
            next_diff
            no_log).0
          ≡ ok (if next.resolved then platform_resolved else auto_resolved))
        × ((resolution_status w fingerprint
              (record next { sentinel_state = codes "auto_resolved" })
              next_diff
              no_log).1.calls
            ≡ [])
  unfolding resolution_status legal is_terminal same
  next_run next next_diff = ground arith

  -- A run that returns RESOLVE_REPLY_POSTED has made one call, which resolves the entry's thread
  -- with a body from which `_parse_sentinel` reads AUTO_RESOLVED, the fingerprint and the time; and
  -- a run for an entry with that sentinel state returns PLATFORM_RESOLVED or AUTO_RESOLVED without any call, whatever
  -- the diff and the rest of the entry. The fingerprint is 16 hexadecimal digits, and the time has no
  -- space and no ")".
  pub resolution_status-next_run :
      (unicode_word : ℕ → Bool) (next : PriorEntry) (next_diff : Text)
      → IsWritable unicode_word w.now (codes "auto_resolved") fingerprint
      → (resolution_status w fingerprint e new_diff no_log).0 ≡ ok resolve_reply_posted
      → (body : Text) × (m : Sentinel) × ((resolution_status w fingerprint e new_diff
            no_log).1.calls
          ≡ resolve_inline_comment e.pr_num e.platform_comment_id body ∷ [])
        × (parse_sentinel unicode_word body ≡ some m)
        × (m ≡ record { state = codes "auto_resolved"; fp = fingerprint; ts = w.now })
        × ((resolution_status w fingerprint
              (record next { sentinel_state = m.state })
              next_diff
              no_log).0
            ≡ ok (if next.resolved then platform_resolved else auto_resolved))
        × ((resolution_status w fingerprint
              (record next { sentinel_state = m.state })
              next_diff
              no_log).1.calls
            ≡ [])
  resolution_status-next_run unicode_word next next_diff writable h =
      let m : Sentinel = record { state = codes "auto_resolved"; fp = fingerprint; ts = w.now } in
      let (ends, silent) = next_run next next_diff in
      let (sentinel, made, removed) = read_back unicode_word removed_message refl writable in
      let (sentinel', made', resolved) = read_back unicode_word resolved_message refl writable in
      elim (resolution_status-Closed sentinel made h) [
        | inl c ↦ (resolve_reply removed_message sentinel, m, c, removed, refl, ends, silent)
        | inr c ↦
            let one : sentinel ≡ sentinel' = cc (made, made') in
            (resolve_reply resolved_message sentinel, m, c, rw one resolved, refl, ends, silent)
      ]
