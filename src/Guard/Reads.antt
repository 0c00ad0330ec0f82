-- ===== src/Guard/Reads.antt =====
-- A run of the guard over many findings: its reads, and its counter.
use revue.Prelude.{
  ◌≡◌, refl, ap, ◌∙◌, ◌≤◌, ◌⊎◌, ◌+◌, ℕ, true, false, Option, none, some, List, [], ◌∷◌, leb, count,
  arith, Bool-cases, Option-cases, inl, inr,
}
use revue.Prelude.Text.{Text, same, same-eq}
use revue.Consolidator.Findings.{ConsolidatedFinding}
use revue.Guard.{Guard, cached, load_file_lines, judge, should_downgrade, guard_process, prose_only}

abbrev pub new_guard : Guard
new_guard = record { guard_downgrade = 0; content_cache = []; reads = [] }

abbrev pub reads_of : Text → Guard → ℕ
reads_of path guard = count (λ p. same p path) guard.reads

abbrev slot : Option (Option (List Text)) → ℕ
slot none = 0
slot (some entry) = 1

-- a file that was read is in the cache
abbrev IsOnce : Guard → Type 0
IsOnce guard = (path : Text) → reads_of path guard ≤ slot (cached guard.content_cache path)

slot-bound : (o : Option (Option (List Text))) → slot o ≤ 1
slot-bound none = omega arith
slot-bound (some entry) = omega arith

module _ (read_file : Text → Option Text) where
  load_file_lines-IsOnce :
      (path : Text) (guard : Guard) → IsOnce guard → IsOnce (load_file_lines read_file path guard).1
  unfolding load_file_lines cached
  load_file_lines-IsOnce path guard once other =
      elim (Option-cases (cached guard.content_cache path)) [
        | inr (entry, e) ↦ rw (e, load_file_lines) (once other)
        | inl e ↦
            rw (e, load_file_lines)
              (elim (Bool-cases (same path other)) [
                | inr different ↦ rw (different, cached) (ground (arith, different, once other))
                | inl equal ↦
                    let absent : cached guard.content_cache other ≡ none =
                      rw (same-eq path other equal) at e in
                    let unread : reads_of other guard ≤ 0 = rw absent at (once other) in
                    rw (equal, cached) (ground (arith, equal, unread))
              ])
      ]

  load_file_lines-guard_downgrade :
      (path : Text) (guard : Guard)
      → (load_file_lines read_file path guard).1.guard_downgrade ≡ guard.guard_downgrade
  unfolding load_file_lines
  load_file_lines-guard_downgrade path guard =
      elim (Option-cases (cached guard.content_cache path)) [
        | inl e ↦ rw (e, load_file_lines)
        | inr (entry, e) ↦ rw (e, load_file_lines)
      ]

  module _ {Float : Type 0} where
    judge-IsOnce :
        (f : ConsolidatedFinding Float) (read : Option (List Text) × Guard)
        → IsOnce read.1
        → IsOnce (judge read_file f read).1
    unfolding judge
    judge-IsOnce f (none, guard) once path = once path
    judge-IsOnce f (some lines, guard) once path =
        elim (Bool-cases (should_downgrade lines f.line_number f.replacement_line_count).0) [
          | inl down ↦ rw (down, judge) (once path)
          | inr kept ↦ rw (kept, judge) (once path)
        ]

    guard_process-IsOnce :
        (f : ConsolidatedFinding Float) (guard : Guard)
        → IsOnce guard
        → IsOnce (guard_process read_file f guard).1
    unfolding guard_process
    guard_process-IsOnce f guard once path = elim (Option-cases f.code_replacement) [
      | inl prose ↦ rw (prose, guard_process) (once path)
      | inr (replacement, e) ↦ elim (Bool-cases (leb f.replacement_line_count 1)) [
        | inl single ↦ rw (e, single, guard_process) (once path)
        | inr several ↦
            rw (e, several, guard_process)
              (judge-IsOnce f (load_file_lines read_file f.file_path guard)
                (load_file_lines-IsOnce f.file_path guard once) path)
      ]
    ]

    -- the guard after a run over the findings
    abbrev pub after_all : List (ConsolidatedFinding Float) → Guard → Guard
    after_all [] guard = guard
    after_all (f ∷ findings) guard = after_all findings (guard_process read_file f guard).1

    after_all-IsOnce :
        (findings : List (ConsolidatedFinding Float)) (guard : Guard)
        → IsOnce guard
        → IsOnce (after_all findings guard)
    after_all-IsOnce [] guard once = once
    after_all-IsOnce (f ∷ findings) guard once =
        after_all-IsOnce findings (guard_process read_file f guard).1
          (guard_process-IsOnce f guard once)

    -- A new guard reads each file at most once, over all findings that it processes, also if the read
    -- fails.
    after_all-reads :
        (findings : List (ConsolidatedFinding Float)) (path : Text)
        → reads_of path (after_all findings new_guard) ≤ 1
    unfolding cached
    after_all-reads findings path = omega (
      arith,
      after_all-IsOnce findings new_guard (λ p. omega arith) path,
      slot-bound (cached (after_all findings new_guard).content_cache path),
    )

    -- the two ways in which a call may end, after a read
    abbrev IsJudged :
        ConsolidatedFinding Float
        → Option (List Text) × Guard
        → ConsolidatedFinding Float × Guard
        → Type 0
    IsJudged f read after =
        ((after.0 ≡ f) × (after.1.guard_downgrade ≡ read.1.guard_downgrade))
        ⊎ ((after.0 ≡ prose_only f)
            × (after.1.guard_downgrade ≡ read.1.guard_downgrade + 1)
            × ((lines : List Text) × (read.0 ≡ some lines)
                × ((should_downgrade lines f.line_number f.replacement_line_count).0 ≡ true)))

    judge-IsJudged :
        (f : ConsolidatedFinding Float) (read : Option (List Text) × Guard)
        → IsJudged f read (judge read_file f read)
    unfolding judge
    judge-IsJudged f (none, guard) = inl (refl, refl)
    judge-IsJudged f (some lines, guard) =
        elim (Bool-cases (should_downgrade lines f.line_number f.replacement_line_count).0) [
          | inl down ↦ rw (down, judge) (inr (refl, refl, (lines, refl, down)))
          | inr kept ↦ rw (kept, judge) (inl (refl, refl))
        ]

    -- One call of `process` either returns the finding as it is and leaves the counter, or it takes
    -- the replacement and the snippet away and adds 1 to the counter; the latter only if the finding
    -- replaces several lines of a file that can be read or is cached, and `_should_downgrade` holds of
    -- these lines.
    guard_process-judged :
        (f : ConsolidatedFinding Float) (guard : Guard)
        → (((guard_process read_file f guard).0 ≡ f)
            × ((guard_process read_file f guard).1.guard_downgrade ≡ guard.guard_downgrade))
          ⊎ (((guard_process read_file f guard).0 ≡ prose_only f)
              × ((guard_process read_file f guard).1.guard_downgrade ≡ guard.guard_downgrade + 1)
              × (leb f.replacement_line_count 1 ≡ false)
              × ((lines : List Text) × ((load_file_lines read_file f.file_path guard).0
                    ≡ some lines)
                  × ((should_downgrade lines f.line_number f.replacement_line_count).0 ≡ true)))
    unfolding guard_process
    guard_process-judged f guard = elim (Option-cases f.code_replacement) [
      | inl prose ↦ inl (simp (prose, guard_process), simp (prose, guard_process))
      | inr (replacement, e) ↦
          let read = load_file_lines read_file f.file_path guard in
          let same_count = load_file_lines-guard_downgrade f.file_path guard in
          elim (Bool-cases (leb f.replacement_line_count 1)) [
            | inl single ↦ inl (simp (e, single, guard_process), simp (e, single, guard_process))
            | inr several ↦
                let judged : guard_process read_file f guard ≡ judge read_file f read =
                  simp (e, several, guard_process) in
                simp judged (elim (judge-IsJudged f read) [
                  | inl (kept, counter) ↦ inl (kept, counter ∙ same_count)
                  | inr (dropped, counter, why) ↦
                      inr (dropped, counter ∙ ap (λ n. n + 1) same_count, several, why)
                ])
          ]
    ]
