-- ===== src/StateStore/Refinement.antt =====
-- The operations of the store on the map of its view, and their sequences.
use revue.Prelude.{
  ◌≡◌, refl, sym, ap, ◌∙◌, ℕ, true, ◌&&◌, Option, List, [], ◌∷◌, ◌++◌, if◌then◌else◌, arith,
  Bool-cases, Option-cases, inl, inr,
}
use revue.Prelude.Text.{Text, same, same_refl}
use revue.Prelude.Dict.{get}
use revue.StateStore.Operations.{
  Pr, State, CommentState, move_first, pr_key, pr_data_of, save_comment, transition_state,
  create_or_update_summary, new_pr, new_comment,
}
use revue.StateStore.View.{
  first_state, state_at, saved, moved_to, has, first_state-snoc, first_state-move, moves,
  put-state_at, state_at-get, state_at-absent,
}

-- a call that changes the store, with its time first
pub data Operation : Type 0 where
  save : ℕ → Pr → Text → Text → Text → ℕ → Text → Operation
  transition : ℕ → Pr → Text → CommentState → Option Text → Option Text → Operation
  summarise : ℕ → Pr → Text → ℕ → ℕ → ℕ → ℕ → ℕ → Operation

module _ (str : ℕ → Text) where
  transition-state_at :
      (key f : Text) (pr : Pr) (now : ℕ) (fingerprint : Text) (to_state : CommentState)
      (reason reply : Option Text) (state : State)
      → state_at key f (transition_state str pr now fingerprint to_state reason reply state).0 ≡ (
          if same (pr_key str pr) key && same fingerprint f
          then moved_to to_state (state_at key f state)
          else state_at key f state)
  unfolding transition_state
  transition-state_at key f pr now fingerprint to_state reason reply state =
      let k = pr_key str pr in
      elim (Option-cases (get k state)) [
        | inl e ↦ rw (e, transition_state) (ground (arith, state_at-absent key k f state e))
        | inr (entry, e) ↦
            let comments = entry.inline_comments in
            let same_view = state_at-get key k f state entry e in
            let view = first_state-move f fingerprint to_state reason reply now comments in
            elim (Option-cases (move_first fingerprint to_state reason reply now comments)) [
              | inl g ↦ rw (e, g, transition_state) (ground (arith, same_view, rw g at view))
              | inr (moved, g) ↦
                  let written =
                    put-state_at key k f
                      (record entry { updated_at = now; inline_comments = moved }) state in
                  rw (e, g, transition_state) (ground (arith, same_view, written, rw g at view))
            ]
      ]

  pr_data-view :
      (key f : Text) (pr : Pr) (now : ℕ) (state : State)
      → same (pr_key str pr) key ≡ true
      → first_state f (pr_data_of str pr now state).inline_comments ≡ state_at key f state
  unfolding pr_data_of new_pr first_state
  pr_data-view key f pr now state h =
      let k = pr_key str pr in
      elim (Option-cases (get k state)) [
        | inl e ↦ rw (e, pr_data_of) (sym (state_at-absent key k f state e h))
        | inr (entry, e) ↦ rw (e, pr_data_of) (sym (state_at-get key k f state entry e h))
      ]

  save-state_at :
      (key f : Text) (pr : Pr) (now : ℕ) (fingerprint id path : Text) (line : ℕ) (body : Text)
      (state : State)
      → state_at key f (save_comment str pr now fingerprint id path line body state) ≡ (
          if same (pr_key str pr) key && same fingerprint f
          then saved (state_at key f state)
          else state_at key f state)
  unfolding save_comment new_comment
  save-state_at key f pr now fingerprint id path line body state =
      let k = pr_key str pr in
      let entry = pr_data_of str pr now state in
      let c = new_comment str now fingerprint id path line body entry.inline_comments in
      let written =
        put-state_at key k f
          (record entry { updated_at = now; inline_comments = entry.inline_comments ++ c ∷ [] })
          state in
      written ∙ (elim (Bool-cases (same k key)) [
        | inl e ↦ rw e (
            first_state-snoc f entry.inline_comments c refl
            ∙ ap (λ v. if same fingerprint f then saved v else v)
                (pr_data-view key f pr now state e))
        | inr e ↦ rw e refl
      ])

  summary-state_at :
      (key f : Text) (percentage : ℕ → ℕ → ℕ) (pr : Pr) (now : ℕ) (id : Text)
      (total fixed discussed remaining revision : ℕ) (state : State)
      → state_at key f (
          create_or_update_summary str percentage pr now id total fixed discussed remaining revision
            state)
        ≡ state_at key f state
  unfolding create_or_update_summary
  summary-state_at key f percentage pr now id total fixed discussed remaining revision state =
      put-state_at key (pr_key str pr) f _ state ∙ elim (Bool-cases (same (pr_key str pr) key)) [
        | inl e ↦ rw e (pr_data-view key f pr now state e)
        | inr e ↦ rw e refl
      ]

  -- the result of a transition
  pub has-transition_state :
      (pr : Pr) (now : ℕ) (fingerprint : Text) (to_state : CommentState)
      (reason reply : Option Text) (state : State)
      → (transition_state str pr now fingerprint to_state reason reply state).1
        ≡ has (state_at (pr_key str pr) fingerprint state)
  unfolding transition_state
  has-transition_state pr now fingerprint to_state reason reply state =
      let k = pr_key str pr in
      let one = same_refl k in
      elim (Option-cases (get k state)) [
        | inl e ↦ rw (e, transition_state) (rw (state_at-absent k k fingerprint state e one) refl)
        | inr (entry, e) ↦
            let view = state_at-get k k fingerprint state entry e one in
            let found = moves fingerprint to_state reason reply now entry.inline_comments in
            elim (Option-cases
              (move_first fingerprint to_state reason reply now entry.inline_comments)) [
                | inl g ↦ rw (e, g, transition_state) (rw view (rw g at found))
                | inr (moved, g) ↦ rw (e, g, transition_state) (rw view (rw g at found))
              ]
      ]

  module _ (percentage : ℕ → ℕ → ℕ) where
    unfoldable pub apply : Operation → State → State
    unfolding save_comment transition_state create_or_update_summary
    apply (save now pr fingerprint id path line body) state =
        save_comment str pr now fingerprint id path line body state
    apply (transition now pr fingerprint to_state reason reply) state =
        (transition_state str pr now fingerprint to_state reason reply state).0
    apply (summarise now pr id total fixed discussed remaining revision) state =
        create_or_update_summary str percentage pr now id total fixed discussed remaining revision
          state

    abbrev pub apply_all : List Operation → State → State
    apply_all [] state = state
    apply_all (operation ∷ operations) state = apply_all operations (apply operation state)

    -- The specification: what an operation does to the state of one fingerprint under one key. A
    -- first save makes it active, a transition moves it if it is there, and nothing else touches it.
    abbrev pub replay_one : Text → Text → Operation → Option CommentState → Option CommentState
    replay_one key f (save now pr fingerprint id path line body) s =
        if same (pr_key str pr) key && same fingerprint f then saved s else s
    replay_one key f (transition now pr fingerprint to_state reason reply) s =
        if same (pr_key str pr) key && same fingerprint f then moved_to to_state s else s
    replay_one key f (summarise now pr id total fixed discussed remaining revision) s = s

    abbrev pub replay : Text → Text → List Operation → Option CommentState → Option CommentState
    replay key f [] s = s
    replay key f (operation ∷ operations) s = replay key f operations (replay_one key f operation s)

    apply-state_at :
        (key f : Text) (operation : Operation) (state : State)
        → state_at key f (apply operation state) ≡ replay_one key f operation (state_at key f state)
    unfolding apply
    apply-state_at key f (save now pr fingerprint id path line body) state =
        save-state_at key f pr now fingerprint id path line body state
    apply-state_at key f (transition now pr fingerprint to_state reason reply) state =
        transition-state_at key f pr now fingerprint to_state reason reply state
    apply-state_at key f (summarise now pr id total fixed discussed remaining revision) state =
        summary-state_at key f percentage pr now id total fixed discussed remaining revision state

    -- The store refines a map from pull requests and fingerprints to states: after any sequence of
    -- saves, transitions and summaries from any content, the state that `transition_state` reads
    -- for a fingerprint under a key is the one that the specification computes from the state
    -- before and the operations on that key and that fingerprint alone.
    pub apply_all-refines :
        (key f : Text) (operations : List Operation) (state : State)
        → state_at key f (apply_all operations state)
          ≡ replay key f operations (state_at key f state)
    apply_all-refines key f [] state = refl
    apply_all-refines key f (operation ∷ operations) state =
        apply_all-refines key f operations (apply operation state)
        ∙ ap (replay key f operations) (apply-state_at key f operation state)

    -- `transition_state` returns True exactly if, by the specification, a comment of the
    -- fingerprint is there after the operations before it.
    transition_state-replay :
        (operations : List Operation) (state : State) (pr : Pr) (now : ℕ) (fingerprint : Text)
        (to_state : CommentState) (reason reply : Option Text)
        → (transition_state str pr now fingerprint to_state reason reply
            (apply_all operations state)).1
          ≡ has (
              replay
                (pr_key str pr)
                fingerprint
                operations
                (state_at (pr_key str pr) fingerprint state))
    transition_state-replay operations state pr now fingerprint to_state reason reply =
        has-transition_state pr now fingerprint to_state reason reply (apply_all operations state)
        ∙ ap has (apply_all-refines (pr_key str pr) fingerprint operations state)
