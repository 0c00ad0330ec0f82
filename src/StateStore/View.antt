-- ===== src/StateStore/View.antt =====
-- The store's content as a map from keys and fingerprints to states.
use revue.Prelude.{
  ◌≡◌, refl, sym, ap, subst, ◌∙◌, ℕ, Bool, true, false, Option, none, some, List, [], ◌∷◌, ◌++◌,
  if◌then◌else◌, arith, Bool-cases, Option-cases, inl, inr,
}
use revue.Prelude.Text.{Text, same, same-eq}
use revue.Prelude.Dict.{get, put, get-put}
use revue.StateStore.Operations.{PrData, State, Comment, CommentState, active, move, move_first}

-- the state of the first comment of the fingerprint
unfoldable pub first_state : Text → List Comment → Option CommentState
first_state f [] = none
first_state f (c ∷ comments) =
    let rest = first_state f comments in if same c.finding_fingerprint f then some c.state else rest

unfoldable pub comments_at : Text → State → List Comment
unfolding get
comments_at key state = elim (get key state) [ none ↦ [] | some entry ↦ entry.inline_comments ]

-- the abstract view: the state of a fingerprint under a key
unfoldable pub state_at : Text → Text → State → Option CommentState
unfolding first_state comments_at
state_at key f state = first_state f (comments_at key state)

-- what an operation does to the abstract view
abbrev pub saved : Option CommentState → Option CommentState
saved none = some active
saved (some s) = some s

abbrev pub has {ℓ} : {A : Type ℓ} → Option A → Bool
has none = false
has (some a) = true

abbrev pub moved_to : CommentState → Option CommentState → Option CommentState
moved_to to_state none = none
moved_to to_state (some s) = some to_state

comments-put :
    (key j : Text) (entry : PrData) (state : State)
    → comments_at key (put j entry state)
      ≡ (if same j key then entry.inline_comments else comments_at key state)
unfolding comments_at
comments-put key j entry state =
    ap (λ (o : Option PrData). elim o [ none ↦ [] | some e ↦ e.inline_comments ])
      (get-put key j entry state)
    ∙ elim (Bool-cases (same j key)) [ inl e ↦ rw e refl | inr e ↦ rw e refl ]

pub first_state-snoc :
    (f : Text) (comments : List Comment) (c : Comment)
    → c.state ≡ active
    → first_state f (comments ++ c ∷ []) ≡ (
        if same c.finding_fingerprint f
        then saved (first_state f comments)
        else first_state f comments)
unfolding first_state
first_state-snoc f [] c h = ground (arith, h)
first_state-snoc f (b ∷ comments) c h = ground (arith, h, first_state-snoc f comments c h)

-- the comments after a move, or as they are if none has the fingerprint
abbrev pub moved_or : List Comment → Option (List Comment) → List Comment
moved_or comments none = comments
moved_or comments (some moved) = moved

same-other : (a b f : Text) → same a b ≡ false → same b f ≡ true → same a f ≡ false
same-other a b f h e = subst (λ t. same a t ≡ false) (same-eq b f e) h

pub first_state-move :
    (f fingerprint : Text) (to_state : CommentState) (reason reply : Option Text) (now : ℕ)
    (comments : List Comment)
    → first_state f (moved_or comments (move_first fingerprint to_state reason reply now comments))
      ≡ (if same fingerprint f
          then moved_to to_state (first_state f comments)
          else first_state f comments)
unfolding first_state move_first move
first_state-move f fingerprint to_state reason reply now [] = ground arith
first_state-move f fingerprint to_state reason reply now (c ∷ comments) =
    elim (Bool-cases (same c.finding_fingerprint fingerprint)) [
      | inl e ↦
          let one : same c.finding_fingerprint f ≡ same fingerprint f =
            ap (λ t. same t f) (same-eq c.finding_fingerprint fingerprint e) in
          rw (e, move_first) (ground (arith, one))
      | inr e ↦
          let later = first_state-move f fingerprint to_state reason reply now comments in
          let other = same-other c.finding_fingerprint fingerprint f e in
          elim (Option-cases (move_first fingerprint to_state reason reply now comments)) [
            | inl g ↦ rw (e, g, move_first) (ground (arith, rw g at later, other))
            | inr (moved, g) ↦ rw (e, g, move_first) (ground (arith, rw g at later, other))
          ]
    ]

pub moves :
    (fingerprint : Text) (to_state : CommentState) (reason reply : Option Text) (now : ℕ)
    (comments : List Comment)
    → has (move_first fingerprint to_state reason reply now comments)
      ≡ has (first_state fingerprint comments)
unfolding first_state move_first
moves fingerprint to_state reason reply now [] = refl
moves fingerprint to_state reason reply now (c ∷ comments) =
    ground (arith, moves fingerprint to_state reason reply now comments)

pub put-state_at :
    (key j f : Text) (entry : PrData) (state : State)
    → state_at key f (put j entry state)
      ≡ (if same j key then first_state f entry.inline_comments else state_at key f state)
unfolding state_at
put-state_at key j f entry state =
    ap (first_state f) (comments-put key j entry state)
    ∙ elim (Bool-cases (same j key)) [ inl e ↦ rw e refl | inr e ↦ rw e refl ]

-- the view under a key, by the entry of an equal key
pub state_at-get :
    (key j f : Text) (state : State) (entry : PrData)
    → get j state ≡ some entry
    → same j key ≡ true
    → state_at key f state ≡ first_state f entry.inline_comments
unfolding state_at comments_at
state_at-get key j f state entry h e = rw (sym (same-eq j key e)) (rw (h, comments_at) refl)

pub state_at-absent :
    (key j f : Text) (state : State)
    → get j state ≡ none
    → same j key ≡ true
    → state_at key f state ≡ none
unfolding state_at comments_at first_state
state_at-absent key j f state h e = rw (sym (same-eq j key e)) (rw (h, comments_at) refl)
