-- ===== src/Poster/Seen.antt =====
-- The fingerprints that phase 1 has seen, and the groups that it makes.
use revue.Prelude.{
  ◌≡◌, refl, subst, true, not, ◌&&◌, ◌||◌, Option, none, some, List, [], ◌∷◌, any, arith,
  Bool-cases, Option-cases, inl, inr, All,
}
use revue.Prelude.Int.{ℤ}
use revue.Prelude.Text.{Text, same, same_refl}
use revue.TerminalState.Json.{Json}
use revue.Poster.Fingerprint.{fingerprint}
use revue.Poster.Fields.{Finding, extract_finding_fields, parse_findings, items_of}
use revue.Poster.World.{ReviewResult, World, Group}
use revue.Poster.Collect.{
  diff_of, add_to_group, same_line, Collected, add_finding, add_findings, add_result, collect,
}

-- a group's fingerprint is one that was seen
abbrev pub IsSeen : World → List Text → Group → Type 0
IsSeen w seen g = any (same (fingerprint w.hash w.str g.0.0 g.0.1 (diff_of w g.0.0))) seen ≡ true

module _ (w : World) where
  IsSeen-more :
      (k : Text) (seen : List Text) (groups : List Group)
      → All (IsSeen w seen) groups
      → All (IsSeen w (k ∷ seen)) groups
  IsSeen-more k seen [] h = h
  IsSeen-more k seen (g ∷ groups) h = (ground (arith, h.0), IsSeen-more k seen groups h.1)

  IsSeen-add_to_group :
      (path : Text) (line : ℤ) (f : Finding) (seen : List Text) (groups : List Group)
      → IsSeen w seen ((path, line), f ∷ [])
      → All (IsSeen w seen) groups
      → All (IsSeen w seen) (add_to_group path line f groups)
  unfolding add_to_group
  IsSeen-add_to_group path line f seen [] new h = (new, h)
  IsSeen-add_to_group path line f seen (((p, n), items) ∷ groups) new h =
      elim (Bool-cases (same p path && same_line n line)) [
        | inl e ↦ rw (e, add_to_group) h
        | inr e ↦ rw (e, add_to_group) (h.0, IsSeen-add_to_group path line f seen groups new h.1)
      ]

  abbrev pub AreSeen : Collected → Type 0
  AreSeen c = All (IsSeen w c.1) c.0

  AreSeen-add_finding :
      (path : Text) (f : Json) (c : Collected) → AreSeen c → AreSeen (add_finding w path f c)
  unfolding add_finding
  AreSeen-add_finding path f (groups, seen) h =
      elim (Option-cases (extract_finding_fields w.lower w.int f)) [
        | inl e ↦ rw (e, add_finding) h
        | inr (x, e) ↦
            rw (e, add_finding)
              (elim (Bool-cases (same x.issue [] && same x.details [])) [
                | inl g ↦ rw g h
                | inr g ↦
                    let k = fingerprint w.hash w.str path x.line (diff_of w path) in
                    rw g (
                      IsSeen-add_to_group path x.line x (k ∷ seen) groups (rw (same_refl k) refl)
                        (IsSeen-more k seen groups h))
              ])
      ]

  AreSeen-add_findings :
      (path : Text) (fs : List Json) (c : Collected)
      → AreSeen c
      → AreSeen (add_findings w path fs c)
  unfolding add_findings
  AreSeen-add_findings path [] c h = h
  AreSeen-add_findings path (f ∷ fs) c h =
      AreSeen-add_findings path fs (add_finding w path f c) (AreSeen-add_finding path f c h)

  abbrev pub AreSeenIfAny : Option Collected → Type 0
  AreSeenIfAny none = Unit
  AreSeenIfAny (some c) = AreSeen c

  AreSeen-add_result :
      (rr : ReviewResult) (c : Collected) → AreSeen c → AreSeenIfAny (add_result w rr c)
  unfolding add_result
  AreSeen-add_result rr c h = elim (Bool-cases (not (same rr.error []) || same rr.response [])) [
    | inl e ↦ rw (e, add_result) h
    | inr e ↦
        rw (e, add_result)
          (elim (Option-cases (parse_findings w.loads rr.response)) [
            | inl g ↦ rw g h
            | inr (findings, g) ↦ rw g (elim (Option-cases (items_of findings)) [
              | inl i ↦ rw i tt
              | inr (fs, i) ↦ rw i (AreSeen-add_findings rr.file_path fs c h)
            ])
          ])
  ]

  pub AreSeen-collect :
      (rrs : List ReviewResult) (c : Collected) → AreSeen c → AreSeenIfAny (collect w rrs c)
  unfolding collect
  AreSeen-collect [] c h = h
  AreSeen-collect (rr ∷ rrs) c h = elim (Option-cases (add_result w rr c)) [
    | inl e ↦ rw (e, collect) tt
    | inr (c', e) ↦
        rw (e, collect) (AreSeen-collect rrs c' (subst AreSeenIfAny e (AreSeen-add_result rr c h)))
  ]
