-- ===== src/Dispatch/Runbook/Matches.antt =====
-- match_runbooks of runbook.py: which Runbooks match, and in which order.
use net_cortex.Prelude.{
  ℕ, String, Bool, true, List, [], ◌∷◌, ◌≡◌, refl, subst, ap, map, Pairwise, leb, or_else,
  Bool-cases, inl, inr, arith,
}
use net_cortex.Prelude.Json.{Json}
use net_cortex.Prelude.Ranking.{take_three, scored_two}
use net_cortex.Prelude.Sorting.{then_le, sort_le-perm, sort_le-Pairwise, sort_le-stable}
use mathlib.Core.List.{Perm}
use mathlib.Core.List.Perm
use net_cortex.Dispatch.Evidence.{EvidenceItem, AlarmEvent}
use net_cortex.Dispatch.Runbook.{
  Runbook, evidence_keys, score, scored, slug_le, newer_le, higher_le, ranked, match_runbooks,
}

module _ (spell : Json → String) (event : AlarmEvent) (evidence : List EvidenceItem) where
  -- the score of a Runbook for the incident
  abbrev pub incident_score : Runbook → ℕ
  incident_score r = score spell (or_else event.procedure "") (evidence_keys spell evidence []) r

  scored-scored_two :
      (rs : List Runbook)
      → scored spell (or_else event.procedure "") (evidence_keys spell evidence []) rs
        ≡ scored_two incident_score rs
  unfolding scored
  scored-scored_two [] = refl
  scored-scored_two (r ∷ rs) = elim (Bool-cases (leb 2 (incident_score r))) [
    | inl high ↦ rw high (ap (◌∷◌ (incident_score r, r)) (scored-scored_two rs))
    | inr low ↦ rw low (scored-scored_two rs)
  ]

  -- the greatest score first, and the newest first of one score
  abbrev pub ranks_before : ℕ × Runbook → ℕ × Runbook → Bool
  ranks_before = then_le higher_le newer_le

  -- The Runbooks that match are the first three, or all where there are fewer, of the Runbooks that
  -- score at least 2, each as often as it is given, the greatest score first, and the newest first of
  -- one score.
  pub match_runbooks-IsScored :
      (runbooks : List Runbook)
      → (ps : List (ℕ × Runbook)) × (match_runbooks spell runbooks event evidence
          ≡ map (λ p. p.1) (take_three ps))
        × Perm ps (scored_two incident_score runbooks)
        × Pairwise (λ x y. ranks_before x y ≡ true) ps
  unfolding match_runbooks ranked
  match_runbooks-IsScored runbooks = (
    ranked spell runbooks event evidence,
    refl,
    subst (Perm (ranked spell runbooks event evidence)) (scored-scored_two runbooks) (
        Perm.trans (sort_le-perm higher_le _)
          (Perm.trans (sort_le-perm newer_le _) (sort_le-perm slug_le _))),
    sort_le-stable higher_le newer_le (λ x y h. ground arith) (λ x y z p q. ground arith) _
        (sort_le-Pairwise newer_le (λ x y h. ground arith) (λ x y z p q. ground arith) _),
  )
