-- ===== src/Impact/Rubric.antt =====
-- rubric.py: the risk grade of a Change, from its three factors.
pub mod Low
pub mod High
mod Tests
use net_cortex.Prelude.{List, [], ◌∷◌, if◌then◌else◌, ◌==◌, nat_eq, string_eq}
use net_cortex.Impact.Change.{config, change_type_eq, Change}
use net_cortex.Impact.Capture.{BlastResult}
use net_cortex.Impact.Radius.{blast_radius}
use net_cortex.Impact.SpecGraph.{RefPartner, reference_partners}
use net_cortex.Impact.Criticality.{capture_hits, specgraph_hits}
use net_cortex.Impact.Evidence.{Host, Evidence}
use net_cortex.Impact.Signals.{
  Criticality, unknown_criticality, BlastRadius, unknown_radius, Factor, Rubric, grade_matrix,
}
use net_cortex.Impact.History.{assess_history}
use net_cortex.Impact.BlastFactor.{config_factor, assess_radius}
use net_cortex.Impact.CriticalFactor.{assess_hits}

module _ (host : Host) where
  abbrev pub radius : Change → Evidence → BlastResult
  radius change e = blast_radius host.upper host.lower change e.capture

  abbrev pub partners : Change → Evidence → List RefPartner
  partners change e = reference_partners host.upper host.lower e.specgraph change.target

  -- `_assess_blast`
  unfoldable pub assess_blast : Change → Evidence → BlastRadius × Factor
  assess_blast change e =
      if change.type == config
      then (unknown_radius, config_factor "blast radius")
      else assess_radius e change.target (radius change e) (radius change e).target
          (partners change e)

  -- `_assess_criticality`
  unfoldable pub assess_criticality : Change → Evidence → Criticality × Factor
  assess_criticality change e =
      if change.type == config
      then (unknown_criticality, config_factor "dependency criticality")
      else assess_hits e change.target (radius change e) (partners change e)
          (capture_hits e.capture (radius change e))
          (specgraph_hits e.specgraph (partners change e))

  unfoldable pub grade : Change → Evidence → Rubric
  grade change e =
      let (history, history_factor) = assess_history host change e in
      let (criticality, criticality_factor) = assess_criticality change e in
      let (blast, blast_factor) = assess_blast change e in
      record {
        grade = grade_matrix history criticality blast;
        factors = history_factor ∷ criticality_factor ∷ blast_factor ∷ [];
      }
