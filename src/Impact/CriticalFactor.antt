-- ===== src/Impact/CriticalFactor.antt =====
-- rubric.py: the criticality factor, from every source that was consulted.
use net_cortex.Prelude.{
  String, ◌&&◌, ◌||◌, not, List, [], ◌∷◌, ◌++◌, map, if◌then◌else◌, ◌==◌, nat_eq, string_eq,
  is_some, is_empty, show, concat, join, spelled, unique,
}
use net_cortex.Impact.Change.{change_type_eq}
use net_cortex.Impact.Capture.{Pointer, BlastResult}
use net_cortex.Impact.SpecGraph.{RefPartner}
use net_cortex.Impact.Criticality.{CriticalHit}
use net_cortex.Impact.Evidence.{Evidence, capture_note}
use net_cortex.Impact.Signals.{Criticality, critical, non_critical, unknown_criticality, Factor}
use net_cortex.Impact.BlastFactor.{read_paths, undetermined_factor, cite, graph_citation}

-- the criticality factor, from the hits, the radius and the reference partners
unfoldable pub critical_factor :
    Evidence → List (CriticalHit Pointer) → List (CriticalHit String) → Factor
critical_factor e wire refs = record {
  name = "dependency criticality";
  finding = concat (
      "critical interface "
      ∷ join ", " (unique (map (λ h. h.name) wire ++ map (λ h. h.name) refs))
      ∷ " in the blast radius"
      ∷ []);
  citation = join ", " (
      unique (
        map (λ h. cite e.capture h.pointer) wire
        ++ map (λ h. concat (spelled e.specgraph.path ∷ ":" ∷ h.pointer ∷ [])) refs));
}

abbrev dependency : String → String → Factor
dependency finding citation = record {
  name = "dependency criticality";
  finding = finding;
  citation = citation;
}

unfoldable pub assess_hits :
    Evidence
    → String
    → BlastResult
    → List RefPartner
    → List (CriticalHit Pointer)
    → List (CriticalHit String)
    → Criticality × Factor
assess_hits e target r partners wire refs =
    if not (is_empty wire) || not (is_empty refs)
    then (critical, critical_factor e wire refs)
    else if is_some r.target && r.unknown_peers == 0
    then (
      non_critical,
      dependency "no critical interface in the blast radius" (join ", " (unique (read_paths e))),
    )
    else if not (r.unknown_peers == 0)
    then (
      unknown_criticality,
      dependency
          (concat (
            "not determinable — "
            ∷ show r.unknown_peers
            ∷ " peer(s) with no determinable role could hide a critical interface"
            ∷ []))
          (join ", " (map (cite e.capture) r.unknown_peer_pointers)),
    )
    else if not (is_empty partners)
    then (
      non_critical,
      dependency
          (concat (
            "no critical interface per the specgraph references; "
            ∷ capture_note e.capture target
            ∷ []))
          (graph_citation e.specgraph partners),
    )
    else (
      unknown_criticality,
      undetermined_factor "dependency criticality" "no blast radius to scan" e,
    )
