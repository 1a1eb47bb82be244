-- ===== src/Impact/BlastFactor.antt =====
-- rubric.py: the blast radius factor, from the capture or else the reference graph.
use net_cortex.Prelude.{
  ℕ, String, ◌&&◌, not, Option, none, some, List, [], ◌∷◌, ◌++◌, map, if◌then◌else◌, ◌==◌, nat_eq,
  string_eq, is_some, is_empty, length, leb, show, concat, join, spelled, unique,
}
use net_cortex.Impact.Change.{change_type_eq}
use net_cortex.Impact.Capture.{
  Pointer, pointer_text, pointer_source, Role, BlastResult, CaptureState, capture_consulted,
}
use net_cortex.Impact.SpecGraph.{SpecGraphState, RefPartner, graph_consulted, graph_describe}
use net_cortex.Impact.Criticality.{cited_ids}
use net_cortex.Impact.Evidence.{Evidence, capture_describe, capture_note}
use net_cortex.Impact.Signals.{BlastRadius, unknown_radius, blast_from_count, Factor, list_or_none}

-- the paths of the capture and the reference graph that were read, and how those that are missing read
unfoldable pub read_paths : Evidence → List String
read_paths e =
    list_or_none (capture_consulted e.capture) (spelled e.capture.path)
    ++ list_or_none (graph_consulted e.specgraph) (spelled e.specgraph.path)

unfoldable pub missing_stores : Evidence → List String
missing_stores e =
    list_or_none (is_some e.capture.path && not e.capture.exists) (capture_describe e.capture)
    ++ list_or_none (is_some e.specgraph.path && not e.specgraph.exists)
        (graph_describe e.specgraph)

unfoldable pub given_paths : Evidence → List String
given_paths e =
    list_or_none (is_some e.capture.path) (spelled e.capture.path)
    ++ list_or_none (is_some e.specgraph.path) (spelled e.specgraph.path)

-- the end of the blast and criticality factors, where nothing can be determined
unfoldable pub undetermined_factor : String → String → Evidence → Factor
undetermined_factor name because e =
    if not (is_empty (read_paths e))
    then record {
      name = name;
      finding = join "; " (
          concat ("not determinable — " ∷ because ∷ " in " ∷ join ", " (read_paths e) ∷ [])
          ∷ missing_stores e);
      citation = join ", " (read_paths e);
    }
    else if not (is_empty (missing_stores e))
    then record {
      name = name;
      finding = concat ("not determinable — " ∷ because ∷ "; " ∷ join "; " (missing_stores e) ∷ []);
      citation = join ", " (given_paths e);
    }
    else record {
      name = name;
      finding = "not determinable — no capture or specgraph evidence consulted";
      citation = "no capture or specgraph evidence consulted";
    }

abbrev pub config_factor : String → Factor
config_factor name = record {
  name = name;
  finding = "not determinable — the Change names a config key, not a network function";
  citation = "change record";
}

-- a pointer with the file that it cites into
unfoldable pub cite : CaptureState → Pointer → String
cite c p = concat (spelled (pointer_source c p) ∷ ":" ∷ pointer_text p ∷ [])

abbrev count_noun : ℕ → String
count_noun n = if n == 1 then "NF" else "NFs"

abbrev unknown_note : ℕ → String
unknown_note n =
    if n == 0 then "" else concat ("; " ∷ show n ∷ " peer(s) with no determinable role" ∷ [])

unfoldable pub known_count : BlastResult → Option ℕ
known_count r =
    if not (r.unknown_peers == 0) && not (leb 2 (length r.affected))
    then none
    else some (length r.affected)

unfoldable pub located_factor : CaptureState → Role → BlastResult → Factor
located_factor c target r = record {
  name = "blast radius";
  finding = concat (
      (if is_empty r.affected
        then "affects no other NF"
        else concat (
            "affects "
            ∷ join ", " (map (λ nf. nf.role) r.affected)
            ∷ " ("
            ∷ show (length r.affected)
            ∷ " "
            ∷ count_noun (length r.affected)
            ∷ ")"
            ∷ []))
      ∷ unknown_note r.unknown_peers
      ∷ []);
  citation = join ", " (
      unique (
        cite c target.evidence ∷ map (λ nf. cite c nf.evidence) r.affected
        ++ map (cite c) r.unknown_peer_pointers));
}

unfoldable pub graph_citation : SpecGraphState → List RefPartner → String
graph_citation g partners =
    join ", " (map (λ id. concat (spelled g.path ∷ ":" ∷ id ∷ [])) (cited_ids partners))

unfoldable pub referenced_factor : Evidence → String → List RefPartner → Factor
referenced_factor e target partners = record {
  name = "blast radius";
  finding = concat (
      "affects "
      ∷ join ", " (map (λ p. p.role) partners)
      ∷ " ("
      ∷ show (length partners)
      ∷ " "
      ∷ count_noun (length partners)
      ∷ ") per specgraph references; "
      ∷ capture_note e.capture target
      ∷ []);
  citation = graph_citation e.specgraph partners;
}

-- the blast factor, from the radius and the reference partners
unfoldable pub assess_radius :
    Evidence → String → BlastResult → Option Role → List RefPartner → BlastRadius × Factor
assess_radius e target r (some located) partners =
    (blast_from_count (known_count r), located_factor e.capture located r)
assess_radius e target r none partners =
    if not (is_empty partners)
    then (blast_from_count (some (length partners)), referenced_factor e target partners)
    else (
      unknown_radius,
      undetermined_factor "blast radius" (concat (target ∷ " has no determinable partners" ∷ [])) e,
    )
