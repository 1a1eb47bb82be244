-- ===== src/Impact/Criticality.antt =====
-- criticality.py: the critical interfaces in a blast radius.
use net_cortex.Prelude.{
  String, Bool, ◌||◌, Option, none, some, List, [], ◌∷◌, ◌++◌, map, if◌then◌else◌, ◌==◌, string_eq,
  or_else, text_le, starts_with,
}
use net_cortex.Prelude.Dict
use net_cortex.Prelude.Dict.{Dict}
use net_cortex.Prelude.Sorting.{sort_le}
use net_cortex.Impact.Capture.{
  Message, Pointer, Role, CaptureState, BlastResult, message_at, pointer_text,
}
use net_cortex.Impact.SpecGraph.{Entity, SpecGraphState, RefPartner, by_id}

unfoldable pub is_critical : String → Bool
unfolding starts_with
is_critical name =
    name == "Namf_Communication_N1N2MessageTransfer"
    || starts_with name "Nudm_"
    || starts_with name "Nausf_"

pub record CriticalHit (P : Type 0) : Type 0 where
  pub name : String
  pub pointer : P

abbrev pub message_name : Option Message → String
message_name none = ""
message_name (some m) = or_else m.name ""

abbrev pub entity_name : Option Entity → String
entity_name none = ""
entity_name (some e) = or_else e.name ""

-- the pointers whose name is critical
unfoldable pub hits_of : {P : Type 0} → (P → String) → List P → List (CriticalHit P)
hits_of name [] = []
hits_of name (p ∷ ps) =
    let rest = hits_of name ps in
    if is_critical (name p) then (record { name = name p; pointer = p }) ∷ rest else rest

unfoldable pub radius_pointers : BlastResult → List Pointer
radius_pointers r = proving r.target
  where
    proving : Option Role → List Pointer
    proving none = []
    proving (some target) = target.evidence ∷ map (λ nf. nf.evidence) r.affected

unfoldable pub capture_hits : CaptureState → BlastResult → List (CriticalHit Pointer)
capture_hits c r =
    sort_le (λ a b. text_le (pointer_text a.pointer) (pointer_text b.pointer))
      (hits_of (λ p. message_name (message_at c p)) (radius_pointers r))

abbrev pub cited_ids : List RefPartner → List String
cited_ids [] = []
cited_ids (p ∷ ps) = p.evidence ++ cited_ids ps

unfoldable pub specgraph_hits : SpecGraphState → List RefPartner → List (CriticalHit String)
specgraph_hits g partners =
    sort_le (λ a b. text_le a.pointer b.pointer)
      (hits_of (λ id. entity_name (Dict.get id (by_id g.entities []))) (cited_ids partners))
