-- ===== src/Impact/SpecGraph.antt =====
-- specgraph.py: the NF families that the reference graph mentions beside a target's service.
use net_cortex.Prelude.{
  String, Bool, false, ◌&&◌, not, Option, none, some, List, [], ◌∷◌, ◌++◌, map, if◌then◌else◌, ◌==◌,
  string_eq, option_eq, contains, filter, is_some, is_empty, or_else, text_le, before_char,
  drop_first, show, concat, length, nat_eq,
}
use net_cortex.Prelude.Dict
use net_cortex.Prelude.Dict.{Dict}
use net_cortex.Prelude.Sorting.{sort_le}
use net_cortex.Impact.Capture.{is_sbi_family}

pub record Entity : Type 0 where
  pub id : Option String
  pub name : Option String
  pub protocol : Option String
  pub type : Option String

pub record Edge : Type 0 where
  pub kind : Option String
  pub src : Option String
  pub dst : Option String

pub record SpecGraphState : Type 0 where
  pub path : Option String
  pub entities : List Entity
  pub edges : List Edge
  pub exists : Bool

pub record RefPartner : Type 0 where
  pub role : String
  pub evidence : List String

unfoldable pub graph_consulted : SpecGraphState → Bool
graph_consulted g = is_some g.path && g.exists

unfoldable pub graph_describe : SpecGraphState → String
graph_describe g = told g.path
  where
    told : Option String → String
    told none = "not consulted"
    told (some path) =
        if not g.exists
        then concat (path ∷ " does not exist" ∷ [])
        else if is_empty g.entities
        then concat (path ∷ " holds no entities" ∷ [])
        else if length g.entities == 1
        then concat (path ∷ " holds 1 entity" ∷ [])
        else concat (path ∷ " holds " ∷ show (length g.entities) ∷ " entities" ∷ [])

unfoldable pub sbi_family : Entity → Option String
sbi_family e =
    let family = before_char b'_' (or_else e.name "") in
    if e.protocol == some "SBI" && e.type == some "message" && is_sbi_family family
    then some family
    else none

-- `by_id`: the last entity of an id that is not empty
unfoldable pub index_entity : Option String → Entity → Dict String Entity → Dict String Entity
index_entity none e d = d
index_entity (some id) e d = if id == "" then d else Dict.put id e d

unfoldable pub by_id : List Entity → Dict String Entity → Dict String Entity
unfolding index_entity
by_id [] d = d
by_id (e ∷ es) d = by_id es (index_entity e.id e d)

-- the ids already seen, in reverse, and the neighbours found
pub record Neighbors : Type 0 where
  pub seen : List String
  pub found : List Entity

unfoldable pub add_found : String → Option Entity → Neighbors → Neighbors
add_found id none st = st
add_found id (some e) st =
    if contains st.seen id then st else record { seen = id ∷ st.seen; found = st.found ++ e ∷ [] }

unfoldable pub add_neighbor : Dict String Entity → Option String → Neighbors → Neighbors
unfolding add_found
add_neighbor ids none st = st
add_neighbor ids (some id) st = add_found id (Dict.get id ids) st

unfoldable pub is_wanted : List String → Option String → Bool
is_wanted wanted none = false
is_wanted wanted (some id) = contains wanted id

unfoldable pub walk_edges : Dict String Entity → List String → List Edge → Neighbors → Neighbors
unfolding add_neighbor is_wanted
walk_edges ids wanted [] st = st
walk_edges ids wanted (edge ∷ edges) st =
    let forward = if is_wanted wanted edge.src then add_neighbor ids edge.dst st else st in
    let both = if is_wanted wanted edge.dst then add_neighbor ids edge.src forward else forward in
    walk_edges ids wanted edges (if edge.kind == some "co_mentioned" then both else st)

unfoldable pub co_mentioned : SpecGraphState → List String → List Entity
unfolding by_id walk_edges
co_mentioned g wanted =
    let walked : Neighbors =
      walk_edges (by_id g.entities []) wanted g.edges (record { seen = []; found = [] }) in
    walked.found

-- the entities of a family, and their ids
unfoldable pub sbi_entities : SpecGraphState → String → List Entity
unfolding sbi_family
sbi_entities g family = filter (λ e. sbi_family e == some family) g.entities

module _ (upper lower : String → String) where
  unfoldable pub service_family : String → String
  service_family target = concat ("N" ∷ lower target ∷ [])

  -- a neighbour's id under the role of its family
  unfoldable pub add_partner :
      String → Option String → String → Dict String (List String) → Dict String (List String)
  add_partner target none id d = d
  add_partner target (some family) id d =
      let role = upper (drop_first family) in
      if upper role == upper target then d else Dict.put role (cited (Dict.get role d) ++ id ∷ []) d
    where
      cited : Option (List String) → List String
      cited none = []
      cited (some ids) = ids

  unfoldable pub collect_partners :
      String → List Entity → Dict String (List String) → Dict String (List String)
  unfolding add_partner
  collect_partners target [] d = d
  collect_partners target (e ∷ es) d =
      collect_partners target es (add_partner target (sbi_family e) (or_else e.id "") d)

  abbrev pub partner_of : (String × List String) → RefPartner
  partner_of (role, ids) = record { role = role; evidence = ids }

  unfoldable pub reference_partners : SpecGraphState → String → List RefPartner
  unfolding sbi_entities collect_partners service_family
  reference_partners g target =
      if graph_consulted g
      then sort_le (λ p q. text_le p.role q.role)
          (map partner_of (
            collect_partners target
              (co_mentioned g (map (λ e. or_else e.id "") (sbi_entities g (service_family target))))
              []))
      else []
