-- ===== src/Impact/Radius.antt =====
-- capture.py: the blast radius of a Change, from the roles that a capture proves.
-- `upper` and `lower` are Python's `str.upper` and `str.lower`.
pub mod Attribution
pub mod Partners
pub mod Knowledge
use net_cortex.Prelude.{
  ℕ, zero, suc, ◌+◌, String, Bool, true, false, ◌&&◌, ◌||◌, not, Option, none, some, List, [], ◌∷◌,
  ◌++◌, map, if◌then◌else◌, ◌==◌, nat_eq, string_eq, option_eq, contains, any, find, get_elem?,
  length, or_else, text_le,
}
use net_cortex.Prelude.Dict
use net_cortex.Prelude.Dict.{Dict}
use net_cortex.Prelude.Sorting.{sort_le}
use net_cortex.Impact.Change.{Change}
use net_cortex.Impact.Capture.{
  Message, ProcedureEntry, FlowEntry, Plane, Pointer, Role, ProcedureHit, KpiStats, AffectedNf,
  BlastResult, CaptureState, flow_procedure, n4_message, n4_procedure, sbi_message, sbi_procedure,
  located, located_flows, infer_roles, capture_consulted,
}

-- `role_by_ip`: the last role of an IP is kept
unfoldable pub role_by_ip : List Role → Dict String Role → Dict String Role
role_by_ip [] d = d
role_by_ip (r ∷ roles) d = role_by_ip roles (Dict.put r.ip r d)

-- `partners` and `unknown_ips`
pub record Peers : Type 0 where
  pub partners : Dict String AffectedNf
  pub unknown_ips : Dict String Pointer

abbrev pub no_peers : Peers
no_peers = record { partners = []; unknown_ips = [] }

abbrev pub no_kpis : KpiStats
no_kpis = record { count = 0; successes = 0; failures = 0 }

-- `d.setdefault(k, v)`
unfoldable pub set_default {ℓ} : {V : Type ℓ} → String → V → Dict String V → Dict String V
set_default {V} k v d = keep (Dict.get k d)
  where
    keep : Option V → Dict String V
    keep none = Dict.put k v d
    keep (some w) = d

module _ (upper : String → String) where
  unfoldable pub same_role : String → String → Bool
  same_role a b = upper a == upper b

  unfoldable pub affected_by : Role → AffectedNf
  affected_by peer = record {
    role = peer.role;
    ip = peer.ip;
    evidence = peer.evidence;
    procedures = [];
    kpis = no_kpis;
  }

  module _ (change : Change) (roles : Dict String Role) (target : Role) where
    -- what the role of a peer says
    unfoldable pub note_role : String → Pointer → Option Role → Peers → Peers
    unfolding set_default same_role affected_by
    note_role ip at none st = record st { unknown_ips = set_default ip at st.unknown_ips }
    note_role ip at (some peer) st = if same_role peer.role change.target then st else record st {
      partners = set_default ip (affected_by (record peer { ip = ip })) st.partners;
    }

    unfoldable pub note_peer : Option String → Pointer → Peers → Peers
    note_peer none at st = st
    note_peer (some ip) at st =
        if ip == "" || ip == target.ip then st else note_role ip at (Dict.get ip roles) st

    -- both ends of a message
    unfoldable pub note_message : (Pointer × Message) → Peers → Peers
    note_message (at, m) st =
        let met : Peers = if m.dst_ip == some target.ip then note_peer m.src_ip at st else st in
        if m.src_ip == some target.ip then note_peer m.dst_ip at met else met

    unfoldable pub note_messages : List (Pointer × Message) → Peers → Peers
    note_messages [] st = st
    note_messages (m ∷ ms) st = note_messages ms (note_message m st)

-- every message of the capture, in the order in which the radius reads them
unfoldable pub all_messages : CaptureState → List (Pointer × Message)
all_messages c =
    located_flows 0 c.flows
    ++ located n4_message 0 c.n4.messages
    ++ located sbi_message 0 c.sbi.messages

abbrev pub count_if : Bool → ℕ
count_if b = if b then 1 else 0

-- `_attributed`
unfoldable pub attributed : AffectedNf → Pointer → ProcedureEntry → AffectedNf
attributed nf at p =
    let outcome = or_else p.outcome "" in
    record {
      role = nf.role;
      ip = nf.ip;
      evidence = nf.evidence;
      procedures =
          nf.procedures
          ++ (record { pointer = at; kind = or_else p.kind ""; outcome = outcome }) ∷ [];
      kpis = record {
        count = nf.kpis.count + 1;
        successes = nf.kpis.successes + count_if (outcome == "accept");
        failures = nf.kpis.failures + count_if (outcome == "reject");
      };
    }

-- the procedure, attributed to the partners that a test picks
unfoldable pub attribute :
    (String → AffectedNf → Bool)
    → Pointer
    → ProcedureEntry
    → Dict String AffectedNf
    → Dict String AffectedNf
attribute picks at p [] = []
attribute picks at p ((ip, nf) ∷ d) =
    (ip, if picks ip nf then attributed nf at p else nf) ∷ attribute picks at p d

unfoldable pub attribute_all :
    (String → AffectedNf → Bool)
    → (ℕ → Pointer)
    → ℕ
    → List ProcedureEntry
    → Dict String AffectedNf
    → Dict String AffectedNf
attribute_all picks at i [] d = d
attribute_all picks at i (p ∷ ps) d = attribute_all picks at (suc i) ps (attribute picks (at i) p d)

-- `ip in {…}` of the IPs that messages name
unfoldable pub names_ip : String → Message → Bool
names_ip ip m = not (ip == "") && (m.src_ip == some ip || m.dst_ip == some ip)

-- N2: the roles whose IPs appear in the flow
unfoldable pub attribute_flows :
    ℕ → List FlowEntry → Dict String AffectedNf → Dict String AffectedNf
attribute_flows i [] d = d
attribute_flows i (flow ∷ flows) d =
    attribute_flows (suc i) flows (
      attribute_all (λ ip _. any (names_ip ip) flow.messages) (flow_procedure i) 0 flow.procedures
        d)

-- N4: the SMF–UPF plane itself
abbrev pub on_n4 : String → AffectedNf → Bool
on_n4 ip nf = nf.role == "SMF" || nf.role == "UPF"

-- `flow_by_id`: the last flow of an id is kept
unfoldable pub flow_by_id : List FlowEntry → Dict ℕ FlowEntry → Dict ℕ FlowEntry
flow_by_id [] d = d
flow_by_id (flow ∷ flows) d = flow_by_id flows (put_id flow.flow_id)
  where
    put_id : Option ℕ → Dict ℕ FlowEntry
    put_id none = d
    put_id (some i) = Dict.put i flow d

unfoldable pub flow_of : Option ℕ → Dict ℕ FlowEntry → Option FlowEntry
flow_of none d = none
flow_of (some i) d = Dict.get i d

unfoldable pub ref_names_ip : List Message → String → ℕ → Bool
ref_names_ip messages ip ref = named (get_elem? messages ref)
  where
    named : Option Message → Bool
    named none = false
    named (some m) = names_ip ip m

-- SBI: through the referenced messages of the procedure's flow
unfoldable pub attribute_through :
    List Message
    → Pointer
    → ProcedureEntry
    → Option FlowEntry
    → Dict String AffectedNf
    → Dict String AffectedNf
attribute_through messages at p none d = d
attribute_through messages at p (some flow) d =
    attribute (λ ip _. any (ref_names_ip messages ip) flow.sbi_refs) at p d

unfoldable pub attribute_sbi :
    List Message
    → Dict ℕ FlowEntry
    → ℕ
    → List ProcedureEntry
    → Dict String AffectedNf
    → Dict String AffectedNf
attribute_sbi messages flows i [] d = d
attribute_sbi messages flows i (p ∷ ps) d =
    attribute_sbi messages flows (suc i) ps
      (attribute_through messages (sbi_procedure i) p (flow_of p.flow_id flows) d)

unfoldable pub attribute_planes : CaptureState → Dict String AffectedNf → Dict String AffectedNf
attribute_planes c d =
    let n2 = attribute_flows 0 c.flows d in
    let n4 = attribute_all on_n4 n4_procedure 0 c.n4.procedures n2 in
    attribute_sbi c.sbi.messages (flow_by_id c.flows []) 0 c.sbi.procedures n4

-- the order of `(nf.role, nf.ip)`
abbrev pub nf_le : AffectedNf → AffectedNf → Bool
nf_le a b = if a.role == b.role then text_le a.ip b.ip else text_le a.role b.role

abbrev pub no_radius : BlastResult
no_radius = record { target = none; affected = []; unknown_peers = 0; unknown_peer_pointers = [] }

module _ (upper lower : String → String) where
  unfoldable pub target_of : Change → List Role → Option Role
  unfolding same_role
  target_of change roles = find (λ r. same_role upper r.role change.target) roles

  -- the peers that the messages of the capture show
  unfoldable pub peers_of : Change → CaptureState → Role → Peers
  peers_of change c target =
      note_messages upper change (role_by_ip (infer_roles upper lower c) []) target (all_messages c)
        no_peers

  unfoldable pub radius_of : Change → CaptureState → Option Role → BlastResult
  radius_of change c none = no_radius
  radius_of change c (some target) =
      let peers = peers_of change c target in
      record {
        target = some target;
        affected = sort_le nf_le (Dict.values (attribute_planes c peers.partners));
        unknown_peers = length peers.unknown_ips;
        unknown_peer_pointers = Dict.values peers.unknown_ips;
      }

  unfoldable pub blast_radius : Change → CaptureState → BlastResult
  blast_radius change c =
      if capture_consulted c
      then radius_of change c (target_of change (infer_roles upper lower c))
      else no_radius

  -- `BlastResult.proximity_of`
  unfoldable pub proximity_of : BlastResult → String → Option ℕ
  proximity_of r role = near r.target
    where
      near : Option Role → Option ℕ
      near none = none
      near (some target) =
          if same_role upper role target.role
          then some 0
          else if any (λ nf. same_role upper nf.role role) r.affected
          then some 1
          else none
