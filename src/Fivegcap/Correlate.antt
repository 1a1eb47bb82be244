-- ===== src/Fivegcap/Correlate.antt =====
-- correlate.py: the messages of the other planes are joined to the flows by strict key equality.
-- A Python set of flow ids is a list without repetitions.
pub mod Sets
pub mod Claims
pub mod Unambiguous
pub mod Links
pub mod N4
pub mod Sbi
pub mod Responses
pub mod Joins
pub mod Tests
use net_cortex.Prelude.{
  ℕ, suc, String, Bool, true, false, ◌&&◌, not, Option, none, some, List, [], ◌∷◌, ◌++◌, map,
  if◌then◌else◌, ◌==◌, Eq, nat_eq, string_eq, option_eq, pair_eq, contains, truthy, is_some,
}
use net_cortex.Prelude.Dict
use net_cortex.Prelude.Dict.{Dict}
use net_cortex.Prelude.Sorting.{sort_by}
use net_cortex.Fivegcap.Messages.{
  NgapMsg, NasMsg, PfcpMsg, SbiMsg, Tunnel, Conn, Direction, request, response,
}
use net_cortex.Fivegcap.Flow.{Flow}

-- The four dicts of `Correlation`.
pub record Correlation : Type 0 where
  pub sbi_flow : Dict ℕ (Option ℕ)
  pub flow_sbi_refs : Dict ℕ (List ℕ)
  pub n4_flow : Dict ℕ (Option ℕ)
  pub flow_n4_refs : Dict ℕ (List ℕ)

abbrev pub no_links : Correlation
no_links = record { sbi_flow = []; flow_sbi_refs = []; n4_flow = []; flow_n4_refs = [] }

-- `d.get(k, empty)`
abbrev pub list_or_empty : Option (List ℕ) → List ℕ
list_or_empty none = []
list_or_empty (some xs) = xs

-- `s.add(x)`
abbrev pub add_to_set : ℕ → List ℕ → List ℕ
add_to_set x xs = if contains xs x then xs else xs ++ x ∷ []

module _ {K : Type 0} ⦃e : Eq K⦄ where
  -- `claims.setdefault(k, set()).add(fid)`
  unfoldable pub claim : K → ℕ → Dict K (List ℕ) → Dict K (List ℕ)
  claim k fid claims = Dict.put k (add_to_set fid (list_or_empty (Dict.get k claims))) claims

  -- `{s: next(iter(fs)) for s, fs in claims.items() if len(fs) == 1}`
  unfoldable pub unambiguous : Dict K (List ℕ) → Dict K ℕ
  unambiguous [] = []
  unambiguous ((k, fid ∷ []) ∷ claims) = (k, fid) ∷ unambiguous claims
  unambiguous ((k, _) ∷ claims) = unambiguous claims

-- the empty SUPI is false, and claims nothing
unfoldable pub claim_supi : ℕ → Option String → Dict String (List ℕ) → Dict String (List ℕ)
claim_supi fid none claims = claims
claim_supi fid (some supi) claims = if supi == "" then claims else claim supi fid claims

-- the loop over the messages of a flow in `_flow_supis`
unfoldable pub claim_supis :
    ℕ → List (NgapMsg × Option NasMsg) → Dict String (List ℕ) → Dict String (List ℕ)
claim_supis fid [] claims = claims
claim_supis fid ((_, none) ∷ ms) claims = claim_supis fid ms claims
claim_supis fid ((_, some nas) ∷ ms) claims = claim_supis fid ms (claim_supi fid nas.supi claims)

unfoldable pub flow_supis : List Flow → Dict String (List ℕ) → Dict String (List ℕ)
flow_supis [] claims = claims
flow_supis (f ∷ flows) claims = flow_supis flows (claim_supis f.flow_id f.messages claims)

-- the loops over the messages of a flow, and over their tunnels, in `_flow_tunnels`
unfoldable pub claim_all : ℕ → List Tunnel → Dict Tunnel (List ℕ) → Dict Tunnel (List ℕ)
claim_all fid [] claims = claims
claim_all fid (t ∷ ts) claims = claim_all fid ts (claim t fid claims)

unfoldable pub claim_tunnels :
    ℕ → List (NgapMsg × Option NasMsg) → Dict Tunnel (List ℕ) → Dict Tunnel (List ℕ)
claim_tunnels fid [] claims = claims
claim_tunnels fid ((ng, _) ∷ ms) claims = claim_tunnels fid ms (claim_all fid ng.f_teids claims)

unfoldable pub flow_tunnels : List Flow → Dict Tunnel (List ℕ) → Dict Tunnel (List ℕ)
flow_tunnels [] claims = claims
flow_tunnels (f ∷ flows) claims = flow_tunnels flows (claim_tunnels f.flow_id f.messages claims)

-- `refs.setdefault(fid, []).append(i)`
unfoldable pub append_ref : ℕ → ℕ → Dict ℕ (List ℕ) → Dict ℕ (List ℕ)
append_ref fid i refs = Dict.put fid (list_or_empty (Dict.get fid refs) ++ i ∷ []) refs

-- `for refs in d.values(): refs.sort()`
unfoldable pub sort_refs : Dict ℕ (List ℕ) → Dict ℕ (List ℕ)
sort_refs [] = []
sort_refs ((fid, refs) ∷ d) = (fid, sort_by (λ i. i) refs) ∷ sort_refs d

abbrev pub add_flow : Option ℕ → List ℕ → List ℕ
add_flow none fids = fids
add_flow (some fid) fids = add_to_set fid fids

-- the set of the flows of the message's tunnels
unfoldable pub tunnel_flows : Dict Tunnel ℕ → List Tunnel → List ℕ → List ℕ
tunnel_flows un [] fids = fids
tunnel_flows un (t ∷ ts) fids = tunnel_flows un ts (add_flow (Dict.get t un) fids)

-- `next(iter(fs))` of a set of one
abbrev pub single : List ℕ → Option ℕ
single (fid ∷ []) = some fid
single _ = none

-- the flow that a PFCP message is joined to
unfoldable pub n4_flow_of : Dict Tunnel ℕ → PfcpMsg → Option ℕ
n4_flow_of un m = if is_some m.unparsed then none else single (tunnel_flows un m.f_teids [])

unfoldable pub link_n4 : ℕ → Option ℕ → Correlation → Correlation
link_n4 i none corr = record corr { n4_flow = Dict.put i none corr.n4_flow }
link_n4 i (some fid) corr = record corr {
  n4_flow = Dict.put i (some fid) (Dict.put i none corr.n4_flow);
  flow_n4_refs = append_ref fid i corr.flow_n4_refs;
}

-- the loop of `_join_n4` from index `i` on
unfoldable pub join_n4_from : Dict Tunnel ℕ → ℕ → List PfcpMsg → Correlation → Correlation
join_n4_from un i [] corr = corr
join_n4_from un i (m ∷ ms) corr = join_n4_from un (suc i) ms (link_n4 i (n4_flow_of un m) corr)

unfoldable pub join_n4 : List PfcpMsg → Dict Tunnel (List ℕ) → Correlation → Correlation
join_n4 msgs claims corr =
    let joined = join_n4_from (unambiguous claims) 0 msgs corr in
    record joined { flow_n4_refs = sort_refs joined.flow_n4_refs }

abbrev pub supi_flow : Dict String ℕ → Option String → Option ℕ
supi_flow un none = none
supi_flow un (some supi) = Dict.get supi un

abbrev pub with_conn : Option Conn → Option ℕ → Option (Conn × ℕ)
with_conn (some conn) (some fid) = some (conn, fid)
with_conn _ _ = none

abbrev pub is_request : Direction → Bool
is_request request = true
is_request response = false

-- the first loop of `_join_sbi`: the connection and the flow of a request that joins
unfoldable pub sbi_flow_of : Dict String ℕ → SbiMsg → Option (Conn × ℕ)
sbi_flow_of un m =
    if is_request m.direction && not (is_some m.unparsed)
    then with_conn m.conn (supi_flow un m.supi)
    else none

abbrev pub Requests : Type 0
Requests = Dict (Conn × ℕ) ℕ

abbrev pub link_sbi : ℕ → ℕ → Correlation → Correlation
link_sbi i fid corr = record corr {
  sbi_flow = Dict.put i (some fid) corr.sbi_flow;
  flow_sbi_refs = append_ref fid i corr.flow_sbi_refs;
}

unfoldable pub link_request :
    ℕ → ℕ → Option (Conn × ℕ) → Correlation × Requests → Correlation × Requests
link_request i stream none (corr, reqs) =
    (record corr { sbi_flow = Dict.put i none corr.sbi_flow }, reqs)
link_request i stream (some (conn, fid)) (corr, reqs) = (
  link_sbi i fid (record corr { sbi_flow = Dict.put i none corr.sbi_flow }),
  Dict.put (conn, stream) fid reqs,
)

unfoldable pub join_requests :
    Dict String ℕ → ℕ → List SbiMsg → Correlation × Requests → Correlation × Requests
join_requests un i [] s = s
join_requests un i (m ∷ ms) s =
    join_requests un (suc i) ms (link_request i m.stream_id (sbi_flow_of un m) s)

abbrev pub get_request : Requests → Option Conn → ℕ → Option ℕ
get_request reqs none stream = none
get_request reqs (some conn) stream = Dict.get (conn, stream) reqs

-- the flow that a response inherits from its request
unfoldable pub inherited : Requests → SbiMsg → Option ℕ
inherited reqs m = if is_request m.direction then none else get_request reqs m.conn m.stream_id

unfoldable pub link_response : ℕ → Option ℕ → Correlation → Correlation
link_response i none corr = corr
link_response i (some fid) corr = link_sbi i fid corr

-- the second loop of `_join_sbi`: the responses
unfoldable pub join_responses : Requests → ℕ → List SbiMsg → Correlation → Correlation
join_responses reqs i [] corr = corr
join_responses reqs i (m ∷ ms) corr =
    join_responses reqs (suc i) ms (link_response i (inherited reqs m) corr)

unfoldable pub join_sbi : List SbiMsg → Dict String (List ℕ) → Correlation → Correlation
join_sbi msgs claims corr =
    let (requested, reqs) = join_requests (unambiguous claims) 0 msgs (corr, []) in
    let joined = join_responses reqs 0 msgs requested in
    record joined { flow_sbi_refs = sort_refs joined.flow_sbi_refs }

-- an absent plane and an empty one are alike, and are not joined
abbrev pub messages_or_empty {ℓ} : {A : Type ℓ} → Option (List A) → List A
messages_or_empty none = []
messages_or_empty (some ms) = ms

unfoldable pub with_sbi : List Flow → List SbiMsg → Correlation → Correlation
with_sbi flows [] corr = corr
with_sbi flows (m ∷ ms) corr = join_sbi (m ∷ ms) (flow_supis flows []) corr

unfoldable pub with_n4 : List Flow → List PfcpMsg → Correlation → Correlation
with_n4 flows [] corr = corr
with_n4 flows (m ∷ ms) corr = join_n4 (m ∷ ms) (flow_tunnels flows []) corr

unfoldable pub correlate : List Flow → Option (List SbiMsg) → Option (List PfcpMsg) → Correlation
correlate flows sbi_msgs n4_msgs =
    with_n4 flows (messages_or_empty n4_msgs) (with_sbi flows (messages_or_empty sbi_msgs) no_links)
