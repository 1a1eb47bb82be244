-- ===== src/Fivegcap/Correlate/Tests.antt =====
-- Two flows with an own and a shared key, joined, and the theorems at them.
use net_cortex.Prelude.{
  ℕ, String, false, ◌≡◌, ◌≢◌, ◌↔◌, refl, Option, none, some, List, [], ◌∷◌, get_elem?, contains,
  any, nat_eq, pair_eq, option_eq, string_eq,
}
use net_cortex.Prelude.Dict
use net_cortex.Prelude.Sorting.{IsSorted, sort_by}
use net_cortex.Fivegcap.Messages.{
  NgapMsg, NasMsg, PfcpMsg, SbiMsg, Tunnel, Conn, Direction, request, response,
}
use net_cortex.Fivegcap.Flow.{Flow}
use net_cortex.Fivegcap.Correlate.{
  correlate, unambiguous, claim, claim_supi, claim_supis, flow_supis, claim_all, claim_tunnels,
  flow_tunnels, append_ref, sort_refs, tunnel_flows, n4_flow_of, link_n4, join_n4_from, join_n4,
  sbi_flow_of, link_request, join_requests, inherited, link_response, join_responses, join_sbi,
  with_sbi, with_n4,
}
use net_cortex.Fivegcap.Correlate.Sets.{set_of}
use net_cortex.Fivegcap.Correlate.Claims.{claims_tunnel, claims_supi}
use net_cortex.Fivegcap.Correlate.Unambiguous.{
  OnlyOne, tunnel-unambiguous_iff, supi-unambiguous_iff,
}
use net_cortex.Fivegcap.Correlate.Links.{links_to}
use net_cortex.Fivegcap.Correlate.N4.{leads_to}
use net_cortex.Fivegcap.Correlate.Joins.{
  correlate-Agree, correlate-n4_iff, correlate-request_iff, correlate-response,
}

abbrev declaring : List Tunnel → NgapMsg
declaring tunnels = record {
  ts = 0;
  assoc = (1, 2);
  name = none;
  ran_ue_id = some 1;
  amf_ue_id = none;
  nas_pdu = none;
  f_teids = tunnels;
  unparsed = none;
}

abbrev nas_with : String → NasMsg
nas_with supi = record {
  name = none;
  protected = false;
  inner = none;
  cause = none;
  ciph_algo = none;
  supi = some supi;
  unparsed = none;
}

abbrev flow : ℕ → String → List Tunnel → Flow
flow id supi tunnels = record {
  flow_id = id;
  assoc = (1, 2);
  ran_ue_id = some id;
  amf_ue_id = none;
  partial = false;
  messages = (declaring tunnels, some (nas_with supi)) ∷ [];
  procedures = [];
  ciph_algo = none;
}

abbrev flows : List Flow
flows =
    flow 1 "00101" ((7, "10.0.0.1") ∷ (8, "10.0.0.1") ∷ [])
    ∷ flow 2 "00102" ((8, "10.0.0.1") ∷ [])
    ∷ []

abbrev pfcp : List Tunnel → PfcpMsg
pfcp tunnels = record {
  ts = 0;
  msg_type = some 51;
  name = none;
  seq = none;
  cause = none;
  cause_name = none;
  f_teids = tunnels;
  unparsed = none;
  src_ip = none;
  dst_ip = none;
  src_port = none;
  dst_port = none;
}

abbrev n4 : List PfcpMsg
n4 = pfcp ((8, "10.0.0.1") ∷ []) ∷ pfcp ((8, "10.0.0.1") ∷ (7, "10.0.0.1") ∷ []) ∷ []

abbrev conn : Conn
conn = ((some "10.0.0.2", 7777), (some "10.0.0.3", 40000))

abbrev sbi_message : Direction → Option String → SbiMsg
sbi_message direction supi = record {
  ts = 0;
  stream_id = 1;
  direction = direction;
  method = none;
  path = none;
  status = none;
  name = none;
  supi = supi;
  unparsed = none;
  conn = some conn;
}

abbrev sbi : List SbiMsg
sbi = sbi_message request (some "00102") ∷ sbi_message response none ∷ []

links_of_the_capture :
    ((correlate flows (some sbi) (some n4)).n4_flow ≡ (0, none) ∷ (1, some 1) ∷ [])
    × ((correlate flows (some sbi) (some n4)).sbi_flow ≡ (0, some 2) ∷ (1, some 2) ∷ [])
    × ((correlate flows (some sbi) (some n4)).flow_sbi_refs ≡ (2, 0 ∷ 1 ∷ []) ∷ [])
unfolding correlate unambiguous claim claim_supi claim_supis flow_supis claim_all claim_tunnels
    flow_tunnels append_ref sort_refs tunnel_flows n4_flow_of link_n4 join_n4_from join_n4
    sbi_flow_of link_request join_requests inherited link_response join_responses join_sbi with_sbi
    with_n4 nat_eq pair_eq option_eq string_eq Dict.get Dict.put sort_by
links_of_the_capture = (refl, refl, refl)

first_request : (correlate flows (some sbi) (some n4)).sbi_flow ≡ (0, some 2) ∷ (1, some 2) ∷ []
first_request = links_of_the_capture.1

tunnel-unambiguous_example :
    (Dict.get (7, "10.0.0.1") (unambiguous (flow_tunnels flows [])) ≡ some 1)
    ↔ OnlyOne (claims_tunnel (7, "10.0.0.1") flows) 1
tunnel-unambiguous_example = tunnel-unambiguous_iff flows (7, "10.0.0.1") 1

supi-unambiguous_example :
    (Dict.get "00102" (unambiguous (flow_supis flows [])) ≡ some 2)
    ↔ OnlyOne (claims_supi "00102" flows) 2
supi-unambiguous_example = supi-unambiguous_iff flows "00102" 2

correlate-Agree_example :
    ((i : ℕ)
      → contains (set_of 2 (correlate flows (some sbi) (some n4)).flow_sbi_refs) i
        ≡ links_to 2 (Dict.get i (correlate flows (some sbi) (some n4)).sbi_flow))
    × ((i : ℕ)
        → contains (set_of 2 (correlate flows (some sbi) (some n4)).flow_n4_refs) i
          ≡ links_to 2 (Dict.get i (correlate flows (some sbi) (some n4)).n4_flow))
    × IsSorted (λ i. i) (set_of 2 (correlate flows (some sbi) (some n4)).flow_sbi_refs)
    × IsSorted (λ i. i) (set_of 2 (correlate flows (some sbi) (some n4)).flow_n4_refs)
correlate-Agree_example = correlate-Agree flows (some sbi) (some n4) 2

correlate-n4_example :
    (Dict.get 1 (correlate flows (some sbi) (some n4)).n4_flow ≡ some (some 1)) ↔ (
      ((pfcp ((8, "10.0.0.1") ∷ (7, "10.0.0.1") ∷ [])).unparsed ≡ none)
      × OnlyOne
          (λ x.
            any
              (leads_to (unambiguous (flow_tunnels flows [])) x)
              ((8, "10.0.0.1") ∷ (7, "10.0.0.1") ∷ []))
          1)
correlate-n4_example =
    correlate-n4_iff flows (some sbi) n4 1 (pfcp ((8, "10.0.0.1") ∷ (7, "10.0.0.1") ∷ [])) 1 refl

correlate-request_example :
    (Dict.get 0 (correlate flows (some sbi) (some n4)).sbi_flow ≡ some (some 2)) ↔ (
      ((sbi_message request (some "00102")).unparsed ≡ none)
      × (◌≢◌ {A = Option Conn} (some conn) none)
      × (s : String) × (◌≡◌ {A = Option String} (some "00102") (some s))
      × OnlyOne (claims_supi s flows) 2)
correlate-request_example =
    correlate-request_iff flows sbi (some n4) 0 (sbi_message request (some "00102")) 2 refl refl

response_links : Dict.get 1 (correlate flows (some sbi) (some n4)).sbi_flow ≡ some (some 2)
unfolding Dict.get nat_eq
response_links = rw first_request

correlate-response_example :
    (j : ℕ) × (r : SbiMsg) × (get_elem? sbi j ≡ some r)
    × (r.direction ≡ request)
    × (r.conn ≡ some conn)
    × (r.stream_id ≡ 1)
    × (Dict.get j (correlate flows (some sbi) (some n4)).sbi_flow ≡ some (some 2))
correlate-response_example =
    correlate-response flows sbi (some n4) 1 (sbi_message response none) 2 refl refl response_links
