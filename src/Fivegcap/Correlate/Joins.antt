-- ===== src/Fivegcap/Correlate/Joins.antt =====
-- The links that `correlate` makes, plane by plane.
use net_cortex.Prelude.{
  ℕ, suc, ◌+◌, String, false, ◌≡◌, ◌≢◌, ◌↔◌, refl, sym, ap, ap₂, ◌∙◌, Option, none, some,
  some-injective, List, [], ◌∷◌, nat_eq, string_eq, pair_eq, option_eq, contains, any, arith,
  Bool-cases, Option-cases, inl, inr, get_elem?, subst,
}
use net_cortex.Prelude.Dict
use net_cortex.Prelude.Dict.{Dict, get-nil}
use net_cortex.Prelude.Sorting.{IsSorted}
use net_cortex.Fivegcap.Messages.{PfcpMsg, SbiMsg, Conn, request, response}
use net_cortex.Fivegcap.Flow.{Flow}
use net_cortex.Fivegcap.Correlate.{
  Correlation, Requests, no_links, unambiguous, flow_supis, flow_tunnels, sbi_flow_of, with_conn,
  supi_flow, get_request, inherited, join_requests, join_sbi, with_sbi, with_n4, correlate,
  is_request, messages_or_empty,
}
use net_cortex.Fivegcap.Correlate.Sets.{set_of}
use net_cortex.Fivegcap.Correlate.Claims.{claims_supi}
use net_cortex.Fivegcap.Correlate.Unambiguous.{OnlyOne, supi-unambiguous_iff}
use net_cortex.Fivegcap.Correlate.Links.{
  Agree, Unlinked, Agree-sort_refs, sort_refs-IsSorted, Agree-nil, links_to,
}
use net_cortex.Fivegcap.Correlate.N4.{
  leads_to, n4_flow_of_iff, with_n4-get, with_n4-Agree, with_n4-IsSorted, with_n4-SameSbi,
}
use net_cortex.Fivegcap.Correlate.Sbi.{
  second, SameN4, SameN4-trans, requests_at, requests_sound, requests-Agree, requests-SameN4,
}
use net_cortex.Fivegcap.Correlate.Responses.{
  override, Waiting, responses_at, responses-Agree, responses-SameN4,
}

joins_iff :
    (un : Dict String ℕ) (conn : Option Conn) (supi : Option String) (fid : ℕ)
    → (second (with_conn conn (supi_flow un supi)) ≡ some fid)
      ↔ ((conn ≢ none) × (s : String) × (supi ≡ some s) × (Dict.get s un ≡ some fid))
joins_iff un none supi fid = (λ q. cc, λ q. absurd (q.0 refl))
joins_iff un (some conn) none fid = (λ q. cc, λ q. cc (q.2))
joins_iff un (some conn) (some s) fid = elim (Option-cases (Dict.get s un)) [
  | inl e ↦ rw e (λ q. cc, λ q. sym e ∙ found q.1 q.2 q.3)
  | inr (x, e) ↦ rw e (λ q. ((λ r. cc), s, refl, e ∙ q), λ q. sym e ∙ found q.1 q.2 q.3)
]
  where
    found : (t : String) → some s ≡ some t → Dict.get t un ≡ some fid → Dict.get s un ≡ some fid
    found t p h = subst (λ u. Dict.get u un ≡ some fid) (sym (some-injective s t p)) h

request_flow_iff :
    (un : Dict String ℕ) (m : SbiMsg) (fid : ℕ)
    → m.direction ≡ request
    → (second (sbi_flow_of un m) ≡ some fid) ↔ (
        (m.unparsed ≡ none)
        × (m.conn ≢ none)
        × (s : String) × (m.supi ≡ some s)
        × (Dict.get s un ≡ some fid))
unfolding sbi_flow_of
request_flow_iff un m fid q = elim (Option-cases m.unparsed) [
  | inl e ↦
      rw (q, e)
        (let iff = joins_iff un m.conn m.supi fid in
          (λ r. let (a, s, b, c) = iff.0 r in (refl, a, s, b, c), λ r. iff.1 (r.1, r.2, r.3, r.4)))
  | inr (note, e) ↦ rw (q, e) (λ r. cc, λ r. cc (r.0))
]

waiting :
    (reqs : Requests) (ms : List SbiMsg) (i : ℕ) (c : Correlation)
    → ((j k : ℕ) (m : SbiMsg)
        → get_elem? ms k ≡ some m
        → j ≡ i + k
        → is_request m.direction ≡ false
        → Unlinked j c.sbi_flow)
    → Waiting reqs i ms c
waiting reqs [] i c h = tt
waiting reqs (m ∷ ms) i c h = (
  h i 0 m refl (omega arith),
  waiting reqs ms (suc i) c (λ j k n at q. h j (suc k) n at (omega arith)),
)

joined_request :
    (un : Dict String ℕ) (r : SbiMsg) (conn : Conn) (fid : ℕ)
    → sbi_flow_of un r ≡ some (conn, fid)
    → (r.direction ≡ request) × (r.conn ≡ some conn)
unfolding sbi_flow_of
joined_request un r conn fid h = (ground arith, ground arith)

inherited-eq-none : (reqs : Requests) (m : SbiMsg) → m.direction ≡ request → inherited reqs m ≡ none
unfolding inherited
inherited-eq-none reqs m q = rw q

inherited-eq-some :
    (reqs : Requests) (m : SbiMsg) (fid : ℕ)
    → inherited reqs m ≡ some fid
    → (conn : Conn) × (m.conn ≡ some conn) × (Dict.get (conn, m.stream_id) reqs ≡ some fid)
unfolding inherited
inherited-eq-some reqs m fid h = elim (Bool-cases (is_request m.direction)) [
  | inl e ↦ absurd (ground arith)
  | inr e ↦ through m.conn refl (rw e at h)
]
  where
    through :
        (o : Option Conn)
        → m.conn ≡ o
        → get_request reqs m.conn m.stream_id ≡ some fid
        → (conn : Conn) × (m.conn ≡ some conn) × (Dict.get (conn, m.stream_id) reqs ≡ some fid)
    through none e g = absurd (ground arith)
    through (some conn) e g = (conn, e, rw e at g)

module _ (flows : List Flow) where
  abbrev supi_keys : Dict String ℕ
  supi_keys = unambiguous (flow_supis flows [])

  abbrev requested : List SbiMsg → Correlation × Requests
  requested ms = join_requests supi_keys 0 ms (no_links, [])

  response_joins_none :
      (m : SbiMsg) → is_request m.direction ≡ false → sbi_flow_of supi_keys m ≡ none
  unfolding sbi_flow_of
  response_joins_none m e = rw e

  with_sbi-get :
      (ms : List SbiMsg) (i : ℕ) (m : SbiMsg)
      → get_elem? ms i ≡ some m
      → Dict.get i (with_sbi flows ms no_links).sbi_flow
        ≡ override (inherited (requested ms).1 m) (some (second (sbi_flow_of supi_keys m)))
  unfolding with_sbi join_sbi
  with_sbi-get [] i m h = cc
  with_sbi-get (n ∷ ms) i m h =
      responses_at (requested (n ∷ ms)).1 (n ∷ ms) 0 i i (requested (n ∷ ms)).0 m h (omega arith)
      ∙ ap (override (inherited (requested (n ∷ ms)).1 m))
          (requests_at supi_keys (n ∷ ms) 0 i i no_links [] m h (omega arith))

  with_sbi-Agree :
      (ms : List SbiMsg)
      → Agree (with_sbi flows ms no_links).sbi_flow (with_sbi flows ms no_links).flow_sbi_refs
  unfolding with_sbi join_sbi
  with_sbi-Agree [] = Agree-nil
  with_sbi-Agree (n ∷ ms) = Agree-sort_refs _ _ (
      responses-Agree (requested (n ∷ ms)).1 (n ∷ ms) 0 (requested (n ∷ ms)).0
        (waiting (requested (n ∷ ms)).1 (n ∷ ms) 0 (requested (n ∷ ms)).0 (λ j k m at q e fid.
          rw (requests_at supi_keys (n ∷ ms) 0 j k no_links [] m at q, response_joins_none m e)))
        (requests-Agree supi_keys (n ∷ ms) 0 no_links [] (λ j le. get-nil {V = Option ℕ} j)
          Agree-nil))

  with_sbi-IsSorted :
      (ms : List SbiMsg) (fid : ℕ)
      → IsSorted (λ i. i) (set_of fid (with_sbi flows ms no_links).flow_sbi_refs)
  unfolding with_sbi join_sbi
  with_sbi-IsSorted [] fid = rw (get-nil {V = List ℕ} fid) tt
  with_sbi-IsSorted (n ∷ ms) fid = sort_refs-IsSorted fid _

  with_sbi-SameN4 : (ms : List SbiMsg) → SameN4 no_links (with_sbi flows ms no_links)
  unfolding with_sbi join_sbi
  with_sbi-SameN4 [] = record { n4_flow = refl; flow_n4_refs = refl }
  with_sbi-SameN4 (n ∷ ms) =
      let same =
        SameN4-trans (requests-SameN4 supi_keys (n ∷ ms) 0 no_links [])
          (responses-SameN4 (requested (n ∷ ms)).1 (n ∷ ms) 0 (requested (n ∷ ms)).0) in
      record { n4_flow = same.n4_flow; flow_n4_refs = same.flow_n4_refs }

  link_of :
      (msgs : List SbiMsg) (n4_msgs : Option (List PfcpMsg)) (i : ℕ) (m : SbiMsg)
      → get_elem? msgs i ≡ some m
      → Dict.get i
          (with_n4 flows (messages_or_empty n4_msgs) (with_sbi flows msgs no_links)).sbi_flow
        ≡ override (inherited (requested msgs).1 m) (some (second (sbi_flow_of supi_keys m)))
  link_of msgs n4_msgs i m h =
      ap (Dict.get i)
        (with_n4-SameSbi flows (messages_or_empty n4_msgs) (with_sbi flows msgs no_links)).sbi_flow
      ∙ with_sbi-get msgs i m h

  -- The refs of each flow are sorted, and hold an index exactly if that message links to the flow,
  -- on the SBI plane and on the N4 plane.
  pub correlate-Agree :
      (sbi_msgs : Option (List SbiMsg)) (n4_msgs : Option (List PfcpMsg)) (fid : ℕ)
      → ((i : ℕ)
          → contains (set_of fid (correlate flows sbi_msgs n4_msgs).flow_sbi_refs) i
            ≡ links_to fid (Dict.get i (correlate flows sbi_msgs n4_msgs).sbi_flow))
        × ((i : ℕ)
            → contains (set_of fid (correlate flows sbi_msgs n4_msgs).flow_n4_refs) i
              ≡ links_to fid (Dict.get i (correlate flows sbi_msgs n4_msgs).n4_flow))
        × IsSorted (λ i. i) (set_of fid (correlate flows sbi_msgs n4_msgs).flow_sbi_refs)
        × IsSorted (λ i. i) (set_of fid (correlate flows sbi_msgs n4_msgs).flow_n4_refs)
  unfolding correlate
  correlate-Agree sbi_msgs n4_msgs fid =
      let ss = messages_or_empty sbi_msgs in
      let ns = messages_or_empty n4_msgs in
      let c = with_sbi flows ss no_links in
      let same = with_n4-SameSbi flows ns c in
      let n4 = with_sbi-SameN4 ss in
      (
        λ i. rw (same.sbi_flow, same.flow_sbi_refs) (with_sbi-Agree ss fid i),
        λ i. with_n4-Agree flows c n4.n4_flow n4.flow_n4_refs ns fid i,
        rw same.flow_sbi_refs (with_sbi-IsSorted ss fid),
        with_n4-IsSorted flows c n4.n4_flow n4.flow_n4_refs ns fid,
      )

  -- A PFCP message links to a flow exactly if it is not refused, one of its tunnels is a join key
  -- to the flow, and none is a join key to another flow.
  pub correlate-n4_iff :
      (sbi_msgs : Option (List SbiMsg)) (msgs : List PfcpMsg) (i : ℕ) (m : PfcpMsg) (fid : ℕ)
      → get_elem? msgs i ≡ some m
      → (Dict.get i (correlate flows sbi_msgs (some msgs)).n4_flow ≡ some (some fid)) ↔ (
          (m.unparsed ≡ none)
          × OnlyOne (λ x. any (leads_to (unambiguous (flow_tunnels flows [])) x) m.f_teids) fid)
  unfolding correlate
  correlate-n4_iff sbi_msgs msgs i m fid h =
      let c = with_sbi flows (messages_or_empty sbi_msgs) no_links in
      let n4 = with_sbi-SameN4 (messages_or_empty sbi_msgs) in
      let iff = n4_flow_of_iff (unambiguous (flow_tunnels flows [])) m fid in
      rw (with_n4-get flows c n4.n4_flow n4.flow_n4_refs msgs i m h)
        (λ q. iff.0 (some-injective _ _ q), λ q. ap some (iff.1 q))

  -- An SBI request links to a flow exactly if it is not refused, has a connection, and declares a
  -- SUPI that this flow, and no other, declares.
  pub correlate-request_iff :
      (msgs : List SbiMsg) (n4_msgs : Option (List PfcpMsg)) (i : ℕ) (m : SbiMsg) (fid : ℕ)
      → get_elem? msgs i ≡ some m
      → m.direction ≡ request
      → (Dict.get i (correlate flows (some msgs) n4_msgs).sbi_flow ≡ some (some fid)) ↔ (
          (m.unparsed ≡ none)
          × (m.conn ≢ none)
          × (s : String) × (m.supi ≡ some s)
          × OnlyOne (claims_supi s flows) fid)
  unfolding correlate
  correlate-request_iff msgs n4_msgs i m fid h q =
      let iff = request_flow_iff supi_keys m fid q in
      rw (link_of msgs n4_msgs i m h, inherited-eq-none (requested msgs).1 m q)
        (
          λ r.
              let (refused, conn, s, declared, key) = iff.0 (some-injective _ _ r) in
              (refused, conn, s, declared, (supi-unambiguous_iff flows s fid).0 key),
          λ r. ap some (iff.1 (r.0, r.1, r.2, r.3, (supi-unambiguous_iff flows r.2 fid).1 r.4)),
        )

  overridden :
      (m : SbiMsg) (o : Option ℕ) (fid : ℕ)
      → m.direction ≡ response
      → override o (some (second (sbi_flow_of supi_keys m))) ≡ some (some fid)
      → o ≡ some fid
  overridden m none fid q h = absurd (ground (arith, response_joins_none m (ap is_request q), h))
  overridden m (some x) fid q h = cc

  request_of :
      (msgs : List SbiMsg) (key : Conn × ℕ) (fid : ℕ)
      → Dict.get key (requested msgs).1 ≡ some fid
      → (k : ℕ) × (r : SbiMsg) × (get_elem? msgs k ≡ some r)
        × (sbi_flow_of supi_keys r ≡ some (key.0, fid))
        × (r.stream_id ≡ key.1)
  request_of msgs key fid h = elim (requests_sound supi_keys msgs 0 no_links [] key fid h) [
    | inl e ↦ absurd (cc (get-nil {V = ℕ} key))
    | inr found ↦ found
  ]

  -- A response links to a flow only if a request on its connection and stream links to it.
  pub correlate-response :
      (msgs : List SbiMsg) (n4_msgs : Option (List PfcpMsg)) (i : ℕ) (m : SbiMsg) (fid : ℕ)
      → get_elem? msgs i ≡ some m
      → m.direction ≡ response
      → Dict.get i (correlate flows (some msgs) n4_msgs).sbi_flow ≡ some (some fid)
      → (j : ℕ) × (r : SbiMsg) × (get_elem? msgs j ≡ some r)
        × (r.direction ≡ request)
        × (r.conn ≡ m.conn)
        × (r.stream_id ≡ m.stream_id)
        × (Dict.get j (correlate flows (some msgs) n4_msgs).sbi_flow ≡ some (some fid))
  unfolding correlate
  correlate-response msgs n4_msgs i m fid h q linked =
      let (conn, on_conn, found) = inherited-eq-some (requested msgs).1 m fid (
        overridden m (inherited (requested msgs).1 m) fid q
          (rw (link_of msgs n4_msgs i m h) at linked)) in
      let (k, r, at, joins, on) = request_of msgs (conn, m.stream_id) fid found in
      let (direction, same) = joined_request supi_keys r conn fid joins in
      (
        k,
        r,
        at,
        direction,
        same ∙ sym on_conn,
        on,
        link_of msgs n4_msgs k r at
            ∙ ap₂ (λ o p. override o (some (second p)))
                (inherited-eq-none (requested msgs).1 r direction) joins,
      )
