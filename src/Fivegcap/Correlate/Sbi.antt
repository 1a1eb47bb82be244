-- ===== src/Fivegcap/Correlate/Sbi.antt =====
-- `_join_sbi`: which SBI messages are linked, and to which flow.
use net_cortex.Prelude.{
  ℕ, zero, suc, ◌+◌, ◌≤◌, ◌<◌, String, ◌≡◌, ◌⊎◌, refl, ◌∙◌, Option, none, some, List, [], ◌∷◌, ◌==◌,
  nat_eq, string_eq, pair_eq, option_eq, arith, inl, inr, get_elem?, if◌then◌else◌,
}
use net_cortex.Prelude.Dict
use net_cortex.Prelude.Dict.{Dict, get-put, get-nil}
use net_cortex.Fivegcap.Messages.{SbiMsg, Conn}
use net_cortex.Fivegcap.Correlate.{Correlation, Requests, sbi_flow_of, link_request, join_requests}
use net_cortex.Fivegcap.Correlate.Links.{
  Agree, Unlinked, Agree-put-none, Agree-link, Unlinked-put-none,
}

abbrev pub second : Option (Conn × ℕ) → Option ℕ
second none = none
second (some (conn, fid)) = some fid

-- The joins of this plane leave the links of the other alone.
pub record SameN4 (c d : Correlation) : Type 0 where
  pub n4_flow : d.n4_flow ≡ c.n4_flow
  pub flow_n4_refs : d.flow_n4_refs ≡ c.flow_n4_refs

pub SameN4-trans : {c d e : Correlation} → SameN4 c d → SameN4 d e → SameN4 c e
SameN4-trans p q = record {
  n4_flow = q.n4_flow ∙ p.n4_flow;
  flow_n4_refs = q.flow_n4_refs ∙ p.flow_n4_refs;
}

module _ (un : Dict String ℕ) where
  link_request-get :
      (i j stream : ℕ) (o : Option (Conn × ℕ)) (c : Correlation) (reqs : Requests)
      → Dict.get j (link_request i stream o (c, reqs)).0.sbi_flow
        ≡ (if j == i then some (second o) else Dict.get j c.sbi_flow)
  unfolding link_request
  link_request-get i j stream none c reqs = get-put j i none c.sbi_flow
  link_request-get i j stream (some (conn, fid)) c reqs =
      ground
        (arith, get-put j i (some fid) (Dict.put i none c.sbi_flow), get-put j i none c.sbi_flow)

  requests_before :
      (ms : List SbiMsg) (i j : ℕ) (c : Correlation) (reqs : Requests)
      → j < i
      → Dict.get j (join_requests un i ms (c, reqs)).0.sbi_flow ≡ Dict.get j c.sbi_flow
  unfolding join_requests
  requests_before [] i j c reqs lt = refl
  requests_before (m ∷ ms) i j c reqs lt =
      let (c', reqs') = link_request i m.stream_id (sbi_flow_of un m) (c, reqs) in
      requests_before ms (suc i) j c' reqs' (omega arith)
      ∙ ground (arith, link_request-get i j m.stream_id (sbi_flow_of un m) c reqs)

  pub requests_at :
      (ms : List SbiMsg) (i j k : ℕ) (c : Correlation) (reqs : Requests) (m : SbiMsg)
      → get_elem? ms k ≡ some m
      → j ≡ i + k
      → Dict.get j (join_requests un i ms (c, reqs)).0.sbi_flow ≡ some (second (sbi_flow_of un m))
  unfolding join_requests
  requests_at [] i j k c reqs m h q = cc
  requests_at (m' ∷ ms) i j zero c reqs m h q =
      let (c', reqs') = link_request i m'.stream_id (sbi_flow_of un m') (c, reqs) in
      requests_before ms (suc i) j c' reqs' (omega arith)
      ∙ ground (arith, link_request-get i j m'.stream_id (sbi_flow_of un m') c reqs)
  requests_at (m' ∷ ms) i j (suc k) c reqs m h q =
      let (c', reqs') = link_request i m'.stream_id (sbi_flow_of un m') (c, reqs) in
      requests_at ms (suc i) j k c' reqs' m h (omega arith)

  link_request-reqs :
      (i stream : ℕ) (o : Option (Conn × ℕ)) (c : Correlation) (reqs : Requests) (key : Conn × ℕ)
      (fid : ℕ)
      → Dict.get key (link_request i stream o (c, reqs)).1 ≡ some fid
      → (Dict.get key reqs ≡ some fid) ⊎ ((o ≡ some (key.0, fid)) × (stream ≡ key.1))
  unfolding link_request
  link_request-reqs i stream none c reqs key fid h = inl h
  link_request-reqs i stream (some (conn, x)) c reqs key fid h =
      ground (arith, get-put key (conn, stream) x reqs)

  -- a (conn, stream) leads to a flow only by a request on it that joins that flow
  pub requests_sound :
      (ms : List SbiMsg) (i : ℕ) (c : Correlation) (reqs : Requests) (key : Conn × ℕ) (fid : ℕ)
      → Dict.get key (join_requests un i ms (c, reqs)).1 ≡ some fid
      → (Dict.get key reqs ≡ some fid)
        ⊎ ((k : ℕ) × (m : SbiMsg) × (get_elem? ms k ≡ some m)
            × (sbi_flow_of un m ≡ some (key.0, fid))
            × (m.stream_id ≡ key.1))
  unfolding join_requests
  requests_sound [] i c reqs key fid h = inl h
  requests_sound (m ∷ ms) i c reqs key fid h =
      let (c', reqs') = link_request i m.stream_id (sbi_flow_of un m) (c, reqs) in
      elim (requests_sound ms (suc i) c' reqs' key fid h) [
        | inr (k, n, at, joins, on) ↦ inr (suc k, n, at, joins, on)
        | inl earlier ↦
            elim (link_request-reqs i m.stream_id (sbi_flow_of un m) c reqs key fid earlier) [
              | inl before ↦ inl before
              | inr (joins, on) ↦ inr (0, m, refl, joins, on)
            ]
      ]

  link_request-Agree :
      (i stream : ℕ) (o : Option (Conn × ℕ)) (c : Correlation) (reqs : Requests)
      → Unlinked i c.sbi_flow
      → Agree c.sbi_flow c.flow_sbi_refs
      → Agree
          (link_request i stream o (c, reqs)).0.sbi_flow
          (link_request i stream o (c, reqs)).0.flow_sbi_refs
  unfolding link_request
  link_request-Agree i stream none c reqs free h =
      Agree-put-none c.sbi_flow c.flow_sbi_refs i free h
  link_request-Agree i stream (some (conn, fid)) c reqs free h =
      Agree-link (Dict.put i none c.sbi_flow) c.flow_sbi_refs i (Unlinked-put-none i c.sbi_flow)
        (Agree-put-none c.sbi_flow c.flow_sbi_refs i free h) fid

  pub requests-Agree :
      (ms : List SbiMsg) (i : ℕ) (c : Correlation) (reqs : Requests)
      → ((j : ℕ) → i ≤ j → Dict.get j c.sbi_flow ≡ none)
      → Agree c.sbi_flow c.flow_sbi_refs
      → Agree
          (join_requests un i ms (c, reqs)).0.sbi_flow
          (join_requests un i ms (c, reqs)).0.flow_sbi_refs
  unfolding join_requests
  requests-Agree [] i c reqs fresh h = h
  requests-Agree (m ∷ ms) i c reqs fresh h =
      let (c', reqs') = link_request i m.stream_id (sbi_flow_of un m) (c, reqs) in
      requests-Agree ms (suc i) c' reqs'
        (λ j le.
          link_request-get i j m.stream_id (sbi_flow_of un m) c reqs
          ∙ ground (arith, fresh j (omega arith)))
        (link_request-Agree i m.stream_id (sbi_flow_of un m) c reqs
          (λ fid. rw (fresh i (omega arith))) h)

  link_request-SameN4 :
      (i stream : ℕ) (o : Option (Conn × ℕ)) (c : Correlation) (reqs : Requests)
      → SameN4 c (link_request i stream o (c, reqs)).0
  unfolding link_request
  link_request-SameN4 i stream none c reqs = record { n4_flow = refl; flow_n4_refs = refl }
  link_request-SameN4 i stream (some (conn, fid)) c reqs = record {
    n4_flow = refl;
    flow_n4_refs = refl;
  }

  pub requests-SameN4 :
      (ms : List SbiMsg) (i : ℕ) (c : Correlation) (reqs : Requests)
      → SameN4 c (join_requests un i ms (c, reqs)).0
  unfolding join_requests
  requests-SameN4 [] i c reqs = record { n4_flow = refl; flow_n4_refs = refl }
  requests-SameN4 (m ∷ ms) i c reqs =
      let (c', reqs') = link_request i m.stream_id (sbi_flow_of un m) (c, reqs) in
      SameN4-trans (link_request-SameN4 i m.stream_id (sbi_flow_of un m) c reqs)
        (requests-SameN4 ms (suc i) c' reqs')
