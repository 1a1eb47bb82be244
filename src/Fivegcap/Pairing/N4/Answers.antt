-- ===== src/Fivegcap/Pairing/N4/Answers.antt =====
-- pair_procedures of pfcp.py: where its procedures come from.
use net_cortex.Prelude.{
  ℕ, suc, ◌+◌, ◌<◌, String, Option, none, some, List, [], ◌∷◌, map, ◌≡◌, refl, ap, nat_eq,
  string_eq, option_eq, pair_eq, ◌⊎◌, inl, inr, All, Pairwise, All-append, All-mono, get_elem?,
  if_split, sym, false, ◌-◌, truthy, arith,
}
use net_cortex.Prelude.Dict
use net_cortex.Prelude.Dict.{
  Dict, AllEntries, AllEntries-put, AllEntries-pop, AllEntries-get, AllEntries-mono, All-values,
}
use net_cortex.Prelude.Sorting.{sort_by-All}
use net_cortex.Fivegcap.Messages.{PfcpMsg}
use net_cortex.Fivegcap.Pairing.N4.Once.{IsOfOther, pair_procedures-once}
use net_cortex.Fivegcap.Pairing.N4.{
  N4Procedure, End, PathKey, request_key, response_key, Waiting, PairState, answered, timed_out,
  on_request, on_response, try_response, on_typed, on_message, pair_step, pair_from, nothing_paired,
  closed, pair_procedures, req_kind,
}

-- a decoded message of a request's type
abbrev pub IsRequest : PfcpMsg → String → Type 0
IsRequest m kind =
    (t : ℕ) × (m.msg_type ≡ some t) × (req_kind t ≡ some kind) × (truthy m.unparsed ≡ false)

-- a decoded message of no request's type, but of the next one
abbrev pub IsResponse : PfcpMsg → String → Type 0
IsResponse m kind =
    (t : ℕ) × (m.msg_type ≡ some t)
    × (req_kind t ≡ none)
    × (req_kind (t - 1) ≡ some kind)
    × (truthy m.unparsed ≡ false)

abbrev pub source_of : PfcpMsg → End
source_of m = (m.src_ip, m.src_port)

abbrev pub target_of : PfcpMsg → End
target_of m = (m.dst_ip, m.dst_port)

module _ (ms : List PfcpMsg) where
  -- the request that waits is a message of the capture: a decoded request of its kind
  abbrev pub IsSent : Waiting → Type 0
  IsSent w = (get_elem? ms w.index ≡ some w.request) × IsRequest w.request w.kind

  -- a later message answers it: a decoded response, from the request's target to its source, with its
  -- sequence number
  pub record Answer (w : Waiting) (kind : String) (m : PfcpMsg) (j : ℕ) : Type 0 where
    pub is_message : get_elem? ms j ≡ some m
    pub is_response : IsResponse m kind
    pub is_later : w.index < j
    pub from_target : source_of m ≡ target_of w.request
    pub to_source : target_of m ≡ source_of w.request
    pub same_seq : m.seq ≡ w.request.seq

  abbrev pub IsAnswered : N4Procedure → Type 0
  IsAnswered p =
      (w : Waiting) × (m : PfcpMsg) × (j : ℕ) × (kind : String) × IsSent w
      × Answer w kind m j
      × (p ≡ answered w kind m j)

  abbrev pub IsUnanswered : N4Procedure → Type 0
  IsUnanswered p = (w : Waiting) × IsSent w × (p ≡ timed_out w)

  abbrev pub WaitsAt : ℕ → PathKey → Waiting → Type 0
  WaitsAt i k w = (request_key w.request ≡ k) × IsSent w × (w.index < i)

  abbrev pub PairedOk : ℕ → PairState → Type 0
  PairedOk i st = AllEntries (WaitsAt i) st.pending × All IsAnswered st.procedures

  later : (i : ℕ) (st : PairState) → PairedOk i st → PairedOk (suc i) st
  later i st (w, p) = (
    AllEntries-mono (WaitsAt i) (WaitsAt (suc i)) (λ k v (q, s, l). (q, s, omega (arith, l)))
        st.pending w,
    p,
  )

  on_request-PairedOk :
      (m : PfcpMsg) (i : ℕ) (kind : String) (o : Option Waiting) (st : PairState)
      → get_elem? ms i ≡ some m
      → IsRequest m kind
      → PairedOk i st
      → PairedOk (suc i) (on_request m i kind o st)
  unfolding on_request
  on_request-PairedOk m i kind (some first) st at is h = later i st h
  on_request-PairedOk m i kind none st at is h =
      let (w, p) = later i st h in
      (
        AllEntries-put (WaitsAt (suc i)) (request_key m) _ st.pending (refl, (at, is), omega arith)
            w,
        p,
      )

  on_response-PairedOk :
      (m : PfcpMsg) (i : ℕ) (kind : String) (o : Option Waiting) (st : PairState)
      → get_elem? ms i ≡ some m
      → IsResponse m kind
      → Dict.get (response_key m) st.pending ≡ o
      → PairedOk i st
      → PairedOk (suc i) (on_response m i kind o st)
  unfolding on_response request_key response_key
  on_response-PairedOk m i kind none st at is g h = later i st h
  on_response-PairedOk m i kind (some w) st at is g (waits, p) =
      let (key, sent, before) = AllEntries-get (WaitsAt i) (response_key m) w st.pending g waits in
      let (waits_later, _) = later i st (waits, p) in
      (
        AllEntries-pop (WaitsAt (suc i)) (response_key m) st.pending waits_later,
        All-append IsAnswered st.procedures _ p (
          (
            w,
            m,
            i,
            kind,
            sent,
            record {
              is_message = at;
              is_response = is;
              is_later = before;
              from_target = ap (λ (k : PathKey). k.0.1) (sym key);
              to_source = ap (λ (k : PathKey). k.0.0) (sym key);
              same_seq = ap (λ (k : PathKey). k.1) (sym key);
            },
            refl,
          ),
          tt,
        ),
      )

  on_message-PairedOk :
      (m : PfcpMsg) (i : ℕ) (st : PairState)
      → get_elem? ms i ≡ some m
      → truthy m.unparsed ≡ false
      → PairedOk i st
      → PairedOk (suc i) (on_message m i m.msg_type st)
  unfolding on_message on_typed try_response
  on_message-PairedOk m i st at parsed h = by_type m.msg_type refl
    where
      by_response :
          (t : ℕ) (o : Option String)
          → m.msg_type ≡ some t
          → req_kind t ≡ none
          → req_kind (t - 1) ≡ o
          → PairedOk (suc i) (try_response m i o st)
      by_response t none typed other q = later i st h
      by_response t (some kind) typed other q =
          on_response-PairedOk m i kind _ st at (t, typed, other, q, parsed) refl h

      by_kind :
          (t : ℕ) (o : Option String)
          → m.msg_type ≡ some t
          → req_kind t ≡ o
          → PairedOk (suc i) (on_typed m i t o st)
      by_kind t (some kind) typed q = on_request-PairedOk m i kind _ st at (t, typed, q, parsed) h
      by_kind t none typed q = by_response t (req_kind (t - 1)) typed q refl

      by_type : (o : Option ℕ) → m.msg_type ≡ o → PairedOk (suc i) (on_message m i o st)
      by_type none typed = later i st h
      by_type (some t) typed = by_kind t (req_kind t) typed refl

  pair_step-PairedOk :
      (m : PfcpMsg) (i : ℕ) (st : PairState)
      → get_elem? ms i ≡ some m
      → PairedOk i st
      → PairedOk (suc i) (pair_step m i st)
  unfolding pair_step
  pair_step-PairedOk m i st at h =
      if_split (PairedOk (suc i)) (truthy m.unparsed) _ _ (λ unparsed. later i st h)
        (λ parsed. on_message-PairedOk m i st at parsed h)

  pair_from-PairedOk :
      (i : ℕ) (rest : List PfcpMsg) (st : PairState)
      → ((j n : ℕ) → n ≡ i + j → get_elem? ms n ≡ get_elem? rest j)
      → PairedOk i st
      → (n : ℕ) × PairedOk n (pair_from i rest st)
  unfolding pair_from
  pair_from-PairedOk i [] st at h = (i, h)
  pair_from-PairedOk i (m ∷ rest) st at h =
      pair_from-PairedOk (suc i) rest (pair_step m i st) (λ j n q. at (suc j) n (omega (arith, q)))
        (pair_step-PairedOk m i st (at 0 i (omega arith)) h)

  closed-All :
      (n : ℕ) (st : PairState)
      → PairedOk n st
      → All (λ p. IsAnswered p ⊎ IsUnanswered p) (closed st).0
  unfolding closed
  closed-All n st (w, p) = sort_by-All _ _ _ (
      All-append _ st.procedures _ (All-mono _ _ (λ q a. inl a) st.procedures p) (
        waiting (Dict.values st.pending) (
          All-values (λ v. (k : PathKey) × WaitsAt n k v) st.pending
            (AllEntries-mono (WaitsAt n) _ (λ k v x. (k, x)) st.pending w))))
    where
      waiting :
          (ws : List Waiting)
          → All (λ v. (k : PathKey) × WaitsAt n k v) ws
          → All (λ q. IsAnswered q ⊎ IsUnanswered q) (map timed_out ws)
      waiting [] h = tt
      waiting (v ∷ ws) ((k, (_, sent, _)), h) = (inr (v, sent, refl), waiting ws h)

-- Every procedure that `pair_procedures` returns is made of a decoded request of the capture and a
-- later decoded response of it, sent from the request's target to its source with the same sequence
-- number, or is the timeout of a decoded request. No two procedures are of the same request.
pub pair_procedures-IsAnswered :
    (ms : List PfcpMsg)
    → All (λ p. IsAnswered ms p ⊎ IsUnanswered ms p) (pair_procedures ms).0
      × Pairwise IsOfOther (pair_procedures ms).0
unfolding pair_procedures
pair_procedures-IsAnswered ms =
    let (n, h) =
      pair_from-PairedOk ms 0 ms nothing_paired (λ j n q. ap (get_elem? ms) (omega (arith, q)))
        (tt, tt) in
    (closed-All ms n (pair_from 0 ms nothing_paired) h, pair_procedures-once ms)
