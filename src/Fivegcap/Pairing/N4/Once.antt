-- ===== src/Fivegcap/Pairing/N4/Once.antt =====
-- pair_procedures of pfcp.py: each request is of one procedure.
use net_cortex.Prelude.{
  ℕ, suc, ◌+◌, ◌-◌, ◌<◌, String, Option, none, some, some-injective, List, [], ◌∷◌, ◌++◌, map, ◌≡◌,
  ◌≢◌, refl, sym, ap, ◌∙◌, nat_eq, string_eq, option_eq, pair_eq, ◌==◌, ==_iff, false, All,
  All-append, All-mono, Pairwise, get_elem?, if_elim, truthy, arith,
}
use net_cortex.Prelude.Dict
use net_cortex.Prelude.Dict.{
  Dict, AllEntries, AllEntries-put, AllEntries-get, AllEntries-mono, AllEntries-popped,
  AllEntries-absent, NodupKeys, put-NodupKeys, pop-NodupKeys,
}
use net_cortex.Prelude.Sorting.{sort_by-Pairwise}
use net_cortex.Fivegcap.Messages.{PfcpMsg}
use net_cortex.Fivegcap.Pairing.N4.{
  N4Procedure, PathKey, request_key, response_key, Waiting, PairState, answered, timed_out,
  on_request, on_response, try_response, on_typed, on_message, pair_step, pair_from, nothing_paired,
  closed, pair_procedures, req_kind,
}

-- two procedures are of different requests
abbrev pub IsOfOther : N4Procedure → N4Procedure → Type 0
IsOfOther p q = p.req_index ≢ q.req_index

Pairwise-snoc :
    {A : Type 0} (R : A → A → Type 0) (xs : List A) (y : A)
    → All (λ x. R x y) xs
    → Pairwise R xs
    → Pairwise R (xs ++ y ∷ [])
Pairwise-snoc R [] y p h = (tt, tt)
Pairwise-snoc R (x ∷ xs) y (q, p) (below, h) =
    (All-append (R x) xs _ below (q, tt), Pairwise-snoc R xs y p h)

-- one turn of the loop: nothing, a request that waits, or a response that ends one
data Turn (m : PfcpMsg) (i : ℕ) (st : PairState) : PairState → Type 0 where
  nothing : Turn m i st st
  waits :
      (kind : String)
      → Dict.get (request_key m) st.pending ≡ none
      → Turn m i st (on_request m i kind none st)
  ends :
      (kind : String) (w : Waiting)
      → Dict.get (response_key m) st.pending ≡ some w
      → Turn m i st (on_response m i kind (some w) st)

module _ (m : PfcpMsg) (i : ℕ) (st : PairState) where
  on_request-Turn :
      (kind : String) (o : Option Waiting)
      → Dict.get (request_key m) st.pending ≡ o
      → Turn m i st (on_request m i kind o st)
  unfolding on_request
  on_request-Turn kind none g = waits kind g
  on_request-Turn kind (some first) g = nothing

  on_response-Turn :
      (kind : String) (o : Option Waiting)
      → Dict.get (response_key m) st.pending ≡ o
      → Turn m i st (on_response m i kind o st)
  unfolding on_response
  on_response-Turn kind none g = nothing
  on_response-Turn kind (some w) g = ends kind w g

  on_typed-Turn : (t : ℕ) (o : Option String) → Turn m i st (on_typed m i t o st)
  unfolding on_typed try_response
  on_typed-Turn t (some kind) = on_request-Turn kind _ refl
  on_typed-Turn t none = by_response (req_kind (t - 1))
    where
      by_response : (o : Option String) → Turn m i st (try_response m i o st)
      by_response none = nothing
      by_response (some kind) = on_response-Turn kind _ refl

  on_message-Turn : (o : Option ℕ) → Turn m i st (on_message m i o st)
  unfolding on_message
  on_message-Turn none = nothing
  on_message-Turn (some t) = on_typed-Turn t (req_kind t)

  pair_step-Turn : Turn m i st (pair_step m i st)
  unfolding pair_step
  pair_step-Turn =
      if_elim (Turn m i st) (truthy m.unparsed) _ _ nothing (on_message-Turn m.msg_type)

module _ (ms : List PfcpMsg) where
  -- a request that waits has its own key and index, and is of no procedure yet
  abbrev WaitsApart : ℕ → List N4Procedure → PathKey → Waiting → Type 0
  WaitsApart i ps k w =
      (request_key w.request ≡ k)
      × (get_elem? ms w.index ≡ some w.request)
      × (w.index < i)
      × All (λ p. p.req_index ≢ some w.index) ps

  abbrev IsUsed : ℕ → N4Procedure → Type 0
  IsUsed i p = (k : ℕ) × (p.req_index ≡ some k) × (k < i)

  record OnceOk (i : ℕ) (st : PairState) : Type 0 where
    keys : NodupKeys st.pending
    apart : AllEntries (WaitsApart i st.procedures) st.pending
    used : All (IsUsed i) st.procedures
    once : Pairwise IsOfOther st.procedures

  -- requests that wait under different keys have different indexes
  apart-index :
      (i j : ℕ) (ps qs : List N4Procedure) (k k' : PathKey) (w w' : Waiting)
      → (k == k') ≡ false
      → WaitsApart i ps k w
      → WaitsApart j qs k' w'
      → some w.index ≢ some w'.index
  apart-index i j ps qs k k' w w' d (key, sent, _, _) (key', sent', _, _) = λ same.
      let request : some w.request ≡ some w'.request =
        sym sent ∙ ap (get_elem? ms) (some-injective w.index w'.index same) ∙ sent' in
      let keys : k ≡ k' =
        sym key ∙ ap request_key (some-injective w.request w'.request request) ∙ key' in
      absurd (ground (arith, d, (==_iff k k').1 keys))

  later-IsUsed : (i : ℕ) (ps : List N4Procedure) → All (IsUsed i) ps → All (IsUsed (suc i)) ps
  later-IsUsed i ps = All-mono _ _ (λ p (k, q, l). (k, q, omega (arith, l))) ps

  Turn-OnceOk :
      (m : PfcpMsg) (i : ℕ) (st after : PairState)
      → get_elem? ms i ≡ some m
      → Turn m i st after
      → OnceOk i st
      → OnceOk (suc i) after
  unfolding on_request on_response answered
  Turn-OnceOk m i st _ at nothing h = record {
    keys = h.keys;
    apart =
        AllEntries-mono _ _ (λ k w (q, s, l, a). (q, s, omega (arith, l), a)) st.pending h.apart;
    used = later-IsUsed i st.procedures h.used;
    once = h.once;
  }
  Turn-OnceOk m i st _ at (waits kind g) h = record {
    keys = put-NodupKeys (request_key m) _ st.pending h.keys;
    apart =
        AllEntries-put (WaitsApart (suc i) st.procedures) (request_key m) _ st.pending
          (
            refl,
            at,
            omega arith,
            All-mono _ _ (λ p (k, q, l) e. omega (arith, l, some-injective k i (sym q ∙ e)))
                st.procedures h.used,
          )
          (AllEntries-mono _ _ (λ k w (q, s, l, a). (q, s, omega (arith, l), a)) st.pending
            h.apart);
    used = later-IsUsed i st.procedures h.used;
    once = h.once;
  }
  Turn-OnceOk m i st _ at (ends kind w g) h =
      let own =
        AllEntries-get (WaitsApart i st.procedures) (response_key m) w st.pending g h.apart in
      let (key, sent, before, fresh) = own in
      record {
        keys = pop-NodupKeys (response_key m) st.pending h.keys;
        apart =
            AllEntries-popped (WaitsApart i st.procedures) _ (response_key m)
              (λ k v d (q, s, l, a). (
                q,
                s,
                omega (arith, l),
                All-append _ st.procedures _ a (
                  apart-index i i st.procedures st.procedures (response_key m) k w v d own
                      (q, s, l, a),
                  tt,
                ),
              ))
              st.pending h.apart;
        used =
            All-append (IsUsed (suc i)) st.procedures _ (later-IsUsed i st.procedures h.used)
              ((w.index, refl, omega (arith, before)), tt);
        once = Pairwise-snoc IsOfOther st.procedures _ fresh h.once;
      }

  pair_from-OnceOk :
      (i : ℕ) (rest : List PfcpMsg) (st : PairState)
      → ((j n : ℕ) → n ≡ i + j → get_elem? ms n ≡ get_elem? rest j)
      → OnceOk i st
      → (n : ℕ) × OnceOk n (pair_from i rest st)
  unfolding pair_from
  pair_from-OnceOk i [] st at h = (i, h)
  pair_from-OnceOk i (m ∷ rest) st at h =
      pair_from-OnceOk (suc i) rest (pair_step m i st) (λ j n q. at (suc j) n (omega (arith, q)))
        (Turn-OnceOk m i st _ (at 0 i (omega arith)) (pair_step-Turn m i st) h)

  timed_out-All :
      (P : N4Procedure → Type 0) (d : Dict PathKey Waiting)
      → AllEntries (λ k w. P (timed_out w)) d
      → All P (map timed_out (Dict.values d))
  unfolding Dict.values
  timed_out-All P [] h = tt
  timed_out-All P ((k, w) ∷ d) (p, h) = (p, timed_out-All P d h)

  timed_out-Pairwise :
      (i : ℕ) (ps : List N4Procedure) (d : Dict PathKey Waiting)
      → NodupKeys d
      → AllEntries (WaitsApart i ps) d
      → Pairwise IsOfOther (map timed_out (Dict.values d))
  unfolding Dict.values timed_out
  timed_out-Pairwise i ps [] n h = tt
  timed_out-Pairwise i ps ((k, w) ∷ d) (fresh, n) (p, h) = (
    timed_out-All (IsOfOther (timed_out w)) d (
        AllEntries-absent (WaitsApart i ps) _ k
          (λ j v other q. apart-index i i ps ps k j w v other p q) d fresh h),
    timed_out-Pairwise i ps d n h,
  )

  procedures-Pairwise :
      (ps qs : List N4Procedure)
      → Pairwise IsOfOther ps
      → All (λ q. All (λ p. IsOfOther p q) ps) qs
      → Pairwise IsOfOther qs
      → Pairwise IsOfOther (ps ++ qs)
  procedures-Pairwise [] qs h c k = k
  procedures-Pairwise (p ∷ ps) qs (below, h) c k = (
    All-append (IsOfOther p) ps qs below (All-mono _ _ (λ q (a, _). a) qs c),
    procedures-Pairwise ps qs h (All-mono _ _ (λ q (_, a). a) qs c) k,
  )

  closed-once : (i : ℕ) (st : PairState) → OnceOk i st → Pairwise IsOfOther (closed st).0
  unfolding closed timed_out
  closed-once i st h =
      sort_by-Pairwise _ IsOfOther (λ p q d e. d (sym e)) _
        (procedures-Pairwise st.procedures _ h.once
          (timed_out-All (λ q. All (λ p. IsOfOther p q) st.procedures) st.pending
            (AllEntries-mono _ _ (λ k w (_, _, _, a). a) st.pending h.apart))
          (timed_out-Pairwise i st.procedures st.pending h.keys h.apart))

-- No two procedures of a capture are of the same request.
pub pair_procedures-once : (ms : List PfcpMsg) → Pairwise IsOfOther (pair_procedures ms).0
unfolding pair_procedures
pair_procedures-once ms =
    let (n, h) =
      pair_from-OnceOk ms 0 ms nothing_paired (λ j n q. ap (get_elem? ms) (omega (arith, q)))
        (record { keys = tt; apart = tt; used = tt; once = tt }) in
    closed-once ms n (pair_from 0 ms nothing_paired) h
