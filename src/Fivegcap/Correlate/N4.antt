-- ===== src/Fivegcap/Correlate/N4.antt =====
-- `_join_n4`: which PFCP messages are linked, and to which flow.
use net_cortex.Prelude.{
  ℕ, zero, suc, ◌+◌, ◌≤◌, ◌<◌, Bool, false, ◌||◌, ◌≡◌, ◌↔◌, refl, ap, ◌∙◌, Option, none, some, List,
  [], ◌∷◌, ◌==◌, nat_eq, string_eq, pair_eq, contains, any, arith, Option-cases, inl, inr,
  get_elem?, if◌then◌else◌,
}
use net_cortex.Prelude.Dict
use net_cortex.Prelude.Dict.{Dict, get-put, get-nil}
use net_cortex.Prelude.Sorting.{IsSorted}
use net_cortex.Fivegcap.Messages.{PfcpMsg, Tunnel}
use net_cortex.Fivegcap.Flow.{Flow}
use net_cortex.Fivegcap.Correlate.{
  Correlation, single, add_flow, unambiguous, flow_tunnels, tunnel_flows, n4_flow_of, link_n4,
  join_n4_from, join_n4, with_n4,
}
use net_cortex.Fivegcap.Correlate.Sets.{
  IsDistinct, set_of, contains-add_to_set, add_to_set-IsDistinct,
}
use net_cortex.Fivegcap.Correlate.Unambiguous.{OnlyOne, single_iff}
use net_cortex.Fivegcap.Correlate.Links.{
  Agree, Unlinked, Agree-put-none, Agree-link, Unlinked-put-none, Agree-sort_refs,
  sort_refs-IsSorted, Agree-nil,
}

or_assoc : (a b c : Bool) → ((a || b) || c) ≡ (a || (b || c))
or_assoc a b c = ground arith

abbrev pub is_flow : ℕ → Option ℕ → Bool
is_flow x none = false
is_flow x (some fid) = x == fid

-- the tunnel is a join key to the flow `x`
abbrev pub leads_to : Dict Tunnel ℕ → ℕ → Tunnel → Bool
leads_to un x t = is_flow x (Dict.get t un)

contains-add_flow :
    (o : Option ℕ) (fids : List ℕ) (x : ℕ)
    → contains (add_flow o fids) x ≡ (contains fids x || is_flow x o)
contains-add_flow none fids x = ground arith
contains-add_flow (some fid) fids x = contains-add_to_set fid fids x

add_flow-IsDistinct :
    (o : Option ℕ) (fids : List ℕ) → IsDistinct fids → IsDistinct (add_flow o fids)
add_flow-IsDistinct none fids d = d
add_flow-IsDistinct (some fid) fids d = add_to_set-IsDistinct fid fids d

tunnel_flows-contains :
    (un : Dict Tunnel ℕ) (ts : List Tunnel) (fids : List ℕ) (x : ℕ)
    → contains (tunnel_flows un ts fids) x ≡ (contains fids x || any (leads_to un x) ts)
unfolding tunnel_flows
tunnel_flows-contains un [] fids x = ground arith
tunnel_flows-contains un (t ∷ ts) fids x =
    tunnel_flows-contains un ts (add_flow (Dict.get t un) fids) x
    ∙ ap (λ b. b || any (leads_to un x) ts) (contains-add_flow (Dict.get t un) fids x)
    ∙ or_assoc (contains fids x) (is_flow x (Dict.get t un)) (any (leads_to un x) ts)

tunnel_flows-IsDistinct :
    (un : Dict Tunnel ℕ) (ts : List Tunnel) (fids : List ℕ)
    → IsDistinct fids
    → IsDistinct (tunnel_flows un ts fids)
unfolding tunnel_flows
tunnel_flows-IsDistinct un [] fids d = d
tunnel_flows-IsDistinct un (t ∷ ts) fids d =
    tunnel_flows-IsDistinct un ts (add_flow (Dict.get t un) fids)
      (add_flow-IsDistinct (Dict.get t un) fids d)

pub n4_flow_of_iff :
    (un : Dict Tunnel ℕ) (m : PfcpMsg) (fid : ℕ)
    → (n4_flow_of un m ≡ some fid)
      ↔ ((m.unparsed ≡ none) × OnlyOne (λ x. any (leads_to un x) m.f_teids) fid)
unfolding n4_flow_of
n4_flow_of_iff un m fid = elim (Option-cases m.unparsed) [
  | inl e ↦ rw e (λ q. (refl, joins.0 q), λ q. joins.1 q.1)
  | inr (note, e) ↦ rw e (λ q. cc, λ q. cc)
]
  where
    joins :
        (single (tunnel_flows un m.f_teids []) ≡ some fid)
        ↔ OnlyOne (λ x. any (leads_to un x) m.f_teids) fid
    joins =
        single_iff (tunnel_flows un m.f_teids []) (λ x. any (leads_to un x) m.f_teids) fid
          (tunnel_flows-IsDistinct un m.f_teids [] tt) (tunnel_flows-contains un m.f_teids [])

-- The join of this plane leaves the links of the other alone.
pub record SameSbi (c d : Correlation) : Type 0 where
  pub sbi_flow : d.sbi_flow ≡ c.sbi_flow
  pub flow_sbi_refs : d.flow_sbi_refs ≡ c.flow_sbi_refs

link_n4-get :
    (i j : ℕ) (o : Option ℕ) (c : Correlation)
    → Dict.get j (link_n4 i o c).n4_flow ≡ (if j == i then some o else Dict.get j c.n4_flow)
unfolding link_n4
link_n4-get i j none c = get-put j i none c.n4_flow
link_n4-get i j (some fid) c =
    ground (arith, get-put j i (some fid) (Dict.put i none c.n4_flow), get-put j i none c.n4_flow)

module _ (un : Dict Tunnel ℕ) where
  join_before :
      (ms : List PfcpMsg) (i j : ℕ) (c : Correlation)
      → j < i
      → Dict.get j (join_n4_from un i ms c).n4_flow ≡ Dict.get j c.n4_flow
  unfolding join_n4_from
  join_before [] i j c lt = refl
  join_before (m ∷ ms) i j c lt =
      join_before ms (suc i) j (link_n4 i (n4_flow_of un m) c) (omega arith)
      ∙ ground (arith, link_n4-get i j (n4_flow_of un m) c)

  join_at :
      (ms : List PfcpMsg) (i j k : ℕ) (c : Correlation) (m : PfcpMsg)
      → get_elem? ms k ≡ some m
      → j ≡ i + k
      → Dict.get j (join_n4_from un i ms c).n4_flow ≡ some (n4_flow_of un m)
  unfolding join_n4_from
  join_at [] i j k c m h q = cc
  join_at (m' ∷ ms) i j zero c m h q =
      join_before ms (suc i) j (link_n4 i (n4_flow_of un m') c) (omega arith)
      ∙ ground (arith, link_n4-get i j (n4_flow_of un m') c)
  join_at (m' ∷ ms) i j (suc k) c m h q =
      join_at ms (suc i) j k (link_n4 i (n4_flow_of un m') c) m h (omega arith)

  link_n4-Agree :
      (i : ℕ) (o : Option ℕ) (c : Correlation)
      → Unlinked i c.n4_flow
      → Agree c.n4_flow c.flow_n4_refs
      → Agree (link_n4 i o c).n4_flow (link_n4 i o c).flow_n4_refs
  unfolding link_n4
  link_n4-Agree i none c free h = Agree-put-none c.n4_flow c.flow_n4_refs i free h
  link_n4-Agree i (some fid) c free h =
      Agree-link (Dict.put i none c.n4_flow) c.flow_n4_refs i (Unlinked-put-none i c.n4_flow)
        (Agree-put-none c.n4_flow c.flow_n4_refs i free h) fid

  join-Agree :
      (ms : List PfcpMsg) (i : ℕ) (c : Correlation)
      → ((j : ℕ) → i ≤ j → Dict.get j c.n4_flow ≡ none)
      → Agree c.n4_flow c.flow_n4_refs
      → Agree (join_n4_from un i ms c).n4_flow (join_n4_from un i ms c).flow_n4_refs
  unfolding join_n4_from
  join-Agree [] i c fresh h = h
  join-Agree (m ∷ ms) i c fresh h =
      join-Agree ms (suc i) (link_n4 i (n4_flow_of un m) c)
        (λ j le. link_n4-get i j (n4_flow_of un m) c ∙ ground (arith, fresh j (omega arith)))
        (link_n4-Agree i (n4_flow_of un m) c (λ fid. rw (fresh i (omega arith))) h)

  link_n4-SameSbi : (i : ℕ) (o : Option ℕ) (c : Correlation) → SameSbi c (link_n4 i o c)
  unfolding link_n4
  link_n4-SameSbi i none c = record { sbi_flow = refl; flow_sbi_refs = refl }
  link_n4-SameSbi i (some fid) c = record { sbi_flow = refl; flow_sbi_refs = refl }

  join-SameSbi : (ms : List PfcpMsg) (i : ℕ) (c : Correlation) → SameSbi c (join_n4_from un i ms c)
  unfolding join_n4_from
  join-SameSbi [] i c = record { sbi_flow = refl; flow_sbi_refs = refl }
  join-SameSbi (m ∷ ms) i c =
      let step = link_n4-SameSbi i (n4_flow_of un m) c in
      let rest = join-SameSbi ms (suc i) (link_n4 i (n4_flow_of un m) c) in
      record {
        sbi_flow = rest.sbi_flow ∙ step.sbi_flow;
        flow_sbi_refs = rest.flow_sbi_refs ∙ step.flow_sbi_refs;
      }

pub with_n4-SameSbi :
    (flows : List Flow) (ms : List PfcpMsg) (c : Correlation) → SameSbi c (with_n4 flows ms c)
unfolding with_n4 join_n4
with_n4-SameSbi flows [] c = record { sbi_flow = refl; flow_sbi_refs = refl }
with_n4-SameSbi flows (m ∷ ms) c =
    let same = join-SameSbi (unambiguous (flow_tunnels flows [])) (m ∷ ms) 0 c in
    record { sbi_flow = same.sbi_flow; flow_sbi_refs = same.flow_sbi_refs }

-- from a correlation with no N4 links
module _ (flows : List Flow) (c : Correlation) (no_flow : c.n4_flow ≡ [])
    (no_refs : c.flow_n4_refs ≡ []) where
  pub with_n4-get :
      (ms : List PfcpMsg) (i : ℕ) (m : PfcpMsg)
      → get_elem? ms i ≡ some m
      → Dict.get i (with_n4 flows ms c).n4_flow
        ≡ some (n4_flow_of (unambiguous (flow_tunnels flows [])) m)
  unfolding with_n4 join_n4
  with_n4-get [] i m h = cc
  with_n4-get (m' ∷ ms) i m h =
      join_at (unambiguous (flow_tunnels flows [])) (m' ∷ ms) 0 i i c m h (omega arith)

  pub with_n4-Agree :
      (ms : List PfcpMsg) → Agree (with_n4 flows ms c).n4_flow (with_n4 flows ms c).flow_n4_refs
  unfolding with_n4 join_n4
  with_n4-Agree [] = rw (no_flow, no_refs) Agree-nil
  with_n4-Agree (m ∷ ms) = Agree-sort_refs _ _ (
      join-Agree (unambiguous (flow_tunnels flows [])) (m ∷ ms) 0 c
        (λ j le. rw no_flow (get-nil {V = Option ℕ} j)) (rw (no_flow, no_refs) Agree-nil))

  pub with_n4-IsSorted :
      (ms : List PfcpMsg) (fid : ℕ)
      → IsSorted (λ i. i) (set_of fid (with_n4 flows ms c).flow_n4_refs)
  unfolding with_n4 join_n4
  with_n4-IsSorted [] fid = rw (no_refs, get-nil {V = List ℕ} fid) tt
  with_n4-IsSorted (m ∷ ms) fid = sort_refs-IsSorted fid _
