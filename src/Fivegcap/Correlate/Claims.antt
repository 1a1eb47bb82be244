-- ===== src/Fivegcap/Correlate/Claims.antt =====
-- The claim dicts of correlate.py: the flow ids under each key.
use net_cortex.Prelude.{
  ℕ, String, Bool, false, ◌&&◌, ◌||◌, not, ◌≡◌, ◌∙◌, Option, none, some, List, [], ◌∷◌, ◌==◌, Eq,
  nat_eq, string_eq, option_eq, pair_eq, contains, any, arith, Bool-cases, inl, inr,
}
use net_cortex.Prelude.Dict.{Dict, get-nil}
use net_cortex.Fivegcap.Messages.{NgapMsg, NasMsg, Tunnel}
use net_cortex.Fivegcap.Flow.{Flow}
use net_cortex.Fivegcap.Correlate.{
  claim, claim_supi, claim_supis, flow_supis, claim_all, claim_tunnels, flow_tunnels,
}
use net_cortex.Fivegcap.Correlate.Sets.{set_of, IsClaims, claim-IsClaims, contains-claim}

-- the loops over the messages of a flow and over the flows
abbrev pub declares_tunnel : Tunnel → List (NgapMsg × Option NasMsg) → Bool
declares_tunnel t = any (λ m. contains m.0.f_teids t)

abbrev pub claims_tunnel : Tunnel → List Flow → ℕ → Bool
claims_tunnel t flows x = any (λ f. x == f.flow_id && declares_tunnel t f.messages) flows

claim_all-contains :
    (fid : ℕ) (ts : List Tunnel) (d : Dict Tunnel (List ℕ)) (t : Tunnel) (x : ℕ)
    → contains (set_of t (claim_all fid ts d)) x
      ≡ (contains (set_of t d) x || (x == fid && contains ts t))
unfolding claim_all
claim_all-contains fid [] d t x = ground arith
claim_all-contains fid (u ∷ ts) d t x =
    ground (arith, claim_all-contains fid ts (claim u fid d) t x, contains-claim t u fid x d)

claim_tunnels-contains :
    (fid : ℕ) (ms : List (NgapMsg × Option NasMsg)) (d : Dict Tunnel (List ℕ)) (t : Tunnel) (x : ℕ)
    → contains (set_of t (claim_tunnels fid ms d)) x
      ≡ (contains (set_of t d) x || (x == fid && declares_tunnel t ms))
unfolding claim_tunnels
claim_tunnels-contains fid [] d t x = ground arith
claim_tunnels-contains fid ((ng, nas) ∷ ms) d t x = ground (
  arith,
  claim_tunnels-contains fid ms (claim_all fid ng.f_teids d) t x,
  claim_all-contains fid ng.f_teids d t x,
)

flow_tunnels-contains :
    (flows : List Flow) (d : Dict Tunnel (List ℕ)) (t : Tunnel) (x : ℕ)
    → contains (set_of t (flow_tunnels flows d)) x
      ≡ (contains (set_of t d) x || claims_tunnel t flows x)
unfolding flow_tunnels
flow_tunnels-contains [] d t x = ground arith
flow_tunnels-contains (f ∷ flows) d t x = ground (
  arith,
  flow_tunnels-contains flows (claim_tunnels f.flow_id f.messages d) t x,
  claim_tunnels-contains f.flow_id f.messages d t x,
)

-- the SUPI that a message's NAS part declares; the empty text is none
abbrev pub is_supi : String → Option String → Bool
is_supi s none = false
is_supi s (some supi) = s == supi && not (supi == "")

abbrev pub declares_supi : String → List (NgapMsg × Option NasMsg) → Bool
declares_supi s [] = false
declares_supi s ((_, none) ∷ ms) = declares_supi s ms
declares_supi s ((_, some nas) ∷ ms) = is_supi s nas.supi || declares_supi s ms

abbrev pub claims_supi : String → List Flow → ℕ → Bool
claims_supi s flows x = any (λ f. x == f.flow_id && declares_supi s f.messages) flows

claim_supi-contains :
    (fid : ℕ) (o : Option String) (d : Dict String (List ℕ)) (s : String) (x : ℕ)
    → contains (set_of s (claim_supi fid o d)) x
      ≡ (contains (set_of s d) x || (x == fid && is_supi s o))
unfolding claim_supi
claim_supi-contains fid none d s x = ground arith
claim_supi-contains fid (some supi) d s x = ground (arith, contains-claim s supi fid x d)

claim_supis-contains :
    (fid : ℕ) (ms : List (NgapMsg × Option NasMsg)) (d : Dict String (List ℕ)) (s : String) (x : ℕ)
    → contains (set_of s (claim_supis fid ms d)) x
      ≡ (contains (set_of s d) x || (x == fid && declares_supi s ms))
unfolding claim_supis
claim_supis-contains fid [] d s x = ground arith
claim_supis-contains fid ((ng, none) ∷ ms) d s x = claim_supis-contains fid ms d s x
claim_supis-contains fid ((ng, some nas) ∷ ms) d s x = ground (
  arith,
  claim_supis-contains fid ms (claim_supi fid nas.supi d) s x,
  claim_supi-contains fid nas.supi d s x,
)

flow_supis-contains :
    (flows : List Flow) (d : Dict String (List ℕ)) (s : String) (x : ℕ)
    → contains (set_of s (flow_supis flows d)) x
      ≡ (contains (set_of s d) x || claims_supi s flows x)
unfolding flow_supis
flow_supis-contains [] d s x = ground arith
flow_supis-contains (f ∷ flows) d s x = ground (
  arith,
  flow_supis-contains flows (claim_supis f.flow_id f.messages d) s x,
  claim_supis-contains f.flow_id f.messages d s x,
)

-- the loops keep the sets distinct
claim_all-IsClaims :
    (fid : ℕ) (ts : List Tunnel) (d : Dict Tunnel (List ℕ))
    → IsClaims d
    → IsClaims (claim_all fid ts d)
unfolding claim_all
claim_all-IsClaims fid [] d h = h
claim_all-IsClaims fid (t ∷ ts) d h =
    claim_all-IsClaims fid ts (claim t fid d) (claim-IsClaims t fid d h)

claim_tunnels-IsClaims :
    (fid : ℕ) (ms : List (NgapMsg × Option NasMsg)) (d : Dict Tunnel (List ℕ))
    → IsClaims d
    → IsClaims (claim_tunnels fid ms d)
unfolding claim_tunnels
claim_tunnels-IsClaims fid [] d h = h
claim_tunnels-IsClaims fid ((ng, nas) ∷ ms) d h =
    claim_tunnels-IsClaims fid ms (claim_all fid ng.f_teids d)
      (claim_all-IsClaims fid ng.f_teids d h)

flow_tunnels-IsClaims :
    (flows : List Flow) (d : Dict Tunnel (List ℕ)) → IsClaims d → IsClaims (flow_tunnels flows d)
unfolding flow_tunnels
flow_tunnels-IsClaims [] d h = h
flow_tunnels-IsClaims (f ∷ flows) d h =
    flow_tunnels-IsClaims flows (claim_tunnels f.flow_id f.messages d)
      (claim_tunnels-IsClaims f.flow_id f.messages d h)

claim_supi-IsClaims :
    (fid : ℕ) (o : Option String) (d : Dict String (List ℕ))
    → IsClaims d
    → IsClaims (claim_supi fid o d)
unfolding claim_supi
claim_supi-IsClaims fid none d h = h
claim_supi-IsClaims fid (some supi) d h = elim (Bool-cases (supi == "")) [
  | inl e ↦ rw e h
  | inr e ↦ rw e (claim-IsClaims supi fid d h)
]

claim_supis-IsClaims :
    (fid : ℕ) (ms : List (NgapMsg × Option NasMsg)) (d : Dict String (List ℕ))
    → IsClaims d
    → IsClaims (claim_supis fid ms d)
unfolding claim_supis
claim_supis-IsClaims fid [] d h = h
claim_supis-IsClaims fid ((ng, none) ∷ ms) d h = claim_supis-IsClaims fid ms d h
claim_supis-IsClaims fid ((ng, some nas) ∷ ms) d h =
    claim_supis-IsClaims fid ms (claim_supi fid nas.supi d) (claim_supi-IsClaims fid nas.supi d h)

flow_supis-IsClaims :
    (flows : List Flow) (d : Dict String (List ℕ)) → IsClaims d → IsClaims (flow_supis flows d)
unfolding flow_supis
flow_supis-IsClaims [] d h = h
flow_supis-IsClaims (f ∷ flows) d h =
    flow_supis-IsClaims flows (claim_supis f.flow_id f.messages d)
      (claim_supis-IsClaims f.flow_id f.messages d h)

-- no key is claimed at the start
IsClaims-nil : {K : Type 0} ⦃e : Eq K⦄ → IsClaims {K = K} []
IsClaims-nil = (tt, λ k. rw (get-nil {V = List ℕ} k) tt)

pub tunnel-IsClaims :
    (flows : List Flow)
    → IsClaims (flow_tunnels flows [])
      × ((t : Tunnel) (x : ℕ)
          → contains (set_of t (flow_tunnels flows [])) x ≡ claims_tunnel t flows x)
tunnel-IsClaims flows = (
  flow_tunnels-IsClaims flows [] IsClaims-nil,
  λ t x. flow_tunnels-contains flows [] t x ∙ rw (get-nil {V = List ℕ} t),
)

pub supi-IsClaims :
    (flows : List Flow)
    → IsClaims (flow_supis flows [])
      × ((s : String) (x : ℕ) → contains (set_of s (flow_supis flows [])) x ≡ claims_supi s flows x)
supi-IsClaims flows = (
  flow_supis-IsClaims flows [] IsClaims-nil,
  λ s x. flow_supis-contains flows [] s x ∙ rw (get-nil {V = List ℕ} s),
)
