-- ===== src/Fivegcap/Correlate/Unambiguous.antt =====
-- The join keys of correlate.py: tunnels and SUPIs that flows declare.
use net_cortex.Prelude.{
  ℕ, String, Bool, true, ◌≡◌, ◌↔◌, refl, sym, ap, ◌∙◌, none, some, List, [], ◌∷◌, Eq, nat_eq,
  string_eq, pair_eq, contains, arith,
}
use net_cortex.Prelude.Dict
use net_cortex.Prelude.Dict.{Dict, NodupKeys}
use net_cortex.Fivegcap.Messages.{Tunnel}
use net_cortex.Fivegcap.Flow.{Flow}
use net_cortex.Fivegcap.Correlate.{single, unambiguous, flow_supis, flow_tunnels}
use net_cortex.Fivegcap.Correlate.Sets.{IsDistinct, set_of, singleton_of}
use net_cortex.Fivegcap.Correlate.Claims.{
  claims_tunnel, claims_supi, tunnel-IsClaims, supi-IsClaims,
}

-- one flow, and no other
abbrev pub OnlyOne : (ℕ → Bool) → ℕ → Type 0
OnlyOne p fid = (p fid ≡ true) × ((x : ℕ) → p x ≡ true → x ≡ fid)

module _ {K : Type 0} ⦃e : Eq K⦄ where
  get-unambiguous_absent :
      (k : K) (d : Dict K (List ℕ)) → Dict.get k d ≡ none → Dict.get k (unambiguous d) ≡ none
  unfolding Dict.get unambiguous
  get-unambiguous_absent k [] h = refl
  get-unambiguous_absent k ((j, []) ∷ d) h = ground (arith, get-unambiguous_absent k d)
  get-unambiguous_absent k ((j, a ∷ []) ∷ d) h = ground (arith, get-unambiguous_absent k d)
  get-unambiguous_absent k ((j, a ∷ b ∷ c) ∷ d) h = ground (arith, get-unambiguous_absent k d)

  pub get-unambiguous :
      (k : K) (d : Dict K (List ℕ)) → NodupKeys d → Dict.get k (unambiguous d) ≡ single (set_of k d)
  unfolding Dict.get unambiguous
  get-unambiguous k [] n = refl
  get-unambiguous k ((j, []) ∷ d) (fresh, n) =
      ground (arith, get-unambiguous k d n, get-unambiguous_absent k d)
  get-unambiguous k ((j, a ∷ []) ∷ d) (fresh, n) = ground (arith, get-unambiguous k d n)
  get-unambiguous k ((j, a ∷ b ∷ c) ∷ d) (fresh, n) =
      ground (arith, get-unambiguous k d n, get-unambiguous_absent k d)

single-eq-some : (xs : List ℕ) (fid : ℕ) → single xs ≡ some fid → xs ≡ fid ∷ []
single-eq-some [] fid h = cc
single-eq-some (a ∷ []) fid h = cc
single-eq-some (a ∷ b ∷ c) fid h = cc

pub single_iff :
    (xs : List ℕ) (p : ℕ → Bool) (fid : ℕ)
    → IsDistinct xs
    → ((x : ℕ) → contains xs x ≡ p x)
    → (single xs ≡ some fid) ↔ OnlyOne p fid
single_iff xs p fid d h = (
  λ q.
      let one = single-eq-some xs fid q in
      (sym (h fid) ∙ ap (λ s. contains s fid) one ∙ ground arith, λ x r. ground (arith, h x, one)),
  λ q. ap single (singleton_of xs fid d (h fid ∙ q.0) (λ y r. q.1 y (sym (h y) ∙ r))),
)

-- A GTP tunnel is an N2–N4 join key to a flow exactly if a message of that flow declares it and no
-- message of a flow with another id does.
pub tunnel-unambiguous_iff :
    (flows : List Flow) (t : Tunnel) (fid : ℕ)
    → (Dict.get t (unambiguous (flow_tunnels flows [])) ≡ some fid)
      ↔ OnlyOne (claims_tunnel t flows) fid
tunnel-unambiguous_iff flows t fid =
    let ((nodup, distinct), members) = tunnel-IsClaims flows in
    rw (get-unambiguous t (flow_tunnels flows []) nodup) (
      single_iff (set_of t (flow_tunnels flows [])) (claims_tunnel t flows) fid (distinct t)
        (members t))

-- A SUPI is an N2–SBI join key to a flow exactly if it is not empty, the NAS part of a message of
-- that flow declares it, and no message of a flow with another id does.
pub supi-unambiguous_iff :
    (flows : List Flow) (s : String) (fid : ℕ)
    → (Dict.get s (unambiguous (flow_supis flows [])) ≡ some fid)
      ↔ OnlyOne (claims_supi s flows) fid
supi-unambiguous_iff flows s fid =
    let ((nodup, distinct), members) = supi-IsClaims flows in
    rw (get-unambiguous s (flow_supis flows []) nodup) (
      single_iff (set_of s (flow_supis flows [])) (claims_supi s flows) fid (distinct s)
        (members s))
