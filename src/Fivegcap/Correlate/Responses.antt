-- ===== src/Fivegcap/Correlate/Responses.antt =====
-- The second loop of `_join_sbi`: a response inherits the flow of its request.
use net_cortex.Prelude.{
  ℕ, zero, suc, ◌+◌, ◌<◌, false, ◌≡◌, refl, ◌∙◌, Option, none, some, List, [], ◌∷◌, ◌==◌, nat_eq,
  string_eq, pair_eq, option_eq, arith, Bool-cases, inl, inr, get_elem?, if◌then◌else◌,
}
use net_cortex.Prelude.Dict
use net_cortex.Prelude.Dict.{Dict, get-put, get-nil}
use net_cortex.Fivegcap.Messages.{SbiMsg}
use net_cortex.Fivegcap.Correlate.{
  Correlation, Requests, inherited, link_response, join_responses, is_request, get_request,
}
use net_cortex.Fivegcap.Correlate.Links.{Agree, Unlinked, Agree-link}
use net_cortex.Fivegcap.Correlate.Sbi.{SameN4, SameN4-trans}

-- what the response loop leaves of an entry of `sbi_flow`
abbrev pub override : Option ℕ → Option (Option ℕ) → Option (Option ℕ)
override none before = before
override (some fid) before = some (some fid)

link_response-get :
    (i j : ℕ) (o : Option ℕ) (c : Correlation)
    → Dict.get j (link_response i o c).sbi_flow
      ≡ (if j == i then override o (Dict.get j c.sbi_flow) else Dict.get j c.sbi_flow)
unfolding link_response
link_response-get i j none c = ground arith
link_response-get i j (some fid) c = get-put j i (some fid) c.sbi_flow

module _ (reqs : Requests) where
  responses_before :
      (ms : List SbiMsg) (i j : ℕ) (c : Correlation)
      → j < i
      → Dict.get j (join_responses reqs i ms c).sbi_flow ≡ Dict.get j c.sbi_flow
  unfolding join_responses
  responses_before [] i j c lt = refl
  responses_before (m ∷ ms) i j c lt =
      responses_before ms (suc i) j (link_response i (inherited reqs m) c) (omega arith)
      ∙ ground (arith, link_response-get i j (inherited reqs m) c)

  pub responses_at :
      (ms : List SbiMsg) (i j k : ℕ) (c : Correlation) (m : SbiMsg)
      → get_elem? ms k ≡ some m
      → j ≡ i + k
      → Dict.get j (join_responses reqs i ms c).sbi_flow
        ≡ override (inherited reqs m) (Dict.get j c.sbi_flow)
  unfolding join_responses
  responses_at [] i j k c m h q = cc
  responses_at (m' ∷ ms) i j zero c m h q =
      responses_before ms (suc i) j (link_response i (inherited reqs m') c) (omega arith)
      ∙ ground (arith, link_response-get i j (inherited reqs m') c)
  responses_at (m' ∷ ms) i j (suc k) c m h q =
      responses_at ms (suc i) j k (link_response i (inherited reqs m') c) m h (omega arith)
      ∙ ground (arith, link_response-get i j (inherited reqs m') c)

  -- a response that is still to come has no link yet
  abbrev pub Waiting : ℕ → List SbiMsg → Correlation → Type 0
  Waiting i [] c = Unit
  Waiting i (m ∷ ms) c =
      (is_request m.direction ≡ false → Unlinked i c.sbi_flow) × Waiting (suc i) ms c

  Waiting-link :
      (ms : List SbiMsg) (i j : ℕ) (o : Option ℕ) (c : Correlation)
      → i < j
      → Waiting j ms c
      → Waiting j ms (link_response i o c)
  Waiting-link [] i j o c lt w = tt
  Waiting-link (m ∷ ms) i j o c lt (first, w) = (
    λ q fid. ground (arith, link_response-get i j o c, first q fid),
    Waiting-link ms i (suc j) o c (omega arith) w,
  )

  link_response-Agree :
      (i : ℕ) (m : SbiMsg) (c : Correlation)
      → (is_request m.direction ≡ false → Unlinked i c.sbi_flow)
      → Agree c.sbi_flow c.flow_sbi_refs
      → Agree
          (link_response i (inherited reqs m) c).sbi_flow
          (link_response i (inherited reqs m) c).flow_sbi_refs
  unfolding inherited
  link_response-Agree i m c free h = elim (Bool-cases (is_request m.direction)) [
    | inl e ↦ rw e (unfold link_response in h)
    | inr e ↦ rw e (linked (get_request reqs m.conn m.stream_id) (free e))
  ]
    where
      linked :
          (o : Option ℕ)
          → Unlinked i c.sbi_flow
          → Agree (link_response i o c).sbi_flow (link_response i o c).flow_sbi_refs
      linked none u = unfold link_response in h
      linked (some fid) u = unfold link_response in Agree-link c.sbi_flow c.flow_sbi_refs i u h fid

  pub responses-Agree :
      (ms : List SbiMsg) (i : ℕ) (c : Correlation)
      → Waiting i ms c
      → Agree c.sbi_flow c.flow_sbi_refs
      → Agree (join_responses reqs i ms c).sbi_flow (join_responses reqs i ms c).flow_sbi_refs
  unfolding join_responses
  responses-Agree [] i c w h = h
  responses-Agree (m ∷ ms) i c (first, w) h =
      responses-Agree ms (suc i) (link_response i (inherited reqs m) c)
        (Waiting-link ms i (suc i) (inherited reqs m) c (omega arith) w)
        (link_response-Agree i m c first h)

  link_response-SameN4 : (i : ℕ) (o : Option ℕ) (c : Correlation) → SameN4 c (link_response i o c)
  unfolding link_response
  link_response-SameN4 i none c = record { n4_flow = refl; flow_n4_refs = refl }
  link_response-SameN4 i (some fid) c = record { n4_flow = refl; flow_n4_refs = refl }

  pub responses-SameN4 :
      (ms : List SbiMsg) (i : ℕ) (c : Correlation) → SameN4 c (join_responses reqs i ms c)
  unfolding join_responses
  responses-SameN4 [] i c = record { n4_flow = refl; flow_n4_refs = refl }
  responses-SameN4 (m ∷ ms) i c =
      SameN4-trans (link_response-SameN4 i (inherited reqs m) c)
        (responses-SameN4 ms (suc i) (link_response i (inherited reqs m) c))
