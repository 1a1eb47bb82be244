-- ===== src/Dispatch/Graph/Gathered.antt =====
-- graph.py: the evidence after the three specialists.
use net_cortex.Prelude.{
  Bool, true, false, not, List, [], ◌∷◌, ◌++◌, ◌≡◌, refl, ap, ◌∙◌, All, filter, append_assoc,
  filter-append,
}
use net_cortex.Dispatch.Evidence.{Source, pcap, log, kpi, EvidenceItem, AlarmEvent}
use net_cortex.Dispatch.Graph.{Spine, same_source, replace_evidence, gathered}

abbrev other_than : Source → EvidenceItem → Bool
other_than source e = not (same_source e.source source)

-- what one specialist's node drops and keeps of the items of a source
filter-same :
    (source : Source) (xs : List EvidenceItem)
    → same_source source source ≡ true
    → All (λ e. e.source ≡ source) xs
    → filter (other_than source) xs ≡ []
filter-same source [] d h = refl
filter-same source (x ∷ xs) d (e, h) =
    rw (ap (λ u. same_source u source) e ∙ d) (filter-same source xs d h)

filter-other :
    (s t : Source) (xs : List EvidenceItem)
    → same_source s t ≡ false
    → All (λ e. e.source ≡ s) xs
    → filter (other_than t) xs ≡ xs
filter-other s t [] d h = refl
filter-other s t (x ∷ xs) d (e, h) =
    rw (ap (λ u. same_source u t) e ∙ d) (ap (◌∷◌ x) (filter-other s t xs d h))

remaining : List EvidenceItem → List EvidenceItem
remaining stub = filter (other_than log) (filter (other_than kpi) (filter (other_than pcap) stub))

remaining-cons :
    (s : Source) (x : EvidenceItem) (xs : List EvidenceItem)
    → x.source ≡ s
    → remaining xs ≡ []
    → remaining (x ∷ xs) ≡ []
unfolding remaining
remaining-cons pcap x xs e h = rw e h
remaining-cons log x xs e h = rw e h
remaining-cons kpi x xs e h = rw e h

-- an item of the stub has one of the three sources, whose node drops it
remaining-empty : (stub : List EvidenceItem) → remaining stub ≡ []
unfolding remaining
remaining-empty [] = refl
remaining-empty (x ∷ xs) = remaining-cons x.source x xs refl (remaining-empty xs)

-- Where each specialist's items carry its own source, the evidence of an incident is what the
-- three specialists gave, in their order; nothing of the stub is left.
pub gathered-real :
    (spine : Spine) (event : AlarmEvent) (stub : List EvidenceItem)
    → All (λ e. e.source ≡ pcap) (spine.run_pcap_agent event)
    → All (λ e. e.source ≡ kpi) (spine.run_kpi_agent event)
    → All (λ e. e.source ≡ log) (spine.run_log_agent event)
    → gathered spine event stub
      ≡ spine.run_pcap_agent event ++ (spine.run_kpi_agent event ++ spine.run_log_agent event)
unfolding gathered replace_evidence remaining
gathered-real spine event stub ps ks ls =
    let P = spine.run_pcap_agent event in
    let K = spine.run_kpi_agent event in
    let L = spine.run_log_agent event in
    let dropped = filter (other_than pcap) stub in
    let kept = filter (other_than kpi) dropped in
    rw (filter-append (other_than kpi) dropped P) (
      rw (filter-other pcap kpi P refl ps) (
        rw (filter-append (other_than log) (kept ++ P) K) (
          rw (filter-append (other_than log) kept P) (
            rw (remaining-empty stub) (
              rw (filter-other pcap log P refl ps)
                (rw (filter-other kpi log K refl ks) (append_assoc P K L)))))))
