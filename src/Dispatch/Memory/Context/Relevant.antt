-- ===== src/Dispatch/Memory/Context/Relevant.antt =====
-- memory_context of memory.py: the Episodes that it tells.
use net_cortex.Prelude.{ℕ, ◌≤◌, String, List, ◌∷◌, ◌≡◌, ap, ◌⊎◌, inl, inr, All, length, join}
use net_cortex.Prelude.Json.{Json}
use net_cortex.Prelude.Ranking.{take_three, most_relevant-cases, IsRanking}
use net_cortex.Dispatch.Evidence.{EvidenceItem, AlarmEvent}
use net_cortex.Dispatch.Memory.{Episode}
use net_cortex.Dispatch.Memory.Context.{
  relevance, context_heading, episode_lines, context_of, memory_context,
}

abbrev pub created : Episode → ℕ
created e = e.created_at

-- Where every Episode scores below 2, the context is empty. Else it has a heading with the number of
-- the Episodes that score at least 2, and then the lines of the first three of them: the greatest
-- score first, and the newest first of one score.
pub memory_context-IsRelevant :
    (spell : Json → String) (iso : ℕ → String) (episodes : List Episode) (event : AlarmEvent)
    (evidence : List EvidenceItem)
    → let score = relevance spell event evidence in
      let context = memory_context spell iso episodes event evidence in
      (All (λ e. score e ≤ 1) episodes × (context ≡ ""))
      ⊎ ((p : ℕ × Episode) × (rest : List (ℕ × Episode)) × IsRanking score created episodes
            (p ∷ rest)
          × (context
              ≡ join "\n" (
                  context_heading (length (p ∷ rest)) (length episodes)
                  ∷ episode_lines spell iso 1 (take_three (p ∷ rest)))))
unfolding memory_context context_of
memory_context-IsRelevant spell iso episodes event evidence =
    elim (most_relevant-cases (relevance spell event evidence) created episodes) [
      | inl (low, nothing) ↦ inl (low, ap (context_of spell iso (length episodes)) nothing)
      | inr (p, rest, same, ranking) ↦
          inr (p, rest, ranking, ap (context_of spell iso (length episodes)) same)
    ]
