-- ===== src/Triage/Objective/Similar.antt =====
-- memory_context of search.py: the past Episodes that it tells.
use net_cortex.Prelude.{ℕ, ◌≤◌, String, List, ◌∷◌, ◌≡◌, ap, ◌⊎◌, inl, inr, All, length, join}
use net_cortex.Prelude.Ranking.{take_three, most_relevant-cases, IsRanking}
use net_cortex.Triage.Actions.{N2Message, Episode}
use net_cortex.Triage.Objective.{
  Incident, similarity, similar_heading, similar_lines, similar_context, memory_context,
}

abbrev pub finalized_at : Episode → ℕ
finalized_at e = e.created_at

-- Where every past Episode scores below 2, the objective has no context of them. Else the context has
-- a heading with the number of the Episodes that score at least 2, and then the lines of the first
-- three of them: the greatest score first, and the newest first of one score.
pub similar_context-IsRelevant :
    (iso : ℕ → String) (episodes : List Episode) (incident : Incident) (flow : List N2Message)
    → let score = similarity incident flow in
      let context = memory_context iso episodes incident flow in
      (All (λ e. score e ≤ 1) episodes × (context ≡ ""))
      ⊎ ((p : ℕ × Episode) × (rest : List (ℕ × Episode)) × IsRanking score finalized_at episodes
            (p ∷ rest)
          × (context
              ≡ join "\n" (
                  similar_heading (length (p ∷ rest)) (length episodes)
                  ∷ similar_lines iso 1 (take_three (p ∷ rest)))))
unfolding memory_context similar_context
similar_context-IsRelevant iso episodes incident flow =
    elim (most_relevant-cases (similarity incident flow) finalized_at episodes) [
      | inl (low, nothing) ↦ inl (low, ap (similar_context iso (length episodes)) nothing)
      | inr (p, rest, same, ranking) ↦
          inr (p, rest, ranking, ap (similar_context iso (length episodes)) same)
    ]
