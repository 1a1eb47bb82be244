-- ===== src/Triage/Search/Run.antt =====
-- search.py: the run of the search: its rollouts, its completed nodes, the forced finalize, and the
-- result.
use net_cortex.Prelude.{
  ℕ, zero, suc, String, Bool, not, ◌&&◌, Option, none, some, List, [], ◌∷◌, ◌++◌, if◌then◌else◌,
  ◌==◌, string_eq, concat, is_some, is_empty, starts_with,
}
use net_cortex.Triage.Search.{
  Trajectory, Info, Node, node, Forest, leaf, grow, Searcher, trajectory_text, to_list, extended,
  fresh, observed, rollout,
}

-- what `run` reads of a node with its trajectory
pub record Found (E R : Type 0) : Type 0 where
  pub info : Info E R
  pub trajectory : Trajectory

module _ {E R : Type 0} where
  -- `_completed`, at the parent's trajectory
  unfoldable mutual
    unfolding extended

    pub completed : Trajectory → Node E R → List (Found E R)
    completed trail (node info kids) =
        let below = completed_all (extended trail info) kids in
        if is_some info.episode
        then (record { info = info; trajectory = extended trail info }) ∷ below
        else below

    pub completed_all : Trajectory → Forest E R → List (Found E R)
    completed_all trail leaf = []
    completed_all trail (grow kid kids) = completed trail kid ++ completed_all trail kids

  -- the evaluated nodes below a node, as the stack of `_best_partial` gives them: the last child first
  unfoldable mutual
    unfolding extended

    pub partials : Trajectory → Node E R → List (Found E R)
    partials trail (node info kids) =
        let below = partials_all (extended trail info) kids in
        if is_some info.observation
        then (record { info = info; trajectory = extended trail info }) ∷ below
        else below

    pub partials_all : Trajectory → Forest E R → List (Found E R)
    partials_all trail leaf = []
    partials_all trail (grow kid kids) = partials_all trail kids ++ partials trail kid

  -- `max(nodes, key=lambda n: n.reward)`: the first of the greatest reward
  unfoldable pub best_found : (R → R → Bool) → Found E R → List (Found E R) → Found E R
  best_found lt best [] = best
  best_found lt best (f ∷ fs) =
      if lt best.info.reward f.info.reward then best_found lt f fs else best_found lt best fs

  unfoldable pub first_best : (R → R → Bool) → List (Found E R) → Option (Found E R)
  unfolding best_found
  first_best lt [] = none
  first_best lt (f ∷ fs) = some (best_found lt f fs)

  unfoldable pub forest_of : Node E R → Forest E R
  forest_of (node info kids) = kids

pub record SearchResult (E R : Type 0) : Type 0 where
  pub episode : Option E
  pub reward : R
  pub trajectory : Trajectory
  pub rollouts : ℕ

module _ {E R : Type 0} (s : Searcher E R) (objective : String) where
  -- the first action that is a finalize
  unfoldable pub first_finalize : List String → Option String
  first_finalize [] = none
  first_finalize (action ∷ actions) =
      let later = first_finalize actions in
      if not (action == "") && starts_with (s.strip action) "finalize"
      then some (s.strip action)
      else later

  unfoldable pub finalized : Found E R → Option String → List (Found E R)
  unfolding fresh observed extended
  finalized best none = []
  finalized best (some action) =
      let child =
        observed s objective best.trajectory (fresh s objective (suc best.info.depth) action) in
      if is_some child.episode
      then (record { info = child; trajectory = extended best.trajectory child }) ∷ []
      else []

  unfoldable pub finalize_from : Option (Found E R) → List (Found E R)
  unfolding first_finalize finalized trajectory_text
  finalize_from none = []
  finalize_from (some best) = finalized best (
      first_finalize (
        to_list (
          s.expand objective
            (concat (
              trajectory_text best.trajectory
              ∷ "\nPropose exactly one finalize action from this trajectory: it must end the search now."
              ∷ []))
            1)))

  -- `_force_finalize`
  unfoldable pub force_finalize : Node E R → List (Found E R)
  unfolding finalize_from partials first_best forest_of
  force_finalize tree = finalize_from (first_best s.floats.lt (partials_all [] (forest_of tree)))

  -- the loop of `run`, with the rollouts that are left and those that are done
  unfoldable pub rollouts_from : Bool → ℕ → ℕ → ℕ → Node E R → Node E R × ℕ
  unfolding rollout completed
  rollouts_from exits n_branches zero done tree = (tree, done)
  rollouts_from exits n_branches (suc left) done tree =
      let (after, _) = rollout s objective exits n_branches [] tree in
      let rest = rollouts_from exits n_branches left (suc done) after in
      if exits && not (is_empty (completed [] after)) then (after, suc done) else rest

  unfoldable pub result_of : ℕ → Option (Found E R) → SearchResult E R
  result_of rollouts none = record {
    episode = none;
    reward = s.floats.nought;
    trajectory = [];
    rollouts = rollouts;
  }
  result_of rollouts (some best) = record {
    episode = best.info.episode;
    reward = best.info.reward;
    trajectory = best.trajectory;
    rollouts = rollouts;
  }

  -- the completed nodes, or what a forced finalize completes
  unfoldable pub done_or_forced : Node E R → List (Found E R) → List (Found E R)
  unfolding force_finalize
  done_or_forced tree [] = force_finalize tree
  done_or_forced tree (f ∷ fs) = f ∷ fs

  unfoldable pub searched : Node E R × ℕ → SearchResult E R
  unfolding result_of done_or_forced completed first_best
  searched (tree, rollouts) =
      result_of rollouts (first_best s.floats.lt (done_or_forced tree (completed [] tree)))

  abbrev pub root : Node E R
  root = node (fresh s objective 1 "") leaf

  -- `Tree.run`; without a rollout it raises at the name `rollouts`
  unfoldable pub run : ℕ → ℕ → Bool → Option (SearchResult E R)
  unfolding rollouts_from searched
  run n_branches zero exit_on_complete = none
  run n_branches (suc max_rollouts) exit_on_complete =
      some (searched (rollouts_from exit_on_complete n_branches (suc max_rollouts) 0 root))
