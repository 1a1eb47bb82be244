-- ===== src/Triage/Search.antt =====
-- search.py: the Monte Carlo tree search, its nodes, rollouts and result. A node holds its children
-- and not its parent: what the source reads of the ancestors is passed down as their trajectory, and
-- the rewards that it propagates to them are passed up. `E` is the type of Episodes and `R` that of
-- Python's floats, whose operations are `Floats`; the language model's answer is a function of what
-- it is asked, and nothing where the call raises.
pub mod Run
pub mod Invariant
pub mod AllFound
pub mod Grounded
pub mod Tests
use net_cortex.Prelude.{
  ℕ, zero, suc, ◌+◌, String, Bool, true, false, ◌||◌, ◌&&◌, not, Option, none, some, List, [], ◌∷◌,
  ◌++◌, map, if◌then◌else◌, ◌==◌, nat_eq, string_eq, contains, concat, join, is_some, is_empty,
  starts_with, ltb, leb,
}

pub record Floats (R : Type 0) : Type 0 where
  pub nought : R
  pub infinity : R
  pub add : R → R → R
  pub sub : R → R → R
  pub mul : R → R → R
  pub div : R → R → R
  pub of_nat : ℕ → R
  pub sqrt : R → R
  pub log : R → R
  pub lt : R → R → Bool

pub data Status : Type 0 where
  complete failed incomplete : Status

abbrev pub is_failed : Status → Bool
is_failed complete = false
is_failed failed = true
is_failed incomplete = false

-- a trajectory: the actions and their observations from the root on
abbrev pub Trajectory : Type 0
Trajectory = List (String × String)

-- what a node holds beside its children
pub record Info (E R : Type 0) : Type 0 where
  pub action : String
  pub depth : ℕ
  pub observation : Option String
  pub episode : Option E
  pub value : R
  pub reward : R
  pub visits : ℕ
  pub status : Status

mutual
  pub data Node (E R : Type 0) : Type 0 where
    node : Info E R → Forest E R → Node E R

  pub data Forest (E R : Type 0) : Type 0 where
    leaf : Forest E R
    grow : Node E R → Forest E R → Forest E R

-- the seams of the search; `evaluate` gives the reward and the status
pub record Searcher (E R : Type 0) : Type 0 where
  pub floats : Floats R
  pub expand : String → String → ℕ → Option (List String)
  pub evaluate : String → String → Option (R × String)
  pub execute : String → String × Option E
  pub strip : String → String
  pub exploration : R
  pub max_depth : ℕ

abbrev pub or_empty : Option String → String
or_empty none = ""
or_empty (some s) = s

abbrev pub step_text : String × String → String
step_text (action, observation) =
    concat ("action: " ∷ action ∷ "\nobservation: " ∷ observation ∷ [])

-- `_trajectory_text`
unfoldable pub trajectory_text : Trajectory → String
trajectory_text pairs = join "\n" (map step_text pairs)

-- the actions that a node is expanded with: each once, and none that is empty
unfoldable pub fresh_actions : List String → List String → List String
fresh_actions seen [] = []
fresh_actions seen (action ∷ actions) =
    let skipped = fresh_actions seen actions in
    let rest = fresh_actions (action ∷ seen) actions in
    if not (action == "") && not (contains seen action) then action ∷ rest else skipped

abbrev pub to_list : Option (List String) → List String
to_list none = []
to_list (some xs) = xs

module _ {E R : Type 0} where
  abbrev pub info_of : Node E R → Info E R
  info_of (node info kids) = info

  -- `Node.trajectory`, after the parent's
  unfoldable pub extended : Trajectory → Info E R → Trajectory
  extended trail info =
      if info.action == "" then trail else trail ++ (info.action, or_empty info.observation) ∷ []

  abbrev pub is_leaf : Forest E R → Bool
  is_leaf leaf = true
  is_leaf (grow kid kids) = false

  -- children that the loop has not come to
  unfoldable pub unobserved : List (Info E R) → Forest E R
  unobserved [] = leaf
  unobserved (info ∷ infos) = grow (node info leaf) (unobserved infos)

  module _ (s : Searcher E R) (objective : String) where
    -- the node's part of `backprop`
    unfoldable pub credited : R → Info E R → Info E R
    credited reward info =
        let visits = suc info.visits in
        record info {
          visits = visits;
          value =
              s.floats.add info.value
                (s.floats.div (s.floats.sub reward info.value) (s.floats.of_nat visits));
        }

    unfoldable pub credited_all : List R → Info E R → Info E R
    unfolding credited
    credited_all [] info = info
    credited_all (reward ∷ rewards) info = credited_all rewards (credited reward info)

    unfoldable pub fresh : ℕ → String → Info E R
    fresh depth action = record {
      action = action;
      depth = depth;
      observation = none;
      episode = none;
      value = s.floats.nought;
      reward = s.floats.nought;
      visits = 0;
      status = incomplete;
    }

    abbrev pub score_or_failed : Option (R × String) → R × String
    score_or_failed none = (s.floats.nought, "failed")
    score_or_failed (some score) = score

    -- a grounded finalize completes the node whatever the score's status
    abbrev pub status_of : Option E → String → Status
    status_of (some episode) status = complete
    status_of none status = if status == "failed" then failed else incomplete

    -- `_observe_and_evaluate`, at the parent's trajectory
    unfoldable pub observed : Trajectory → Info E R → Info E R
    unfolding extended credited trajectory_text
    observed trail info =
        let (observation, episode) = s.execute info.action in
        let seen = record info { observation = some observation; episode = episode } in
        let (reward, status) =
          score_or_failed (s.evaluate objective (trajectory_text (extended trail seen))) in
        credited reward (record seen { reward = reward; status = status_of episode status })

    -- the loop over the new children, which ends at a completed one if it may
    unfoldable pub observe_all : Bool → Trajectory → List (Info E R) → Forest E R × List R
    unfolding observed unobserved
    observe_all exits trail [] = (leaf, [])
    observe_all exits trail (info ∷ infos) =
        let child = observed trail info in
        let (forest, rewards) = observe_all exits trail infos in
        if exits && is_some child.episode
        then (grow (node child leaf) (unobserved infos), child.reward ∷ [])
        else (grow (node child leaf) forest, child.reward ∷ rewards)

    -- the expansion of a node without children, at its own trajectory
    unfoldable pub expanded : Bool → ℕ → Trajectory → Info E R → Node E R × List R
    unfolding fresh_actions fresh observe_all credited_all trajectory_text
    expanded exits n_branches trail info =
        let actions =
          fresh_actions [] (to_list (s.expand objective (trajectory_text trail) n_branches)) in
        let (kids, rewards) = observe_all exits trail (map (fresh (suc info.depth)) actions) in
        if is_leaf kids
        then (node (record info { status = failed }) leaf, [])
        else (node (credited_all rewards info) kids, rewards)

    -- `_ucb`
    unfoldable pub ucb : ℕ → Info E R → R
    ucb parent_visits child =
        if child.visits == 0
        then s.floats.infinity
        else if is_failed child.status
        then s.floats.nought
        else s.floats.add (s.floats.div child.value (s.floats.of_nat child.visits)) (
            s.floats.mul s.exploration (
              s.floats.sqrt (
                s.floats.div (s.floats.log (s.floats.of_nat parent_visits))
                  (s.floats.of_nat child.visits))))

    -- the index of the first child of the greatest `ucb`, from the best so far
    unfoldable pub best_index : ℕ → ℕ → R → ℕ → Forest E R → ℕ
    unfolding ucb
    best_index parent_visits best bound i leaf = best
    best_index parent_visits best bound i (grow (node info grandkids) kids) =
        let score = ucb parent_visits info in
        if s.floats.lt bound score
        then best_index parent_visits i score (suc i) kids
        else best_index parent_visits best bound (suc i) kids

    -- `max(node.children, key=…)`, of at least one child
    unfoldable pub best_child : ℕ → Node E R → Forest E R → ℕ
    unfolding best_index ucb
    best_child parent_visits (node info grandkids) kids =
        best_index parent_visits 0 (ucb parent_visits info) 1 kids

    unfoldable pub stopped : Info E R → Bool
    stopped info = is_failed info.status || ltb s.max_depth info.depth

    unfoldable mutual
      unfolding stopped expanded best_child credited_all extended

      -- `_rollout`: the node afterwards, and the rewards that its ancestors are credited with
      pub rollout : Bool → ℕ → Trajectory → Node E R → Node E R × List R
      rollout exits n_branches trail (node info leaf) =
          if stopped info
          then (node (record info { status = failed }) leaf, [])
          else expanded exits n_branches (extended trail info) info
      rollout exits n_branches trail (node info (grow kid kids)) =
          let (forest, rewards) =
            rollout_at exits n_branches (best_child info.visits kid kids) (extended trail info)
              (grow kid kids) in
          if stopped info
          then (node (record info { status = failed }) (grow kid kids), [])
          else (node (credited_all rewards info) forest, rewards)

      pub rollout_at : Bool → ℕ → ℕ → Trajectory → Forest E R → Forest E R × List R
      rollout_at exits n_branches i trail leaf = (leaf, [])
      rollout_at exits n_branches zero trail (grow kid kids) =
          let (after, rewards) = rollout exits n_branches trail kid in (grow after kids, rewards)
      rollout_at exits n_branches (suc i) trail (grow kid kids) =
          let (after, rewards) = rollout_at exits n_branches i trail kids in
          (grow kid after, rewards)
