-- ===== src/Triage/Search/Invariant.antt =====
-- search.py: what the rollouts keep of the tree.
use net_cortex.Prelude.{
  ℕ, zero, suc, ◌≤◌, String, Bool, false, ◌&&◌, none, some, List, [], ◌∷◌, map, ◌≡◌, refl, sym,
  subst, ◌⊎◌, inl, inr, All, if_elim, if_split, is_some, arith,
}
use net_cortex.Triage.Search.{
  Trajectory, Info, Node, node, Forest, leaf, grow, Searcher, to_list, extended, credited,
  credited_all, fresh, fresh_actions, trajectory_text, observed, observe_all, unobserved, is_leaf,
  expanded, stopped, best_child, rollout, rollout_at,
}

module _ {E R : Type 0} (s : Searcher E R) (objective : String) where
  -- a node holds the answer to its own action, or none yet
  abbrev pub IsSeen : Info E R → Type 0
  IsSeen info =
      ((info.observation ≡ none) × (info.episode ≡ none))
      ⊎ ((info.observation ≡ some (s.execute info.action).0)
          × (info.episode ≡ (s.execute info.action).1))

  abbrev pub IsAt : ℕ → Info E R → Type 0
  IsAt depth info = (info.depth ≡ depth) × (depth ≤ suc s.max_depth) × IsSeen info

  -- every node is at its depth below the root
  unfoldable mutual
    pub AllNodes : ℕ → Node E R → Type 0
    AllNodes depth (node info kids) = IsAt depth info × AllKids (suc depth) kids

    pub AllKids : ℕ → Forest E R → Type 0
    AllKids depth leaf = Unit
    AllKids depth (grow kid kids) = AllNodes depth kid × AllKids depth kids

  pub credited_all-IsAt :
      (depth : ℕ) (rewards : List R) (info : Info E R)
      → IsAt depth info
      → IsAt depth (credited_all s objective rewards info)
  unfolding credited_all credited
  credited_all-IsAt depth [] info h = h
  credited_all-IsAt depth (reward ∷ rewards) info h =
      credited_all-IsAt depth rewards (credited s objective reward info) h

  fresh-IsAt :
      (depth : ℕ) (actions : List String)
      → depth ≤ suc s.max_depth
      → All (IsAt depth) (map (fresh s objective depth) actions)
  unfolding fresh
  fresh-IsAt depth [] h = tt
  fresh-IsAt depth (action ∷ actions) h = ((refl, h, inl (refl, refl)), fresh-IsAt depth actions h)

  pub observed-IsAt :
      (depth : ℕ) (trail : Trajectory) (info : Info E R)
      → IsAt depth info
      → IsAt depth (observed s objective trail info)
  unfolding observed credited
  observed-IsAt depth trail info (d, h, _) = (d, h, inr (refl, refl))

  unobserved-AllKids :
      (depth : ℕ) (infos : List (Info E R))
      → All (IsAt depth) infos
      → AllKids depth (unobserved infos)
  unfolding unobserved AllKids
  unobserved-AllKids depth [] h = tt
  unobserved-AllKids depth (info ∷ infos) (p, h) = ((p, tt), unobserved-AllKids depth infos h)

  observe_all-AllKids :
      (exits : Bool) (depth : ℕ) (trail : Trajectory) (infos : List (Info E R))
      → All (IsAt depth) infos
      → AllKids depth (observe_all s objective exits trail infos).0
  unfolding observe_all AllKids
  observe_all-AllKids exits depth trail [] h = tt
  observe_all-AllKids exits depth trail (info ∷ infos) (p, h) =
      let child = observed-IsAt depth trail info p in
      if_elim (λ (t : Forest E R × List R). AllKids depth t.0)
        (exits && is_some (observed s objective trail info).episode) _ _
        ((child, tt), unobserved-AllKids depth infos h)
        ((child, tt), observe_all-AllKids exits depth trail infos h)

  expanded-AllNodes :
      (exits : Bool) (n_branches depth : ℕ) (trail : Trajectory) (info : Info E R)
      → IsAt depth info
      → depth ≤ s.max_depth
      → AllNodes depth (expanded s objective exits n_branches trail info).0
  unfolding expanded AllNodes
  expanded-AllNodes exits n_branches depth trail info (d, h, seen) low =
      let actions =
        fresh_actions [] (to_list (s.expand objective (trajectory_text trail) n_branches)) in
      let kids =
        observe_all s objective exits trail (map (fresh s objective (suc info.depth)) actions) in
      if_elim (λ (t : Node E R × List R). AllNodes depth t.0) (is_leaf kids.0) _ _
        ((d, h, seen), tt)
        (
          credited_all-IsAt depth kids.1 info (d, h, seen),
          subst
              (λ n.
                AllKids (suc depth)
                  (observe_all s objective exits trail (map (fresh s objective (suc n)) actions)).0)
              (sym d)
              (observe_all-AllKids exits (suc depth) trail _
                (fresh-IsAt (suc depth) actions (omega (arith, low)))),
        )

  stopped-deep : (info : Info E R) → stopped s objective info ≡ false → info.depth ≤ s.max_depth
  unfolding stopped
  stopped-deep info h = ground (arith, h)

  mutual
    unfolding rollout AllNodes

    pub rollout-AllNodes :
        (exits : Bool) (n_branches depth : ℕ) (trail : Trajectory) (t : Node E R)
        → AllNodes depth t
        → AllNodes depth (rollout s objective exits n_branches trail t).0
    rollout-AllNodes exits n_branches depth trail (node info leaf) (p, h) =
        if_split (λ (t : Node E R × List R). AllNodes depth t.0) (stopped s objective info) _ _
          (λ _. (p, h))
          (λ goes.
            expanded-AllNodes exits n_branches depth (extended trail info) info p
              (subst (λ d. d ≤ s.max_depth) p.0 (stopped-deep info goes)))
    rollout-AllNodes exits n_branches depth trail (node info (grow kid kids)) (p, h) =
        if_elim (λ (t : Node E R × List R). AllNodes depth t.0) (stopped s objective info) _ _
          (p, h)
          (
            credited_all-IsAt depth
                (rollout_at s objective exits n_branches
                  (best_child s objective info.visits kid kids) (extended trail info)
                  (grow kid kids)).1
                info p,
            rollout_at-AllKids exits n_branches (best_child s objective info.visits kid kids)
                (suc depth) (extended trail info) (grow kid kids) h,
          )

    pub rollout_at-AllKids :
        (exits : Bool) (n_branches i depth : ℕ) (trail : Trajectory) (kids : Forest E R)
        → AllKids depth kids
        → AllKids depth (rollout_at s objective exits n_branches i trail kids).0
    rollout_at-AllKids exits n_branches i depth trail leaf h = tt
    rollout_at-AllKids exits n_branches zero depth trail (grow kid kids) (p, h) =
        (rollout-AllNodes exits n_branches depth trail kid p, h)
    rollout_at-AllKids exits n_branches (suc i) depth trail (grow kid kids) (p, h) =
        (p, rollout_at-AllKids exits n_branches i depth trail kids h)
