-- ===== src/Triage/Search/AllFound.antt =====
-- search.py: the nodes that are found in a tree of the rollouts, with their trajectories.
use net_cortex.Prelude.{
  ℕ, suc, ◌≤◌, String, [], ◌∷◌, ◌++◌, ◌≡◌, refl, All, All-append, length, length-append, if_elim,
  ◌==◌, string_eq, is_some, arith,
}
use net_cortex.Triage.Search.{
  Trajectory, Info, Node, node, Forest, leaf, grow, Searcher, or_empty, extended,
}
use net_cortex.Triage.Search.Invariant.{IsSeen, IsAt, AllNodes, AllKids}
use net_cortex.Triage.Search.Run.{Found, completed, completed_all, partials, partials_all}

module _ {E R : Type 0} (s : Searcher E R) (objective : String) where
  -- a node of the tree, with a trajectory that has a step for each level below the root
  abbrev pub IsFound : ℕ → Found E R → Type 0
  IsFound bound f =
      IsSeen s objective f.info
      × ((before : Trajectory) × (f.trajectory ≡ extended before f.info))
      × (f.info.depth ≤ suc bound)
      × (length f.trajectory ≤ bound)
      × (suc (length f.trajectory) ≤ f.info.depth)

  pub length-extended :
      (trail : Trajectory) (info : Info E R) → length (extended trail info) ≤ suc (length trail)
  unfolding extended
  length-extended trail info =
      if_elim (λ t. length t ≤ suc (length trail)) (info.action == "") trail
        (trail ++ (info.action, or_empty info.observation) ∷ []) (omega arith)
        (omega (arith, length-append trail ((info.action, or_empty info.observation) ∷ [])))

  reached-IsFound :
      (depth : ℕ) (trail : Trajectory) (info : Info E R)
      → IsAt s objective depth info
      → suc (suc (length trail)) ≤ depth
      → IsFound s.max_depth (record { info = info; trajectory = extended trail info })
  reached-IsFound depth trail info (d, h, seen) short =
      let long = length-extended trail info in
      (
        seen,
        (trail, refl),
        omega (arith, d, h),
        omega (arith, h, short, long),
        omega (arith, d, short, long),
      )

  mutual
    unfolding completed AllNodes

    completed-AllFound :
        (depth : ℕ) (trail : Trajectory) (t : Node E R)
        → AllNodes s objective depth t
        → suc (suc (length trail)) ≤ depth
        → All (IsFound s.max_depth) (completed trail t)
    completed-AllFound depth trail (node info kids) (p, h) short =
        let below =
          completed_all-AllFound (suc depth) (extended trail info) kids h
            (omega (arith, short, length-extended trail info)) in
        if_elim (All (IsFound s.max_depth)) (is_some info.episode) _ _
          (reached-IsFound depth trail info p short, below) below

    pub completed_all-AllFound :
        (depth : ℕ) (trail : Trajectory) (kids : Forest E R)
        → AllKids s objective depth kids
        → suc (suc (length trail)) ≤ depth
        → All (IsFound s.max_depth) (completed_all trail kids)
    completed_all-AllFound depth trail leaf h short = tt
    completed_all-AllFound depth trail (grow kid kids) (p, h) short =
        All-append (IsFound s.max_depth) (completed trail kid) (completed_all trail kids)
          (completed-AllFound depth trail kid p short)
          (completed_all-AllFound depth trail kids h short)

  mutual
    unfolding partials AllNodes

    partials-AllFound :
        (depth : ℕ) (trail : Trajectory) (t : Node E R)
        → AllNodes s objective depth t
        → suc (suc (length trail)) ≤ depth
        → All (IsFound s.max_depth) (partials trail t)
    partials-AllFound depth trail (node info kids) (p, h) short =
        let below =
          partials_all-AllFound (suc depth) (extended trail info) kids h
            (omega (arith, short, length-extended trail info)) in
        if_elim (All (IsFound s.max_depth)) (is_some info.observation) _ _
          (reached-IsFound depth trail info p short, below) below

    pub partials_all-AllFound :
        (depth : ℕ) (trail : Trajectory) (kids : Forest E R)
        → AllKids s objective depth kids
        → suc (suc (length trail)) ≤ depth
        → All (IsFound s.max_depth) (partials_all trail kids)
    partials_all-AllFound depth trail leaf h short = tt
    partials_all-AllFound depth trail (grow kid kids) (p, h) short =
        All-append (IsFound s.max_depth) (partials_all trail kids) (partials trail kid)
          (partials_all-AllFound depth trail kids h short)
          (partials-AllFound depth trail kid p short)
