-- ===== src/Triage/Search/Grounded.antt =====
-- Tree.run of search.py: where the Episode of the result comes from, and how long its trajectory is.
use net_cortex.Prelude.{
  ℕ, zero, suc, ◌+◌, ◌≤◌, String, Bool, ◌&&◌, not, is_empty, Option, none, some, List, [], ◌∷◌, ◌≡◌,
  refl, sym, subst, ◌⊎◌, inl, inr, map, All, All-mono, length, if_elim, string_eq, is_some, arith,
}
use net_cortex.Triage.Search.{
  Trajectory, Info, Node, node, Forest, leaf, grow, Searcher, extended, credited, credited_all,
  fresh, observed, expanded, is_leaf, stopped, failed, best_child, rollout, rollout_at, observe_all,
  fresh_actions, to_list, trajectory_text,
}
use net_cortex.Triage.Search.Invariant.{AllNodes, rollout-AllNodes}
use net_cortex.Triage.Search.AllFound.{
  IsFound, length-extended, completed_all-AllFound, partials_all-AllFound,
}
use net_cortex.Triage.Search.Run.{
  Found, completed, partials_all, best_found, first_best, forest_of, SearchResult, finalized,
  finalize_from, force_finalize, rollouts_from, result_of, done_or_forced, searched, root, run,
}

module _ {E R : Type 0} (s : Searcher E R) (objective : String) where
  -- the root holds no answer and no action
  abbrev IsRoot : Node E R → Type 0
  IsRoot (node info kids) = (info.episode ≡ none) × (info.action ≡ "")

  credited_all-IsRoot :
      (rewards : List R) (info : Info E R) (kids : Forest E R)
      → IsRoot (node info kids)
      → IsRoot (node (credited_all s objective rewards info) kids)
  unfolding credited_all credited
  credited_all-IsRoot [] info kids h = h
  credited_all-IsRoot (reward ∷ rewards) info kids h =
      credited_all-IsRoot rewards (credited s objective reward info) kids h

  expanded-IsRoot :
      (exits : Bool) (n_branches : ℕ) (trail : Trajectory) (info : Info E R)
      → IsRoot (node info leaf)
      → IsRoot (expanded s objective exits n_branches trail info).0
  unfolding expanded
  expanded-IsRoot exits n_branches trail info h =
      let actions =
        fresh_actions [] (to_list (s.expand objective (trajectory_text trail) n_branches)) in
      let (kids, rewards) =
        observe_all s objective exits trail (map (fresh s objective (suc info.depth)) actions) in
      if_elim (λ (t : Node E R × List R). IsRoot t.0) (is_leaf kids)
        (node (record info { status = failed }) leaf, [])
        (node (credited_all s objective rewards info) kids, rewards) h
        (credited_all-IsRoot rewards info kids h)

  rollout-IsRoot :
      (exits : Bool) (n_branches : ℕ) (trail : Trajectory) (t : Node E R)
      → IsRoot t
      → IsRoot (rollout s objective exits n_branches trail t).0
  unfolding rollout
  rollout-IsRoot exits n_branches trail (node info leaf) h =
      if_elim (λ (t : Node E R × List R). IsRoot t.0) (stopped s objective info) _ _ h
        (expanded-IsRoot exits n_branches (extended trail info) info h)
  rollout-IsRoot exits n_branches trail (node info (grow kid kids)) h =
      let (forest, rewards) =
        rollout_at s objective exits n_branches (best_child s objective info.visits kid kids)
          (extended trail info) (grow kid kids) in
      if_elim (λ (t : Node E R × List R). IsRoot t.0) (stopped s objective info)
        (node (record info { status = failed }) (grow kid kids), [])
        (node (credited_all s objective rewards info) forest, rewards) h
        (credited_all-IsRoot rewards info forest h)

  -- a tree that the rollouts give
  abbrev IsTree : Node E R → Type 0
  IsTree t = AllNodes s objective 1 t × IsRoot t

  completed-root :
      (t : Node E R) → IsTree t → All (IsFound s objective s.max_depth) (completed [] t)
  unfolding completed extended AllNodes string_eq
  completed-root (node info kids) ((_, h), (none_yet, unnamed)) =
      rw none_yet (rw unnamed (completed_all-AllFound s objective 2 [] kids h (omega arith)))

  rollouts_from-IsTree :
      (exits : Bool) (n_branches left done : ℕ) (t : Node E R)
      → IsTree t
      → IsTree (rollouts_from s objective exits n_branches left done t).0
  unfolding rollouts_from
  rollouts_from-IsTree exits n_branches zero done t h = h
  rollouts_from-IsTree exits n_branches (suc left) done t (h, r) =
      let after = (rollout s objective exits n_branches [] t).0 in
      let grown : IsTree after = (
        rollout-AllNodes s objective exits n_branches 1 [] t h,
        rollout-IsRoot exits n_branches [] t r,
      ) in
      if_elim (λ (u : Node E R × ℕ). IsTree u.0) (exits && not (is_empty (completed [] after)))
        (after, suc done) (rollouts_from s objective exits n_branches left (suc done) after) grown
        (rollouts_from-IsTree exits n_branches left (suc done) after grown)

  rollouts_from-count :
      (exits : Bool) (n_branches left done : ℕ) (t : Node E R)
      → let n = (rollouts_from s objective exits n_branches left done t).1 in
        (done ≤ n) × (n ≤ done + left)
  unfolding rollouts_from
  rollouts_from-count exits n_branches zero done t = (omega arith, omega arith)
  rollouts_from-count exits n_branches (suc left) done t =
      let after = (rollout s objective exits n_branches [] t).0 in
      let (low, high) = rollouts_from-count exits n_branches left (suc done) after in
      if_elim (λ (u : Node E R × ℕ). (done ≤ u.1) × (u.1 ≤ done + suc left))
        (exits && not (is_empty (completed [] after))) (after, suc done)
        (rollouts_from s objective exits n_branches left (suc done) after)
        (omega arith, omega arith) (omega (arith, low), omega (arith, high))

  best_found-holds :
      (P : Found E R → Type 0) (lt : R → R → Bool) (best : Found E R) (fs : List (Found E R))
      → P best
      → All P fs
      → P (best_found lt best fs)
  unfolding best_found
  best_found-holds P lt best [] p h = p
  best_found-holds P lt best (f ∷ fs) p (q, h) =
      if_elim P (lt best.info.reward f.info.reward) _ _ (best_found-holds P lt f fs q h)
        (best_found-holds P lt best fs p h)

  finalized-AllFound :
      (best : Found E R) (o : Option String)
      → IsFound s objective s.max_depth best
      → All (IsFound s objective (suc s.max_depth)) (finalized s objective best o)
  unfolding finalized observed credited fresh
  finalized-AllFound best none h = tt
  finalized-AllFound best (some action) (_, _, deep, long, short) =
      let child =
        observed s objective best.trajectory (fresh s objective (suc best.info.depth) action) in
      let longer = length-extended s objective best.trajectory child in
      if_elim (All (IsFound s objective (suc s.max_depth))) (is_some child.episode)
        ((record { info = child; trajectory = extended best.trajectory child }) ∷ []) []
        (
          (
            inr (refl, refl),
            (best.trajectory, refl),
            omega (arith, deep),
            omega (arith, longer, long),
            omega (arith, longer, short),
          ),
          tt,
        )
        tt

  finalize_from-AllFound :
      (fs : List (Found E R))
      → All (IsFound s objective s.max_depth) fs
      → All
          (IsFound s objective (suc s.max_depth))
          (finalize_from s objective (first_best s.floats.lt fs))
  unfolding finalize_from first_best
  finalize_from-AllFound [] h = tt
  finalize_from-AllFound (f ∷ fs) (p, h) =
      finalized-AllFound (best_found s.floats.lt f fs) _
        (best_found-holds (IsFound s objective s.max_depth) s.floats.lt f fs p h)

  force_finalize-AllFound :
      (t : Node E R)
      → IsTree t
      → All (IsFound s objective (suc s.max_depth)) (force_finalize s objective t)
  unfolding force_finalize forest_of AllNodes
  force_finalize-AllFound (node info kids) ((_, h), _) =
      finalize_from-AllFound (partials_all [] kids)
        (partials_all-AllFound s objective 2 [] kids h (omega arith))

  deeper :
      (f : Found E R) → IsFound s objective s.max_depth f → IsFound s objective (suc s.max_depth) f
  deeper f (seen, extends, deep, long, short) =
      (seen, extends, omega (arith, deep), omega (arith, long), short)

  done_or_forced-AllFound :
      (t : Node E R) (fs : List (Found E R))
      → IsTree t
      → All (IsFound s objective s.max_depth) fs
      → All (IsFound s objective (suc s.max_depth)) (done_or_forced s objective t fs)
  unfolding done_or_forced
  done_or_forced-AllFound t [] r h = force_finalize-AllFound t r
  done_or_forced-AllFound t (f ∷ fs) r h =
      All-mono (IsFound s objective s.max_depth) (IsFound s objective (suc s.max_depth)) deeper
        (f ∷ fs) h

  -- the result holds no Episode, or it is what the last action of its trajectory gave
  abbrev pub IsAnswer : SearchResult E R → Type 0
  IsAnswer r =
      (r.episode ≡ none)
      ⊎ ((before : Trajectory) × (info : Info E R) × (r.trajectory ≡ extended before info)
          × (info.observation ≡ some (s.execute info.action).0)
          × (r.episode ≡ (s.execute info.action).1))

  result_of-IsAnswer :
      (n : ℕ) (fs : List (Found E R))
      → All (IsFound s objective (suc s.max_depth)) fs
      → let r = result_of s objective n (first_best s.floats.lt fs) in
        IsAnswer r × (length r.trajectory ≤ suc s.max_depth)
  unfolding result_of first_best
  result_of-IsAnswer n [] h = (inl refl, omega arith)
  result_of-IsAnswer n (f ∷ fs) (p, h) =
      answer (best_found s.floats.lt f fs)
        (best_found-holds (IsFound s objective (suc s.max_depth)) s.floats.lt f fs p h)
    where
      answer :
          (b : Found E R)
          → IsFound s objective (suc s.max_depth) b
          → let r = result_of s objective n (some b) in
            IsAnswer r × (length r.trajectory ≤ suc s.max_depth)
      answer b (inl (unseen, nothing), extends, deep, long, short) = (inl nothing, long)
      answer b (inr (seen, given), (before, extends), deep, long, short) =
          (inr (before, b.info, extends, seen, given), long)

  root-IsTree : IsTree (root s objective)
  unfolding AllNodes fresh
  root-IsTree = (((refl, omega arith, inl (refl, refl)), tt), (refl, refl))

  rollouts_from-once :
      (exits : Bool) (n_branches left done : ℕ) (t : Node E R)
      → suc done ≤ (rollouts_from s objective exits n_branches (suc left) done t).1
  unfolding rollouts_from
  rollouts_from-once exits n_branches left done t =
      let after = (rollout s objective exits n_branches [] t).0 in
      if_elim (λ (u : Node E R × ℕ). suc done ≤ u.1) (exits && not (is_empty (completed [] after)))
        (after, suc done) (rollouts_from s objective exits n_branches left (suc done) after)
        (omega arith) (rollouts_from-count exits n_branches left (suc done) after).0

  result_of-rollouts : (n : ℕ) (o : Option (Found E R)) → (result_of s objective n o).rollouts ≡ n
  unfolding result_of
  result_of-rollouts n none = refl
  result_of-rollouts n (some f) = refl

  searched_lem :
      (u : Node E R × ℕ)
      → IsTree u.0
      → let r = searched s objective u in
        (r.rollouts ≡ u.1) × IsAnswer r × (length r.trajectory ≤ suc s.max_depth)
  unfolding searched
  searched_lem (t, n) h =
      let found = done_or_forced s objective t (completed [] t) in
      let (answer, long) =
        result_of-IsAnswer n found
          (done_or_forced-AllFound t (completed [] t) h (completed-root t h)) in
      (result_of-rollouts n (first_best s.floats.lt found), answer, long)

  -- A search of at least one rollout returns. It makes one rollout at least and no more than it may,
  -- and its trajectory has at most one step more than the depth allows. Its Episode, if it has one,
  -- is what the tools gave for the last action of its trajectory.
  pub run-IsAnswer :
      (n_branches max_rollouts : ℕ) (exits : Bool)
      → (r : SearchResult E R) × (run s objective n_branches (suc max_rollouts) exits ≡ some r)
        × (1 ≤ r.rollouts)
        × (r.rollouts ≤ suc max_rollouts)
        × (length r.trajectory ≤ suc s.max_depth)
        × IsAnswer r
  unfolding run
  run-IsAnswer n_branches max_rollouts exits =
      let first = root s objective in
      let u = rollouts_from s objective exits n_branches (suc max_rollouts) 0 first in
      let (count, answer, long) =
        searched_lem u
          (rollouts_from-IsTree exits n_branches (suc max_rollouts) 0 first root-IsTree) in
      (
        searched s objective u,
        refl,
        subst (λ n. 1 ≤ n) (sym count) (rollouts_from-once exits n_branches max_rollouts 0 first),
        subst (λ n. n ≤ suc max_rollouts) (sym count)
            (omega (arith, (rollouts_from-count exits n_branches (suc max_rollouts) 0 first).1)),
        long,
        answer,
      )
