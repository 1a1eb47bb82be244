-- ===== src/Triage/Search/Tests.antt =====
-- A search whose one tool answers: the first action is not a finalize, the second one is.
use net_cortex.Prelude.{
  ℕ, ◌+◌, ◌-◌, ◌*◌, ◌/◌, ◌≤◌, true, none, some, [], ◌∷◌, ◌≡◌, refl, length, if◌then◌else◌, ◌==◌,
  string_eq, nat_eq, ltb, concat, join,
}
use net_cortex.Triage.Search
use net_cortex.Triage.Search.{Floats, Searcher}
use net_cortex.Triage.Search.Run
use net_cortex.Triage.Search.Run.{SearchResult, run}
use net_cortex.Triage.Search.Grounded.{IsAnswer, run-IsAnswer}

abbrev pub naturals : Floats ℕ
naturals = record {
  nought = 0;
  infinity = 100;
  add = λ a b. a + b;
  sub = λ a b. a - b;
  mul = λ a b. a * b;
  div = λ a b. a / b;
  of_nat = λ n. n;
  sqrt = λ a. a;
  log = λ a. a;
  lt = ltb;
}

abbrev two_steps : Searcher ℕ ℕ
two_steps = record {
  floats = naturals;
  expand = λ objective trajectory n.
      some (if trajectory == "" then "inspect flows" ∷ "topology" ∷ [] else "finalize it" ∷ []);
  evaluate = λ objective trajectory. some (1, "incomplete");
  execute = λ action. if action == "finalize it" then ("accepted", some 7) else ("seen", none);
  strip = λ t. t;
  exploration = 1;
  max_depth = 3;
}

-- the second rollout finalizes below the first child
two_rollouts :
    run two_steps "why" 2 3 true
    ≡ some (record {
      episode = some 7;
      reward = 1;
      trajectory = ("inspect flows", "seen") ∷ ("finalize it", "accepted") ∷ [];
      rollouts = 2;
    })
unfolding run Run.rollouts_from Run.searched Run.result_of Run.done_or_forced Run.completed
    Run.first_best Run.best_found Search.rollout Search.expanded Search.stopped Search.best_child
    Search.best_index Search.ucb Search.credited_all Search.credited Search.extended
    Search.observe_all Search.observed Search.unobserved Search.fresh Search.fresh_actions
    Search.trajectory_text string_eq nat_eq concat join
two_rollouts = refl

run-IsAnswer_example :
    (r : SearchResult ℕ ℕ) × (run two_steps "why" 2 3 true ≡ some r)
    × (1 ≤ r.rollouts)
    × (r.rollouts ≤ 3)
    × (length r.trajectory ≤ 4)
    × IsAnswer two_steps "why" r
run-IsAnswer_example = run-IsAnswer two_steps "why" 2 2 true
