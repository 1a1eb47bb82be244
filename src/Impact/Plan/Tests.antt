-- ===== src/Impact/Plan/Tests.antt =====
-- A plan of two checks, of which one is pinned to the target.
use net_cortex.Prelude.{
  String, true, none, some, [], ◌∷◌, ◌≡◌, refl, All, Pairwise, any, ◌==◌, nat_eq, string_eq,
}
use net_cortex.Prelude.Json
use net_cortex.Prelude.Json.{Json, str, arr, obj, cons, nil, field, end}
use net_cortex.Impact.Capture.{BlastResult, n4_message}
use net_cortex.Impact.Radius
use net_cortex.Impact.Plan
use net_cortex.Impact.Plan.{
  PlanItem, PlanState, done, parse_plan, placed_items, placed_le, distance_of,
}
use net_cortex.Impact.Plan.Parsed.{IsWellFormed, parse_plan-IsWellFormed}
use net_cortex.Impact.Plan.Placed.{IsPlaced, placed_items-IsPlaced, placed_items_complete}

abbrev same : String → String
same s = s

abbrev ping : PlanItem
ping = record { name = "ping"; nf = none; kpi = none; threshold = none }

abbrev sessions : PlanItem
sessions = record { name = "sessions"; nf = some "UPF"; kpi = some "rate"; threshold = some "0.9" }

abbrev plan : PlanState
plan = record { path = some "plan.json"; items = ping ∷ sessions ∷ []; exists = true }

abbrev document : Json
document = obj (
    field "items"
      (arr (
        cons (obj (field "name" (str "ping") end)) (
          cons
            (obj (
              field "name" (str "sessions") (
                field "nf" (str "UPF")
                  (field "kpi" (str "rate") (field "threshold" (str "0.9") end)))))
            nil)))
      end)

document_parses : parse_plan same document ≡ done (ping ∷ sessions ∷ [])
unfolding parse_plan Plan.raw_items Plan.parse_items Plan.parse_item Plan.parse_fields Plan.name_of
    Plan.text_of Plan.all_known Json.get string_eq
document_parses = refl

parse_plan-IsWellFormed_example : All IsWellFormed (ping ∷ sessions ∷ [])
parse_plan-IsWellFormed_example =
    parse_plan-IsWellFormed same document (ping ∷ sessions ∷ []) document_parses

abbrev upf_only : BlastResult
upf_only = record {
  target = some (record { role = "UPF"; ip = "10.0.0.4"; evidence = n4_message 0 });
  affected = [];
  unknown_peers = 0;
  unknown_peer_pointers = [];
}

placed_items-IsPlaced_example :
    Pairwise (λ a b. placed_le same same a b ≡ true) (placed_items same same plan (some upf_only))
    × All (IsPlaced same same plan.items upf_only) (placed_items same same plan (some upf_only))
placed_items-IsPlaced_example = placed_items-IsPlaced same same plan upf_only

sessions_near : distance_of same same upf_only sessions.nf ≡ some 0
unfolding Radius.proximity_of Radius.same_role string_eq
sessions_near = refl

placed_items_complete_example :
    any (λ p. p.index == 1) (placed_items same same plan (some upf_only)) ≡ true
placed_items_complete_example =
    placed_items_complete same same plan upf_only 1 sessions 0 refl refl sessions_near
