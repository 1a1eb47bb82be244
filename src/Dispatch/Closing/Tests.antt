-- ===== src/Dispatch/Closing/Tests.antt =====
-- The closing of an incident that was approved for execution, and a second one.
use net_cortex.Prelude.{
  true, none, some, [], ◌∷◌, ◌≡◌, refl, string_eq, option_eq, nat_eq, is_empty,
}
use net_cortex.Prelude.Parts
use net_cortex.Prelude.Results.{ok, raise}
use net_cortex.Dispatch.Examples.{spell_text, event}
use net_cortex.Dispatch.Memory.Store
use net_cortex.Dispatch.Memory.Store.Tests.{parse, dump, file, resolved}
use net_cortex.Dispatch.Learning.{Drafting}
use net_cortex.Dispatch.Graph.{State}
use net_cortex.Dispatch.Graph.Execution.{Snapshot}
use net_cortex.Dispatch.Closing.{Desk, Closed, already_closed, close, may_close, closing}
use net_cortex.Dispatch.Closing.Once.{close-once}

abbrev drafting : Drafting
drafting = record {
  spell = spell_text;
  dumps = λ fs. "{}";
  base_name = spell_text;
  safe_dump = λ f. "";
  splitlines = λ s. s ∷ [];
  now = "now";
}

abbrev executed_incident : State
executed_incident = record {
  event = event;
  evidence = [];
  links = [];
  root_cause = "";
  proposal = none;
  record_path = "i1";
  decision = "approve";
  execute = true;
  approval = "approved-executed";
  execution_log = [];
}

abbrev over : Snapshot
over = record { next = []; has_values = true }

abbrev desk : Desk
desk = record { record_file = some "# Incident Record"; store = file; runbooks = [] }

abbrev closed_incident : Closed
closed_incident =
    closing drafting parse dump "/sb" "resolved" none executed_incident desk "# Incident Record"
      ("corrupt" ∷ "closed" ∷ "" ∷ [], resolved)

closes :
    close drafting parse dump "/sb" "i1" "resolved" none over executed_incident desk
    ≡ ok closed_incident
unfolding close may_close Store.set_outcome Store.load Store.rewrite_lines Store.last_updated
    Store.written Store.with_outcome Parts.is_part Parts.after_prefix string_eq option_eq nat_eq
closes = refl

abbrev after : Desk
after = record desk { record_file = some closed_incident.record_text }

close-once_example :
    (executed_incident.decision ≡ "approve")
    × (executed_incident.execute ≡ true)
    × (is_empty over.next ≡ true)
    × (close drafting parse dump "/sb" "i1" "unresolved" none over executed_incident after
        ≡ raise (already_closed "i1"))
close-once_example =
    close-once drafting parse dump "/sb" "i1" "resolved" "unresolved" none none over
      executed_incident desk after closed_incident closes refl
