-- ===== src/Lib.antt =====
-- NetCortex: 5G control-plane capture analysis and a human-gated incident pipeline.
--
-- The program has four parts that exchange files. `5gcap` decodes a packet capture into the messages
-- of three planes (N2, N4, SBI), groups the N2 messages into one flow per UE and links the other
-- planes to the flows; `triage` and `dispatch` diagnose an incident and propose an action, which a
-- person approves; `impact` grades a planned Change from what the others stored. Modelled here are
-- the analyses of 5gcap, the grading of impact, the search of triage and the incident
-- pipeline of dispatch:
--
-- - Fivegcap.Messages: the records of 5gcap/fivegcap/ngap.py, nas.py, pfcp.py and sbi.py.
-- - Fivegcap.Flow: 5gcap/fivegcap/flow.py. `Builder` is the state of the loop of `build_flows`, its
--   dict of flows, its counter and its NAS security marks; `step` is one turn of the loop, made of a
--   function for each nested function and branch (`flow_for`, `complete_ngap`, `handle`, …).
-- - Fivegcap.Correlate: 5gcap/fivegcap/correlate.py, the claim dicts and the joins `join_n4` and
--   `join_sbi`, which fold over the messages with the `Correlation` that the source mutates.
-- - Fivegcap.Pairing: `pair_procedures` of 5gcap/fivegcap/pfcp.py and of sbi.py beside it.
-- - Impact.Change: impact/impact/change.py.
-- - Impact.Capture and Impact.Radius: impact/impact/capture.py.
-- - Impact.SpecGraph, Impact.Criticality and Impact.Evidence: the files of these names in impact/impact.
-- - Impact.Plan: impact/impact/plan.py.
-- - Impact.Signals, Impact.History, Impact.BlastFactor, Impact.CriticalFactor and Impact.Rubric:
--   impact/impact/rubric.py, whose `grade` puts the three assessments together.
-- - Dispatch.Executor, Dispatch.Correlation, Dispatch.Evidence, Dispatch.Runbook, Dispatch.Record,
--   Dispatch.Memory and Dispatch.Learning: the files of these names in dispatch/dispatch;
--   Dispatch.Proposal: proposal.py there, with the context of runbook.py; Dispatch.Closing: `_close`
--   of cli.py there; Dispatch.Log: the pull and the grounding of log.py there.
-- - Dispatch.Graph: dispatch/dispatch/graph.py. `State` is the graph's state, `World` what the nodes
--   change outside of it (the records' files, the commands run, the Episodes), `Spine` what they call;
--   Dispatch.Graph.Execution is the node `execute`, whose result is the world that it leaves and the
--   state or the error, and Dispatch.Graph.System has the steps of several incidents over time.
-- - Triage.Search: the tree search of triage/triage/search.py. `rollout` is one rollout, which gives the
--   node afterwards and the rewards that the ancestors are credited with; Triage.Search.Run is `Tree.run`.
-- - Triage.Objective: the objective's text and the context of past Episodes there.
-- - Triage.Actions: the Actions of triage/triage/search.py, and the schemas of memory.py beside it.
-- - Prelude.Ranking: the choice of past Episodes by a score, which triage and dispatch share.
-- - Prelude: Python's dict as an association list in insertion order, its stable sort, the text and
--   list operations that the sources call, and JSON values.
--
-- A timestamp is a number of ticks: the code only copies, compares and subtracts it. A frozenset of
-- two TCP endpoints is the pair in a fixed order. Where a Python dict of a decoded document is read by
-- `.get`, it is a record with an optional value per key that is read. All loops are recursion on the
-- list that they walk, so no definition runs on fuel, except `show`, the decimal digits of a number,
-- which has one unit of fuel more than the number.
--
-- Code that is not in the repository is an argument: the NAS decoder, which flow.py calls through
-- nas.py, rests on pycrate; `upper`, `lower`, `json.loads`, the word search and the whitespace rule
-- are Python's (`Host` in Impact.Evidence), as `str`, `json.dumps`, the resolution of paths and the
-- digest are for dispatch (`Sandbox`, `Printing`, `Spine`, `LogSeams`), and floats, the language model and its
-- schema validation for triage (`Floats`, `Searcher`, `Tools`). Nothing is assumed of any of them. What
-- LangGraph does with a checkpoint is a choice of the steps, which allow more than it does: an incident
-- may be resumed, or `execute` repeated, at any time. A run that raises before its record is written
-- leaves the checkpoint of the thread's earlier run, if there is one.
--
-- Not modelled: the decoders of ngap.py, nas.py, pfcp.py and sbi.py, which call pycrate, scapy and
-- h2; reports, command lines and file reading; the tools and the topology of triage;
-- dispatch's other specialists and its root-cause search, which ask other programs and a language model, and
-- the evaluation scripts.
pub mod Prelude
pub mod Fivegcap
pub mod Impact
pub mod Dispatch
pub mod Triage
