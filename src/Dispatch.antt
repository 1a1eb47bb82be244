-- ===== src/Dispatch.antt =====
-- The dispatch layer (dispatch/dispatch): an incident is correlated, explained and given a proposal,
-- and a person's decision lets its commands run or not.
pub mod Executor
pub mod Correlation
pub mod Evidence
pub mod Runbook
pub mod Proposal
pub mod Record
pub mod Memory
pub mod Learning
pub mod Closing
pub mod Log
pub mod Graph
mod Examples
