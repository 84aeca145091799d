-- ===== src/Protocol.antt =====
-- sidecar/src/mempalace_tasks/protocol.py: the log of one authority. Records are epochs, proposed
-- commands and settlements; folding them in order gives the state, and which command was committed
-- or abandoned. A ProtocolError is its code, like a DomainError's.
pub mod Records
pub mod Payloads
pub mod Fold
pub mod Chain
pub mod Outcomes
pub mod Permanence
pub mod Commit
pub mod Proposals
pub mod Settling
