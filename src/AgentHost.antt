-- ===== src/AgentHost.antt =====
-- packages/agent-host/src: the host's side of the pipe to the agent.
pub mod Framing
pub mod Reassembler
pub mod Changes
pub mod Correlator
pub mod WriteTransfer
pub mod Supervisor
pub mod Core
