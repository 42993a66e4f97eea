-- ===== src/Host.antt =====
-- scripts/atmcp_workbench_host.py: the host that runs the threads of one agent.
pub mod Gate
pub mod Paths
pub mod Sse
pub mod Tools
pub mod Agent
pub mod Lanes
pub mod Stream
