-- ===== src/Examples.antt =====
-- Runs of the components on small stores: the data in Fixtures, and one file of runs for each part.
pub mod Fixtures
pub mod Hosts
pub mod Queues
pub mod Matchmaking
pub mod Pairing
pub mod Lifecycle
pub mod Results
pub mod GameQueues
pub mod WarmPool
pub mod Lobbies
pub mod PlayerData
pub mod Accounts
pub mod Codec
pub mod Artifacts
