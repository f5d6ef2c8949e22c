-- ===== src/Persistence.antt =====
-- server/src/adapter/persistence: the stores behind the ports of the application layer. Each method
-- holds the store's mutex from its first line to its last, so it is one step on the state.
pub mod ChannelRepository
pub mod ClientRegistry
pub mod MessageRepository
pub mod EventLog
