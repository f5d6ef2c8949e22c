-- ===== src/Domain.antt =====
-- server/include/bcmd/server/domain, server/src/domain: the value objects, the aggregates and the
-- routing rule.
pub mod Names
pub mod Username
pub mod ChannelName
pub mod MessageContent
pub mod Channel
pub mod ClientSession
pub mod Message
pub mod MessageRouter
