-- ===== src/Publisher.antt =====
-- server/src/adapter/grpc: the two publishers, which write events to the streams of subscribers.
pub mod Writers
pub mod ClientPublisher
pub mod ChannelListPublisher
pub mod Concurrency
