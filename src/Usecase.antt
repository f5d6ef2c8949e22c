-- ===== src/Usecase.antt =====
-- server/src/application/usecase: what a client may ask of the server, as methods over the stores
-- and the publishers.
pub mod Ports
pub mod Membership
pub mod RemoveMember
pub mod JoinChannel
pub mod LeaveChannel
pub mod CreateChannel
pub mod SendMessage
pub mod Listing
pub mod Subscribe
pub mod ExpireInactiveClients
