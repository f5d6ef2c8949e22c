-- ===== src/Client.antt =====
-- client-cli: the terminal client.
pub mod StatusToError
pub mod CommandParser
pub mod Inbox
pub mod MessageView
pub mod Presenter
pub mod Subscription
pub mod UseCases
pub mod Session
pub mod Startup
pub mod Gateway
