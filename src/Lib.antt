-- ===== src/Lib.antt =====
-- Broadcast chat: a gRPC server and its terminal client.
--
-- The server keeps channels, connected clients and the last messages of each channel, and writes
-- events to the streams of its subscribers. A request reaches a handler of BroadcastServiceImpl
-- (server/src/adapter/grpc), which parses its texts and calls a use case (server/src/application/
-- usecase); this reads and changes the stores (server/src/adapter/persistence) and calls the two
-- publishers. A thread sweeps clients whose heartbeat is overdue.
--
-- The modules:
--   Base          tests on numbers, list and text helpers
--   Containers    std::unordered_map and std::unordered_set as lists
--   Shared        shared/: Error and Result (Outcome), identifiers (Ids), trim (StringUtils)
--   Domain        server/src/domain: value objects, Channel, ClientSession, MessageRouter
--   Persistence   server/src/adapter/persistence: the in-memory stores and their invariants
--   Publisher     server/src/adapter/grpc/client_publisher.cpp and channel_list_publisher.cpp
--   Usecase       server/src/application/usecase, one module per use case; Ports is the state that
--                 they share, Membership the invariant that ties the stores together
--   Service       server/src/adapter/grpc/broadcast_service_impl.cpp: Handlers has one function per
--                 request, Requests makes them the steps of a transition system; Sweeper, Runner and
--                 Startup are heartbeat_sweeper.cpp, server_runner.cpp and server/src/main.cpp
--   Client        client-cli/: the calls over the stub of gRPC as an interface (Gateway, UseCases,
--                 StatusToError), the stream of a channel (Subscription) and the queue before the
--                 screen (Inbox); the screen (Presenter, MessageView) and the commands typed into it
--                 (CommandParser, Presenter.Commands); ClientSession and run of client-cli/src/main.cpp
--                 (Session, Startup)
--   Examples      a small server, and each theorem at work on it
--
-- A use case is a function from the state to a Result and the state after it: what was written
-- before an error stays written. The method JoinChannel::executeByName is
-- Usecase.JoinChannel.execute_by_name, and likewise for the others. Clock readings and the identifiers
-- that the random generator draws are arguments. Identifiers are their texts, and the library stduuid
-- is the parameter UuidLib. A text is the list of its bytes.
--
-- An unordered_map is an association list in which each key occurs once; the order of an iteration
-- is that of the list. Every call is one step, and the calls run one after the other: the locks of the
-- stores make each store operation atomic. Two requests that interleave are modelled only in
-- Usecase.JoinChannel.Race, and the threads of a publisher in Publisher.Concurrency.
-- Loops are structural recursion; the only fuel is the rounds of Usecase.Listing.Pages.walk, the length of
-- the buffer: each round reads at least one older message. Member counts and limits of a page stay
-- below 2 ^ 31, where the casts to 32 bits are the identity.
--
-- The terminal client is one state, Session.Client: the server behind the stub, the screen and the
-- active channel. In Client.Gateway.EndToEnd the stub is the handlers of the server, and in
-- Client.Session.Runs the requests of other clients come between the steps of a session. FTXUI draws
-- the rows and calls the handlers; what its menu and its input line write is an operation of
-- Presenter.Invariant. An int of the screen is a signed integer without bounds (Base.Int), as its
-- counts stay below 2 ^ 31 (Presenter.Overflow). The rounds of a thread (the sweeper, the watcher of
-- the connection) are a list of what the clock and the stop token answer.
--
-- Not modelled: the sinks of the log, the parsing of the command line by CLI11, the encryption of TLS
-- and the transport of gRPC, the layout of FTXUI; the web client, which is another program.
pub mod Base
pub mod Containers
pub mod Shared
pub mod Domain
pub mod Persistence
pub mod Publisher
pub mod Usecase
pub mod Service
pub mod Client
mod Examples
