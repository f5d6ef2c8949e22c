-- ===== src/Service/Requests.antt =====
-- server/src/main.cpp and server/src/adapter/grpc/broadcast_service_impl.cpp: the server as a
-- transition system, in which every request of a client and every sweep is a step.
pub mod Registration
pub mod Departure
pub mod Calls
pub mod Soundness
pub mod Interference
use monash_fit1045_hd_projec.Base.{ℕ, ◌≡◌, List, [], ◌∷◌, Option, none, some, Text, codes}
use monash_fit1045_hd_projec.Containers.Map
use monash_fit1045_hd_projec.Shared.Ids.{UuidLib, ChannelId, ClientId, MessageId}
use monash_fit1045_hd_projec.Domain.ChannelName
use monash_fit1045_hd_projec.Persistence.ChannelRepository
use monash_fit1045_hd_projec.Persistence.ClientRegistry
use monash_fit1045_hd_projec.Persistence.MessageRepository
use monash_fit1045_hd_projec.Publisher.Writers
use monash_fit1045_hd_projec.Usecase.Ports.{Server}
use monash_fit1045_hd_projec.Usecase.ExpireInactiveClients
use monash_fit1045_hd_projec.Service.Handlers

-- A request with the identifiers and the clock readings that serving it draws. A subscription is
-- two steps, before and after the loop in which its handler waits.
pub data Request : Type 0 where
  connect : Text → ClientId → ℕ → ℕ → Request
  disconnect : Text → Request
  create_channel : Text → Text → ChannelId → ℕ → Request
  join_channel : Text → Text → Request
  leave_channel : Text → Text → Request
  send_message : Text → Text → Text → MessageId → ℕ → Request
  list_messages : Text → Text → Text → ℕ → Request
  heartbeat : Text → ℕ → Request
  subscribe : Text → Text → ℕ → Request
  subscribe_ended : ClientId → Request
  subscribe_list : Text → ℕ → Request
  subscribe_list_ended : ClientId → Request
  sweep : ℕ → Request

-- The repository as it starts: it has the channel general, unless that were no valid name.
unfoldable pub seeded : ChannelId → ℕ → ChannelRepository.ChannelRepository
seeded drawn now = elim (ChannelName.create (codes "general")) [
  | none ↦ ChannelRepository.empty
  | some default_name ↦ (ChannelRepository.create default_name drawn now ChannelRepository.empty).1
]

-- The server as it starts, with the configured size of the history.
unfoldable pub started : ℕ → ChannelId → ℕ → Server
unfolding seeded
started history_cap drawn now = record {
  channels = seeded drawn now;
  clients = ClientRegistry.empty;
  messages = MessageRepository.create history_cap;
  publisher = Writers.empty;
  channel_list = Writers.empty;
}

module _ (lib : UuidLib) where
  unfoldable pub serve : Request → Server → Server
  serve (connect name drawn system_now steady_now) s =
      (Handlers.connect lib name drawn system_now steady_now s).1
  serve (disconnect client) s = (Handlers.disconnect lib client s).1
  serve (create_channel client name drawn now) s =
      (Handlers.create_channel lib client name drawn now s).1
  serve (join_channel client channel) s = (Handlers.join_channel lib client channel s).1
  serve (leave_channel client channel) s = (Handlers.leave_channel lib client channel s).1
  serve (send_message client channel content drawn now) s =
      (Handlers.send_message lib client channel content drawn now s).1
  serve (list_messages client channel before limit) s =
      (Handlers.list_messages_of lib client channel before limit s).1
  serve (heartbeat client now) s = (Handlers.heartbeat lib client now s).1
  serve (subscribe client channel writer) s =
      (Handlers.subscribe_start lib client channel writer s).1
  serve (subscribe_ended client) s = Handlers.subscribe_end lib client s
  serve (subscribe_list client writer) s = (Handlers.subscribe_list_start lib client writer s).1
  serve (subscribe_list_ended client) s = Handlers.subscribe_list_end lib client s
  serve (sweep deadline) s = (ExpireInactiveClients.run lib deadline s).1

  -- The identifier that a request draws is not in use.
  abbrev pub IsFresh : Request → Server → Type 0
  IsFresh (connect name drawn system_now steady_now) s =
      Map.find drawn s.clients.clients_by_id ≡ none
  IsFresh (create_channel client name drawn now) s = Map.find drawn s.channels.channels_by_id ≡ none
  IsFresh _ s = Unit {0}

  -- The states that a server reaches.
  pub data Reachable : Server → Type 0 where
    start : (cap : ℕ) (drawn : ChannelId) (now : ℕ) → Reachable (started cap drawn now)
    step : (s : Server) (r : Request) → Reachable s → IsFresh r s → Reachable (serve r s)
