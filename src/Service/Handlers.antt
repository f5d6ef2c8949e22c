-- ===== src/Service/Handlers.antt =====
-- server/src/adapter/grpc/broadcast_service_impl.cpp: one handler per request. A handler is a method
-- over the server; an error becomes a status when the call is answered (Service/Status).
use monash_fit1045_hd_projec.Base.{ℕ, Bool, Option, none, some, List, [], ◌∷◌, map, Text}
use monash_fit1045_hd_projec.Shared.Outcome.{
  Result, VoidResult, ok, err, Exec, ◌>>=◌, ◌>>◌, pure, lift, gets, modify, or_fail,
  client_not_found, channel_not_found, invalid_username, invalid_argument,
}
use monash_fit1045_hd_projec.Shared.StringUtils.{trim}
use monash_fit1045_hd_projec.Shared.Ids.{UuidLib, ChannelId, ClientId, MessageId, parse}
use monash_fit1045_hd_projec.Domain.Username
use monash_fit1045_hd_projec.Domain.MessageRouter.{include_sender}
use monash_fit1045_hd_projec.Domain.Message.{Message}
use monash_fit1045_hd_projec.Persistence.ClientRegistry
use monash_fit1045_hd_projec.Persistence.ClientRegistry.{ClientRegistry}
use monash_fit1045_hd_projec.Publisher.ChannelListPublisher
use monash_fit1045_hd_projec.Publisher.ChannelListPublisher.{
  ChannelSummary, populate_channel_summary,
}
use monash_fit1045_hd_projec.Publisher.ClientPublisher
use monash_fit1045_hd_projec.Publisher.ClientPublisher.{MessageEvent, value_or_empty, to_epoch_ms}
use monash_fit1045_hd_projec.Usecase.Ports.{
  Server, attempt, find_client, register_client, remove_client, touch_heartbeat,
  unregister_subscriber,
}
use monash_fit1045_hd_projec.Usecase.CreateChannel
use monash_fit1045_hd_projec.Usecase.JoinChannel
use monash_fit1045_hd_projec.Usecase.LeaveChannel
use monash_fit1045_hd_projec.Usecase.SendMessage
use monash_fit1045_hd_projec.Usecase.Listing.{list_channels, list_messages}
use monash_fit1045_hd_projec.Usecase.Subscribe.{subscribe_to_channel, subscribe_to_channel_list}

-- CreateChannelResponse
pub record CreatedChannel : Type 0 where
  pub channel_id : Text
  pub channel_name : Text

-- ListMessagesResponse
pub record MessagesResponse : Type 0 where
  pub messages : List MessageEvent
  pub has_more : Bool

-- The fields of one message of the response; without a user name the sender's name is left empty.
unfoldable pub listed_message : ClientRegistry → Message → MessageEvent
listed_message registry m = record {
  message_id = m.id;
  channel_id = m.channel_id;
  sender_id = m.sender_id;
  sender_name = value_or_empty (ClientRegistry.lookup_username m.sender_id registry);
  content = m.content;
  sent_at_ms = to_epoch_ms m.sent_at;
}

module _ (lib : UuidLib) where
  -- ClientId::parse(trim(request->client_id())), or an early return
  abbrev pub client_of : Text → Result ClientId
  client_of raw = or_fail (parse lib (trim raw)) client_not_found

  abbrev pub channel_of : Text → Result ChannelId
  channel_of raw = or_fail (parse lib (trim raw)) channel_not_found

  unfoldable pub connect : Text → ClientId → ℕ → ℕ → Exec Server ClientId
  connect raw_username drawn system_now steady_now = do
    username ← lift (or_fail (Username.create (trim raw_username)) invalid_username)
    session ← register_client username drawn system_now steady_now
    pure session.id

  -- for (channel_id : channels) leave_channel_->execute(client_id, channel_id); errors are logged
  unfoldable pub leave_all : ClientId → List ChannelId → Server → Server
  leave_all client_id [] s = s
  leave_all client_id (channel_id ∷ channels) s =
      leave_all client_id channels (LeaveChannel.execute lib client_id channel_id s).1

  unfoldable pub disconnect : Text → Exec Server (Unit {0})
  unfolding leave_all
  disconnect raw_client_id = do
    client_id ← lift (client_of raw_client_id)
    session ← find_client client_id
    modify (leave_all client_id session.joined_channels)
    remove_client client_id
    modify (unregister_subscriber client_id)

  unfoldable pub create_channel : Text → Text → ChannelId → ℕ → Exec Server CreatedChannel
  create_channel raw_client_id raw_name drawn now = do
    client_id ← lift (client_of raw_client_id)
    let trimmed_name : Text = trim raw_name
    created ← CreateChannel.execute client_id trimmed_name drawn now
    pure (record { channel_id = created; channel_name = trimmed_name })

  -- The channel is given by its identifier, or else by its name.
  abbrev pub join_target : ClientId → Text → Option ChannelId → Exec Server (Unit {0})
  join_target client_id trimmed_channel (some channel_id) =
      JoinChannel.execute lib client_id channel_id
  join_target client_id trimmed_channel none = do
    joined ← JoinChannel.execute_by_name lib client_id trimmed_channel
    pure tt

  unfoldable pub join_channel : Text → Text → Exec Server (Unit {0})
  join_channel raw_client_id raw_channel = do
    client_id ← lift (client_of raw_client_id)
    let trimmed_channel : Text = trim raw_channel
    join_target client_id trimmed_channel (parse lib trimmed_channel)

  unfoldable pub leave_channel : Text → Text → Exec Server (Unit {0})
  leave_channel raw_client_id raw_channel_id = do
    client_id ← lift (client_of raw_client_id)
    channel_id ← lift (channel_of raw_channel_id)
    LeaveChannel.execute lib client_id channel_id

  unfoldable pub send_message : Text → Text → Text → MessageId → ℕ → Exec Server MessageId
  send_message raw_client_id raw_channel_id raw_content drawn now = do
    client_id ← lift (client_of raw_client_id)
    channel_id ← lift (channel_of raw_channel_id)
    SendMessage.execute client_id channel_id (trim raw_content) include_sender drawn now

  -- An empty cursor stands for none.
  abbrev pub cursor_of : Text → Result (Option MessageId)
  cursor_of [] = ok none
  cursor_of (c ∷ trimmed) = elim (parse lib (c ∷ trimmed)) [
    | none ↦ err invalid_argument
    | some parsed ↦ ok (some parsed)
  ]

  unfoldable pub list_messages_of : Text → Text → Text → ℕ → Exec Server MessagesResponse
  list_messages_of raw_client_id raw_channel_id raw_before limit = do
    client_id ← lift (client_of raw_client_id)
    channel_id ← lift (channel_of raw_channel_id)
    cursor ← lift (cursor_of (trim raw_before))
    page ← list_messages client_id channel_id cursor limit
    events ← gets (λ s. map (listed_message s.clients) page.messages)
    pure (record { messages = events; has_more = page.has_more })

  unfoldable pub heartbeat : Text → ℕ → Exec Server (Unit {0})
  heartbeat raw_client_id steady_now = do
    client_id ← lift (client_of raw_client_id)
    touch_heartbeat client_id steady_now

  abbrev pub register_stream : ClientId → ℕ → Server → Server
  register_stream client_id writer s = record s {
    publisher = ClientPublisher.register_subscriber client_id writer s.publisher;
  }

  -- if (!authorized) { unregisterSubscriber; return the error; }
  abbrev pub authorized_or_undo : ClientId → VoidResult → Exec Server (Unit {0})
  authorized_or_undo client_id (ok u) = pure tt
  authorized_or_undo client_id (err e) = do modify (unregister_subscriber client_id); lift (err e)

  -- The handler up to its waiting loop, and what it does after the loop.
  unfoldable pub subscribe_start : Text → Text → ℕ → Exec Server ClientId
  subscribe_start raw_client_id raw_channel_id writer = do
    client_id ← lift (client_of raw_client_id)
    channel_id ← lift (channel_of raw_channel_id)
    modify (register_stream client_id writer)
    authorized ← attempt (subscribe_to_channel client_id channel_id)
    authorized_or_undo client_id authorized
    pure client_id

  unfoldable pub subscribe_end : ClientId → Server → Server
  subscribe_end client_id s = unregister_subscriber client_id s

  unfoldable pub subscribe_list_start : Text → ℕ → Exec Server ClientId
  subscribe_list_start raw_client_id writer = do
    client_id ← lift (client_of raw_client_id)
    subscribe_to_channel_list client_id writer
    pure client_id

  unfoldable pub subscribe_list_end : ClientId → Server → Server
  subscribe_list_end client_id s = record s {
    channel_list = ChannelListPublisher.unregister_subscriber client_id s.channel_list;
  }

-- ListChannels
unfoldable pub list_channels_of : Server → List ChannelSummary
list_channels_of s = map populate_channel_summary (list_channels s)
