-- ===== src/Publisher/ClientPublisher.antt =====
-- server/src/adapter/grpc/client_publisher.cpp: events of channels, to the streams of clients.
-- The registry of clients is read for the names of senders.
pub mod Delivery
use monash_fit1045_hd_projec.Base.{
  ℕ, ◌/◌, ◌≡◌, [], ◌∷◌, Bool, true, false, ◌&&◌, Option, none, some, List, Text,
}
use monash_fit1045_hd_projec.Containers.Map
use monash_fit1045_hd_projec.Containers.IdSet
use monash_fit1045_hd_projec.Containers.IdSet.{IdSet}
use monash_fit1045_hd_projec.Shared.Outcome.{Result, ok, err}
use monash_fit1045_hd_projec.Shared.Ids.{UuidLib, ChannelId, ClientId, MessageId, parse}
use monash_fit1045_hd_projec.Domain.Message.{Message}
use monash_fit1045_hd_projec.Persistence.ClientRegistry
use monash_fit1045_hd_projec.Persistence.ClientRegistry.{ClientRegistry}
use monash_fit1045_hd_projec.Publisher.Writers
use monash_fit1045_hd_projec.Publisher.Writers.{Writers}

-- The protocol's events (proto/bcmd/v1/broadcast.proto). A field that is not set is empty.
pub record MessageEvent : Type 0 where
  pub message_id : Text
  pub channel_id : Text
  pub sender_id : Text
  pub sender_name : Text
  pub content : Text
  pub sent_at_ms : ℕ

pub record MemberEvent : Type 0 where
  pub channel_id : Text
  pub client_id : Text
  pub username : Text

pub data ChannelEvent : Type 0 where
  message : MessageEvent → ChannelEvent
  member_joined : MemberEvent → ChannelEvent
  member_left : MemberEvent → ChannelEvent
  channel_closed : Text → Text → ChannelEvent

-- Clock readings are nanoseconds since the epoch; duration_cast drops the fraction.
abbrev pub to_epoch_ms : ℕ → ℕ
to_epoch_ms time_point = time_point / 1000000

abbrev pub value_or_empty : Result Text → Text
value_or_empty (ok name) = name
value_or_empty (err e) = []

unfoldable pub message_to_event : ClientRegistry → Message → ChannelEvent
message_to_event registry m = message (record {
  message_id = m.id;
  channel_id = m.channel_id;
  sender_id = m.sender_id;
  sender_name = value_or_empty (ClientRegistry.lookup_username m.sender_id registry);
  content = m.content;
  sent_at_ms = to_epoch_ms m.sent_at;
})

abbrev pub ClientPublisher : Type 0
ClientPublisher = Writers ChannelEvent

unfoldable pub register_subscriber : ClientId → ℕ → ClientPublisher → ClientPublisher
register_subscriber id writer p = Writers.register id writer p

unfoldable pub unregister_subscriber : ClientId → ClientPublisher → ClientPublisher
unregister_subscriber id p = Writers.unregister id p

unfoldable pub publish : ClientRegistry → ClientId → Message → ClientPublisher → ClientPublisher
publish registry recipient_id m p = elim (Map.find recipient_id p.writers) [
  | none ↦ p
  | some a ↦ Writers.write (message_to_event registry m) a p
]

module _ (lib : UuidLib) where
  -- entry && recipient_id.has_value() && recipients.contains(*recipient_id)
  abbrev pub is_recipient : IdSet → Text → Bool
  is_recipient recipients id = elim (parse lib id) [
    | none ↦ false
    | some recipient_id ↦ IdSet.contains recipient_id recipients
  ]

  unfoldable pub broadcast_member_joined :
      ChannelId → IdSet → ClientId → Text → ClientPublisher → ClientPublisher
  broadcast_member_joined channel_id recipients client_id username p =
      let event =
        member_joined
          (record { channel_id = channel_id; client_id = client_id; username = username }) in
      Writers.write_all event (Writers.targets (is_recipient recipients) p.writers) p

  unfoldable pub broadcast_member_left :
      ChannelId → IdSet → ClientId → Text → ClientPublisher → ClientPublisher
  broadcast_member_left channel_id recipients client_id username p =
      let event =
        member_left
          (record { channel_id = channel_id; client_id = client_id; username = username }) in
      Writers.write_all event (Writers.targets (is_recipient recipients) p.writers) p

-- The channel is not read: every subscriber gets the event.
unfoldable pub broadcast_event : ChannelId → ChannelEvent → ClientPublisher → ClientPublisher
broadcast_event channel_id event p =
    Writers.write_all event (Writers.targets (λ id. true) p.writers) p
