-- ===== src/Usecase/Ports.antt =====
-- The state that the use cases share, and their calls through the ports
-- (server/include/bcmd/server/application/port). Each port call is one step on one component.
use monash_fit1045_hd_projec.Base.{ℕ, Text}
use monash_fit1045_hd_projec.Containers.IdSet.{IdSet}
use monash_fit1045_hd_projec.Shared.Outcome.{Result, ok, Exec}
use monash_fit1045_hd_projec.Shared.Ids.{UuidLib, ChannelId, ClientId}
use monash_fit1045_hd_projec.Domain.Channel.{Channel}
use monash_fit1045_hd_projec.Domain.ClientSession.{ClientSession}
use monash_fit1045_hd_projec.Domain.Message.{Message}
use monash_fit1045_hd_projec.Persistence.ChannelRepository
use monash_fit1045_hd_projec.Persistence.ChannelRepository.{ChannelRepository}
use monash_fit1045_hd_projec.Persistence.ClientRegistry
use monash_fit1045_hd_projec.Persistence.ClientRegistry.{ClientRegistry}
use monash_fit1045_hd_projec.Persistence.MessageRepository
use monash_fit1045_hd_projec.Persistence.MessageRepository.{MessageRepository}
use monash_fit1045_hd_projec.Publisher.ClientPublisher
use monash_fit1045_hd_projec.Publisher.ClientPublisher.{ClientPublisher}
use monash_fit1045_hd_projec.Publisher.ChannelListPublisher
use monash_fit1045_hd_projec.Publisher.ChannelListPublisher.{ChannelListPublisher}

pub record Server : Type 0 where
  pub channels : ChannelRepository
  pub clients : ClientRegistry
  pub messages : MessageRepository
  pub publisher : ClientPublisher
  pub channel_list : ChannelListPublisher

abbrev pub with_channels : {A : Type 0} → Server → A × ChannelRepository → A × Server
with_channels s p = (p.0, record s { channels = p.1 })

abbrev pub with_clients : {A : Type 0} → Server → A × ClientRegistry → A × Server
with_clients s p = (p.0, record s { clients = p.1 })

abbrev pub with_messages : {A : Type 0} → Server → A × MessageRepository → A × Server
with_messages s p = (p.0, record s { messages = p.1 })

-- A call whose Result is looked at, not returned at once.
abbrev pub attempt : {S A : Type 0} → Exec S A → Exec S (Result A)
attempt m s = let (r, s') = m s in (ok r, s')

abbrev pub find_channel : ChannelId → Exec Server Channel
find_channel k s = (ChannelRepository.find_by_id k s.channels, s)

abbrev pub find_channel_by_name : Text → Exec Server Channel
find_channel_by_name name s = (ChannelRepository.find_by_name name s.channels, s)

abbrev pub save_channel : Channel → Exec Server (Unit {0})
save_channel channel s = with_channels s (ChannelRepository.save channel s.channels)

abbrev pub create_channel : Text → ChannelId → ℕ → Exec Server Channel
create_channel name drawn now s =
    with_channels s (ChannelRepository.create name drawn now s.channels)

abbrev pub find_client : ClientId → Exec Server ClientSession
find_client c s = (ClientRegistry.find_by_id c s.clients, s)

abbrev pub register_client : Text → ClientId → ℕ → ℕ → Exec Server ClientSession
register_client name drawn system_now steady_now s =
    with_clients s (ClientRegistry.register_client name drawn system_now steady_now s.clients)

abbrev pub remove_client : ClientId → Exec Server (Unit {0})
remove_client c s = with_clients s (ClientRegistry.remove c s.clients)

abbrev pub touch_heartbeat : ClientId → ℕ → Exec Server (Unit {0})
touch_heartbeat c now s = with_clients s (ClientRegistry.touch_heartbeat c now s.clients)

abbrev pub join_channel_atomic : ClientId → ChannelId → Exec Server (Unit {0})
join_channel_atomic c k s = with_clients s (ClientRegistry.join_channel_atomic c k s.clients)

abbrev pub leave_channel_atomic : ClientId → ChannelId → Exec Server (Unit {0})
leave_channel_atomic c k s = with_clients s (ClientRegistry.leave_channel_atomic c k s.clients)

abbrev pub save_message : Message → Exec Server (Unit {0})
save_message m s = with_messages s (MessageRepository.save m s.messages)

abbrev pub publish_count : ChannelId → ℕ → Server → Server
publish_count k n s = record s {
  channel_list = ChannelListPublisher.publish_member_count_changed k n s.channel_list;
}

abbrev pub publish_created : Channel → Server → Server
publish_created channel s = record s {
  channel_list = ChannelListPublisher.publish_channel_created channel s.channel_list;
}

abbrev pub publish_message : ClientId → Message → Server → Server
publish_message c m s = record s { publisher = ClientPublisher.publish s.clients c m s.publisher }

abbrev pub unregister_subscriber : ClientId → Server → Server
unregister_subscriber c s = record s {
  publisher = ClientPublisher.unregister_subscriber c s.publisher;
}

module _ (lib : UuidLib) where
  abbrev pub broadcast_joined : ChannelId → IdSet → ClientId → Text → Server → Server
  broadcast_joined k recipients c username s = record s {
    publisher = ClientPublisher.broadcast_member_joined lib k recipients c username s.publisher;
  }

  abbrev pub broadcast_left : ChannelId → IdSet → ClientId → Text → Server → Server
  broadcast_left k recipients c username s = record s {
    publisher = ClientPublisher.broadcast_member_left lib k recipients c username s.publisher;
  }
