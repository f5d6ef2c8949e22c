-- ===== src/Publisher/ChannelListPublisher.antt =====
-- server/src/adapter/grpc/channel_list_publisher.cpp: changes of the list of channels, to the
-- streams of those who follow it.
pub mod Follow
use monash_fit1045_hd_projec.Base.{ℕ, true, List, map, Text}
use monash_fit1045_hd_projec.Shared.Ids.{ChannelId, ClientId}
use monash_fit1045_hd_projec.Domain.Channel.{Channel, member_count}
use monash_fit1045_hd_projec.Persistence.ChannelRepository
use monash_fit1045_hd_projec.Persistence.ChannelRepository.{ChannelRepository}
use monash_fit1045_hd_projec.Publisher.Writers
use monash_fit1045_hd_projec.Publisher.Writers.{Writers}

-- Counts stay below 2 ^ 31, where the cast to int32 is the identity.
pub record ChannelSummary : Type 0 where
  pub id : Text
  pub name : Text
  pub member_count : ℕ

pub data ChannelListEvent : Type 0 where
  snapshot : List ChannelSummary → ChannelListEvent
  created : ChannelSummary → ChannelListEvent
  member_count_changed : Text → ℕ → ChannelListEvent

unfoldable pub populate_channel_summary : Channel → ChannelSummary
populate_channel_summary channel = record {
  id = channel.id;
  name = channel.name;
  member_count = member_count channel;
}

abbrev pub ChannelListPublisher : Type 0
ChannelListPublisher = Writers ChannelListEvent

-- The new entry is the one that `register` makes; it is armed, so the snapshot is written to it.
unfoldable pub register_subscriber_with_snapshot :
    ClientId → ℕ → ChannelRepository → ChannelListPublisher → ChannelListPublisher
register_subscriber_with_snapshot subscriber_id writer channels p =
    Writers.write (snapshot (map populate_channel_summary (ChannelRepository.list_all channels)))
      p.next_entry (Writers.register subscriber_id writer p)

unfoldable pub unregister_subscriber : ClientId → ChannelListPublisher → ChannelListPublisher
unregister_subscriber subscriber_id p = Writers.unregister subscriber_id p

unfoldable pub publish_channel_created : Channel → ChannelListPublisher → ChannelListPublisher
publish_channel_created channel p =
    Writers.write_all (created (populate_channel_summary channel))
      (Writers.targets (λ id. true) p.writers) p

unfoldable pub publish_member_count_changed :
    ChannelId → ℕ → ChannelListPublisher → ChannelListPublisher
publish_member_count_changed channel_id count p =
    Writers.write_all (member_count_changed channel_id count)
      (Writers.targets (λ id. true) p.writers) p
