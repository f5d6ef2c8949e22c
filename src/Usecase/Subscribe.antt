-- ===== src/Usecase/Subscribe.antt =====
-- server/src/application/usecase/subscribe_to_channel.cpp and subscribe_to_channel_list.cpp.
use monash_fit1045_hd_projec.Base.{ℕ}
use monash_fit1045_hd_projec.Shared.Outcome.{Exec, ◌>>=◌, lift, modify, require, not_a_member}
use monash_fit1045_hd_projec.Shared.Ids.{ChannelId, ClientId}
use monash_fit1045_hd_projec.Domain.Channel.{has_member}
use monash_fit1045_hd_projec.Publisher.ChannelListPublisher
use monash_fit1045_hd_projec.Usecase.Ports.{Server, find_channel, find_client}

-- SubscribeToChannel::execute: a test of membership.
unfoldable pub subscribe_to_channel : ClientId → ChannelId → Exec Server (Unit {0})
subscribe_to_channel client_id channel_id = do
  channel ← find_channel channel_id
  lift (require (has_member client_id channel) not_a_member)

-- SubscribeToChannelList::execute
unfoldable pub subscribe_to_channel_list : ClientId → ℕ → Exec Server (Unit {0})
subscribe_to_channel_list subscriber_id writer = do
  client ← find_client subscriber_id
  modify (λ s. record s {
    channel_list =
        ChannelListPublisher.register_subscriber_with_snapshot subscriber_id writer s.channels
          s.channel_list;
  })
