-- ===== src/Domain/ClientSession.antt =====
-- server/src/domain/model/client_session.cpp and its header: a connected client.
use monash_fit1045_hd_projec.Base.{ℕ, ◌≡◌, [], Bool, ◌||◌, Text, ltb, ◌==◌, if◌then◌else◌, false}
use monash_fit1045_hd_projec.Containers.IdSet
use monash_fit1045_hd_projec.Containers.IdSet.{IdSet}
use monash_fit1045_hd_projec.Shared.Ids.{ChannelId, ClientId}

pub record ClientSession : Type 0 where
  pub id : ClientId
  pub username : Text
  pub joined_channels : IdSet
  pub connected_since : ℕ
  pub last_heartbeat_at : ℕ

-- The constructor; the two readings are those of the system clock and of the steady clock.
unfoldable pub create : ClientId → Text → ℕ → ℕ → ClientSession
create id username system_now steady_now = record {
  id = id;
  username = username;
  joined_channels = [];
  connected_since = system_now;
  last_heartbeat_at = steady_now;
}

unfoldable pub touch : ℕ → ClientSession → ClientSession
touch steady_now s = record s { last_heartbeat_at = steady_now }

unfoldable pub is_expired : ℕ → ClientSession → Bool
is_expired deadline s = ltb s.last_heartbeat_at deadline

unfoldable pub join_channel : ChannelId → ClientSession → ClientSession
join_channel channel_id s = record s {
  joined_channels = (IdSet.insert channel_id s.joined_channels).0;
}

unfoldable pub leave_channel : ChannelId → ClientSession → ClientSession
leave_channel channel_id s = record s {
  joined_channels = (IdSet.erase channel_id s.joined_channels).0;
}

unfoldable pub is_in_channel : ChannelId → ClientSession → Bool
is_in_channel channel_id s = IdSet.contains channel_id s.joined_channels

pub is_in_channel-join_channel :
    (k j : ChannelId) (s : ClientSession)
    → is_in_channel j (join_channel k s) ≡ ((k == j) || is_in_channel j s)
unfolding is_in_channel join_channel
is_in_channel-join_channel k j s = IdSet.contains-insert k j s.joined_channels

pub is_in_channel-leave_channel :
    (k j : ChannelId) (s : ClientSession)
    → is_in_channel j (leave_channel k s) ≡ (if k == j then false else is_in_channel j s)
unfolding is_in_channel leave_channel
is_in_channel-leave_channel k j s = IdSet.contains-erase k j s.joined_channels
