-- ===== src/Usecase/CreateChannel.antt =====
-- server/src/application/usecase/create_channel.cpp: a connected client makes a channel. `drawn` and
-- `now` are what ChannelId::generate and the system clock return.
pub mod Effect
use monash_fit1045_hd_projec.Base.{ℕ, Text}
use monash_fit1045_hd_projec.Shared.Outcome.{
  Exec, ◌>>=◌, ◌>>◌, pure, lift, modify, or_fail, invalid_channel_name, continue, ok, err,
}
use monash_fit1045_hd_projec.Shared.StringUtils.{trim}
use monash_fit1045_hd_projec.Shared.Ids.{ChannelId, ClientId}
use monash_fit1045_hd_projec.Domain.ChannelName
use monash_fit1045_hd_projec.Domain.Channel.{Channel}
use monash_fit1045_hd_projec.Usecase.Ports.{Server, find_client, create_channel, publish_created}

unfoldable pub execute : ClientId → Text → ChannelId → ℕ → Exec Server ChannelId
execute client_id channel_name drawn now = do
  session ← find_client client_id
  validated_name ← lift (or_fail (ChannelName.create (trim channel_name)) invalid_channel_name)
  created ← create_channel validated_name drawn now
  modify (publish_created created)
  pure created.id
