-- ===== src/Usecase/LeaveChannel.antt =====
-- server/src/application/usecase/leave_channel.cpp: a client leaves a channel.
pub mod Effect
use monash_fit1045_hd_projec.Shared.Outcome.{
  Exec, ◌>>=◌, ◌>>◌, lift, modify, tolerate, continue, ok, err,
}
use monash_fit1045_hd_projec.Shared.Ids.{UuidLib, ChannelId, ClientId}
use monash_fit1045_hd_projec.Domain.Channel.{member_count}
use monash_fit1045_hd_projec.Usecase.Ports.{
  Server, attempt, find_channel, find_client, leave_channel_atomic, publish_count,
}
use monash_fit1045_hd_projec.Shared.Outcome.{is_client_not_found}
use monash_fit1045_hd_projec.Usecase.RemoveMember.{remove_member_and_broadcast}

module _ (lib : UuidLib) where
  unfoldable pub execute : ClientId → ChannelId → Exec Server (Unit {0})
  execute client_id channel_id = do
    session ← find_client client_id
    remove_member_and_broadcast lib session channel_id
    left ← attempt (leave_channel_atomic client_id channel_id)
    lift (tolerate is_client_not_found left)
    channel ← find_channel channel_id
    modify (publish_count channel_id (member_count channel))
