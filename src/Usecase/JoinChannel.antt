-- ===== src/Usecase/JoinChannel.antt =====
-- server/src/application/usecase/join_channel.cpp: a client enters a channel, and leaves any other.
pub mod LeaveOthers
pub mod Branches
pub mod Enter
pub mod Effect
pub mod Race
use monash_fit1045_hd_projec.Base.{
  ◌≡◌, [], ◌∷◌, Bool, true, false, not, Option, none, some, List, Text, ◌==◌, if◌then◌else◌, select,
}
use monash_fit1045_hd_projec.Shared.Outcome.{
  Error, Result, VoidResult, ok, err, Exec, ◌>>=◌, ◌>>◌, pure, lift, modify, or_fail, tolerate,
  invalid_channel_name,
}
use monash_fit1045_hd_projec.Shared.StringUtils.{trim}
use monash_fit1045_hd_projec.Shared.Ids.{UuidLib, ChannelId, ClientId}
use monash_fit1045_hd_projec.Domain.ChannelName
use monash_fit1045_hd_projec.Domain.Channel
use monash_fit1045_hd_projec.Domain.Channel.{Channel, has_member, member_count}
use monash_fit1045_hd_projec.Domain.ClientSession.{ClientSession}
use monash_fit1045_hd_projec.Usecase.Ports.{
  Server, attempt, find_channel, find_channel_by_name, save_channel, find_client,
  join_channel_atomic, leave_channel_atomic, publish_count, broadcast_joined,
}
use monash_fit1045_hd_projec.Shared.Outcome.{is_race, is_client_not_found}
use monash_fit1045_hd_projec.Usecase.RemoveMember.{remove_member_and_broadcast}

-- if (auto other = findById(id); other.has_value()) publishMemberCountChanged(id, memberCount)
abbrev pub publish_found : ChannelId → Result Channel → Server → Server
publish_found k (ok other) s = publish_count k (member_count other) s
publish_found k (err e) s = s

-- The channels that the session has joined, without the target.
abbrev pub other_channels : ClientSession → ChannelId → List ChannelId
other_channels session target = select (λ joined. not (joined == target)) session.joined_channels

-- if (!was_already_member) { add the client; save the channel }
unfoldable pub add_if_new : Bool → ClientId → Channel → Exec Server Channel
add_if_new true client_id channel = pure channel
add_if_new false client_id channel = do
  let (added, channel') = Channel.add_member client_id channel
  lift added
  save_channel channel'
  pure channel'

module _ (lib : UuidLib) where
  -- The body of the loop of leaveOtherChannels.
  unfoldable pub leave_other : ClientSession → ChannelId → Exec Server (Unit {0})
  leave_other session other_channel_id = do
    removed ← attempt (remove_member_and_broadcast lib session other_channel_id)
    lift (tolerate is_race removed)
    left ← attempt (leave_channel_atomic session.id other_channel_id)
    lift (tolerate is_client_not_found left)
    other ← attempt (find_channel other_channel_id)
    modify (publish_found other_channel_id other)

  unfoldable pub leave_each : ClientSession → List ChannelId → Exec Server (Unit {0})
  leave_each session [] = pure tt
  leave_each session (other ∷ rest) = do leave_other session other; leave_each session rest

  unfoldable pub leave_other_channels : ClientSession → ChannelId → Exec Server (Unit {0})
  unfolding leave_each leave_other
  leave_other_channels session target = leave_each session (other_channels session target)

  -- What both methods do once the channel is found: leave the others, add the member, tell.
  unfoldable pub enter : ClientId → ClientSession → Channel → ChannelId → Exec Server (Unit {0})
  unfolding add_if_new
  enter client_id session channel target = do
    leave_other_channels session target
    let was_already_member = has_member client_id channel
    channel' ← add_if_new was_already_member client_id channel
    join_channel_atomic client_id target
    modify (λ s.
        if was_already_member
        then s
        else publish_count channel'.id (member_count channel')
            (broadcast_joined lib channel'.id channel'.members client_id session.username s))

  unfoldable pub execute : ClientId → ChannelId → Exec Server (Unit {0})
  execute client_id channel_id = do
    session ← find_client client_id
    channel ← find_channel channel_id
    enter client_id session channel channel_id

  unfoldable pub execute_by_name : ClientId → Text → Exec Server ChannelId
  execute_by_name client_id channel_name = do
    session ← find_client client_id
    validated_name ← lift (or_fail (ChannelName.create (trim channel_name)) invalid_channel_name)
    channel ← find_channel_by_name validated_name
    enter client_id session channel channel.id
    pure channel.id
