-- ===== src/Usecase/ExpireInactiveClients.antt =====
-- server/src/application/usecase/expire_inactive_clients.cpp: removes the clients whose last
-- heartbeat is before a deadline. Every error of the loops is logged at most, and the loops go on.
pub mod Effect
pub mod Sessions
use monash_fit1045_hd_projec.Base.{ℕ, suc, ◌+◌, List, [], ◌∷◌}
use monash_fit1045_hd_projec.Shared.Ids.{UuidLib, ChannelId}
use monash_fit1045_hd_projec.Domain.ClientSession.{ClientSession}
use monash_fit1045_hd_projec.Persistence.ClientRegistry
use monash_fit1045_hd_projec.Usecase.Ports.{Server, remove_client, unregister_subscriber}
use monash_fit1045_hd_projec.Usecase.RemoveMember.{remove_member_and_broadcast}

module _ (lib : UuidLib) where
  -- for (channel_id : session.joinedChannels()) removeMemberAndBroadcast(session, channel_id)
  unfoldable pub drop_memberships : ClientSession → List ChannelId → Server → Server
  drop_memberships session [] s = s
  drop_memberships session (channel_id ∷ rest) s =
      drop_memberships session rest (remove_member_and_broadcast lib session channel_id s).1

  -- The body of the outer loop.
  unfoldable pub expire : ClientSession → Server → Server
  expire session s =
      unregister_subscriber session.id
        (remove_client session.id (drop_memberships session session.joined_channels s)).1

  unfoldable pub expire_each : List ClientSession → Server → Server
  expire_each [] s = s
  expire_each (session ∷ rest) s = expire_each rest (expire session s)

  -- ++count for each session
  abbrev pub count : List ClientSession → ℕ
  count [] = 0
  count (session ∷ rest) = suc (count rest)

  unfoldable pub run : ℕ → Server → ℕ × Server
  unfolding expire_each expire drop_memberships
  run deadline s =
      let expired = ClientRegistry.collect_expired deadline s.clients in
      (count expired, expire_each expired s)
