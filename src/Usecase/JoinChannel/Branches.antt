-- ===== src/Usecase/JoinChannel/Branches.antt =====
-- server/src/application/usecase/join_channel.cpp: the two branches of what follows once the channel is
-- found, for a new member and for an old one.
use monash_fit1045_hd_projec.Base.{
  ◌≡◌, refl, [], ◌∷◌, true, false, not, ◌&&◌, arith, ◌==◌, eq_iff, select,
}
use monash_fit1045_hd_projec.Containers.IdSet
use monash_fit1045_hd_projec.Shared.Outcome.{ok}
use monash_fit1045_hd_projec.Shared.Ids.{UuidLib, ChannelId, ClientId}
use monash_fit1045_hd_projec.Domain.Channel
use monash_fit1045_hd_projec.Domain.Channel.{Channel, has_member}
use monash_fit1045_hd_projec.Domain.ClientSession.{ClientSession}
use monash_fit1045_hd_projec.Persistence.ChannelRepository
use monash_fit1045_hd_projec.Persistence.ChannelRepository.{is_member, is_member-save}
use monash_fit1045_hd_projec.Persistence.ClientRegistry
use monash_fit1045_hd_projec.Persistence.ClientRegistry.Memberships.{
  is_connected, join_channel_atomic_connected,
}
use monash_fit1045_hd_projec.Usecase.Ports.{Server, publish_count, broadcast_joined}
use monash_fit1045_hd_projec.Usecase.JoinChannel.{leave_other_channels, add_if_new, enter}

pub contains-others :
    (target j : ChannelId) (ks : IdSet.IdSet)
    → IdSet.contains j (select (λ joined. not (joined == target)) ks)
      ≡ (IdSet.contains j ks && not (j == target))
unfolding IdSet.contains
contains-others target j [] = refl
contains-others target j (k ∷ ks) =
    ground (arith, contains-others target j ks, eq_iff k target, eq_iff j target, eq_iff k j)

-- The registry after the client has joined.
abbrev pub with_joined : ClientId → ChannelId → Server → Server
with_joined client target t = record t {
  clients = (ClientRegistry.join_channel_atomic client target t.clients).1;
}

abbrev pub with_saved : Channel → Server → Server
with_saved channel t = record t { channels = (ChannelRepository.save channel t.channels).1 }

module _ (lib : UuidLib) (client : ClientId) (session : ClientSession) (channel : Channel)
    (target : ChannelId) where
  -- What the subscribers are told of a new member.
  abbrev pub told : Server → Server
  told s =
      let channel' = (Channel.add_member client channel).1 in
      publish_count channel'.id (Channel.member_count channel')
        (broadcast_joined lib channel'.id channel'.members client session.username s)

  pub enter_old :
      (s t : Server)
      → leave_other_channels lib session target s ≡ (ok tt, t)
      → is_connected t.clients client ≡ true
      → has_member client channel ≡ true
      → enter lib client session channel target s ≡ (ok tt, with_joined client target t)
  unfolding enter
  enter_old s t left online old =
      rw (left, enter)
        (rw (old, add_if_new)
          (rw (join_channel_atomic_connected client target t.clients online) refl))

  pub enter_new :
      (s t : Server)
      → leave_other_channels lib session target s ≡ (ok tt, t)
      → is_connected t.clients client ≡ true
      → has_member client channel ≡ false
      → enter lib client session channel target s ≡ (
        ok tt,
        told (with_joined client target (with_saved (Channel.add_member client channel).1 t)),
      )
  unfolding enter ChannelRepository.save
  enter_new s t left online new =
      rw (left, enter)
        (rw (new, add_if_new)
          (rw (Channel.add_member_new client channel new)
            (rw (join_channel_atomic_connected client target t.clients online) refl)))
