-- ===== src/Usecase/JoinChannel/Enter.antt =====
-- server/src/application/usecase/join_channel.cpp: what both methods do once the channel is
-- found.
use monash_fit1045_hd_projec.Base.{
  ◌≡◌, refl, ◌∙◌, inl, inr, true, not, ◌&&◌, some, List, arith, ◌==◌, eq_iff, eq_comm,
  if◌then◌else◌, Option-cases, Bool-cases,
}
use monash_fit1045_hd_projec.Containers.Map
use monash_fit1045_hd_projec.Shared.Outcome.{ok}
use monash_fit1045_hd_projec.Shared.Ids.{UuidLib, ChannelId, ClientId}
use monash_fit1045_hd_projec.Domain.Channel
use monash_fit1045_hd_projec.Domain.Channel.{Channel, has_member}
use monash_fit1045_hd_projec.Domain.ClientSession.{ClientSession, is_in_channel}
use monash_fit1045_hd_projec.Persistence.ChannelRepository
use monash_fit1045_hd_projec.Persistence.ChannelRepository.{is_member, is_member-save}
use monash_fit1045_hd_projec.Persistence.ChannelRepository.Invariant as Repository
use monash_fit1045_hd_projec.Persistence.ClientRegistry
use monash_fit1045_hd_projec.Persistence.ClientRegistry.Memberships.{
  has_joined, is_connected, has_joined-join_channel_atomic, is_connected-join_channel_atomic,
}
use monash_fit1045_hd_projec.Persistence.ClientRegistry.Invariant.{join_channel_atomic-IsConsistent}
use monash_fit1045_hd_projec.Usecase.Ports.{Server}
use monash_fit1045_hd_projec.Usecase.Membership.{Loses, IsSound, name_at, name_at-save}
use monash_fit1045_hd_projec.Usecase.JoinChannel.{leave_other_channels, other_channels, enter}
use monash_fit1045_hd_projec.Usecase.JoinChannel.LeaveOthers.{leave_each_lem, left_in}
use monash_fit1045_hd_projec.Usecase.JoinChannel.Branches.{
  contains-others, with_joined, with_saved, told, enter_old, enter_new,
}

-- The client is in the target channel and nowhere else; all else is as before.
pub record Enters (client : ClientId) (target : ChannelId) (s s' : Server) : Type 0 where
  pub sound : IsSound s'
  pub member :
      (k : ChannelId) (c : ClientId)
      → is_member s'.channels k c ≡ (if client == c then target == k else is_member s.channels k c)
  pub named : (k : ChannelId) → name_at s'.channels k ≡ name_at s.channels k
  pub connected : (c : ClientId) → is_connected s'.clients c ≡ is_connected s.clients c
  pub messages : s'.messages ≡ s.messages

module _ (lib : UuidLib) (client : ClientId) (session : ClientSession) (channel : Channel)
    (target : ChannelId) (s : Server) (v : IsSound s)
    (known : Map.find client s.clients.clients_by_id ≡ some session)
    (exists : Map.find target s.channels.channels_by_id ≡ some channel) where
  others : List ChannelId
  others = other_channels session target

  left : Server
  left = (leave_other_channels lib session target s).1

  left_lem :
      (leave_other_channels lib session target s ≡ (ok tt, left))
      × Loses (left_in session others) s left
  unfolding leave_other_channels left others
  left_lem =
      let (done, loses) =
        leave_each_lem lib session (other_channels session target) s v.repository v.registry in
      (ground (arith, done), loses)

  gone_lem :
      (k : ChannelId) (c : ClientId)
      → left_in session others k c
        ≡ ((client == c) && (has_joined s.clients client k && not (target == k)))
  unfolding others is_in_channel
  gone_lem k c = ground (
    arith,
    contains-others target k session.joined_channels,
    v.registry.keyed client session known,
    eq_comm target k,
  )

  member_left :
      (k : ChannelId) (c : ClientId)
      → is_member left.channels k c ≡ (
          if client == c
          then (target == k) && is_member s.channels k c
          else is_member s.channels k c)
  member_left k c =
      ground (arith, left_lem.1.member k c, gone_lem k c, v.agree k c, eq_iff client c)

  joined_left :
      (k : ChannelId) (c : ClientId)
      → has_joined left.clients c k ≡ (
          if client == c
          then (target == k) && has_joined s.clients c k
          else has_joined s.clients c k)
  joined_left k c = ground (arith, left_lem.1.joined k c, gone_lem k c, eq_iff client c)

  still_connected : is_connected left.clients client ≡ true
  still_connected = ground (arith, left_lem.1.connected client)

  joined_after :
      (k : ChannelId) (c : ClientId)
      → has_joined (ClientRegistry.join_channel_atomic client target left.clients).1 c k
        ≡ (if client == c then target == k else has_joined s.clients c k)
  joined_after k c = ground (
    arith,
    has_joined-join_channel_atomic client c target k left.clients,
    joined_left k c,
    still_connected,
    eq_iff client c,
  )

  named_left : (k : ChannelId) → name_at left.channels k ≡ name_at s.channels k
  named_left k = left_lem.1.named k

  -- Every server with the right stores is one that the client has entered.
  Enters-from :
      (t : Server)
      → Repository.IsConsistent t.channels
      → t.clients ≡ (ClientRegistry.join_channel_atomic client target left.clients).1
      → t.messages ≡ left.messages
      → ((k : ChannelId) → name_at t.channels k ≡ name_at left.channels k)
      → ((k : ChannelId) (c : ClientId)
          → is_member t.channels k c
            ≡ (if client == c then target == k else is_member left.channels k c))
      → Enters client target s t
  Enters-from t repository clients messages named member = record {
    sound = record {
      repository = repository;
      registry =
          rw clients
            (join_channel_atomic-IsConsistent left.clients left_lem.1.registry client target);
      agree = λ k c. ground (arith, member_after k c, joined k c, v.agree k c);
      single = λ c j k p q.
          ground (arith, joined j c, joined k c, v.single c j k, eq_iff target j, eq_iff target k);
    };
    member = member_after;
    named = λ k. named k ∙ named_left k;
    connected = λ c.
        rw clients
          (is_connected-join_channel_atomic client c target left.clients ∙ left_lem.1.connected c);
    messages = messages ∙ left_lem.1.messages;
  }
    where
      member_after :
          (k : ChannelId) (c : ClientId)
          → is_member t.channels k c
            ≡ (if client == c then target == k else is_member s.channels k c)
      member_after k c = ground (arith, member k c, member_left k c)

      joined :
          (k : ChannelId) (c : ClientId)
          → has_joined t.clients c k
            ≡ (if client == c then target == k else has_joined s.clients c k)
      joined k c = rw clients (joined_after k c)

  channel' : Channel
  channel' = (Channel.add_member client channel).1

  same_id : channel'.id ≡ target
  unfolding channel'
  same_id = Channel.id-add_member client channel ∙ v.repository.keyed target channel exists

  saved_IsConsistent : Repository.IsConsistent (ChannelRepository.save channel' left.channels).1
  unfolding channel'
  saved_IsConsistent = elim (Option-cases (Map.find target left.channels.channels_by_id)) [
    | inl missing ↦ absurd (ground (arith, named_left target))
    | inr (old, e) ↦
        Repository.save-IsConsistent left.channels left_lem.1.repository old channel'
          (ground (arith, same_id))
          (ground (arith, named_left target, Channel.name-add_member client channel))
          (Channel.add_member-IsDistinct client channel
            (v.repository.counted target channel exists))
  ]

  named_saved :
      (k : ChannelId)
      → name_at (ChannelRepository.save channel' left.channels).1 k ≡ name_at left.channels k
  unfolding channel'
  named_saved k = ground (
    arith,
    name_at-save channel' left.channels k,
    same_id,
    named_left target,
    eq_iff target k,
    Channel.name-add_member client channel,
  )

  member_saved :
      (k : ChannelId) (c : ClientId)
      → is_member (ChannelRepository.save channel' left.channels).1 k c
        ≡ (if client == c then target == k else is_member left.channels k c)
  unfolding channel'
  member_saved k c = ground (
    arith,
    is_member-save channel' left.channels k c,
    same_id,
    member_left k c,
    Channel.has_member-add_member client c channel,
    eq_iff target k,
    eq_iff client c,
  )

  new_Enters : Enters client target s (
      told lib client session channel target
        (with_joined client target (with_saved (Channel.add_member client channel).1 left)))
  unfolding channel'
  new_Enters = Enters-from _ saved_IsConsistent refl refl named_saved member_saved

  -- Entering a channel that exists succeeds, and moves the client there.
  pub enter-Enters :
      (enter lib client session channel target s).0 ≡ ok tt
      × Enters client target s (enter lib client session channel target s).1
  enter-Enters = elim (Bool-cases (has_member client channel)) [
    | inl old ↦
        rw (enter_old lib client session channel target s left left_lem.0 still_connected old) (
          refl,
          Enters-from _ left_lem.1.repository refl refl (λ k. refl)
              (λ k c. ground (
                arith,
                member_left k c,
                eq_iff target k,
                eq_iff client c,
                v.agree k c,
                v.single client target k,
                v.agree target client,
              )),
        )
    | inr new ↦
        rw (enter_new lib client session channel target s left left_lem.0 still_connected new)
          (refl, new_Enters)
  ]
