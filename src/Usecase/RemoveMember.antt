-- ===== src/Usecase/RemoveMember.antt =====
-- server/src/application/usecase/internal/remove_member_broadcast.cpp: takes a client out of a
-- channel and tells the members that are left.
use monash_fit1045_hd_projec.Base.{
  ◌≡◌, refl, sym, ◌∙◌, inl, inr, true, false, ◌&&◌, none, some, arith, ◌==◌, eq_iff, eq_refl, subst,
  if◌then◌else◌, Option-cases, Bool-cases,
}
use monash_fit1045_hd_projec.Containers.Map
use monash_fit1045_hd_projec.Shared.Outcome.{
  Error, ok, err, Exec, ◌>>=◌, ◌>>◌, lift, modify, not_a_member, channel_not_found,
}
use monash_fit1045_hd_projec.Shared.Ids.{UuidLib, ChannelId, ClientId}
use monash_fit1045_hd_projec.Domain.Channel
use monash_fit1045_hd_projec.Domain.Channel.{Channel, has_member}
use monash_fit1045_hd_projec.Domain.ClientSession.{ClientSession}
use monash_fit1045_hd_projec.Persistence.ChannelRepository
use monash_fit1045_hd_projec.Persistence.ChannelRepository.{
  ChannelRepository, is_member, has_channel, is_member-save, has_channel-save,
}
use monash_fit1045_hd_projec.Persistence.ChannelRepository.Invariant.{
  IsConsistent, save-IsConsistent,
}
use monash_fit1045_hd_projec.Usecase.Ports.{Server, find_channel, save_channel, broadcast_left}
use monash_fit1045_hd_projec.Shared.Outcome.{is_race}
use monash_fit1045_hd_projec.Usecase.Membership.{name_at, name_at-save}

module _ (lib : UuidLib) where
  unfoldable pub remove_member_and_broadcast : ClientSession → ChannelId → Exec Server (Unit {0})
  remove_member_and_broadcast session channel_id = do
    channel ← find_channel channel_id
    let (removed, channel') = Channel.remove_member session.id channel
    lift removed
    save_channel channel'
    modify (broadcast_left lib channel_id channel'.members session.id session.username)

  -- The state after a member was taken out.
  abbrev pub without_member : ClientSession → ChannelId → Channel → Server → Server
  without_member session k channel s =
      let channel' = (Channel.remove_member session.id channel).1 in
      broadcast_left lib k channel'.members session.id session.username
        (record s { channels = (ChannelRepository.save channel' s.channels).1 })

  -- The three ways in which the call ends; the first two change nothing.
  pub data Outcome (session : ClientSession) (k : ChannelId) (s : Server) : Type 0 where
    missing :
        Map.find k s.channels.channels_by_id ≡ none
        → remove_member_and_broadcast session k s ≡ (err channel_not_found, s)
        → Outcome session k s
    stranger :
        (channel : Channel)
        → Map.find k s.channels.channels_by_id ≡ some channel
        → has_member session.id channel ≡ false
        → remove_member_and_broadcast session k s ≡ (err not_a_member, s)
        → Outcome session k s
    taken_out :
        (channel : Channel)
        → Map.find k s.channels.channels_by_id ≡ some channel
        → has_member session.id channel ≡ true
        → remove_member_and_broadcast session k s ≡ (ok tt, without_member session k channel s)
        → Outcome session k s

  pub outcome : (session : ClientSession) (k : ChannelId) (s : Server) → Outcome session k s
  unfolding remove_member_and_broadcast ChannelRepository.find_by_id ChannelRepository.save
  outcome session k s = elim (Option-cases (Map.find k s.channels.channels_by_id)) [
    | inl e ↦ missing e (rw (e, remove_member_and_broadcast) refl)
    | inr (channel, e) ↦ elim (Bool-cases (has_member session.id channel)) [
      | inr other ↦ stranger channel e other (
          rw (e, remove_member_and_broadcast)
            (rw (Channel.remove_member_missing session.id channel other) refl))
      | inl member ↦ taken_out channel e member (
          rw (e, remove_member_and_broadcast)
            (rw (Channel.remove_member_old session.id channel member) refl))
    ]
  ]

-- Taking a member out of the repository; the registry, the messages and the list are left alone.
pub record TakesOut (id : ClientId) (k : ChannelId) (s s' : Server) : Type 0 where
  pub repository : IsConsistent s'.channels
  pub member :
      (j : ChannelId) (c : ClientId)
      → is_member s'.channels j c
        ≡ (if (k == j) && (id == c) then false else is_member s.channels j c)
  pub named : (j : ChannelId) → name_at s'.channels j ≡ name_at s.channels j
  pub clients : s'.clients ≡ s.clients
  pub messages : s'.messages ≡ s.messages
  pub channel_list : s'.channel_list ≡ s.channel_list

module _ (lib : UuidLib) (session : ClientSession) (k : ChannelId) (s : Server)
    (w : IsConsistent s.channels) where
  TakesOut-refl :
      ((c : ClientId) → session.id ≡ c → is_member s.channels k c ≡ false)
      → TakesOut session.id k s s
  TakesOut-refl none_there = record {
    repository = w;
    member = λ j c. ground (arith, eq_iff k j, eq_iff session.id c, none_there c);
    named = λ j. refl;
    clients = refl;
    messages = refl;
    channel_list = refl;
  }

  taken_out-TakesOut :
      (channel : Channel)
      → Map.find k s.channels.channels_by_id ≡ some channel
      → TakesOut session.id k s (without_member lib session k channel s)
  taken_out-TakesOut channel e =
      let channel' : Channel = (Channel.remove_member session.id channel).1 in
      let same : channel'.id ≡ k =
        Channel.id-remove_member session.id channel ∙ w.keyed k channel e in
      record {
        repository =
            save-IsConsistent s.channels w channel channel' (ground arith)
              (sym (Channel.name-remove_member session.id channel))
              (Channel.remove_member-IsDistinct session.id channel (w.counted k channel e));
        member = λ j c. ground (
          arith,
          is_member-save channel' s.channels j c,
          eq_iff k j,
          Channel.has_member-remove_member session.id c channel,
        );
        named = λ j. ground (
          arith,
          name_at-save channel' s.channels j,
          eq_iff k j,
          Channel.name-remove_member session.id channel,
        );
        clients = refl;
        messages = refl;
        channel_list = refl;
      }

  pub find-without_member :
      (channel : Channel)
      → Map.find k s.channels.channels_by_id ≡ some channel
      → Map.find k (without_member lib session k channel s).channels.channels_by_id
        ≡ some (Channel.remove_member session.id channel).1
  unfolding ChannelRepository.save
  find-without_member channel e =
      let channel' : Channel = (Channel.remove_member session.id channel).1 in
      ground (
        arith,
        Map.find-insert_or_assign channel'.id k channel' s.channels.channels_by_id,
        Channel.id-remove_member session.id channel,
        w.keyed k channel e,
        eq_refl k,
      )

  pub is_taken_out :
      (channel : Channel)
      → Map.find k s.channels.channels_by_id ≡ some channel
      → has_member session.id channel ≡ true
      → remove_member_and_broadcast lib session k s
        ≡ (ok tt, without_member lib session k channel s)
  is_taken_out channel e member = elim (outcome lib session k s) [
    | missing x p ↦ absurd (ground arith)
    | stranger other x no_member p ↦ absurd (ground arith)
    | taken_out other x yes_member p ↦
        let same : other ≡ channel = ground arith in
        subst
          (λ c.
            remove_member_and_broadcast lib session k s ≡ (ok tt, without_member lib session k c s))
          same p
  ]

  -- If the channel repository is consistent, then however the call ends, the client is afterwards
  -- no member of the channel, nobody else's membership has changed, and the repository is
  -- consistent.
  pub remove_member_and_broadcast-TakesOut :
      TakesOut session.id k s (remove_member_and_broadcast lib session k s).1
  remove_member_and_broadcast-TakesOut = elim (outcome lib session k s) [
    | missing e p ↦ rw p (TakesOut-refl (λ c same. ground arith))
    | stranger channel e other p ↦ rw p (TakesOut-refl (λ c same. ground arith))
    | taken_out channel e member p ↦ rw p (taken_out-TakesOut channel e)
  ]

  -- The call fails only because the client is no member, or the channel does not exist.
  pub remove_member_and_broadcast_race :
      (e : Error) → (remove_member_and_broadcast lib session k s).0 ≡ err e → is_race e ≡ true
  remove_member_and_broadcast_race e h = elim (outcome lib session k s) [
    | missing x p ↦ ground (arith, p)
    | stranger channel x other p ↦ ground (arith, p)
    | taken_out channel x member p ↦ ground (arith, p)
  ]
