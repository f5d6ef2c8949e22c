-- ===== src/Usecase/JoinChannel/LeaveOthers.antt =====
-- server/src/application/usecase/join_channel.cpp: leaveOtherChannels.
use monash_fit1045_hd_projec.Base.{
  ◌≡◌, refl, sym, ap, ◌∙◌, subst, [], ◌∷◌, Bool, ◌&&◌, ◌||◌, List, arith, ◌==◌,
}
use monash_fit1045_hd_projec.Containers.IdSet
use monash_fit1045_hd_projec.Shared.Outcome.{Result, ok, err, tolerate_all}
use monash_fit1045_hd_projec.Shared.Ids.{UuidLib, ChannelId, ClientId}
use monash_fit1045_hd_projec.Domain.Channel.{Channel}
use monash_fit1045_hd_projec.Domain.ClientSession.{ClientSession}
use monash_fit1045_hd_projec.Persistence.ChannelRepository
use monash_fit1045_hd_projec.Persistence.ClientRegistry
use monash_fit1045_hd_projec.Persistence.ClientRegistry.Memberships.{
  has_joined, is_connected, has_joined-leave_channel_atomic, is_connected-leave_channel_atomic,
  leave_channel_atomic_error,
}
use monash_fit1045_hd_projec.Persistence.ClientRegistry.Invariant.{
  leave_channel_atomic-IsConsistent,
}
use monash_fit1045_hd_projec.Persistence.ChannelRepository.Invariant as Repository
use monash_fit1045_hd_projec.Persistence.ClientRegistry.Invariant as Registry
use monash_fit1045_hd_projec.Usecase.Ports.{Server}
use monash_fit1045_hd_projec.Shared.Outcome.{is_race, is_client_not_found}
use monash_fit1045_hd_projec.Usecase.Membership.{Loses, Loses-trans}
use monash_fit1045_hd_projec.Usecase.RemoveMember.{
  remove_member_and_broadcast, TakesOut, remove_member_and_broadcast-TakesOut,
  remove_member_and_broadcast_race,
}
use monash_fit1045_hd_projec.Usecase.JoinChannel.{leave_other, leave_each, publish_found}

publish_found_frame :
    (k : ChannelId) (r : Result Channel) (s : Server)
    → ((publish_found k r s).channels ≡ s.channels)
      × ((publish_found k r s).clients ≡ s.clients)
      × ((publish_found k r s).messages ≡ s.messages)
publish_found_frame k (ok other) s = (refl, refl, refl)
publish_found_frame k (err e) s = (refl, refl, refl)

-- The memberships that the loop over the channels ends.
abbrev pub left_in : ClientSession → List ChannelId → ChannelId → ClientId → Bool
left_in session ks j c = IdSet.contains j ks && (session.id == c)

module _ (lib : UuidLib) (session : ClientSession) where
  -- The state after the loop's body.
  abbrev left_state : ChannelId → Server → Server
  left_state k s =
      let s₁ = (remove_member_and_broadcast lib session k s).1 in
      let s₂ = record s₁ {
        clients = (ClientRegistry.leave_channel_atomic session.id k s₁.clients).1;
      } in
      publish_found k (ChannelRepository.find_by_id k s₂.channels) s₂

  leave_other_lem :
      (k : ChannelId) (s : Server)
      → Repository.IsConsistent s.channels
      → leave_other lib session k s ≡ (ok tt, left_state k s)
  unfolding leave_other
  leave_other_lem k s w =
      let s₁ : Server = (remove_member_and_broadcast lib session k s).1 in
      rw
        (tolerate_all is_race (remove_member_and_broadcast lib session k s).0
          (remove_member_and_broadcast_race lib session k s w))
        (rw
          (tolerate_all is_client_not_found
            (ClientRegistry.leave_channel_atomic session.id k s₁.clients).0
            (leave_channel_atomic_error session.id k s₁.clients))
          refl)

  left_state-Loses :
      (k : ChannelId) (s : Server)
      → Repository.IsConsistent s.channels
      → Registry.IsConsistent s.clients
      → Loses (λ j c. (k == j) && (session.id == c)) s (left_state k s)
  left_state-Loses k s w v =
      let s₁ : Server = (remove_member_and_broadcast lib session k s).1 in
      let t : TakesOut session.id k s s₁ = remove_member_and_broadcast-TakesOut lib session k s w in
      let s₂ : Server = record s₁ {
        clients = (ClientRegistry.leave_channel_atomic session.id k s₁.clients).1;
      } in
      let (same_channels, same_clients, same_messages) =
        publish_found_frame k (ChannelRepository.find_by_id k s₂.channels) s₂ in
      let v₁ : Registry.IsConsistent s₁.clients = subst Registry.IsConsistent (sym t.clients) v in
      record {
        repository = rw same_channels t.repository;
        registry = rw same_clients (leave_channel_atomic-IsConsistent s₁.clients v₁ session.id k);
        member = λ j c. rw same_channels (t.member j c);
        joined = λ j c. rw same_clients (
            ground (
              arith,
              has_joined-leave_channel_atomic session.id c k j s₁.clients,
              ap (λ r. has_joined r c j) t.clients,
            ));
        named = λ j. rw same_channels (t.named j);
        connected = λ c. rw same_clients (
            is_connected-leave_channel_atomic session.id c k s₁.clients
            ∙ ap (λ r. is_connected r c) t.clients);
        messages = same_messages ∙ t.messages;
      }

  pub leave_each_lem :
      (ks : List ChannelId) (s : Server)
      → Repository.IsConsistent s.channels
      → Registry.IsConsistent s.clients
      → ((leave_each lib session ks s).0 ≡ ok tt)
        × Loses (left_in session ks) s (leave_each lib session ks s).1
  unfolding leave_each IdSet.contains
  leave_each_lem [] s w v = (
    refl,
    record {
      repository = w;
      registry = v;
      member = λ j c. refl;
      joined = λ j c. refl;
      named = λ j. refl;
      connected = λ c. refl;
      messages = refl;
    },
  )
  leave_each_lem (k ∷ ks) s w v =
      let first = left_state-Loses k s w v in
      let (done, rest) = leave_each_lem ks (left_state k s) first.repository first.registry in
      rw (leave_other_lem k s w) (done, regroup (Loses-trans _ _ _ _ _ first rest))
    where
      regroup :
          {t : Server}
          → Loses (λ j c. ((k == j) && (session.id == c)) || left_in session ks j c) s t
          → Loses (left_in session (k ∷ ks)) s t
      regroup {t} l = record {
        repository = l.repository;
        registry = l.registry;
        member = λ j c. ground (arith, l.member j c);
        joined = λ j c. ground (arith, l.joined j c);
        named = l.named;
        connected = l.connected;
        messages = l.messages;
      }
