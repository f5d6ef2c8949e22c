-- ===== src/Usecase/LeaveChannel/Effect.antt =====
-- server/src/application/usecase/leave_channel.cpp: the memberships after the call.
use monash_fit1045_hd_projec.Base.{
  ℕ, ◌≡◌, refl, subst, inl, inr, Bool, true, false, ◌&&◌, some, arith, ◌==◌, eq_iff, if◌then◌else◌,
  Option-cases, Bool-cases,
}
use monash_fit1045_hd_projec.Containers.Map
use monash_fit1045_hd_projec.Shared.Outcome.{
  ok, err, client_not_found, channel_not_found, not_a_member, tolerate_all,
}
use monash_fit1045_hd_projec.Shared.Ids.{UuidLib, ChannelId, ClientId}
use monash_fit1045_hd_projec.Domain.Channel
use monash_fit1045_hd_projec.Domain.Channel.{Channel, has_member}
use monash_fit1045_hd_projec.Domain.ClientSession.{ClientSession}
use monash_fit1045_hd_projec.Persistence.ChannelRepository
use monash_fit1045_hd_projec.Persistence.ChannelRepository.{is_member, has_channel}
use monash_fit1045_hd_projec.Persistence.ClientRegistry
use monash_fit1045_hd_projec.Persistence.ClientRegistry.Memberships.{
  is_connected, has_joined-leave_channel_atomic, is_connected-leave_channel_atomic,
  leave_channel_atomic_error,
}
use monash_fit1045_hd_projec.Persistence.ClientRegistry.Invariant.{
  leave_channel_atomic-IsConsistent,
}
use monash_fit1045_hd_projec.Usecase.Ports.{Server, publish_count}
use monash_fit1045_hd_projec.Shared.Outcome.{is_client_not_found}
use monash_fit1045_hd_projec.Usecase.Membership.{Loses, IsSound}
use monash_fit1045_hd_projec.Usecase.RemoveMember.{
  TakesOut, remove_member_and_broadcast-TakesOut, without_member, find-without_member, is_taken_out,
  outcome, missing, stranger, taken_out,
}
use monash_fit1045_hd_projec.Usecase.LeaveChannel.{execute}

publish_count-Loses :
    {gone : ChannelId → ClientId → Bool} {s : Server} (t : Server) (n : ℕ) (k : ChannelId)
    → Loses gone s t
    → Loses gone s (publish_count k n t)
publish_count-Loses t n k l = record {
  repository = l.repository;
  registry = l.registry;
  member = l.member;
  joined = l.joined;
  named = l.named;
  connected = l.connected;
  messages = l.messages;
}

module _ (lib : UuidLib) (client : ClientId) (k : ChannelId) (s : Server) (v : IsSound s) where
  -- The stores after a member has left.
  abbrev left_state : ClientSession → Channel → Server
  left_state session channel =
      let s₁ = without_member lib session k channel s in
      record s₁ { clients = (ClientRegistry.leave_channel_atomic client k s₁.clients).1 }

  execute_member :
      (session : ClientSession) (channel : Channel)
      → Map.find client s.clients.clients_by_id ≡ some session
      → Map.find k s.channels.channels_by_id ≡ some channel
      → has_member session.id channel ≡ true
      → execute lib client k s ≡ (
        ok tt,
        publish_count k
            (Channel.member_count (Channel.remove_member session.id channel).1)
            (left_state session channel),
      )
  unfolding execute ClientRegistry.find_by_id ChannelRepository.find_by_id
  execute_member session channel known exists member =
      rw (known, execute)
        (rw (is_taken_out lib session k s v.repository channel exists member) (
          rw
            (tolerate_all is_client_not_found
              (ClientRegistry.leave_channel_atomic client k s.clients).0
              (leave_channel_atomic_error client k s.clients))
            (rw (find-without_member lib session k s v.repository channel exists) refl)))

  left_state-Loses :
      (session : ClientSession) (channel : Channel)
      → Map.find client s.clients.clients_by_id ≡ some session
      → TakesOut session.id k s (without_member lib session k channel s)
      → Loses (λ j c. (k == j) && (client == c)) s (left_state session channel)
  left_state-Loses session channel known t = record {
    repository = t.repository;
    registry = leave_channel_atomic-IsConsistent s.clients v.registry client k;
    member = λ j c. ground (arith, t.member j c, v.registry.keyed client session known);
    joined = λ j c. ground (arith, has_joined-leave_channel_atomic client c k j s.clients);
    named = t.named;
    connected = λ c. is_connected-leave_channel_atomic client c k s.clients;
    messages = refl;
  }

  -- In a sound server, a member that leaves a channel is told so, and exactly that membership is
  -- ended, in both stores; connections, names and messages are as before.
  pub execute-Loses :
      is_member s.channels k client ≡ true
      → ((execute lib client k s).0 ≡ ok tt)
        × Loses (λ j c. (k == j) && (client == c)) s (execute lib client k s).1
  execute-Loses member = elim (Option-cases (Map.find client s.clients.clients_by_id)) [
    | inl offline ↦ absurd (ground (arith, v.agree k client))
    | inr (session, known) ↦ elim (Option-cases (Map.find k s.channels.channels_by_id)) [
      | inl no_channel ↦ absurd (ground arith)
      | inr (channel, exists) ↦
          let there : has_member session.id channel ≡ true =
            ground (arith, v.registry.keyed client session known) in
          let t = remove_member_and_broadcast-TakesOut lib session k s v.repository in
          let t' =
            subst (λ p. TakesOut session.id k s p.1)
              (is_taken_out lib session k s v.repository channel exists there) t in
          rw (execute_member session channel known exists there) (
            refl,
            publish_count-Loses (left_state session channel) _ k
                (left_state-Loses session channel known t'),
          )
    ]
  ]

  -- In a sound server, a client that leaves a channel of which it is no member changes nothing.
  -- The error tells the first reason that applies: the client is not connected, there is no such
  -- channel, the client is no member of it.
  pub leave_refused :
      is_member s.channels k client ≡ false
      → execute lib client k s ≡ (
        err (
            if is_connected s.clients client
            then (if has_channel s.channels k then not_a_member else channel_not_found)
            else client_not_found),
        s,
      )
  unfolding execute ClientRegistry.find_by_id
  leave_refused stranger_there = elim (Option-cases (Map.find client s.clients.clients_by_id)) [
    | inl offline ↦ rw (offline, execute) refl
    | inr (session, known) ↦ elim (outcome lib session k s) [
      | missing x p ↦ rw (known, execute) (rw p (rw x refl))
      | stranger channel x other p ↦ rw (known, execute) (rw p (rw x refl))
      | taken_out channel x member p ↦
          absurd (ground (arith, v.registry.keyed client session known))
    ]
  ]

  -- However the call ends, the client is in the channel no more, and the server is sound.
  pub execute_any-Loses : Loses (λ j c. (k == j) && (client == c)) s (execute lib client k s).1
  execute_any-Loses = elim (Bool-cases (is_member s.channels k client)) [
    | inl member ↦ (execute-Loses member).1
    | inr other ↦ rw (leave_refused other) (record {
      repository = v.repository;
      registry = v.registry;
      member = λ j c. ground (arith, eq_iff k j, eq_iff client c);
      joined = λ j c. ground (arith, eq_iff k j, eq_iff client c, v.agree k client);
      named = λ j. refl;
      connected = λ c. refl;
      messages = refl;
    })
  ]
