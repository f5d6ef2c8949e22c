-- ===== src/Usecase/ExpireInactiveClients/Effect.antt =====
-- server/src/application/usecase/expire_inactive_clients.cpp: clients and memberships after a
-- sweep.
use mathlib.Core.Path.{fun_ext}
use monash_fit1045_hd_projec.Base.{
  ℕ, ◌≡◌, refl, sym, ap, ◌∙◌, subst, [], ◌∷◌, List, All, true, false, ◌&&◌, arith, ◌==◌, eq_iff,
  if◌then◌else◌, Bool-cases,
}
use monash_fit1045_hd_projec.Containers.IdSet
use monash_fit1045_hd_projec.Containers.Map.{All-select-values}
use monash_fit1045_hd_projec.Shared.Ids.{UuidLib, ChannelId, ClientId}
use monash_fit1045_hd_projec.Domain.ClientSession.{ClientSession, is_expired, is_in_channel}
use monash_fit1045_hd_projec.Persistence.ChannelRepository.{is_member}
use monash_fit1045_hd_projec.Persistence.ChannelRepository.Invariant as Repository
use monash_fit1045_hd_projec.Persistence.ClientRegistry
use monash_fit1045_hd_projec.Persistence.ClientRegistry.Memberships.{
  has_joined, is_connected, has_joined-remove, is_connected-remove,
}
use monash_fit1045_hd_projec.Persistence.ClientRegistry.Invariant as Registry
use monash_fit1045_hd_projec.Persistence.ClientRegistry.Invariant.{remove-IsConsistent}
use monash_fit1045_hd_projec.Persistence.ClientRegistry.Expiry.{
  mentions, has_expired, mentions-collect_expired,
}
use monash_fit1045_hd_projec.Usecase.Ports.{Server}
use monash_fit1045_hd_projec.Usecase.Membership.{Removes, IsSound, name_at}
use monash_fit1045_hd_projec.Usecase.RemoveMember.{
  remove_member_and_broadcast, remove_member_and_broadcast-TakesOut,
}
use monash_fit1045_hd_projec.Usecase.ExpireInactiveClients.{
  drop_memberships, expire, expire_each, run,
}

-- What the inner loop does to the stores.
pub record Drops (id : ClientId) (ks : List ChannelId) (s s' : Server) : Type 0 where
  pub repository : Repository.IsConsistent s'.channels
  pub member :
      (k : ChannelId) (c : ClientId)
      → is_member s'.channels k c
        ≡ (if IdSet.contains k ks && (id == c) then false else is_member s.channels k c)
  pub named : (k : ChannelId) → name_at s'.channels k ≡ name_at s.channels k
  pub clients : s'.clients ≡ s.clients
  pub messages : s'.messages ≡ s.messages
  pub channel_list : s'.channel_list ≡ s.channel_list

-- The copy of the session lists every channel that the registry has for the client.
abbrev Covers : Server → ClientSession → Type 0
Covers s x = (k : ChannelId) → has_joined s.clients x.id k ≡ true → is_in_channel k x ≡ true

module _ (lib : UuidLib) where
  pub drop_memberships-Drops :
      (session : ClientSession) (ks : List ChannelId) (s : Server)
      → Repository.IsConsistent s.channels
      → Drops session.id ks s (drop_memberships lib session ks s)
  unfolding drop_memberships IdSet.contains
  drop_memberships-Drops session [] s w = record {
    repository = w;
    member = λ k c. refl;
    named = λ k. refl;
    clients = refl;
    messages = refl;
    channel_list = refl;
  }
  drop_memberships-Drops session (k ∷ ks) s w =
      let t = remove_member_and_broadcast-TakesOut lib session k s w in
      let d =
        drop_memberships-Drops session ks (remove_member_and_broadcast lib session k s).1
          t.repository in
      record {
        repository = d.repository;
        member = λ j c. ground (arith, t.member j c, d.member j c);
        named = λ j. d.named j ∙ t.named j;
        clients = d.clients ∙ t.clients;
        messages = d.messages ∙ t.messages;
        channel_list = d.channel_list ∙ t.channel_list;
      }

  joined_after :
      (x : ClientSession) (s : Server) (k : ChannelId) (c : ClientId)
      → IsSound s
      → has_joined (expire lib x s).clients c k
        ≡ (if x.id == c then false else has_joined s.clients c k)
  unfolding expire
  joined_after x s k c v =
      let d = drop_memberships-Drops x x.joined_channels s v.repository in
      ground (
        arith,
        has_joined-remove x.id c k (drop_memberships lib x x.joined_channels s).clients,
        ap (λ r. has_joined r c k) d.clients,
      )

  expire-Removes :
      (x : ClientSession) (s : Server)
      → IsSound s
      → Covers s x
      → Removes (λ c. x.id == c) s (expire lib x s)
  unfolding expire is_in_channel
  expire-Removes x s v covers = record {
    sound = record {
      repository = d.repository;
      registry =
          remove-IsConsistent _ (subst Registry.IsConsistent (sym d.clients) v.registry) x.id;
      agree = λ k c. ground (arith, member k c, joined_after x s k c v, v.agree k c);
      single = λ c j k p q.
          ground (arith, joined_after x s j c v, joined_after x s k c v, v.single c j k);
    };
    member = member;
    connected = λ c. ground (
      arith,
      is_connected-remove x.id c (drop_memberships lib x x.joined_channels s).clients,
      ap (λ r. is_connected r c) d.clients,
    );
    named = d.named;
    messages = d.messages;
  }
    where
      d : Drops x.id x.joined_channels s (drop_memberships lib x x.joined_channels s)
      d = drop_memberships-Drops x x.joined_channels s v.repository

      member :
          (k : ChannelId) (c : ClientId)
          → is_member (expire lib x s).channels k c
            ≡ (if x.id == c then false else is_member s.channels k c)
      member k c = ground (
        arith,
        d.member k c,
        covers k,
        v.agree k c,
        eq_iff x.id c,
        Bool-cases (has_joined s.clients x.id k),
      )

  All-Covers :
      (x : ClientSession) (s : Server) (ys : List ClientSession)
      → IsSound s
      → All (Covers s) ys
      → All (Covers (expire lib x s)) ys
  All-Covers x s [] v h = tt
  All-Covers x s (y ∷ ys) v h =
      (λ k p. h.0 k (ground (arith, joined_after x s k y.id v)), All-Covers x s ys v h.1)

  expire_each-Removes :
      (xs : List ClientSession) (s : Server)
      → IsSound s
      → All (Covers s) xs
      → Removes (λ c. mentions c xs) s (expire_each lib xs s)
  unfolding expire_each
  expire_each-Removes [] s v h = record {
    sound = v;
    member = λ k c. refl;
    connected = λ c. refl;
    named = λ k. refl;
    messages = refl;
  }
  expire_each-Removes (x ∷ xs) s v h =
      let first = expire-Removes x s v h.0 in
      let rest = expire_each-Removes xs (expire lib x s) first.sound (All-Covers x s xs v h.1) in
      record {
        sound = rest.sound;
        member = λ k c. ground (arith, first.member k c, rest.member k c);
        connected = λ c. ground (arith, first.connected c, rest.connected c);
        named = λ k. rest.named k ∙ first.named k;
        messages = rest.messages ∙ first.messages;
      }

  collected_Covers :
      (deadline : ℕ) (s : Server)
      → IsSound s
      → All (Covers s) (ClientRegistry.collect_expired deadline s.clients)
  unfolding ClientRegistry.collect_expired is_in_channel
  collected_Covers deadline s v =
      All-select-values (Covers s) (is_expired deadline) s.clients.clients_by_id v.registry.distinct
        (λ k x e j p. ground (arith, v.registry.keyed k x e))

  -- In a sound server, a sweep removes exactly the connected clients whose last heartbeat is
  -- before the deadline: they are no longer connected nor a member of any channel. Nobody else's
  -- connection or membership changes, nor does a channel's name or a message, and the server stays
  -- sound.
  pub run-Removes :
      (deadline : ℕ) (s : Server)
      → IsSound s
      → Removes (has_expired deadline s.clients) s (run lib deadline s).1
  unfolding run ClientRegistry.collect_expired is_in_channel
  run-Removes deadline s v =
      subst (λ gone. Removes gone s (run lib deadline s).1)
        (fun_ext λ c. mentions-collect_expired deadline c s.clients v.registry)
        (expire_each-Removes (ClientRegistry.collect_expired deadline s.clients) s v
          (collected_Covers deadline s v))

  expire_each_channel_list :
      (xs : List ClientSession) (s : Server)
      → IsSound s
      → All (Covers s) xs
      → (expire_each lib xs s).channel_list ≡ s.channel_list
  unfolding expire_each expire
  expire_each_channel_list [] s v h = refl
  expire_each_channel_list (x ∷ xs) s v h =
      expire_each_channel_list xs (expire lib x s) (expire-Removes x s v h.0).sound
        (All-Covers x s xs v h.1)
      ∙ (drop_memberships-Drops x x.joined_channels s v.repository).channel_list

  -- In a sound server, a sweep tells the followers of the channel list nothing, even if it takes
  -- members out of channels.
  pub run_channel_list :
      (deadline : ℕ) (s : Server) → IsSound s → (run lib deadline s).1.channel_list ≡ s.channel_list
  unfolding run ClientRegistry.collect_expired is_in_channel
  run_channel_list deadline s v =
      expire_each_channel_list (ClientRegistry.collect_expired deadline s.clients) s v
        (collected_Covers deadline s v)
