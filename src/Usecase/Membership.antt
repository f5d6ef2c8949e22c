-- ===== src/Usecase/Membership.antt =====
-- Who is in which channel, as the two stores see it: the invariant that ties them together, and
-- how a change of the server may take memberships away.
use monash_fit1045_hd_projec.Base.{
  ◌≡◌, ◌∙◌, Bool, true, false, ◌||◌, Option, none, some, arith, Text, ◌==◌, if◌then◌else◌,
}
use monash_fit1045_hd_projec.Containers.Map
use monash_fit1045_hd_projec.Shared.Ids.{ChannelId, ClientId}
use monash_fit1045_hd_projec.Domain.Channel.{Channel}
use monash_fit1045_hd_projec.Persistence.ChannelRepository.{ChannelRepository, is_member, save}
use monash_fit1045_hd_projec.Persistence.ChannelRepository.Invariant as Repository
use monash_fit1045_hd_projec.Persistence.ClientRegistry.Memberships.{has_joined, is_connected}
use monash_fit1045_hd_projec.Persistence.ClientRegistry.Invariant as Registry
use monash_fit1045_hd_projec.Usecase.Ports.{Server}

abbrev pub name_of : Option Channel → Option Text
name_of none = none
name_of (some channel) = some channel.name

abbrev pub name_at : ChannelRepository → ChannelId → Option Text
name_at r k = name_of (Map.find k r.channels_by_id)

pub name_at-save :
    (channel : Channel) (r : ChannelRepository) (k : ChannelId)
    → name_at (save channel r).1 k ≡ (if channel.id == k then some channel.name else name_at r k)
unfolding save
name_at-save channel r k =
    ground (arith, Map.find-insert_or_assign channel.id k channel r.channels_by_id)

-- The stores are consistent, they agree on who is in which channel, and no client is in two.
pub record IsSound (s : Server) : Type 0 where
  pub repository : Repository.IsConsistent s.channels
  pub registry : Registry.IsConsistent s.clients
  pub agree : (k : ChannelId) (c : ClientId) → is_member s.channels k c ≡ has_joined s.clients c k
  pub single :
      (c : ClientId) (j k : ChannelId)
      → has_joined s.clients c j ≡ true
      → has_joined s.clients c k ≡ true
      → j ≡ k

-- The memberships in `gone` are ended in both stores, and nothing else changes but the streams.
pub record Loses (gone : ChannelId → ClientId → Bool) (s s' : Server) : Type 0 where
  pub repository : Repository.IsConsistent s'.channels
  pub registry : Registry.IsConsistent s'.clients
  pub member :
      (k : ChannelId) (c : ClientId)
      → is_member s'.channels k c ≡ (if gone k c then false else is_member s.channels k c)
  pub joined :
      (k : ChannelId) (c : ClientId)
      → has_joined s'.clients c k ≡ (if gone k c then false else has_joined s.clients c k)
  pub named : (k : ChannelId) → name_at s'.channels k ≡ name_at s.channels k
  pub connected : (c : ClientId) → is_connected s'.clients c ≡ is_connected s.clients c
  pub messages : s'.messages ≡ s.messages

pub Loses-trans :
    (g h : ChannelId → ClientId → Bool) (s t u : Server)
    → Loses g s t
    → Loses h t u
    → Loses (λ k c. g k c || h k c) s u
Loses-trans g h s t u a b = record {
  repository = b.repository;
  registry = b.registry;
  member = λ k c. ground (arith, a.member k c, b.member k c);
  joined = λ k c. ground (arith, a.joined k c, b.joined k c);
  named = λ k. b.named k ∙ a.named k;
  connected = λ c. b.connected c ∙ a.connected c;
  messages = b.messages ∙ a.messages;
}

-- Losing memberships breaks no invariant.
pub Loses-IsSound :
    (gone : ChannelId → ClientId → Bool) (s s' : Server) → Loses gone s s' → IsSound s → IsSound s'
Loses-IsSound gone s s' l v = record {
  repository = l.repository;
  registry = l.registry;
  agree = λ k c. ground (arith, l.member k c, l.joined k c, v.agree k c);
  single = λ c j k p q. ground (arith, l.joined j c, l.joined k c, v.single c j k);
}

-- The clients in `gone` are neither connected nor a member of any channel, and all else is as before
-- but the streams.
pub record Removes (gone : ClientId → Bool) (s s' : Server) : Type 0 where
  pub sound : IsSound s'
  pub member :
      (k : ChannelId) (c : ClientId)
      → is_member s'.channels k c ≡ (if gone c then false else is_member s.channels k c)
  pub connected :
      (c : ClientId)
      → is_connected s'.clients c ≡ (if gone c then false else is_connected s.clients c)
  pub named : (k : ChannelId) → name_at s'.channels k ≡ name_at s.channels k
  pub messages : s'.messages ≡ s.messages
