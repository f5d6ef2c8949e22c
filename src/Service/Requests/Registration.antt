-- ===== src/Service/Requests/Registration.antt =====
-- server/src/main.cpp, Connect and Heartbeat: the start of the server, and the steps that change
-- the registry alone.
use monash_fit1045_hd_projec.Base.{
  ℕ, ◌≡◌, refl, inl, inr, false, none, arith, Text, codes, eq_iff, Option-cases, sym, ◌∙◌, subst,
}
use monash_fit1045_hd_projec.Containers.Map
use monash_fit1045_hd_projec.Containers.IdSet
use monash_fit1045_hd_projec.Shared.Ids.{ChannelId, ClientId}
use monash_fit1045_hd_projec.Domain.ChannelName
use monash_fit1045_hd_projec.Domain.Channel
use monash_fit1045_hd_projec.Domain.ClientSession
use monash_fit1045_hd_projec.Domain.ClientSession.{ClientSession, is_in_channel}
use monash_fit1045_hd_projec.Persistence.ChannelRepository
use monash_fit1045_hd_projec.Persistence.ChannelRepository.{is_member}
use monash_fit1045_hd_projec.Persistence.ChannelRepository.Invariant as Repository
use monash_fit1045_hd_projec.Persistence.ClientRegistry.{
  ClientRegistry, register_client, touch_heartbeat,
}
use monash_fit1045_hd_projec.Persistence.ClientRegistry.Memberships.{
  has_joined, has_joined-touch_heartbeat,
}
use monash_fit1045_hd_projec.Persistence.ClientRegistry.Invariant as Registry
use monash_fit1045_hd_projec.Usecase.Ports.{Server}
use monash_fit1045_hd_projec.Usecase.Membership.{IsSound}
use monash_fit1045_hd_projec.Service.Requests.{started, seeded}

-- A client that has just connected is in no channel.
has_joined-register_client :
    (name : Text) (drawn : ClientId) (system_now steady_now : ℕ) (r : ClientRegistry) (c : ClientId)
    (k : ChannelId)
    → Map.find drawn r.clients_by_id ≡ none
    → has_joined (register_client name drawn system_now steady_now r).1 c k ≡ has_joined r c k
unfolding register_client Map.contains ClientSession.create is_in_channel IdSet.contains
has_joined-register_client name drawn system_now steady_now r c k fresh =
    elim (Option-cases (Map.find name r.username_to_id)) [
      | inr (j, taken) ↦ rw (taken, register_client, Map.contains) refl
      | inl free ↦ ground (
        arith,
        eq_iff drawn c,
        Map.find-emplace drawn c (ClientSession.create drawn name system_now steady_now)
            r.clients_by_id fresh,
      )
    ]

-- A new registry that agrees with the old one on who has joined what keeps the server sound.
with_registry-IsSound :
    (s : Server) (r : ClientRegistry)
    → IsSound s
    → Registry.IsConsistent r
    → ((c : ClientId) (k : ChannelId) → has_joined r c k ≡ has_joined s.clients c k)
    → IsSound (record s { clients = r })
with_registry-IsSound s r v w same = record {
  repository = v.repository;
  registry = w;
  agree = λ k c. v.agree k c ∙ sym (same c k);
  single = λ c j k p q. v.single c j k (sym (same c j) ∙ p) (sym (same c k) ∙ q);
}

pub register_client-IsSound :
    (name : Text) (drawn : ClientId) (system_now steady_now : ℕ) (s : Server)
    → IsSound s
    → Map.find drawn s.clients.clients_by_id ≡ none
    → IsSound
        (record s { clients = (register_client name drawn system_now steady_now s.clients).1 })
register_client-IsSound name drawn system_now steady_now s v fresh =
    with_registry-IsSound s _ v
      (Registry.register_client-IsConsistent s.clients v.registry name drawn system_now steady_now
        fresh)
      (λ c k. has_joined-register_client name drawn system_now steady_now s.clients c k fresh)

pub touch_heartbeat-IsSound :
    (c0 : ClientId) (now : ℕ) (s : Server)
    → IsSound s
    → IsSound (record s { clients = (touch_heartbeat c0 now s.clients).1 })
touch_heartbeat-IsSound c0 now s v =
    with_registry-IsSound s _ v (Registry.touch_heartbeat-IsConsistent s.clients v.registry c0 now)
      (λ c k. has_joined-touch_heartbeat c0 c now k s.clients)

-- Only the streams differ.
pub streams-IsSound :
    (s s' : Server) → IsSound s → s'.channels ≡ s.channels → s'.clients ≡ s.clients → IsSound s'
streams-IsSound s s' v same_channels same_clients = record {
  repository = subst Repository.IsConsistent (sym same_channels) v.repository;
  registry = subst Registry.IsConsistent (sym same_clients) v.registry;
  agree = λ k c. rw (same_channels, same_clients) (v.agree k c);
  single = λ c j k p q. v.single c j k (rw same_clients at p) (rw same_clients at q);
}

seeded-IsConsistent : (drawn : ChannelId) (now : ℕ) → Repository.IsConsistent (seeded drawn now)
unfolding seeded Map.find
seeded-IsConsistent drawn now = elim (Option-cases (ChannelName.create (codes "general"))) [
  | inl invalid ↦ rw (invalid, seeded) Repository.empty-IsConsistent
  | inr (name, valid) ↦
      rw (valid, seeded)
        (Repository.create-IsConsistent ChannelRepository.empty Repository.empty-IsConsistent name
          drawn now refl)
]

is_member-seeded :
    (drawn : ChannelId) (now : ℕ) (k : ChannelId) (c : ClientId)
    → is_member (seeded drawn now) k c ≡ false
unfolding seeded Map.find Map.contains Map.emplace Map.insert_or_assign ChannelRepository.create
    Channel.create Channel.has_member IdSet.contains
is_member-seeded drawn now k c = elim (Option-cases (ChannelName.create (codes "general"))) [
  | inl invalid ↦ rw (invalid, seeded) refl
  | inr (name, valid) ↦ rw (valid, seeded) (ground arith)
]

pub started-IsSound : (cap : ℕ) (drawn : ChannelId) (now : ℕ) → IsSound (started cap drawn now)
unfolding Map.find started
started-IsSound cap drawn now = record {
  repository = seeded-IsConsistent drawn now;
  registry = Registry.empty-IsConsistent;
  agree = λ k c. is_member-seeded drawn now k c;
  single = λ c j k p q. cc;
}
