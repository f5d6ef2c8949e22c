-- ===== src/Persistence/ClientRegistry/Expiry.antt =====
-- server/src/adapter/persistence/in_memory_client_registry.cpp: collectExpired.
use monash_fit1045_hd_projec.Base.{
  ℕ, ◌≡◌, refl, [], ◌∷◌, Bool, false, Option, none, some, List, arith, ◌==◌, eq_iff, eq_refl,
  select,
}
use monash_fit1045_hd_projec.Containers.Map
use monash_fit1045_hd_projec.Containers.Map.{Map, HasDistinctKeys, any}
use monash_fit1045_hd_projec.Shared.Ids.{ClientId}
use monash_fit1045_hd_projec.Domain.ClientSession.{ClientSession, is_expired}
use monash_fit1045_hd_projec.Persistence.ClientRegistry.{ClientRegistry, collect_expired}
use monash_fit1045_hd_projec.Persistence.ClientRegistry.Invariant.{IsConsistent}

abbrev pub expired_in : ℕ → Option ClientSession → Bool
expired_in deadline none = false
expired_in deadline (some s) = is_expired deadline s

-- The client is connected, and its last heartbeat is before the deadline.
abbrev pub has_expired : ℕ → ClientRegistry → ClientId → Bool
has_expired deadline r c = expired_in deadline (Map.find c r.clients_by_id)

abbrev pub mentions : ClientId → List ClientSession → Bool
mentions c ss = any (λ s. s.id == c) ss

mentions-select :
    (p : ClientSession → Bool) (c : ClientId) (m : Map ClientSession)
    → HasDistinctKeys m
    → ((k : ClientId) (s : ClientSession) → Map.find k m ≡ some s → s.id ≡ k)
    → mentions c (select p (Map.values m)) ≡ elim (Map.find c m) [ none ↦ false | some s ↦ p s ]
unfolding Map.find Map.values
mentions-select p c [] h keyed = refl
mentions-select p c ((j, s) ∷ m) h keyed =
    let rest = mentions-select p c m h.1 (λ k t e. keyed k t (ground (arith, eq_iff j k))) in
    ground (arith, rest, keyed j s (ground (arith, eq_refl j)), eq_iff j c)

-- In a consistent registry, a client is collected exactly when it is connected and its last
-- heartbeat is before the deadline.
pub mentions-collect_expired :
    (deadline : ℕ) (c : ClientId) (r : ClientRegistry)
    → IsConsistent r
    → mentions c (collect_expired deadline r) ≡ has_expired deadline r c
unfolding collect_expired
mentions-collect_expired deadline c r w =
    ground (arith, mentions-select (is_expired deadline) c r.clients_by_id w.distinct w.keyed)
