-- ===== src/Persistence/ClientRegistry/Invariant.antt =====
-- server/src/adapter/persistence/in_memory_client_registry.cpp: how the three maps belong together.
use monash_fit1045_hd_projec.Base.{
  ℕ, ◌≡◌, refl, ◌↔◌, inl, inr, none, some, arith, Text, ◌==◌, eq_iff, eq_refl, if◌then◌else◌,
  Bool-cases, Option-cases,
}
use monash_fit1045_hd_projec.Containers.Map
use monash_fit1045_hd_projec.Containers.Map.{Map, HasDistinctKeys, any}
use monash_fit1045_hd_projec.Shared.Outcome.{ok, err, client_already_exists}
use monash_fit1045_hd_projec.Shared.Ids.{ChannelId, ClientId}
use monash_fit1045_hd_projec.Domain.ClientSession
use monash_fit1045_hd_projec.Domain.ClientSession.{ClientSession, is_expired}
use monash_fit1045_hd_projec.Persistence.ClientRegistry.{
  ClientRegistry, empty, find_by_id, lookup_username, register_client, remove, update_session,
  leave_channel_atomic, join_channel_atomic, touch_heartbeat,
}

pub record IsConsistent (r : ClientRegistry) : Type 0 where
  pub keyed : (k : ClientId) (s : ClientSession) → Map.find k r.clients_by_id ≡ some s → s.id ≡ k
  pub indexed :
      (k : ClientId) (s : ClientSession)
      → Map.find k r.clients_by_id ≡ some s
      → Map.find s.username r.username_to_id ≡ some k
  pub named :
      (n : Text) (k : ClientId)
      → Map.find n r.username_to_id ≡ some k
      → (s : ClientSession) × (Map.find k r.clients_by_id ≡ some s) × (s.username ≡ n)
  pub remembered :
      (k : ClientId) (s : ClientSession)
      → Map.find k r.clients_by_id ≡ some s
      → Map.find k r.historical_usernames ≡ some s.username
  pub distinct : HasDistinctKeys r.clients_by_id

pub empty-IsConsistent : IsConsistent empty
unfolding Map.find
empty-IsConsistent = record {
  keyed = λ k s h. cc;
  indexed = λ k s h. cc;
  named = λ n k h. cc;
  remembered = λ k s h. cc;
  distinct = tt;
}

module _ (r : ClientRegistry) (w : IsConsistent r) where
  -- A change in place that leaves identifier and name alone keeps the maps in agreement.
  pub update_session-IsConsistent :
      (c0 : ClientId) (f : ClientSession → ClientSession)
      → ((s : ClientSession) → ((f s).id ≡ s.id) × ((f s).username ≡ s.username))
      → IsConsistent (update_session c0 f r).1
  unfolding update_session
  update_session-IsConsistent c0 f keeps = elim (Option-cases (Map.find c0 r.clients_by_id)) [
    | inl e ↦ rw (e, update_session) w
    | inr (s, e) ↦
        rw (e, update_session)
          (record {
            keyed = λ k t h.
                ground (arith, at_id s k, eq_iff c0 k, w.keyed k t, w.keyed c0 s e, keeps s);
            indexed = λ k t h.
                ground (arith, at_id s k, eq_iff c0 k, w.indexed k t, w.indexed c0 s e, keeps s);
            named = λ n k h. elim (Bool-cases (c0 == k)) [
              | inl this ↦
                  let (t, at, q) = w.named n k h in
                  (f s, ground (arith, at_id s k), ground (arith, eq_iff c0 k, keeps s))
              | inr other ↦ let (t, at, q) = w.named n k h in (t, ground (arith, at_id s k), q)
            ];
            remembered = λ k t h.
                ground
                  (arith, at_id s k, eq_iff c0 k, w.remembered k t, w.remembered c0 s e, keeps s);
            distinct = Map.insert_or_assign-HasDistinctKeys c0 (f s) r.clients_by_id w.distinct;
          })
  ]
    where
      at_id :
          (s : ClientSession) (k : ClientId)
          → Map.find k (Map.insert_or_assign c0 (f s) r.clients_by_id)
            ≡ (if c0 == k then some (f s) else Map.find k r.clients_by_id)
      at_id s k = Map.find-insert_or_assign c0 k (f s) r.clients_by_id

  pub leave_channel_atomic-IsConsistent :
      (c0 : ClientId) (k : ChannelId) → IsConsistent (leave_channel_atomic c0 k r).1
  unfolding leave_channel_atomic ClientSession.leave_channel
  leave_channel_atomic-IsConsistent c0 k =
      update_session-IsConsistent c0 (ClientSession.leave_channel k) (λ s. (refl, refl))

  pub join_channel_atomic-IsConsistent :
      (c0 : ClientId) (k : ChannelId) → IsConsistent (join_channel_atomic c0 k r).1
  unfolding join_channel_atomic ClientSession.join_channel
  join_channel_atomic-IsConsistent c0 k =
      update_session-IsConsistent c0 (ClientSession.join_channel k) (λ s. (refl, refl))

  pub touch_heartbeat-IsConsistent :
      (c0 : ClientId) (now : ℕ) → IsConsistent (touch_heartbeat c0 now r).1
  unfolding touch_heartbeat ClientSession.touch
  touch_heartbeat-IsConsistent c0 now =
      update_session-IsConsistent c0 (ClientSession.touch now) (λ s. (refl, refl))

  -- Removing a client keeps the maps in agreement.
  pub remove-IsConsistent : (c0 : ClientId) → IsConsistent (remove c0 r).1
  unfolding remove
  remove-IsConsistent c0 = elim (Option-cases (Map.find c0 r.clients_by_id)) [
    | inl e ↦ rw (e, remove) w
    | inr (s, e) ↦
        rw (e, remove)
          (record {
            keyed = λ k t h. ground (arith, at_id k, w.keyed k t);
            indexed = λ k t h. ground (
              arith,
              at_id k,
              at_name s t.username,
              w.indexed k t,
              w.indexed c0 s e,
              eq_iff c0 k,
              eq_iff s.username t.username,
            );
            named = λ n k h.
                let (t, at, q) = w.named n k (ground (arith, at_name s n)) in
                (t, ground (arith, at_id k, at_name s n, eq_iff c0 k, eq_iff s.username n), q);
            remembered = λ k t h. ground (arith, at_id k, w.remembered k t);
            distinct = Map.erase-HasDistinctKeys c0 r.clients_by_id w.distinct;
          })
  ]
    where
      at_id :
          (k : ClientId)
          → Map.find k (Map.erase c0 r.clients_by_id)
            ≡ (if c0 == k then none else Map.find k r.clients_by_id)
      at_id k = Map.find-erase c0 k r.clients_by_id

      at_name :
          (s : ClientSession) (n : Text)
          → Map.find n (Map.erase s.username r.username_to_id)
            ≡ (if s.username == n then none else Map.find n r.username_to_id)
      at_name s n = Map.find-erase s.username n r.username_to_id

  -- In a consistent registry, registering a client under an identifier that is not in use keeps
  -- the maps in agreement.
  pub register_client-IsConsistent :
      (name : Text) (drawn : ClientId) (system_now steady_now : ℕ)
      → Map.find drawn r.clients_by_id ≡ none
      → IsConsistent (register_client name drawn system_now steady_now r).1
  unfolding register_client Map.contains ClientSession.create
  register_client-IsConsistent name drawn system_now steady_now fresh =
      elim (Option-cases (Map.find name r.username_to_id)) [
        | inr (k, taken) ↦ rw (taken, register_client, Map.contains) w
        | inl free ↦
            rw (free, register_client, Map.contains)
              (record {
                keyed = λ k t h. ground (arith, at_id k, eq_iff drawn k, w.keyed k t);
                indexed = λ k t h. ground (
                  arith,
                  at_id k,
                  at_name free t.username,
                  eq_iff drawn k,
                  eq_refl name,
                  eq_iff name t.username,
                  w.indexed k t,
                );
                named = λ n k h. elim (Bool-cases (name == n)) [
                  | inl this ↦ (
                    started,
                    ground (arith, at_id k, at_name free n, eq_refl drawn),
                    ground (arith, eq_iff name n),
                  )
                  | inr other ↦
                      let (t, e, q) = w.named n k (ground (arith, at_name free n)) in
                      (t, ground (arith, at_id k, eq_iff drawn k), q)
                ];
                remembered = λ k t h. ground (
                  arith,
                  at_id k,
                  eq_iff drawn k,
                  w.remembered k t,
                  Map.find-insert_or_assign drawn k name r.historical_usernames,
                );
                distinct = Map.emplace-HasDistinctKeys drawn started r.clients_by_id w.distinct;
              })
      ]
    where
      started : ClientSession
      started = ClientSession.create drawn name system_now steady_now

      at_id :
          (k : ClientId)
          → Map.find k (Map.emplace drawn started r.clients_by_id)
            ≡ (if drawn == k then some started else Map.find k r.clients_by_id)
      at_id k = Map.find-emplace drawn k started r.clients_by_id fresh

      at_name :
          Map.find name r.username_to_id ≡ none
          → (n : Text)
          → Map.find n (Map.emplace name drawn r.username_to_id)
            ≡ (if name == n then some drawn else Map.find n r.username_to_id)
      at_name free n = Map.find-emplace name n drawn r.username_to_id free

  -- In a consistent registry, a user name is refused exactly when a connected client bears it.
  pub register_client_taken_iff :
      (name : Text) (drawn : ClientId) (system_now steady_now : ℕ)
      → ((register_client name drawn system_now steady_now r).0 ≡ err client_already_exists)
        ↔ ((s : ClientSession) × (find_by_id s.id r ≡ ok s) × (s.username ≡ name))
  unfolding register_client find_by_id Map.contains
  register_client_taken_iff name drawn system_now steady_now = (refused, taken)
    where
      refused :
          (register_client name drawn system_now steady_now r).0 ≡ err client_already_exists
          → (s : ClientSession) × (find_by_id s.id r ≡ ok s) × (s.username ≡ name)
      refused h = elim (Option-cases (Map.find name r.username_to_id)) [
        | inl free ↦ absurd (ground arith)
        | inr (k, e) ↦ let (t, at, q) = w.named name k e in (t, ground (arith, w.keyed k t at), q)
      ]

      taken :
          (s : ClientSession) × (find_by_id s.id r ≡ ok s) × (s.username ≡ name)
          → (register_client name drawn system_now steady_now r).0 ≡ err client_already_exists
      taken h = ground (arith, w.indexed (h.0).id h.0 (ground arith))

  -- In a consistent registry, the user name of a connected client that is removed is free again,
  -- and is still known for its messages.
  pub remove_frees_name :
      (c0 : ClientId) (s : ClientSession) (drawn : ClientId) (system_now steady_now : ℕ)
      → find_by_id c0 r ≡ ok s
      → ((register_client s.username drawn system_now steady_now (remove c0 r).1).0
          ≡ ok (ClientSession.create drawn s.username system_now steady_now))
        × (lookup_username c0 (remove c0 r).1 ≡ ok s.username)
  unfolding register_client remove find_by_id lookup_username Map.contains
  remove_frees_name c0 s drawn system_now steady_now h = (
    ground (arith, Map.find-erase s.username s.username r.username_to_id, eq_refl s.username),
    ground (arith, w.remembered c0 s (ground arith)),
  )
