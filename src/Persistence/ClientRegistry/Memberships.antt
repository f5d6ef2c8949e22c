-- ===== src/Persistence/ClientRegistry/Memberships.antt =====
-- server/src/adapter/persistence/in_memory_client_registry.cpp: who is connected, and who has joined
-- which channel.
use monash_fit1045_hd_projec.Base.{
  ℕ, ◌≡◌, inl, inr, Bool, true, false, ◌||◌, ◌&&◌, Option, none, some, arith, ◌==◌, eq_iff,
  if◌then◌else◌, Option-cases,
}
use monash_fit1045_hd_projec.Containers.Map
use monash_fit1045_hd_projec.Shared.Outcome.{Error, ok, err}
use monash_fit1045_hd_projec.Shared.Outcome.{is_client_not_found}
use monash_fit1045_hd_projec.Shared.Ids.{ChannelId, ClientId}
use monash_fit1045_hd_projec.Domain.ClientSession
use monash_fit1045_hd_projec.Domain.ClientSession.{ClientSession, is_in_channel}
use monash_fit1045_hd_projec.Persistence.ClientRegistry.{
  ClientRegistry, update_session, join_channel_atomic, leave_channel_atomic, touch_heartbeat,
  remove,
}

abbrev pub is_connected : ClientRegistry → ClientId → Bool
is_connected r c = Map.is_some (Map.find c r.clients_by_id)

abbrev pub joined_by : Option ClientSession → ChannelId → Bool
joined_by none k = false
joined_by (some session) k = is_in_channel k session

-- The client is connected and its session lists the channel.
abbrev pub has_joined : ClientRegistry → ClientId → ChannelId → Bool
has_joined r c k = joined_by (Map.find c r.clients_by_id) k

abbrev pub after {ℓ} : {A : Type ℓ} → A × ClientRegistry → ClientRegistry
after p = p.1

update_session-joined :
    (c0 c : ClientId) (k : ChannelId) (f : ClientSession → ClientSession) (r : ClientRegistry)
    → has_joined (update_session c0 f r).1 c k ≡ (
        if c0 == c
        then joined_by (elim (Map.find c r.clients_by_id) [ none ↦ none | some s ↦ some (f s) ]) k
        else has_joined r c k)
unfolding update_session
update_session-joined c0 c k f r = elim (Option-cases (Map.find c0 r.clients_by_id)) [
  | inl e ↦ ground (arith, eq_iff c0 c)
  | inr (s, e) ↦ ground (arith, eq_iff c0 c, Map.find-insert_or_assign c0 c (f s) r.clients_by_id)
]

pub update_session-connected :
    (c0 c : ClientId) (f : ClientSession → ClientSession) (r : ClientRegistry)
    → is_connected (update_session c0 f r).1 c ≡ is_connected r c
unfolding update_session
update_session-connected c0 c f r = elim (Option-cases (Map.find c0 r.clients_by_id)) [
  | inl e ↦ ground arith
  | inr (s, e) ↦ ground (arith, eq_iff c0 c, Map.find-insert_or_assign c0 c (f s) r.clients_by_id)
]

-- Joining adds the channel to the session of that client, if it is connected.
pub has_joined-join_channel_atomic :
    (c0 c : ClientId) (k0 k : ChannelId) (r : ClientRegistry)
    → has_joined (join_channel_atomic c0 k0 r).1 c k
      ≡ (if c0 == c then is_connected r c && ((k0 == k) || has_joined r c k) else has_joined r c k)
unfolding join_channel_atomic
has_joined-join_channel_atomic c0 c k0 k r = elim (Option-cases (Map.find c r.clients_by_id)) [
  | inl e ↦ ground (arith, update_session-joined c0 c k (ClientSession.join_channel k0) r)
  | inr (s, e) ↦ ground (
    arith,
    update_session-joined c0 c k (ClientSession.join_channel k0) r,
    ClientSession.is_in_channel-join_channel k0 k s,
  )
]

-- Leaving takes the channel from the session of that client.
pub has_joined-leave_channel_atomic :
    (c0 c : ClientId) (k0 k : ChannelId) (r : ClientRegistry)
    → has_joined (leave_channel_atomic c0 k0 r).1 c k
      ≡ (if (c0 == c) && (k0 == k) then false else has_joined r c k)
unfolding leave_channel_atomic
has_joined-leave_channel_atomic c0 c k0 k r = elim (Option-cases (Map.find c r.clients_by_id)) [
  | inl e ↦ ground (arith, update_session-joined c0 c k (ClientSession.leave_channel k0) r)
  | inr (s, e) ↦ ground (
    arith,
    update_session-joined c0 c k (ClientSession.leave_channel k0) r,
    ClientSession.is_in_channel-leave_channel k0 k s,
  )
]

-- A heartbeat changes no membership.
pub has_joined-touch_heartbeat :
    (c0 c : ClientId) (now : ℕ) (k : ChannelId) (r : ClientRegistry)
    → has_joined (touch_heartbeat c0 now r).1 c k ≡ has_joined r c k
unfolding touch_heartbeat ClientSession.touch is_in_channel
has_joined-touch_heartbeat c0 c now k r =
    ground (arith, update_session-joined c0 c k (ClientSession.touch now) r)

-- A removed client is gone, with all that it had joined.
pub has_joined-remove :
    (c0 c : ClientId) (k : ChannelId) (r : ClientRegistry)
    → has_joined (remove c0 r).1 c k ≡ (if c0 == c then false else has_joined r c k)
unfolding remove
has_joined-remove c0 c k r = elim (Option-cases (Map.find c0 r.clients_by_id)) [
  | inl e ↦ ground (arith, eq_iff c0 c)
  | inr (s, e) ↦ ground (arith, eq_iff c0 c, Map.find-erase c0 c r.clients_by_id)
]

pub is_connected-remove :
    (c0 c : ClientId) (r : ClientRegistry)
    → is_connected (remove c0 r).1 c ≡ (if c0 == c then false else is_connected r c)
unfolding remove
is_connected-remove c0 c r = elim (Option-cases (Map.find c0 r.clients_by_id)) [
  | inl e ↦ ground (arith, eq_iff c0 c)
  | inr (s, e) ↦ ground (arith, eq_iff c0 c, Map.find-erase c0 c r.clients_by_id)
]

pub is_connected-leave_channel_atomic :
    (c0 c : ClientId) (k : ChannelId) (r : ClientRegistry)
    → is_connected (leave_channel_atomic c0 k r).1 c ≡ is_connected r c
unfolding leave_channel_atomic
is_connected-leave_channel_atomic c0 c k r =
    update_session-connected c0 c (ClientSession.leave_channel k) r

pub is_connected-join_channel_atomic :
    (c0 c : ClientId) (k : ChannelId) (r : ClientRegistry)
    → is_connected (join_channel_atomic c0 k r).1 c ≡ is_connected r c
unfolding join_channel_atomic
is_connected-join_channel_atomic c0 c k r =
    update_session-connected c0 c (ClientSession.join_channel k) r

pub join_channel_atomic_connected :
    (c : ClientId) (k : ChannelId) (r : ClientRegistry)
    → is_connected r c ≡ true
    → (join_channel_atomic c k r).0 ≡ ok tt
unfolding join_channel_atomic update_session
join_channel_atomic_connected c k r h = ground arith

-- Leaving fails only for a client that is not connected.
pub leave_channel_atomic_error :
    (c : ClientId) (k : ChannelId) (r : ClientRegistry) (e : Error)
    → (leave_channel_atomic c k r).0 ≡ err e
    → is_client_not_found e ≡ true
unfolding leave_channel_atomic
leave_channel_atomic_error c k r e h = elim (Option-cases (Map.find c r.clients_by_id)) [
  | inl missing ↦ ground arith
  | inr (s, found) ↦ ground arith
]
