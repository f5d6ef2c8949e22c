-- ===== src/Persistence/ClientRegistry.antt =====
-- server/src/adapter/persistence/in_memory_client_registry.cpp: the sessions by identifier, the
-- index from user names to identifiers, and the user name of every client that ever connected.
-- `drawn` is the identifier that ClientId::generate returns; the clocks are read by the caller.
pub mod Memberships
pub mod Invariant
pub mod Expiry
use monash_fit1045_hd_projec.Base.{
  ℕ, ◌≡◌, [], ◌∷◌, Bool, true, false, ◌||◌, ◌&&◌, Option, none, some, List, arith, Text, ◌==◌,
  eq_iff, if◌then◌else◌, select,
}
use monash_fit1045_hd_projec.Containers.Map
use monash_fit1045_hd_projec.Containers.Map.{Map}
use monash_fit1045_hd_projec.Shared.Outcome.{
  Result, VoidResult, ok, err, or_fail, client_not_found, client_already_exists,
}
use monash_fit1045_hd_projec.Shared.Ids.{ChannelId, ClientId}
use monash_fit1045_hd_projec.Domain.ClientSession
use monash_fit1045_hd_projec.Domain.ClientSession.{ClientSession}

pub record ClientRegistry : Type 0 where
  pub clients_by_id : Map ClientSession
  pub username_to_id : Map Text
  pub historical_usernames : Map Text

abbrev pub empty : ClientRegistry
empty = record { clients_by_id = []; username_to_id = []; historical_usernames = [] }

unfoldable pub find_by_id : ClientId → ClientRegistry → Result ClientSession
find_by_id client_id r = or_fail (Map.find client_id r.clients_by_id) client_not_found

unfoldable pub find_by_username : Text → ClientRegistry → Result ClientSession
find_by_username name r = elim (Map.find name r.username_to_id) [
  | none ↦ err client_not_found
  | some id ↦ or_fail (Map.find id r.clients_by_id) client_not_found
]

unfoldable pub lookup_username : ClientId → ClientRegistry → Result Text
lookup_username client_id r = or_fail (Map.find client_id r.historical_usernames) client_not_found

unfoldable pub register_client :
    Text → ClientId → ℕ → ℕ → ClientRegistry → Result ClientSession × ClientRegistry
register_client username drawn system_now steady_now r =
    if Map.contains username r.username_to_id
    then (err client_already_exists, r)
    else (let session = ClientSession.create drawn username system_now steady_now in
        (
          ok session,
          record {
            clients_by_id = Map.emplace session.id session r.clients_by_id;
            username_to_id = Map.emplace session.username session.id r.username_to_id;
            historical_usernames =
                Map.insert_or_assign session.id session.username r.historical_usernames;
          },
        ))

unfoldable pub save : ClientSession → ClientRegistry → VoidResult × ClientRegistry
save session r = (
  ok tt,
  record {
    clients_by_id = Map.insert_or_assign session.id session r.clients_by_id;
    username_to_id = Map.insert_or_assign session.username session.id r.username_to_id;
    historical_usernames = Map.insert_or_assign session.id session.username r.historical_usernames;
  },
)

unfoldable pub remove : ClientId → ClientRegistry → VoidResult × ClientRegistry
remove client_id r = elim (Map.find client_id r.clients_by_id) [
  | none ↦ (err client_not_found, r)
  | some session ↦ (
    ok tt,
    record r {
      username_to_id = Map.erase session.username r.username_to_id;
      clients_by_id = Map.erase client_id r.clients_by_id;
    },
  )
]

-- auto found = clients_by_id_.find(id); if it is there, found->second is changed in place.
unfoldable pub update_session :
    ClientId → (ClientSession → ClientSession) → ClientRegistry → VoidResult × ClientRegistry
update_session client_id change r = elim (Map.find client_id r.clients_by_id) [
  | none ↦ (err client_not_found, r)
  | some session ↦ (
    ok tt,
    record r { clients_by_id = Map.insert_or_assign client_id (change session) r.clients_by_id },
  )
]

unfoldable pub touch_heartbeat : ClientId → ℕ → ClientRegistry → VoidResult × ClientRegistry
unfolding update_session
touch_heartbeat client_id steady_now r = update_session client_id (ClientSession.touch steady_now) r

unfoldable pub join_channel_atomic :
    ClientId → ChannelId → ClientRegistry → VoidResult × ClientRegistry
unfolding update_session
join_channel_atomic client_id channel_id r =
    update_session client_id (ClientSession.join_channel channel_id) r

unfoldable pub leave_channel_atomic :
    ClientId → ChannelId → ClientRegistry → VoidResult × ClientRegistry
unfolding update_session
leave_channel_atomic client_id channel_id r =
    update_session client_id (ClientSession.leave_channel channel_id) r

unfoldable pub collect_expired : ℕ → ClientRegistry → List ClientSession
collect_expired deadline r = select (ClientSession.is_expired deadline) (Map.values r.clients_by_id)
