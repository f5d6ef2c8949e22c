-- ===== src/Client/Startup.antt =====
-- client-cli/src/main.cpp, run: from the options of the command line to an open session, and the
-- thread that watches the connection. CLI11 has read the options; the files, and the stub that gRPC
-- makes of an address and credentials, are parameters.
pub mod Status
use monash_fit1045_hd_projec.Base.{
  ℕ, ◌≡◌, ◌≢◌, refl, sym, ap, ◌∙◌, inl, inr, [], ◌∷◌, List, Bool, true, false, not, ◌&&◌, ◌||◌,
  none, some, Option, Text, is_empty, arith, if◌then◌else◌, some_injective, Bool-cases,
  Option-cases,
}
use monash_fit1045_hd_projec.Shared.Outcome.{Result, ok, err, Result-cases}
use monash_fit1045_hd_projec.Shared.StringUtils.{trim_copy}
use monash_fit1045_hd_projec.Client.Gateway
use monash_fit1045_hd_projec.Shared.Logging.{LogLevel, select_log_level}
use monash_fit1045_hd_projec.Client.Gateway.{Stub}
use monash_fit1045_hd_projec.Client.UseCases.{connect_to_server}
use monash_fit1045_hd_projec.Client.Presenter.{
  Presenter, show_error, show_channel_list, ConnectionState, connecting, connected, network_error,
  closed, initial, update_connection_status, update_connection_state,
}
use monash_fit1045_hd_projec.Client.Session.{Client, list_channels}
use monash_fit1045_hd_projec.Client.Session.Joining.{list_channels_lem}

pub data Credentials : Type 0 where
  insecure_credentials : Credentials
  ssl_credentials : Text → Credentials

-- What read_file finds in a file, empty for one that cannot be read.
unfoldable pub build_credentials : (Text → Text) → Bool → Text → Option Credentials
build_credentials read_file insecure ca_cert_path =
    let pem_root_certs = read_file ca_cert_path in
    if insecure
    then some insecure_credentials
    else if is_empty ca_cert_path
    then some (ssl_credentials [])
    else if is_empty pem_root_certs
    then none
    else some (ssl_credentials pem_root_certs)

pub record Options : Type 0 where
  pub server_address : Text
  pub username : Text
  pub ca_cert_path : Text
  pub insecure : Bool
  pub verbose : Bool
  pub quiet : Bool

-- The level of the log, and an open session with the identifier of its client.
pub record Open (R : Type 0) : Type 0 where
  pub level : LogLevel
  pub client_id : Text
  pub credentials : Credentials
  pub client : Client R

module _ {R : Type 0} (read_file : Text → Text) (dial : Text → Credentials → Stub R) where
  -- The session once the client is connected.
  unfoldable pub session_of : Stub R → Options → Text → R → Client R
  session_of stub options client_id r = list_channels stub client_id (record {
    server = r;
    presenter =
        update_connection_status true (not options.insecure) (trim_copy options.username) initial;
    active_channel_id = [];
    subscriptions = [];
    polling_stop = false;
    heartbeat_stop = false;
  })

  abbrev pub opened : Credentials → Stub R → Options → Result Text × R → Option (Open R)
  opened credentials stub options (err e, r) = none
  opened credentials stub options (ok client_id, r) = some (record {
    level = select_log_level options.quiet options.verbose;
    client_id = client_id;
    credentials = credentials;
    client = session_of stub options client_id r;
  })

  -- The session that run() opens, or none where it returns 1.
  unfoldable pub run : Options → R → Option (Open R)
  run options r =
      let address = trim_copy options.server_address in
      elim (build_credentials read_file options.insecure (trim_copy options.ca_cert_path)) [
        | none ↦ none
        | some credentials ↦
            let stub = dial address credentials in
            opened credentials stub options (connect_to_server stub (trim_copy options.username) r)
      ]

-- The states of a gRPC channel.
pub data ChannelState : Type 0 where
  idle connecting_to ready transient_failure shutdown : ChannelState

-- What the watcher shows when it begins.
unfoldable pub watch_start : ChannelState → Presenter → Presenter
watch_start ready p = p
watch_start idle p = update_connection_state connecting p
watch_start connecting_to p = update_connection_state connecting p
watch_start transient_failure p = update_connection_state connecting p
watch_start shutdown p = update_connection_state connecting p

-- The cases of its switch.
unfoldable pub watch_change : ChannelState → Presenter → Presenter
watch_change ready p = p
watch_change connecting_to p = update_connection_state connecting p
watch_change idle p = update_connection_state connecting p
watch_change transient_failure p = update_connection_state network_error p
watch_change shutdown p = update_connection_state closed p

-- A round of the watcher: whether it is told to stop by then, and the new state if it changed.
pub record Watch : Type 0 where
  pub stop_requested : Bool
  pub changed : Option ChannelState

unfoldable pub watch : List Watch → Presenter → Presenter
watch [] p = p
watch (w ∷ rounds) p =
    let p' : Presenter = elim w.changed [ none ↦ p | some new_state ↦ watch_change new_state p ] in
    let rest = watch rounds p' in if w.stop_requested then p else rest
