-- ===== src/Client/Session.antt =====
-- client-cli/src/main.cpp, class ClientSession, with the use cases of client-cli/src/application that
-- it calls the gateway through: what the client does for its user, over the server behind the stub.
pub mod Joining
pub mod Typed
pub mod InStep
pub mod Runs
pub mod Delivery
use monash_fit1045_hd_projec.Base.{
  ℕ, ◌≡◌, refl, sym, ap, ◌∙◌, [], ◌∷◌, ◌++◌, map, arith, Bool, true, false, not, Option, none, some,
  List, Text, codes, ◌==◌, is_empty, if◌then◌else◌,
}
use monash_fit1045_hd_projec.Shared.Outcome.{
  Error, Result, ok, err, Exec, or_fail, same_error, error_message, already_member,
  channel_not_found,
}
use monash_fit1045_hd_projec.Shared.StringUtils.{trim}
use monash_fit1045_hd_projec.Publisher.ChannelListPublisher.{ChannelSummary}
use monash_fit1045_hd_projec.Client.Inbox.{InboxMessage, system_message}
use monash_fit1045_hd_projec.Client.Gateway
use monash_fit1045_hd_projec.Client.Gateway.{Stub, find_named}
use monash_fit1045_hd_projec.Client.UseCases.{
  send_message_command, join_channel_command, create_channel_command, send_heartbeat_command,
}
use monash_fit1045_hd_projec.Client.Presenter.{
  Presenter, ConnectionState, connected, network_error, closed, show_message, show_error, show_info,
  show_channel_list, update_connection_state,
}
use monash_fit1045_hd_projec.Client.Presenter.Commands.{Screen, Actions}

-- The state that a session reads and writes: the server behind its stub, the screen, the channel that
-- messages go to (empty for none), the channels a subscription thread was started for, the newest
-- first, and whether the threads for the channel list and the heartbeat are told to stop.
pub record Client (R : Type 0) : Type 0 where
  pub server : R
  pub presenter : Presenter
  pub active_channel_id : Text
  pub subscriptions : List Text
  pub polling_stop : Bool
  pub heartbeat_stop : Bool

abbrev pub on_screen : {R : Type 0} → (Presenter → Presenter) → Client R → Client R
on_screen f c = record c { presenter = f c.presenter }

abbrev pub client_screen : {R : Type 0} → Screen (Client R)
client_screen = record { get = λ c. c.presenter; update = on_screen }

-- A call of the gateway.
abbrev pub ask : {R A : Type 0} → Exec R A → Exec (Client R) A
ask call c = let (r, s) = call c.server in (r, record c { server = s })

-- presenter_->showError(error_message(error))
abbrev pub fail_with : {R : Type 0} → Error → Client R → Client R
fail_with e = on_screen (show_error (error_message e))

-- if (!result.has_value()) show the error.
abbrev pub report : {R A : Type 0} → Result A × Client R → Client R
report (ok a, c) = c
report (err e, c) = fail_with e c

module _ {R : Type 0} (stub : Stub R) (client_id : Text) where
  unfoldable pub send_message : Text → Client R → Client R
  send_message content c =
      if is_empty c.active_channel_id
      then on_screen (show_error (codes "join a channel before sending")) c
      else report (ask (send_message_command stub client_id c.active_channel_id content) c)

  abbrev pub listed : Result (List ChannelSummary) × Client R → Client R
  listed (ok channels, c) = on_screen (show_channel_list (map (λ info. info.name) channels)) c
  listed (err e, c) = fail_with e c

  unfoldable pub list_channels : Client R → Client R
  list_channels c = listed (ask (Gateway.list_channels stub) c)

  abbrev pub id_of_named : Text → Result (List ChannelSummary) × Client R → Result Text × Client R
  id_of_named name (err e, c) = (err e, c)
  id_of_named name (ok channels, c) = elim (find_named name channels) [
    | none ↦ (err channel_not_found, c)
    | some channel ↦ (ok channel.id, c)
  ]

  unfoldable pub resolve_channel_id_by_name : Text → Exec (Client R) Text
  resolve_channel_id_by_name channel_name c =
      id_of_named (trim channel_name) (ask (Gateway.list_channels stub) c)

  abbrev pub show_outcome : Text → Result Text × Client R → Result Text × Client R
  show_outcome text (ok id, c) = (ok id, on_screen (show_info text) c)
  show_outcome text (err e, c) = (err e, fail_with e c)

  -- The identifier of the channel that was joined, or that the client is in already.
  abbrev pub resolve_joined : Text → Result Text × Client R → Result Text × Client R
  resolve_joined trimmed (ok id, c) = show_outcome (codes "joined channel: " ++ trimmed) (ok id, c)
  resolve_joined trimmed (err e, c) =
      if same_error e already_member
      then show_outcome (codes "already in channel: " ++ trimmed)
          (resolve_channel_id_by_name trimmed c)
      else (err e, fail_with e c)

  abbrev pub subscribe_to : Text → Client R → Client R
  subscribe_to channel_id c = record c { subscriptions = channel_id ∷ c.subscriptions }

  -- From the exchange of the active channel on; `now` is the clock in milliseconds.
  unfoldable pub switch_to : Text → ℕ → Text → Client R → Client R
  switch_to trimmed now resolved c =
      let moved = record c { active_channel_id = resolved } in
      let note = system_message resolved (codes "connected to channel " ++ trimmed) now in
      if c.active_channel_id == resolved
      then list_channels moved
      else list_channels (subscribe_to resolved (on_screen (show_message note) moved))

  abbrev pub switch_if_joined : Text → ℕ → Result Text × Client R → Client R
  switch_if_joined trimmed now (ok resolved, c) = switch_to trimmed now resolved c
  switch_if_joined trimmed now (err e, c) = c

  unfoldable pub join_channel : ℕ → Text → Client R → Client R
  join_channel now channel_name c =
      let trimmed = trim channel_name in
      if is_empty trimmed
      then on_screen (show_error (codes "usage: /join <channel>")) c
      else switch_if_joined trimmed now
          (resolve_joined trimmed (ask (join_channel_command stub client_id trimmed) c))

  abbrev pub announce : Text → Result Text × Client R → Client R
  announce trimmed (ok id, c) =
      on_screen (show_info (codes "channel created: " ++ trimmed ++ codes " (use /join to enter)"))
        (list_channels c)
  announce trimmed (err e, c) = fail_with e c

  unfoldable pub create_channel : Text → Client R → Client R
  create_channel channel_name c =
      let trimmed = trim channel_name in
      if is_empty trimmed
      then on_screen (show_error (codes "usage: /create <channel>")) c
      else announce trimmed (ask (create_channel_command stub client_id trimmed) c)

  unfoldable pub leave_channel : Client R → Client R
  leave_channel c =
      let forgotten = record c { active_channel_id = [] } in
      if is_empty c.active_channel_id
      then on_screen (show_error (codes "no active channel")) forgotten
      else report (ask (Gateway.leave_channel stub client_id c.active_channel_id) forgotten)

  -- The error of the last call is only logged.
  unfoldable pub disconnect : Client R → Client R
  disconnect c =
      let stopped = record c {
        heartbeat_stop = true;
        polling_stop = true;
        presenter = update_connection_state closed c.presenter;
      } in
      (ask (Gateway.disconnect stub client_id) stopped).1

  abbrev pub state_of : Result (Unit {0}) → ConnectionState
  state_of (ok u) = connected
  state_of (err e) = network_error

  -- One round of the heartbeat after its pause. The two flags are what stop_requested() answers before
  -- and after the call.
  unfoldable pub run_heartbeat : Bool → Bool → Client R → Client R
  run_heartbeat stopped_before stopped_after c =
      let (result, beaten) = ask (send_heartbeat_command stub client_id) c in
      if stopped_before
      then c
      else if stopped_after
      then beaten
      else on_screen (update_connection_state (state_of result)) beaten

  -- One round of the thread for the channel list after its pause.
  unfoldable pub poll : Client R → Client R
  poll c = if c.polling_stop then c else list_channels c

  -- The actions that run() gives to the screen.
  abbrev pub session_actions : ℕ → Actions (Client R)
  session_actions now = record {
    send_message = some send_message;
    join_channel = some (join_channel now);
    create_channel = some create_channel;
    leave_channel = some leave_channel;
    list_channels = some list_channels;
  }
