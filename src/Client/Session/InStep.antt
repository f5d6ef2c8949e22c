-- ===== src/Client/Session/InStep.antt =====
-- client-cli/src/main.cpp over the server: the channel that the session takes for the user's own, and
-- the memberships that the server keeps.
use monash_fit1045_hd_projec.Base.{
  ℕ, ◌≡◌, ◌≢◌, refl, sym, ap, ◌∙◌, inl, inr, [], ◌∷◌, arith, Bool, true, false, ◌||◌, Option, none,
  some, Text, eq_refl, is_empty, if◌then◌else◌, Bool-cases,
}
use monash_fit1045_hd_projec.Base.Int.{ℤ}
use monash_fit1045_hd_projec.Containers.Map
use monash_fit1045_hd_projec.Shared.Outcome.{channel_not_found, Result, ok, err}
use monash_fit1045_hd_projec.Shared.StringUtils.{trim, trim_copy}
use monash_fit1045_hd_projec.Shared.Ids.{UuidLib, ChannelId, ClientId, parse}
use monash_fit1045_hd_projec.Persistence.ChannelRepository.{is_member}
use monash_fit1045_hd_projec.Usecase.Ports.{Server}
use monash_fit1045_hd_projec.Usecase.JoinChannel.Enter.{Enters}
use monash_fit1045_hd_projec.Client.CommandParser
use monash_fit1045_hd_projec.Client.CommandParser.{
  CommandType, ParsedCommand, parse_command, join, create, leave, list, quit, unknown,
}
use monash_fit1045_hd_projec.Client.Gateway
use monash_fit1045_hd_projec.Client.Gateway.{Stub}
use monash_fit1045_hd_projec.Client.Gateway.EndToEnd.{served_by}
use monash_fit1045_hd_projec.Client.Gateway.Fit.{
  Fits, send_message-Fits, leave_channel-Fits, create_channel-Fits, join_channel_by_name-cases,
}
use monash_fit1045_hd_projec.Client.MessageView.{read_at}
use monash_fit1045_hd_projec.Client.Presenter.Commands.{
  on_channel_enter, handle_submit, handle_parsed_command, run_command,
}
use monash_fit1045_hd_projec.Client.Session.{
  Client, ask, announce, report, on_screen, client_screen, session_actions, send_message,
  list_channels, join_channel, create_channel, leave_channel, poll,
}
use monash_fit1045_hd_projec.Client.Session.Joining.{
  join_channel_joined, join_channel_failed, list_channels_lem,
}

-- The active channel, if there is one, is a channel of the client.
abbrev pub is_in_active : ClientId → Client Server → Bool
is_in_active client c =
    is_empty c.active_channel_id || is_member c.server.channels c.active_channel_id client

module _ (lib : UuidLib) (client : ClientId) where
  abbrev pub InStep : Client Server → Type 0
  InStep c = Fits lib client c.server × (is_in_active client c ≡ true)

  module _ (drawn : Text) (system_now steady_now now : ℕ)
      (this : parse lib (trim client) ≡ some client) where
    abbrev stub : Stub Server
    stub = served_by lib drawn system_now steady_now

    -- With the same active channel, and the same memberships of the client.
    pub kept :
        (c d : Client Server)
        → InStep c
        → d.active_channel_id ≡ c.active_channel_id
        → Fits lib client d.server
        → ((k : ChannelId)
            → is_member d.server.channels k client ≡ is_member c.server.channels k client)
        → InStep d
    kept c d h same f members = (f, rw (same, members c.active_channel_id) h.1)

    report-InStep : {A : Type 0} (p : Result A × Client Server) → InStep p.1 → InStep (report p)
    report-InStep (ok a, c) h = h
    report-InStep (err e, c) h = h

    list_channels-InStep : (c : Client Server) → InStep c → InStep (list_channels stub client c)
    unfolding Gateway.list_channels
    list_channels-InStep c h =
        let (active, subscribed, served) = list_channels_lem stub client c in
        kept c (list_channels stub client c) h active (rw served h.0) (λ k. rw served refl)

    send_message-InStep :
        (content : Text) (c : Client Server)
        → InStep c
        → InStep (send_message stub client content c)
    unfolding send_message
    send_message-InStep content c h = elim (Bool-cases (is_empty c.active_channel_id)) [
      | inl no_channel ↦ rw (no_channel, send_message) h
      | inr active ↦
          let (f, same) =
            send_message-Fits lib client drawn system_now steady_now this c.active_channel_id
              content c.server h.0 in
          let sent = ask (Gateway.send_message stub client c.active_channel_id content) c in
          rw (active, send_message)
            (report-InStep sent (kept c sent.1 h refl f (λ k. ap (λ r. is_member r k client) same)))
    ]

    leave_channel-InStep : (c : Client Server) → InStep c → InStep (leave_channel stub client c)
    unfolding leave_channel
    leave_channel-InStep c h = elim (Bool-cases (is_empty c.active_channel_id)) [
      | inl no_channel ↦ rw (no_channel, leave_channel) (h.0, refl)
      | inr active ↦
          rw (active, leave_channel)
            (report-InStep
              (ask (Gateway.leave_channel stub client c.active_channel_id)
                (record c { active_channel_id = [] }))
              (
                leave_channel-Fits lib client drawn system_now steady_now this c.active_channel_id
                    c.server h.0,
                refl,
              ))
    ]

    announce-InStep :
        (name : Text) (p : Result Text × Client Server)
        → InStep p.1
        → InStep (announce stub client name p)
    announce-InStep name (ok id, c) h = list_channels-InStep c h
    announce-InStep name (err e, c) h = h

    create_channel-InStep :
        (name : Text) (c : Client Server)
        → InStep c
        → Map.find drawn c.server.channels.channels_by_id ≡ none
        → parse lib (trim drawn) ≡ some drawn
        → InStep (create_channel stub client name c)
    unfolding create_channel
    create_channel-InStep name c h fresh that = elim (Bool-cases (is_empty (trim name))) [
      | inl blank ↦ rw (blank, create_channel) h
      | inr solid ↦
          let (f, members) =
            create_channel-Fits lib client drawn system_now steady_now this (trim name) c.server h.0
              fresh that in
          let created = ask (Gateway.create_channel stub client (trim name)) c in
          rw (solid, create_channel)
            (announce-InStep (trim name) created (kept c created.1 h refl f members))
    ]

    entered-InStep :
        (k : ChannelId) (c d : Client Server) (s : Server)
        → Fits lib client c.server
        → Enters client k c.server s
        → d.active_channel_id ≡ k
        → d.server ≡ s
        → InStep d
    entered-InStep k c d s f enters active served =
        let fits : Fits lib client s = record {
          sound = enters.sound;
          online = enters.connected client ∙ f.online;
          printed = λ j n e. f.printed j n (sym (enters.named j) ∙ e);
        } in
        let there : is_member s.channels k client ≡ true =
          ground (arith, enters.member k client, eq_refl client, eq_refl k) in
        (rw served fits, rw (active, served) (ground (arith, there)))

    join_channel-InStep :
        (name : Text) (c : Client Server) → InStep c → InStep (join_channel stub client now name c)
    unfolding join_channel Gateway.list_channels
    join_channel-InStep name c h = elim (Bool-cases (is_empty (trim name))) [
      | inl blank ↦ rw (blank, join_channel) h
      | inr solid ↦
          let named : trim name ≢ [] = λ e. ground arith in
          elim (join_channel_by_name-cases lib drawn system_now steady_now client (trim name)
            c.server h.0 this) [
              | inl (k, joined, enters) ↦
                  let s' = (Gateway.join_channel_by_name stub client (trim name) c.server).1 in
                  let (active, subscribed, served) =
                    join_channel_joined stub client now name k s' c named
                      (ap (λ r. (r, s')) joined) in
                  entered-InStep k c (join_channel stub client now name c) s' h.0 enters active
                    served
              | inr failed ↦
                  rw
                    (join_channel_failed stub client now name channel_not_found c.server c named
                      (λ e. cc) failed)
                    h
            ]
    ]

    run_command-InStep :
        (type : CommandType) (arg input : Text) (c : Client Server)
        → InStep c
        → Map.find drawn c.server.channels.channels_by_id ≡ none
        → parse lib (trim drawn) ≡ some drawn
        → InStep (run_command client_screen type arg input (session_actions stub client now) c)
    unfolding run_command
    run_command-InStep join arg input c h fresh that = join_channel-InStep arg c h
    run_command-InStep create arg input c h fresh that = create_channel-InStep arg c h fresh that
    run_command-InStep leave arg input c h fresh that = leave_channel-InStep c h
    run_command-InStep list arg input c h fresh that = list_channels-InStep c h
    run_command-InStep quit arg input c h fresh that = h
    run_command-InStep unknown arg input c h fresh that = h
    run_command-InStep CommandParser.none arg [] c h fresh that = h
    run_command-InStep CommandParser.none arg (x ∷ input) c h fresh that =
        send_message-InStep (x ∷ input) c h

    choose : (b : Bool) (c d : Client Server) → InStep c → InStep d → InStep (if b then c else d)
    choose true c d h k = h
    choose false c d h k = k

    pub handle_submit-InStep :
        (c : Client Server)
        → InStep c
        → Map.find drawn c.server.channels.channels_by_id ≡ none
        → parse lib (trim drawn) ≡ some drawn
        → InStep (handle_submit client_screen (session_actions stub client now) c)
    unfolding handle_submit handle_parsed_command
    handle_submit-InStep c h fresh that =
        let input = trim_copy c.presenter.input_text in
        choose _ _ _ h (
          run_command-InStep (parse_command input).type (parse_command input).arg input
            (on_screen (λ p. record p { input_text = [] }) c) h fresh that)

    pub on_channel_enter-InStep :
        (idx : ℤ) (c : Client Server)
        → InStep c
        → InStep (on_channel_enter client_screen idx (session_actions stub client now) c)
    unfolding on_channel_enter
    on_channel_enter-InStep idx c h =
        choose _ c _ h (entered (read_at c.presenter.channel_names idx))
      where
        entered :
            (o : Option Text)
            → InStep (elim o [ none ↦ c | some name ↦ join_channel stub client now name c ])
        entered none = h
        entered (some name) = join_channel-InStep name c h

    pub poll-InStep : (c : Client Server) → InStep c → InStep (poll stub client c)
    unfolding poll
    poll-InStep c h = choose c.polling_stop c _ h (list_channels-InStep c h)
