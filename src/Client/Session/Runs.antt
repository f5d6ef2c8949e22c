-- ===== src/Client/Session/Runs.antt =====
-- client-cli/src/main.cpp over the server: a session as a sequence of steps, with the server serving
-- others in between.
use monash_fit1045_hd_projec.Base.{◌∙◌, inl, inr, ℕ, ◌≡◌, refl, [], true, none, some, Text}
use monash_fit1045_hd_projec.Base.Int.{ℤ}
use monash_fit1045_hd_projec.Containers.Map
use monash_fit1045_hd_projec.Shared.StringUtils.{trim}
use monash_fit1045_hd_projec.Shared.Ids.{UuidLib, ClientId, parse}
use monash_fit1045_hd_projec.Usecase.Ports.{Server}
use monash_fit1045_hd_projec.Service.Requests.{Request, serve, IsFresh}
use monash_fit1045_hd_projec.Service.Requests.Soundness.{serve-IsSound}
use monash_fit1045_hd_projec.Service.Requests.Interference.{spares}
use monash_fit1045_hd_projec.Service.Requests.Interference.Others.{IsPrinted, serve-Spares}
use monash_fit1045_hd_projec.Client.Gateway.EndToEnd.{served_by}
use monash_fit1045_hd_projec.Client.Gateway.Fit.{Fits}
use monash_fit1045_hd_projec.Client.Presenter.Commands.{on_channel_enter, handle_submit}
use monash_fit1045_hd_projec.Client.Session.{
  Client, on_screen, client_screen, session_actions, poll,
}
use monash_fit1045_hd_projec.Client.Session.InStep.{
  is_in_active, InStep, kept, handle_submit-InStep, on_channel_enter-InStep, poll-InStep,
}

module _ (lib : UuidLib) (client : ClientId) where
  -- The states of a session that begins without a channel: its user types lines and chooses channels,
  -- its thread for the channel list polls, and the server serves requests of others in between. A line
  -- may use an identifier that the server draws.
  pub data Runs : Client Server → Type 0 where
    opens : (c : Client Server) → Fits lib client c.server → c.active_channel_id ≡ [] → Runs c
    types :
        (text drawn : Text) (system_now steady_now now : ℕ) (c : Client Server)
        → Runs c
        → Map.find drawn c.server.channels.channels_by_id ≡ none
        → parse lib (trim drawn) ≡ some drawn
        → Runs (
            handle_submit client_screen
              (session_actions (served_by lib drawn system_now steady_now) client now)
              (on_screen (λ p. record p { input_text = text }) c))
    chooses :
        (idx : ℤ) (system_now steady_now now : ℕ) (c : Client Server)
        → Runs c
        → Runs (
            on_channel_enter client_screen idx
              (session_actions (served_by lib [] system_now steady_now) client now)
              c)
    polls :
        (system_now steady_now : ℕ) (c : Client Server)
        → Runs c
        → Runs (poll (served_by lib [] system_now steady_now) client c)
    elsewhere :
        (r : Request) (c : Client Server)
        → Runs c
        → IsFresh lib r c.server
        → IsPrinted lib r
        → spares lib r client ≡ true
        → Runs (record c { server = serve lib r c.server })

  served-InStep :
      (r : Request) (c : Client Server)
      → parse lib (trim client) ≡ some client
      → InStep lib client c
      → IsFresh lib r c.server
      → IsPrinted lib r
      → spares lib r client ≡ true
      → InStep lib client (record c { server = serve lib r c.server })
  served-InStep r c this h fresh printed other =
      let f = h.0 in
      let spared = serve-Spares lib r client c.server f.sound fresh printed other in
      let fits : Fits lib client (serve lib r c.server) = record {
        sound = serve-IsSound lib r c.server f.sound fresh;
        online = spared.connected ∙ f.online;
        printed =
            λ k n e. elim (spared.named k n e) [ inl old ↦ f.printed k n old | inr new ↦ new ];
      } in
      kept lib client [] 0 0 0 this c (record c { server = serve lib r c.server }) h refl fits
        spared.member

  Runs-InStep :
      (c : Client Server) → parse lib (trim client) ≡ some client → Runs c → InStep lib client c
  Runs-InStep _ this (opens c f e) = (f, rw e refl)
  Runs-InStep _ this (types text drawn system_now steady_now now c runs fresh that) =
      handle_submit-InStep lib client drawn system_now steady_now now this
        (on_screen (λ p. record p { input_text = text }) c) (Runs-InStep c this runs) fresh that
  Runs-InStep _ this (chooses idx system_now steady_now now c runs) =
      on_channel_enter-InStep lib client [] system_now steady_now now this idx c
        (Runs-InStep c this runs)
  Runs-InStep _ this (polls system_now steady_now c runs) =
      poll-InStep lib client [] system_now steady_now 0 this c (Runs-InStep c this runs)
  Runs-InStep _ this (elsewhere r c runs fresh printed other) =
      served-InStep r c this (Runs-InStep c this runs) fresh printed other

  -- In every state that a session reaches by lines that its user types, channels that the user
  -- chooses and its polls of the channel list, with any requests of other clients served in between,
  -- the channel that the user's messages go to, if there is one, is a channel that the client is a
  -- member of on the server. The session begins without a channel, with a connected client of a sound
  -- server, and no sweep comes in between; the identifiers that are drawn are assumed to be fresh, and
  -- all to parse to themselves.
  pub Runs-is_in_active :
      (c : Client Server)
      → parse lib (trim client) ≡ some client
      → Runs c
      → is_in_active client c ≡ true
  Runs-is_in_active c this runs = (Runs-InStep c this runs).1
