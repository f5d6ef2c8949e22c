-- ===== src/Client/Session/Typed.antt =====
-- client-cli/src/adapter/tui/ftxui_presenter.cpp and client-cli/src/main.cpp over the server: what the
-- lines that a user types do to the user's channel.
use monash_fit1045_hd_projec.Base.{
  ℕ, ◌≡◌, ◌≢◌, refl, sym, ap, ◌∙◌, subst, [], ◌++◌, true, some, Text,
}
use monash_fit1045_hd_projec.Shared.Outcome.{ok}
use monash_fit1045_hd_projec.Shared.StringUtils.{trim, trim_copy, IsTrimmed, trim_trimmed}
use monash_fit1045_hd_projec.Shared.Ids.{UuidLib, ClientId, parse}
use monash_fit1045_hd_projec.Domain.Channel.{Channel}
use monash_fit1045_hd_projec.Persistence.ChannelRepository
use monash_fit1045_hd_projec.Persistence.ClientRegistry.Memberships.{is_connected}
use monash_fit1045_hd_projec.Usecase.Ports.{Server}
use monash_fit1045_hd_projec.Usecase.Membership.{IsSound}
use monash_fit1045_hd_projec.Usecase.JoinChannel.Enter.{Enters}
use monash_fit1045_hd_projec.Client.CommandParser.{parse_command_join, trim-join, join_prefix}
use monash_fit1045_hd_projec.Client.Gateway
use monash_fit1045_hd_projec.Client.Gateway.{Stub}
use monash_fit1045_hd_projec.Client.Gateway.EndToEnd.{served_by, join_channel_by_name-Enters}
use monash_fit1045_hd_projec.Client.Presenter.Commands.{
  handle_submit, handle_parsed_command, run_command,
}
use monash_fit1045_hd_projec.Client.Session.{
  Client, on_screen, client_screen, session_actions, join_channel,
}
use monash_fit1045_hd_projec.Client.Session.Joining.{join_channel_joined}

-- The input line is taken.
abbrev pub taken : {R : Type 0} → Client R → Client R
taken c = on_screen (λ p. record p { input_text = [] }) c

handle_submit-join :
    {R : Type 0} (stub : Stub R) (client name : Text) (now : ℕ) (c : Client R)
    → IsTrimmed name
    → name ≢ []
    → c.presenter.input_text ≡ join_prefix ++ name
    → handle_submit client_screen (session_actions stub client now) c
      ≡ join_channel stub client now name (taken c)
unfolding handle_submit handle_parsed_command run_command trim_copy
handle_submit-join stub client name now c trimmed solid typed =
    rw (typed, trim-join name trimmed solid, parse_command_join name trimmed solid) refl

-- In a sound server, a connected client whose user types the word join and the name of a channel that
-- exists ends up in that channel and in no other, and the channel is the one that the user's messages
-- go to. The name has no space at its ends, and the texts of the two identifiers are assumed to parse
-- to themselves.
pub typed_join-Enters :
    (lib : UuidLib) (drawn : Text) (system_now steady_now now : ℕ) (client : ClientId) (name : Text)
    (channel : Channel) (c : Client Server)
    → IsSound c.server
    → is_connected c.server.clients client ≡ true
    → parse lib (trim client) ≡ some client
    → parse lib (trim channel.id) ≡ some channel.id
    → ChannelRepository.find_by_name name c.server.channels ≡ ok channel
    → IsTrimmed name
    → name ≢ []
    → c.presenter.input_text ≡ join_prefix ++ name
    → let stub = served_by lib drawn system_now steady_now in
      let c' = handle_submit client_screen (session_actions stub client now) c in
      (c'.active_channel_id ≡ channel.id) × Enters client channel.id c.server c'.server
unfolding Gateway.list_channels
typed_join-Enters lib drawn system_now steady_now now client name channel c v online this that named
      trimmed solid typed =
    let stub : Stub Server = served_by lib drawn system_now steady_now in
    let same : trim name ≡ name = trim_trimmed name trimmed in
    let named' : ChannelRepository.find_by_name (trim (trim name)) c.server.channels ≡ ok channel =
      rw (same, same) named in
    let (done, enters) =
      join_channel_by_name-Enters lib drawn system_now steady_now client (trim name) channel
        c.server v online this that named' in
    let r = Gateway.join_channel_by_name stub client (trim name) c.server in
    let joined : r ≡ (ok channel.id, r.1) = ap (λ a. (a, r.1)) done in
    let (active, subscribed, served) =
      join_channel_joined stub client now name channel.id r.1 (taken c) (λ e. solid (sym same ∙ e))
        joined in
    rw (handle_submit-join stub client name now c trimmed solid typed)
      (active, subst (λ s. Enters client channel.id c.server s) (sym served) enters)
