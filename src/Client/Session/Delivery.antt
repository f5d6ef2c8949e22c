-- ===== src/Client/Session/Delivery.antt =====
-- client-cli/src/main.cpp over the server: the way of a typed message to the screens of the others.
use monash_fit1045_hd_projec.Base.{
  ℕ, ◌≡◌, ◌≢◌, refl, sym, ap, ◌∙◌, inl, inr, [], ◌∷◌, ◌++◌, arith, true, false, not, ◌&&◌, some,
  Text, codes, ◌==◌, starts_with, if◌then◌else◌,
}
use monash_fit1045_hd_projec.Shared.Outcome.{ok, Result-cases}
use monash_fit1045_hd_projec.Shared.StringUtils.{trim, trim_copy, trim_idem}
use monash_fit1045_hd_projec.Shared.Ids.{UuidLib, ClientId, parse}
use monash_fit1045_hd_projec.Domain.MessageContent
use monash_fit1045_hd_projec.Domain.MessageRouter.{include_sender, excludes}
use monash_fit1045_hd_projec.Persistence.ChannelRepository.{is_member}
use monash_fit1045_hd_projec.Persistence.ClientRegistry
use monash_fit1045_hd_projec.Publisher.Writers.{sent_to}
use monash_fit1045_hd_projec.Publisher.ClientPublisher.{
  message_to_event, value_or_empty, to_epoch_ms,
}
use monash_fit1045_hd_projec.Publisher.ClientPublisher.Delivery.{IsExclusive, Serves}
use monash_fit1045_hd_projec.Usecase.Ports.{Server}
use monash_fit1045_hd_projec.Usecase.Membership.{IsSound}
use monash_fit1045_hd_projec.Usecase.SendMessage
use monash_fit1045_hd_projec.Usecase.SendMessage.Effect.{composed, execute_delivers}
use monash_fit1045_hd_projec.Service.Handlers
use monash_fit1045_hd_projec.Client.CommandParser
use monash_fit1045_hd_projec.Client.CommandParser.{parse_command, parse_command-none_iff}
use monash_fit1045_hd_projec.Client.Inbox.{read_event, should_emit_event_for_channel}
use monash_fit1045_hd_projec.Client.Gateway
use monash_fit1045_hd_projec.Client.Gateway.{Stub}
use monash_fit1045_hd_projec.Client.Gateway.EndToEnd.{served_by}
use monash_fit1045_hd_projec.Client.Presenter.Commands.{
  handle_submit, handle_parsed_command, run_command,
}
use monash_fit1045_hd_projec.Client.Session.{Client, client_screen, session_actions, send_message}
use monash_fit1045_hd_projec.Client.Session.Joining.{is_empty-cons}
use monash_fit1045_hd_projec.Client.Session.Typed.{taken}

-- A line that is no command is sent as it is, without the spaces at its ends.
handle_submit-message :
    {R : Type 0} (stub : Stub R) (client : Text) (now : ℕ) (c : Client R)
    → let input = trim c.presenter.input_text in
      input ≢ []
      → starts_with (codes "/") (trim c.presenter.input_text) ≡ false
      → handle_submit client_screen (session_actions stub client now) c
        ≡ send_message stub client (trim c.presenter.input_text) (taken c)
unfolding handle_submit handle_parsed_command run_command trim_copy
handle_submit-message stub client now c solid plain =
    let input = trim c.presenter.input_text in
    let none_typed : (parse_command input).type ≡ CommandParser.none =
      (parse_command-none_iff input).1 (rw (trim_idem c.presenter.input_text) plain) in
    rw (none_typed, plain, is_empty-cons input solid) refl

send_message-server :
    {R : Type 0} (stub : Stub R) (client content : Text) (c : Client R)
    → c.active_channel_id ≢ []
    → (send_message stub client content c).server
      ≡ (Gateway.send_message stub client c.active_channel_id content c.server).1
unfolding send_message
send_message-server stub client content c active =
    elim (Result-cases (Gateway.send_message stub client c.active_channel_id content c.server).0) [
      | inl (sent, e) ↦ rw (is_empty-cons c.active_channel_id active, e) refl
      | inr (error, e) ↦ rw (is_empty-cons c.active_channel_id active, e) refl
    ]

served_send :
    (lib : UuidLib) (drawn : Text) (system_now steady_now : ℕ) (client k raw : Text) (s : Server)
    → parse lib (trim client) ≡ some client
    → parse lib (trim k) ≡ some k
    → (Gateway.send_message (served_by lib drawn system_now steady_now) client k (trim raw) s).1
      ≡ (SendMessage.execute client k (trim raw) include_sender drawn system_now s).1
unfolding Gateway.send_message Handlers.send_message trim_copy
served_send lib drawn system_now steady_now client k raw s this that =
    let this' : parse lib (trim (trim client)) ≡ some client = rw (trim_idem client) this in
    let that' : parse lib (trim (trim k)) ≡ some k = rw (trim_idem k) that in
    let same : trim (trim (trim raw)) ≡ trim raw = rw (trim_idem raw) (trim_idem raw) in
    rw (this', Handlers.send_message) (rw (that', same) refl)

create-solid : (raw text : Text) → MessageContent.create raw ≡ ok text → raw ≢ []
unfolding MessageContent.create MessageContent.trim MessageContent.skip_whitespace
create-solid [] text h = λ e. cc
create-solid (x ∷ raw) text h = λ e. cc

-- What the user types into a channel reaches the others: a line that is no command, and whose text
-- is valid, is written once to the stream of each subscriber who is a member of the active channel,
-- the user's own included, and to no other; and each client that reads it shows a message of that
-- text, under the user's name. The server is sound, the user is a member of the active channel, and the
-- two identifiers are assumed to parse to themselves, and no two subscribers to share a stream.
pub typed_message-delivers :
    (lib : UuidLib) (drawn : Text) (system_now steady_now now : ℕ) (client k text : Text)
    (j : ClientId) (w read_now : ℕ) (subscribed : Text) (c : Client Server)
    → IsSound c.server
    → parse lib (trim client) ≡ some client
    → parse lib (trim k) ≡ some k
    → c.active_channel_id ≡ k
    → k ≢ []
    → starts_with (codes "/") (trim c.presenter.input_text) ≡ false
    → is_member c.server.channels k client ≡ true
    → MessageContent.create (trim c.presenter.input_text) ≡ ok text
    → IsExclusive c.server.publisher
    → Serves c.server.publisher j w
    → let stub = served_by lib drawn system_now steady_now in
      let c' = handle_submit client_screen (session_actions stub client now) c in
      let event = message_to_event c.server.clients (composed client k text drawn system_now) in
      (sent_to w c'.server.publisher.written
        ≡ sent_to w c.server.publisher.written
          ++ (if is_member c.server.channels k j then event ∷ [] else []))
      × (read_event subscribed read_now event
          ≡ some (record {
            message_id = drawn;
            channel_id = k;
            sender_name = value_or_empty (ClientRegistry.lookup_username client c.server.clients);
            content = text;
            sent_at_ms = to_epoch_ms system_now;
            is_history = false;
          }))
unfolding read_event should_emit_event_for_channel message_to_event
typed_message-delivers lib drawn system_now steady_now now client k text j w read_now subscribed c v
      this that active solid plain member valid exclusive serves =
    let stub : Stub Server = served_by lib drawn system_now steady_now in
    let input : Text = trim c.presenter.input_text in
    let typed = handle_submit-message stub client now c (create-solid input text valid) plain in
    let sent = send_message-server stub client input (taken c) (λ e. solid (sym active ∙ e)) in
    let executed =
      served_send lib drawn system_now steady_now client k c.presenter.input_text c.server this
        that in
    let delivered =
      execute_delivers client k input text include_sender drawn system_now c.server v member valid j
        w exclusive serves in
    let event = message_to_event c.server.clients (composed client k text drawn system_now) in
    let served =
      ap (λ x. x.server) typed
      ∙ sent
      ∙ ap (λ a. (Gateway.send_message stub client a input c.server).1) active
      ∙ executed in
    let everybody : (is_member c.server.channels k j
          && not (excludes include_sender && (j == client)))
        ≡ is_member c.server.channels k j =
      ground arith in
    (
      ap (λ s. sent_to w s.publisher.written) served
          ∙ delivered
          ∙ ap (λ b. sent_to w c.server.publisher.written ++ (if b then event ∷ [] else []))
              everybody,
      refl,
    )
