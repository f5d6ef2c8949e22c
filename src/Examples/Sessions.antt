-- ===== src/Examples/Sessions.antt =====
-- The terminal client at work on the server of the examples.
use monash_fit1045_hd_projec.Base.{
  starts_with, ◌≡◌, refl, inl, inr, subst, [], ◌∷◌, ◌++◌, arith, true, false, some, Text, codes,
  ◌==◌, eq_iff, Bool-cases,
}
use monash_fit1045_hd_projec.Containers.Map
use monash_fit1045_hd_projec.Shared.StringUtils.{trim, skip_space, is_ascii_space}
use monash_fit1045_hd_projec.Shared.Logging.{warn}
use monash_fit1045_hd_projec.Shared.Ids.{parse, ChannelId}
use monash_fit1045_hd_projec.Persistence.ChannelRepository
use monash_fit1045_hd_projec.Usecase.Ports.{Server}
use monash_fit1045_hd_projec.Usecase.Membership.{name_at}
use monash_fit1045_hd_projec.Usecase.JoinChannel.Enter.{Enters}
use monash_fit1045_hd_projec.Service.Requests.{join_channel, serve}
use monash_fit1045_hd_projec.Service.Status.{Status, unavailable}
use monash_fit1045_hd_projec.Client.CommandParser.{join_prefix}
use monash_fit1045_hd_projec.Client.Gateway
use monash_fit1045_hd_projec.Client.Gateway.{Stub, answered, failed}
use monash_fit1045_hd_projec.Client.Gateway.EndToEnd.{served_by}
use monash_fit1045_hd_projec.Client.Gateway.Fit.{Fits}
use monash_fit1045_hd_projec.Client.Presenter.{initial, show_error}
use monash_fit1045_hd_projec.Client.Presenter.Commands.{handle_submit}
use monash_fit1045_hd_projec.Client.Session.{
  Client, on_screen, client_screen, session_actions, leave_channel, send_message,
}
use monash_fit1045_hd_projec.Client.Session.Joining.{leave_channel_forgets}
use monash_fit1045_hd_projec.Client.Session.Typed.{typed_join-Enters}
use monash_fit1045_hd_projec.Client.Session.InStep.{is_in_active}
use monash_fit1045_hd_projec.Client.Session.Runs.{elsewhere, opens, types, Runs-is_in_active}
use monash_fit1045_hd_projec.Client.Startup.{Options, Open, ssl_credentials, session_of}
use monash_fit1045_hd_projec.Containers.IdSet
use monash_fit1045_hd_projec.Domain.MessageContent
use monash_fit1045_hd_projec.Domain.Channel.{has_member}
use monash_fit1045_hd_projec.Persistence.ClientRegistry
use monash_fit1045_hd_projec.Publisher.Writers.{sent_to}
use monash_fit1045_hd_projec.Publisher.ClientPublisher.{
  message_to_event, value_or_empty, to_epoch_ms,
}
use monash_fit1045_hd_projec.Usecase.SendMessage.Effect.{composed}
use monash_fit1045_hd_projec.Client.Inbox.{read_event}
use monash_fit1045_hd_projec.Client.Session.Delivery.{typed_message-delivers}
use monash_fit1045_hd_projec.Examples.Party.{
  party-IsExclusive, byte_ids, id, ann, bob, general, random, party, party-IsSound,
}

-- Bob's client, and the same with a typed line.
abbrev opened : Client Server
opened = record {
  server = party;
  presenter = initial;
  active_channel_id = [];
  subscriptions = [];
  polling_stop = false;
  heartbeat_stop = false;
}

abbrev typed : Client Server
typed = on_screen (λ p. record p { input_text = join_prefix ++ codes "random" }) opened

typed_join-Enters_example :
    let stub = served_by byte_ids (id 90) 5 50 in
    let c' = handle_submit client_screen (session_actions stub bob 9) typed in
    (c'.active_channel_id ≡ random) × Enters bob random party c'.server
unfolding Map.find ◌==◌ parse trim skip_space is_ascii_space ChannelRepository.find_by_name
typed_join-Enters_example =
    typed_join-Enters byte_ids (id 90) 5 50 9 bob (codes "random")
      (record { id = random; name = codes "random"; members = []; created_at = 4 }) typed
      party-IsSound refl refl refl refl (record { front = refl; back = refl }) (λ e. cc) refl

party-printed :
    (k : ChannelId) (n : Text)
    → name_at party.channels k ≡ some n
    → parse byte_ids (trim k) ≡ some k
unfolding Map.find parse trim skip_space is_ascii_space
party-printed k n e = elim (Bool-cases (general == k)) [
  | inl first ↦ subst (λ j. parse byte_ids (trim j) ≡ some j) ((eq_iff general k).0 first) refl
  | inr later ↦ elim (Bool-cases (random == k)) [
    | inl second ↦ subst (λ j. parse byte_ids (trim j) ≡ some j) ((eq_iff random k).0 second) refl
    | inr neither ↦ absurd (ground arith)
  ]
]

party-Fits : Fits byte_ids bob party
unfolding Map.find ◌==◌
party-Fits = record { sound = party-IsSound; online = refl; printed = party-printed }

-- Bob types a line, and then ann joins the same channel.
abbrev moved : Client Server
moved =
    handle_submit client_screen (session_actions (served_by byte_ids (id 90) 5 50) bob 9)
      (on_screen (λ p. record p { input_text = codes "/join random" }) opened)

abbrev followed : Client Server
followed = record moved { server = serve byte_ids (join_channel ann random) moved.server }

Runs-is_in_active_example : is_in_active bob followed ≡ true
unfolding Map.find ◌==◌ parse trim skip_space is_ascii_space
Runs-is_in_active_example = Runs-is_in_active byte_ids bob followed refl (
    elsewhere (join_channel ann random) moved
      (types (codes "/join random") (id 90) 5 50 9 opened (opens opened party-Fits refl) refl refl)
      tt tt refl)

-- A server that cannot be reached.
abbrev broken : Status
broken = record { code = unavailable; message = codes "connection refused" }

abbrev no_server : Stub (Unit {0})
no_server = record {
  connect = λ name r. (failed broken, r);
  disconnect = λ client r. (failed broken, r);
  create_channel = λ client name r. (failed broken, r);
  list_channels = λ r. (failed broken, r);
  join_channel = λ client channel r. (failed broken, r);
  leave_channel = λ client channel r. (failed broken, r);
  send_message = λ client channel content r. (failed broken, r);
  heartbeat = λ client r. (failed broken, r);
}

abbrev stranded : Client (Unit {0})
stranded = record {
  server = tt;
  presenter = initial;
  active_channel_id = random;
  subscriptions = random ∷ [];
  polling_stop = false;
  heartbeat_stop = false;
}

leave_channel_forgets_example :
    let c' = leave_channel no_server bob stranded in
    (c'.active_channel_id ≡ [])
    × (leave_channel no_server bob c' ≡ on_screen (show_error (codes "no active channel")) c')
    × (send_message no_server bob (codes "hello") c'
        ≡ on_screen (show_error (codes "join a channel before sending")) c')
leave_channel_forgets_example = leave_channel_forgets no_server bob (codes "hello") stranded

-- The client begins with a server that cannot be reached, with a certificate.
abbrev options : Options
options = record {
  server_address = codes "localhost:50051";
  username = codes " bob ";
  ca_cert_path = [];
  insecure = false;
  verbose = false;
  quiet = true;
}

abbrev one_client : Stub (Unit {0})
one_client = record {
  connect = λ name r. (answered bob, r);
  disconnect = λ client r. (failed broken, r);
  create_channel = λ client name r. (failed broken, r);
  list_channels = λ r. (answered [], r);
  join_channel = λ client channel r. (failed broken, r);
  leave_channel = λ client channel r. (failed broken, r);
  send_message = λ client channel content r. (failed broken, r);
  heartbeat = λ client r. (failed broken, r);
}

abbrev session : Open (Unit {0})
session = record {
  level = warn;
  client_id = bob;
  credentials = ssl_credentials [];
  client = session_of (λ path. []) (λ address credentials. one_client) one_client options bob tt;
}

-- Ann says hello in general, and hears it.
abbrev ann_types : Client Server
ann_types = record {
  server = party;
  presenter = record initial { input_text = codes " hello " };
  active_channel_id = general;
  subscriptions = general ∷ [];
  polling_stop = false;
  heartbeat_stop = false;
}

typed_message-delivers_example :
    let c' =
      handle_submit client_screen
        (session_actions (served_by byte_ids (id 90) 5 50) ann 9)
        ann_types in
    let event = message_to_event party.clients (composed ann general (codes "hello") (id 90) 5) in
    (sent_to 100 c'.server.publisher.written ≡ event ∷ [])
    × (read_event general 8 event
        ≡ some (record {
          message_id = id 90;
          channel_id = general;
          sender_name = value_or_empty (ClientRegistry.lookup_username ann party.clients);
          content = codes "hello";
          sent_at_ms = to_epoch_ms 5;
          is_history = false;
        }))
unfolding has_member IdSet.contains ◌==◌ Map.find MessageContent.create MessageContent.trim
    MessageContent.skip_whitespace MessageContent.is_whitespace parse trim skip_space is_ascii_space
    starts_with
typed_message-delivers_example =
    typed_message-delivers byte_ids (id 90) 5 50 9 ann general (codes "hello") ann 100 8 general
      ann_types party-IsSound refl refl refl (λ e. cc) refl refl refl party-IsExclusive
      (0, refl, refl)
