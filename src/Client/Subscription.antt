-- ===== src/Client/Subscription.antt =====
-- client-cli/src/adapter/grpc/grpc_server_gateway.cpp, subscribeToChannel, and
-- client-cli/src/application/usecase/subscribe_command.cpp: reading the stream of a channel. What gRPC
-- makes of the stream is a parameter: the events that are read, each with the clock in milliseconds,
-- and the status that Finish returns.
use monash_fit1045_hd_projec.Base.{
  ℕ, ◌*◌, ◌≤◌, ◌≡◌, refl, sym, ◌∙◌, [], ◌∷◌, ◌++◌, append_assoc, append-nil, Option, none, some,
  List, Text, length, Option-cases, inl, inr,
}
use monash_fit1045_hd_projec.Shared.Outcome.{VoidResult, ok, err, error_message, Result-cases}
use monash_fit1045_hd_projec.Shared.StringUtils.{trim_copy}
use monash_fit1045_hd_projec.Publisher.ClientPublisher.{ChannelEvent}
use monash_fit1045_hd_projec.Client.Gateway.{Reply, result_of}
use monash_fit1045_hd_projec.Client.Inbox.{InboxMessage, read_event, push}
use monash_fit1045_hd_projec.Client.Presenter.{Presenter, show_message, show_error, max_drained}
use monash_fit1045_hd_projec.Client.Presenter.Follow.{draw_times, draw_times_shows}

pub record Stream : Type 0 where
  pub events : List (ℕ × ChannelEvent)
  pub status : Reply (Unit {0})

abbrev pub emit : {P : Type 0} → (InboxMessage → P → P) → Option InboxMessage → P → P
emit callback none p = p
emit callback (some m) p = callback m p

-- while (reader->Read(&event))
unfoldable pub read_all :
    {P : Type 0} → (InboxMessage → P → P) → Text → List (ℕ × ChannelEvent) → P → P
read_all callback subscribed [] p = p
read_all callback subscribed ((now, event) ∷ events) p =
    read_all callback subscribed events (emit callback (read_event subscribed now event) p)

-- `open` is stub_->SubscribeToChannel.
unfoldable pub subscribe_to_channel :
    {P : Type 0}
    → (Text → Text → Stream)
    → Text
    → Text
    → (InboxMessage → P → P)
    → P
    → VoidResult × P
subscribe_to_channel open_stream client_id channel_id callback p =
    let trimmed_channel_id = trim_copy channel_id in
    let stream = open_stream (trim_copy client_id) trimmed_channel_id in
    (result_of stream.status, read_all callback trimmed_channel_id stream.events p)

abbrev pub show_failure : VoidResult × Presenter → VoidResult × Presenter
show_failure (ok u, p) = (ok u, p)
show_failure (err e, p) = (err e, show_error (error_message e) p)

-- SubscribeCommand::execute
unfoldable pub subscribe_command :
    (Text → Text → Stream) → Text → Text → Presenter → VoidResult × Presenter
subscribe_command open_stream client_id channel_id p =
    show_failure (subscribe_to_channel open_stream client_id channel_id show_message p)

-- The messages that the client makes of the events, in their order.
abbrev pub messages_of : Text → List (ℕ × ChannelEvent) → List InboxMessage
messages_of subscribed [] = []
messages_of subscribed ((now, event) ∷ events) = elim (read_event subscribed now event) [
  | none ↦ messages_of subscribed events
  | some m ↦ m ∷ messages_of subscribed events
]

read_all-inbox :
    (subscribed : Text) (events : List (ℕ × ChannelEvent)) (p : Presenter)
    → let p' = read_all show_message subscribed events p in
      (p'.inbox ≡ p.inbox ++ messages_of subscribed events) × (p'.messages ≡ p.messages)
unfolding read_all show_message push
read_all-inbox subscribed [] p = (sym (append-nil p.inbox), refl)
read_all-inbox subscribed ((now, event) ∷ events) p =
    elim (Option-cases (read_event subscribed now event)) [
      | inl quiet ↦ rw (quiet, read_all, messages_of) (read_all-inbox subscribed events p)
      | inr (m, said) ↦
          let (queued, same) = read_all-inbox subscribed events (show_message m p) in
          rw (said, read_all, messages_of)
            (queued ∙ append_assoc p.inbox (m ∷ []) (messages_of subscribed events), same)
    ]

-- Every event of the stream that makes a message comes to the screen: after the stream has ended,
-- whatever its status, and as many draws as there are fifties in the queue, a part of fifty counted as
-- one, the screen has the messages that it had, those that were in the queue, and those of the stream,
-- each once and in this order. The result is that of the status.
pub subscribe_command_shows :
    (open_stream : Text → Text → Stream) (client_id channel_id : Text) (n : ℕ) (p : Presenter)
    → let stream = open_stream (trim_copy client_id) (trim_copy channel_id) in
      let arrived = p.inbox ++ messages_of (trim_copy channel_id) stream.events in
      length arrived ≤ n * max_drained
      → let stream = open_stream (trim_copy client_id) (trim_copy channel_id) in
        let arrived = p.inbox ++ messages_of (trim_copy channel_id) stream.events in
        let r = subscribe_command open_stream client_id channel_id p in
        (r.0 ≡ result_of stream.status)
        × ((draw_times n r.1).messages ≡ p.messages ++ arrived)
        × ((draw_times n r.1).inbox ≡ [])
unfolding subscribe_command subscribe_to_channel show_error
subscribe_command_shows open_stream client_id channel_id n p fits =
    let subscribed = trim_copy channel_id in
    let stream = open_stream (trim_copy client_id) subscribed in
    let read = read_all show_message subscribed stream.events p in
    let (queued, same) = read_all-inbox subscribed stream.events p in
    elim (Result-cases (result_of stream.status)) [
      | inl (done, e) ↦
          let (shown, empty) = draw_times_shows n read (rw queued fits) in
          rw e (refl, shown ∙ rw (same, queued) refl, empty)
      | inr (error, e) ↦
          let (shown, empty) =
            draw_times_shows n (show_error (error_message error) read) (rw queued fits) in
          rw e (refl, shown ∙ rw (same, queued) refl, empty)
    ]
