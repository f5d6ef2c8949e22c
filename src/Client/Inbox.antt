-- ===== src/Client/Inbox.antt =====
-- client-cli/src/adapter/tui/inbox_queue.cpp and client-cli/src/adapter/grpc: what the client makes of
-- the events of its stream, and the queue between the thread that reads the stream and the screen.
use monash_fit1045_hd_projec.Base.{
  ℕ, zero, suc, ◌≡◌, refl, sym, ap, ◌∙◌, [], ◌∷◌, ◌++◌, append-nil, append_assoc, Bool, true, false,
  Option, none, some, List, Text, codes, ◌==◌, take, drop, if◌then◌else◌,
}
use monash_fit1045_hd_projec.Publisher.ClientPublisher.{
  ChannelEvent, message, member_joined, member_left, channel_closed,
}

pub record InboxMessage : Type 0 where
  pub message_id : Text
  pub channel_id : Text
  pub sender_name : Text
  pub content : Text
  pub sent_at_ms : ℕ
  pub is_history : Bool

-- Events of members are for the channel on screen only.
unfoldable pub should_emit_event_for_channel : ChannelEvent → Text → Bool
should_emit_event_for_channel (member_left e) subscribed = e.channel_id == subscribed
should_emit_event_for_channel (member_joined e) subscribed = e.channel_id == subscribed
should_emit_event_for_channel (message e) subscribed = true
should_emit_event_for_channel (channel_closed id reason) subscribed = true

abbrev pub system_message : Text → Text → ℕ → InboxMessage
system_message channel_id content now = record {
  message_id = [];
  channel_id = channel_id;
  sender_name = codes "[system]";
  content = content;
  sent_at_ms = now;
  is_history = false;
}

-- The branches of the loop: the message for the callback, if any; `now` is the clock in milliseconds.
abbrev pub inbox_message_of : ChannelEvent → ℕ → Option InboxMessage
inbox_message_of (message e) now = some (record {
  message_id = e.message_id;
  channel_id = e.channel_id;
  sender_name = e.sender_name;
  content = e.content;
  sent_at_ms = e.sent_at_ms;
  is_history = false;
})
inbox_message_of (member_left e) now =
    some (system_message e.channel_id (e.username ++ codes " left channel") now)
inbox_message_of (member_joined e) now =
    some (system_message e.channel_id (e.username ++ codes " joined channel") now)
inbox_message_of (channel_closed id reason) now = none

-- The body of while (reader->Read(&event)).
unfoldable pub read_event : Text → ℕ → ChannelEvent → Option InboxMessage
read_event subscribed now event =
    if should_emit_event_for_channel event subscribed then inbox_message_of event now else none

abbrev pub InboxQueue : Type 0
InboxQueue = List InboxMessage

unfoldable pub push : InboxMessage → InboxQueue → InboxQueue
push m messages = messages ++ (m ∷ [])

-- The message that is moved out, and the queue that is left.
unfoldable pub try_pop : InboxQueue → Option InboxMessage × InboxQueue
try_pop [] = (none, [])
try_pop (m ∷ messages) = (some m, messages)

-- The list that is appended to, and the queue that is left. `max_count` bounds the loop.
unfoldable pub drain_to : ℕ → List InboxMessage → InboxQueue → List InboxMessage × InboxQueue
drain_to zero out messages = (out, messages)
drain_to (suc max_count) out [] = (out, [])
drain_to (suc max_count) out (m ∷ messages) = drain_to max_count (out ++ (m ∷ [])) messages

unfoldable pub clear : InboxQueue → InboxQueue
clear messages = []

-- What the reading thread and the screen do, in the order of their locks.
pub data Turn : Type 0 where
  pushes : InboxMessage → Turn
  drains : ℕ → Turn

unfoldable pub take_turns :
    List Turn → List InboxMessage × InboxQueue → List InboxMessage × InboxQueue
take_turns [] s = s
take_turns (pushes m ∷ turns) s = take_turns turns (s.0, push m s.1)
take_turns (drains n ∷ turns) s = take_turns turns (drain_to n s.0 s.1)

abbrev pub pushed : List Turn → List InboxMessage
pushed [] = []
pushed (pushes m ∷ turns) = m ∷ pushed turns
pushed (drains n ∷ turns) = pushed turns

-- Draining moves the oldest messages, at most `n` of them, and leaves the others in their order.
pub drain_to-take :
    (n : ℕ) (out messages : List InboxMessage)
    → drain_to n out messages ≡ (out ++ take n messages, drop n messages)
unfolding drain_to
drain_to-take zero out messages = ap (λ o. (o, messages)) (sym (append-nil out))
drain_to-take (suc n) out [] = ap (λ o. (o, [])) (sym (append-nil out))
drain_to-take (suc n) out (m ∷ messages) =
    drain_to-take n (out ++ (m ∷ [])) messages
    ∙ ap (λ o. (o, drop n messages)) (append_assoc out (m ∷ []) (take n messages))

drain_to-keeps :
    (n : ℕ) (out messages : List InboxMessage)
    → (drain_to n out messages).0 ++ (drain_to n out messages).1 ≡ out ++ messages
unfolding drain_to
drain_to-keeps zero out messages = refl
drain_to-keeps (suc n) out [] = refl
drain_to-keeps (suc n) out (m ∷ messages) =
    drain_to-keeps n (out ++ (m ∷ [])) messages ∙ append_assoc out (m ∷ []) messages

-- However the reading thread and the screen take turns, the messages on the screen followed by those
-- in the queue are all messages that were there or were pushed, in their order: none is lost, none
-- shown twice.
pub take_turns-pushed :
    (turns : List Turn) (out messages : List InboxMessage)
    → let s = take_turns turns (out, messages) in s.0 ++ s.1 ≡ (out ++ messages) ++ pushed turns
unfolding take_turns push
take_turns-pushed [] out messages = sym (append-nil (out ++ messages))
take_turns-pushed (pushes m ∷ turns) out messages =
    take_turns-pushed turns out (messages ++ (m ∷ []))
    ∙ ap (λ l. l ++ pushed turns) (sym (append_assoc out messages (m ∷ [])))
    ∙ append_assoc (out ++ messages) (m ∷ []) (pushed turns)
take_turns-pushed (drains n ∷ turns) out messages =
    take_turns-pushed turns (drain_to n out messages).0 (drain_to n out messages).1
    ∙ ap (λ l. l ++ pushed turns) (drain_to-keeps n out messages)
