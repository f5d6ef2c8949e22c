-- ===== src/Usecase/SendMessage/Effect.antt =====
-- server/src/application/usecase/send_message.cpp: the stores and the streams after the call.
use monash_fit1045_hd_projec.Base.{
  ℕ, ◌≡◌, refl, sym, ap, ◌∙◌, inl, inr, [], ◌∷◌, ◌++◌, append-nil, append_assoc, List, true, not,
  ◌&&◌, Option, none, some, arith, Text, ◌==◌, eq_iff, if◌then◌else◌, Option-cases, Bool-cases,
}
use monash_fit1045_hd_projec.Containers.Map
use monash_fit1045_hd_projec.Containers.IdSet
use monash_fit1045_hd_projec.Containers.IdSet.{IsDistinct}
use monash_fit1045_hd_projec.Shared.Outcome.{
  Error, ok, err, client_not_found, channel_not_found, not_a_member, Result-cases,
}
use monash_fit1045_hd_projec.Shared.Ids.{ChannelId, ClientId, MessageId}
use monash_fit1045_hd_projec.Domain.MessageContent
use monash_fit1045_hd_projec.Domain.Channel.{Channel, has_member}
use monash_fit1045_hd_projec.Domain.Message.{Message}
use monash_fit1045_hd_projec.Domain.MessageRouter.{
  EchoPolicy, excludes, recipients_for, recipients_for_iff,
}
use monash_fit1045_hd_projec.Persistence.ChannelRepository
use monash_fit1045_hd_projec.Persistence.ChannelRepository.{is_member, has_channel}
use monash_fit1045_hd_projec.Persistence.ClientRegistry
use monash_fit1045_hd_projec.Persistence.ClientRegistry.Memberships.{is_connected}
use monash_fit1045_hd_projec.Persistence.MessageRepository
use monash_fit1045_hd_projec.Persistence.MessageRepository.{buffer_of}
use monash_fit1045_hd_projec.Persistence.MessageRepository.Buffers.{last, buffer_of-save}
use monash_fit1045_hd_projec.Publisher.Writers.{Writers, sent_to}
use monash_fit1045_hd_projec.Publisher.ClientPublisher.{ChannelEvent, message_to_event, publish}
use monash_fit1045_hd_projec.Publisher.ClientPublisher.Delivery.{
  Serves, IsExclusive, sent_to-publish, publish_frame,
}
use monash_fit1045_hd_projec.Usecase.Ports.{Server, publish_message}
use monash_fit1045_hd_projec.Usecase.Membership.{IsSound}
use monash_fit1045_hd_projec.Usecase.SendMessage.{execute, publish_each}

pub publish_each_frame :
    (rs : List ClientId) (m : Message) (s : Server)
    → ((publish_each rs m s).channels ≡ s.channels)
      × ((publish_each rs m s).clients ≡ s.clients)
      × ((publish_each rs m s).messages ≡ s.messages)
      × ((publish_each rs m s).channel_list ≡ s.channel_list)
unfolding publish_each
publish_each_frame [] m s = (refl, refl, refl, refl)
publish_each_frame (r ∷ rs) m s = publish_each_frame rs m (publish_message r m s)

publish-IsExclusive :
    (registry : ClientRegistry.ClientRegistry) (i : ClientId) (m : Message)
    (p : Writers ChannelEvent)
    → IsExclusive p
    → IsExclusive (publish registry i m p)
publish-IsExclusive registry i m p x =
    let (same_writers, same_entry) = publish_frame registry i m p in
    record {
      distinct = rw same_writers x.distinct;
      exclusive = λ j k w a b.
          x.exclusive j k w (rw (same_writers, same_entry) at a)
            (rw (same_writers, same_entry) at b);
    }

-- The loop appends the message once to the stream of each recipient, and to no other.
sent_to-publish_each :
    (rs : List ClientId) (m : Message) (s : Server) (j : ClientId) (w : ℕ)
    → IsDistinct rs
    → IsExclusive s.publisher
    → Serves s.publisher j w
    → sent_to w (publish_each rs m s).publisher.written
      ≡ sent_to w s.publisher.written
        ++ (if IdSet.contains j rs then message_to_event s.clients m ∷ [] else [])
unfolding publish_each IdSet.contains
sent_to-publish_each [] m s j w d x serves = sym (append-nil (sent_to w s.publisher.written))
sent_to-publish_each (r ∷ rs) m s j w d x serves =
    let (same_writers, same_entry) = publish_frame s.clients r m s.publisher in
    let rest =
      sent_to-publish_each rs m (publish_message r m s) j w d.1
        (publish-IsExclusive s.clients r m s.publisher x) (rw (same_writers, same_entry) serves) in
    ground (
      arith,
      rest,
      sent_to-publish s.clients r j m s.publisher w x serves,
      eq_iff r j,
      append_assoc (sent_to w s.publisher.written) (message_to_event s.clients m ∷ [])
          (if IdSet.contains j rs then message_to_event s.clients m ∷ [] else []),
      append-nil (sent_to w s.publisher.written),
      append-nil (message_to_event s.clients m ∷ []),
      append-nil (sent_to w s.publisher.written ++ (message_to_event s.clients m ∷ [])),
      d.0,
    )

abbrev pub composed : ClientId → ChannelId → Text → MessageId → ℕ → Message
composed sender k text drawn now = record {
  id = drawn;
  sender_id = sender;
  channel_id = k;
  content = text;
  sent_at = now;
}

module _ (sender : ClientId) (k : ChannelId) (content text : Text) (policy : EchoPolicy)
    (drawn : MessageId) (now : ℕ) (s : Server) (v : IsSound s)
    (member : is_member s.channels k sender ≡ true)
    (valid : MessageContent.create content ≡ ok text) where
  -- The message that is stored and sent.
  abbrev message : Message
  message = composed sender k text drawn now

  -- The state in which the loop over the recipients starts.
  abbrev stored : Server
  stored = record s { messages = (MessageRepository.save message s.messages).1 }

  execute_lem :
      (channel : Channel)
      → Map.find k s.channels.channels_by_id ≡ some channel
      → execute sender k content policy drawn now s
        ≡ (ok drawn, publish_each (recipients_for channel message policy) message stored)
  unfolding execute ClientRegistry.find_by_id ChannelRepository.find_by_id MessageRepository.save
  execute_lem channel exists = elim (Option-cases (Map.find sender s.clients.clients_by_id)) [
    | inl offline ↦ absurd (ground (arith, v.agree k sender))
    | inr (session, known) ↦
        let there : has_member sender channel ≡ true = ground arith in
        rw (known, execute) (rw exists (rw there (rw valid refl)))
  ]

  -- In a sound server, a member's valid message is stored, under the identifier that was drawn, with
  -- its sender, its channel, its valid text and its time: it becomes the newest message in the buffer
  -- of its channel, which keeps its last messages up to the cap. The buffer of every other channel
  -- is as before, and so are the cap, the channels, the clients and the streams of the channel list.
  pub execute_stores :
      (j : ChannelId)
      → ((execute sender k content policy drawn now s).0 ≡ ok drawn)
        × (buffer_of j (execute sender k content policy drawn now s).1.messages ≡ (
            if k == j
            then last s.messages.cap
                (buffer_of j s.messages ++ (composed sender k text drawn now ∷ []))
            else buffer_of j s.messages))
        × ((execute sender k content policy drawn now s).1.messages.cap ≡ s.messages.cap)
        × ((execute sender k content policy drawn now s).1.channels ≡ s.channels)
        × ((execute sender k content policy drawn now s).1.clients ≡ s.clients)
        × ((execute sender k content policy drawn now s).1.channel_list ≡ s.channel_list)
  unfolding MessageRepository.save
  execute_stores j = elim (Option-cases (Map.find k s.channels.channels_by_id)) [
    | inl missing ↦ absurd (ground arith)
    | inr (channel, exists) ↦
        let (a, b, c, d) =
          publish_each_frame (recipients_for channel message policy) message stored in
        rw (execute_lem channel exists) (
          refl,
          ap (buffer_of j) c ∙ buffer_of-save message j s.messages,
          ap (λ r. r.cap) c,
          a,
          b,
          d,
        )
  ]

  -- In a sound server, a member's valid message reaches the stream of each subscriber who is a
  -- member of the channel exactly once, the sender's own only if the policy includes it, and the
  -- stream of no other subscriber. It is assumed that no two subscribers share a stream.
  pub execute_delivers :
      (j : ClientId) (w : ℕ)
      → IsExclusive s.publisher
      → Serves s.publisher j w
      → sent_to w (execute sender k content policy drawn now s).1.publisher.written
        ≡ sent_to w s.publisher.written
          ++ (if is_member s.channels k j && not (excludes policy && (j == sender))
              then message_to_event s.clients (composed sender k text drawn now) ∷ []
              else [])
  execute_delivers j w x serves = elim (Option-cases (Map.find k s.channels.channels_by_id)) [
    | inl missing ↦ absurd (ground arith)
    | inr (channel, exists) ↦
        let (who, once) =
          recipients_for_iff channel message policy j (v.repository.counted k channel exists) in
        let sends =
          sent_to-publish_each (recipients_for channel message policy) message stored j w once x
            serves in
        rw (execute_lem channel exists) (ground (arith, sends, who))
  ]

-- Why a message is refused, if it is: the first reason that applies.
abbrev pub refusal : ClientId → ChannelId → Text → Server → Option Error
refusal sender k content s =
    if is_connected s.clients sender
    then (if has_channel s.channels k
        then (if is_member s.channels k sender
            then (elim (MessageContent.create content) [ ok text ↦ none | err e ↦ some e ])
            else some not_a_member)
        else some channel_not_found)
    else some client_not_found

-- A message that there is a reason to refuse is neither stored nor sent: the server is as before,
-- and the error is the first reason that applies. The reasons, in their order: the sender is not
-- connected, there is no such channel, the sender is no member of it, the text is not valid.
pub send_refused :
    (sender : ClientId) (k : ChannelId) (content : Text) (policy : EchoPolicy) (drawn : MessageId)
    (now : ℕ) (s : Server) (e : Error)
    → refusal sender k content s ≡ some e
    → execute sender k content policy drawn now s ≡ (err e, s)
unfolding execute ClientRegistry.find_by_id ChannelRepository.find_by_id
send_refused sender k content policy drawn now s e h =
    elim (Option-cases (Map.find sender s.clients.clients_by_id)) [
      | inl offline ↦ rw (offline, execute) (ground arith)
      | inr (session, known) ↦ elim (Option-cases (Map.find k s.channels.channels_by_id)) [
        | inl missing ↦ rw (known, execute) (rw missing (ground arith))
        | inr (channel, exists) ↦ elim (Bool-cases (has_member sender channel)) [
          | inr stranger ↦ rw (known, execute) (rw exists (rw stranger (ground arith)))
          | inl there ↦ elim (Result-cases (MessageContent.create content)) [
            | inl (text, valid) ↦ absurd (ground arith)
            | inr (f, invalid) ↦
                rw (known, execute) (rw exists (rw there (rw invalid (ground arith))))
          ]
        ]
      ]
    ]

-- However the call ends, channels and clients are as before.
pub execute_frame :
    (sender : ClientId) (k : ChannelId) (content : Text) (policy : EchoPolicy) (drawn : MessageId)
    (now : ℕ) (s : Server)
    → ((execute sender k content policy drawn now s).1.channels ≡ s.channels)
      × ((execute sender k content policy drawn now s).1.clients ≡ s.clients)
unfolding execute ClientRegistry.find_by_id ChannelRepository.find_by_id MessageRepository.save
execute_frame sender k content policy drawn now s =
    elim (Option-cases (Map.find sender s.clients.clients_by_id)) [
      | inl offline ↦ rw (offline, execute) (refl, refl)
      | inr (session, known) ↦ elim (Option-cases (Map.find k s.channels.channels_by_id)) [
        | inl missing ↦ rw (known, execute) (rw missing (refl, refl))
        | inr (channel, exists) ↦ elim (Bool-cases (has_member sender channel)) [
          | inr stranger ↦ rw (known, execute) (rw exists (rw stranger (refl, refl)))
          | inl there ↦ elim (Result-cases (MessageContent.create content)) [
            | inr (f, invalid) ↦
                rw (known, execute) (rw exists (rw there (rw invalid (refl, refl))))
            | inl (text, valid) ↦
                let message : Message = composed sender k text drawn now in
                let stored : Server = record s {
                  messages = (MessageRepository.save message s.messages).1;
                } in
                let (a, b, c, d) =
                  publish_each_frame (recipients_for channel message policy) message stored in
                rw (known, execute) (rw exists (rw there (rw valid (a, b))))
          ]
        ]
      ]
    ]
