-- ===== src/Client/Gateway/Fit.antt =====
-- client-cli/src/adapter/grpc/grpc_server_gateway.cpp over
-- server/src/adapter/grpc/broadcast_service_impl.cpp: what the calls of a connected client keep of the
-- server, however they end.
use monash_fit1045_hd_projec.Base.{
  subst, sym, ℕ, ◌≡◌, refl, ap, ◌∙◌, ◌⊎◌, inl, inr, [], ◌∷◌, map, true, false, some, none, arith,
  Text, ◌==◌, eq_iff, eq_refl, Bool-cases, Option-cases, if◌then◌else◌,
}
use monash_fit1045_hd_projec.Containers.Map
use monash_fit1045_hd_projec.Containers.Map.{Map, HasDistinctKeys}
use monash_fit1045_hd_projec.Shared.Outcome.{ok, err, Error, Result-cases, channel_not_found}
use monash_fit1045_hd_projec.Shared.StringUtils.{trim, trim_copy, trim_idem}
use monash_fit1045_hd_projec.Shared.Ids.{UuidLib, ChannelId, ClientId, parse}
use monash_fit1045_hd_projec.Domain.Channel.{Channel}
use monash_fit1045_hd_projec.Domain.ChannelName
use monash_fit1045_hd_projec.Domain.MessageRouter.{include_sender}
use monash_fit1045_hd_projec.Persistence.ChannelRepository
use monash_fit1045_hd_projec.Persistence.ChannelRepository.{ChannelRepository, is_member}
use monash_fit1045_hd_projec.Persistence.ChannelRepository.Invariant.{find_by_name_iff}
use monash_fit1045_hd_projec.Persistence.ClientRegistry.Memberships.{is_connected}
use monash_fit1045_hd_projec.Publisher.ChannelListPublisher.{populate_channel_summary}
use monash_fit1045_hd_projec.Usecase.Ports.{Server}
use monash_fit1045_hd_projec.Usecase.Membership.{IsSound, name_at, Loses-IsSound}
use monash_fit1045_hd_projec.Usecase.Listing.{list_channels}
use monash_fit1045_hd_projec.Usecase.JoinChannel.Enter.{Enters}
use monash_fit1045_hd_projec.Usecase.LeaveChannel
use monash_fit1045_hd_projec.Usecase.LeaveChannel.Effect.{execute_any-Loses}
use monash_fit1045_hd_projec.Usecase.CreateChannel
use monash_fit1045_hd_projec.Usecase.CreateChannel.Effect.{
  refusal, execute-Creates, create_channel_refused,
}
use monash_fit1045_hd_projec.Usecase.SendMessage.Effect.{execute_frame}
use monash_fit1045_hd_projec.Service.Handlers
use monash_fit1045_hd_projec.Service.Requests.Registration.{streams-IsSound}
use monash_fit1045_hd_projec.Client.Gateway
use monash_fit1045_hd_projec.Client.Gateway.{Stub, find_named}
use monash_fit1045_hd_projec.Client.Gateway.EndToEnd.{served_by, join_channel_by_name-Enters}

module _ (lib : UuidLib) (client : ClientId) where
  -- The server is sound, the client is connected, and the identifiers of the channels parse to
  -- themselves.
  pub record Fits (s : Server) : Type 0 where
    pub sound : IsSound s
    pub online : is_connected s.clients client ≡ true
    pub printed :
        (k : ChannelId) (n : Text) → name_at s.channels k ≡ some n → parse lib (trim k) ≡ some k

  same_stores-Fits :
      (s t : Server) → Fits s → t.channels ≡ s.channels → t.clients ≡ s.clients → Fits t
  same_stores-Fits s t f same_channels same_clients = record {
    sound = streams-IsSound s t f.sound same_channels same_clients;
    online = rw same_clients f.online;
    printed = λ k n e. f.printed k n (subst (λ r. name_at r k ≡ some n) same_channels e);
  }

  module _ (drawn : Text) (system_now steady_now : ℕ)
      (this : parse lib (trim client) ≡ some client) where
    abbrev stub : Stub Server
    stub = served_by lib drawn system_now steady_now

    -- The identifier that the calls send parses to the client's.
    sent_as : parse lib (trim (trim client)) ≡ some client
    sent_as = rw (trim_idem client) this

    pub send_message-Fits :
        (channel content : Text) (s : Server)
        → Fits s
        → let s' = (Gateway.send_message stub client channel content s).1 in
          Fits s' × (s'.channels ≡ s.channels)
    unfolding trim_copy Gateway.send_message Handlers.send_message
    send_message-Fits channel content s f = elim (Option-cases (parse lib (trim (trim channel)))) [
      | inl wrong ↦ rw (sent_as, Handlers.send_message) (rw wrong (f, refl))
      | inr (k, parsed) ↦
          let (same_channels, same_clients) =
            execute_frame client k (trim (trim content)) include_sender drawn system_now s in
          rw (sent_as, Handlers.send_message)
            (rw parsed (same_stores-Fits s _ f same_channels same_clients, same_channels))
    ]

    pub leave_channel-Fits :
        (channel : Text) (s : Server)
        → Fits s
        → Fits (Gateway.leave_channel stub client channel s).1
    unfolding trim_copy Gateway.leave_channel Handlers.leave_channel
    leave_channel-Fits channel s f = elim (Option-cases (parse lib (trim (trim channel)))) [
      | inl wrong ↦ rw (sent_as, Handlers.leave_channel) (rw wrong f)
      | inr (k, parsed) ↦
          let l = execute_any-Loses lib client k s f.sound in
          rw (sent_as, Handlers.leave_channel)
            (rw parsed (record {
              sound = Loses-IsSound _ s (LeaveChannel.execute lib client k s).1 l f.sound;
              online = l.connected client ∙ f.online;
              printed = λ j n e. f.printed j n (sym (l.named j) ∙ e);
            }))
    ]

    created_printed :
        (k : ChannelId) (n name : Text) (r : ChannelRepository) (s : Server)
        → Fits s
        → parse lib (trim drawn) ≡ some drawn
        → name_at r k ≡ (if drawn == k then some name else name_at s.channels k)
        → name_at r k ≡ some n
        → parse lib (trim k) ≡ some k
    created_printed k n name r s f that named e = elim (Bool-cases (drawn == k)) [
      | inl new ↦ subst (λ j. parse lib (trim j) ≡ some j) ((eq_iff drawn k).0 new) that
      | inr old ↦ f.printed k n (ground (arith, named, e))
    ]

    pub create_channel-Fits :
        (name : Text) (s : Server)
        → Fits s
        → Map.find drawn s.channels.channels_by_id ≡ none
        → parse lib (trim drawn) ≡ some drawn
        → let s' = (Gateway.create_channel stub client name s).1 in
          Fits s'
          × ((k : ChannelId) → is_member s'.channels k client ≡ is_member s.channels k client)
    unfolding trim_copy Gateway.create_channel Handlers.create_channel Map.contains
    create_channel-Fits name s f fresh that =
        elim (Option-cases (refusal client (trim (trim name)) s)) [
          | inr (e, refused) ↦
              rw (sent_as, Handlers.create_channel)
                (rw (create_channel_refused client (trim (trim name)) drawn system_now s e refused)
                  (f, λ k. refl))
          | inl granted ↦ elim (Option-cases (ChannelName.create (trim (trim (trim name))))) [
            | inl invalid ↦ absurd (ground arith)
            | inr (valid_name, valid) ↦
                let (done, c) =
                  execute-Creates client (trim (trim name)) valid_name drawn system_now s f.sound
                    f.online valid fresh (ground arith) in
                let t = (CreateChannel.execute client (trim (trim name)) drawn system_now s).1 in
                rw (sent_as, Handlers.create_channel)
                  (rw done (
                    record {
                      sound = c.sound;
                      online = rw c.clients f.online;
                      printed =
                          λ k n e. created_printed k n valid_name t.channels s f that (c.named k) e;
                    },
                    λ k. c.member k client,
                  ))
          ]
        ]

-- A name that no value has is not found.
find_named-none :
    (name : Text) (m : Map Channel)
    → HasDistinctKeys m
    → ((k : ChannelId) (c : Channel) → Map.find k m ≡ some c → (c.name == name) ≡ false)
    → find_named name (map populate_channel_summary (Map.values m)) ≡ none
unfolding find_named Map.values Map.find populate_channel_summary
find_named-none name [] d free = refl
find_named-none name ((j, c) ∷ m) d free =
    let later : (k : ChannelId) (x : Channel) → Map.find k m ≡ some x → (x.name == name) ≡ false =
      λ k x e. free k x (ground (arith, eq_iff j k, d.0)) in
    rw (free j c (ground (arith, eq_refl j))) (find_named-none name m d.1 later)

not_listed :
    (name : Text) (e : Error) (s : Server)
    → IsSound s
    → ChannelRepository.find_by_name name s.channels ≡ err e
    → find_named name (Handlers.list_channels_of s) ≡ none
unfolding Handlers.list_channels_of list_channels ChannelRepository.list_all
    ChannelRepository.find_by_id
not_listed name e s v missing =
    find_named-none name s.channels.channels_by_id v.repository.distinct (λ k c found. ground (
      arith,
      eq_iff c.name name,
      v.repository.keyed k c found,
      ap (λ j. Map.find j s.channels.channels_by_id) (v.repository.keyed k c found),
      find_by_name_iff s.channels v.repository name c,
    ))

-- A connected client that asks for a channel by its name gets the identifier of the channel and is in
-- it, and in no other, if there is a channel of that name; if there is none, the error tells so and
-- the server is as before.
pub join_channel_by_name-cases :
    (lib : UuidLib) (drawn : Text) (system_now steady_now : ℕ) (client : ClientId) (raw : Text)
    (s : Server)
    → Fits lib client s
    → parse lib (trim client) ≡ some client
    → let r =
        Gateway.join_channel_by_name (served_by lib drawn system_now steady_now) client raw s in
      ((k : ChannelId) × (r.0 ≡ ok k) × Enters client k s r.1) ⊎ (r ≡ (err channel_not_found, s))
unfolding Gateway.join_channel_by_name ChannelRepository.find_by_id
join_channel_by_name-cases lib drawn system_now steady_now client raw s f this =
    elim (Result-cases (ChannelRepository.find_by_name (trim raw) s.channels)) [
      | inl (channel, named) ↦
          let at =
            ((find_by_name_iff s.channels f.sound.repository (trim raw) channel).0 named).1 in
          let that = f.printed channel.id channel.name (ground (arith, at)) in
          let (done, enters) =
            join_channel_by_name-Enters lib drawn system_now steady_now client raw channel s f.sound
              f.online this that named in
          inl (channel.id, done, enters)
      | inr (e, missing) ↦ inr (rw (not_listed (trim raw) e s f.sound missing) refl)
    ]
