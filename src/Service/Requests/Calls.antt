-- ===== src/Service/Requests/Calls.antt =====
-- server/src/adapter/grpc/broadcast_service_impl.cpp: the handlers that open and close no stream.
use monash_fit1045_hd_projec.Base.{
  ℕ, ◌≡◌, refl, inl, inr, Option, none, some, arith, Text, Option-cases, Bool-cases,
}
use monash_fit1045_hd_projec.Containers.Map
use monash_fit1045_hd_projec.Shared.Outcome.{Result, ok, err, Result-cases, pure, continue}
use monash_fit1045_hd_projec.Shared.StringUtils.{trim}
use monash_fit1045_hd_projec.Shared.Ids.{UuidLib, ChannelId, ClientId, MessageId, parse}
use monash_fit1045_hd_projec.Domain.Username
use monash_fit1045_hd_projec.Domain.ChannelName
use monash_fit1045_hd_projec.Domain.MessageRouter.{include_sender}
use monash_fit1045_hd_projec.Domain.Channel.{has_member}
use monash_fit1045_hd_projec.Persistence.ChannelRepository
use monash_fit1045_hd_projec.Persistence.ChannelRepository.{is_member}
use monash_fit1045_hd_projec.Persistence.ClientRegistry
use monash_fit1045_hd_projec.Persistence.ClientRegistry.Memberships.{is_connected}
use monash_fit1045_hd_projec.Usecase.Ports.{Server, register_client}
use monash_fit1045_hd_projec.Usecase.Membership.{IsSound, Loses-IsSound}
use monash_fit1045_hd_projec.Usecase.JoinChannel
use monash_fit1045_hd_projec.Usecase.JoinChannel.Effect
use monash_fit1045_hd_projec.Usecase.LeaveChannel
use monash_fit1045_hd_projec.Usecase.LeaveChannel.Effect.{execute_any-Loses}
use monash_fit1045_hd_projec.Usecase.CreateChannel
use monash_fit1045_hd_projec.Usecase.CreateChannel.Effect as Create
use monash_fit1045_hd_projec.Usecase.SendMessage
use monash_fit1045_hd_projec.Usecase.SendMessage.Effect.{execute_frame}
use monash_fit1045_hd_projec.Usecase.Listing
use monash_fit1045_hd_projec.Service.Handlers
use monash_fit1045_hd_projec.Service.Handlers.{
  client_of, channel_of, cursor_of, join_target, authorized_or_undo,
}
use monash_fit1045_hd_projec.Service.Requests.Registration.{
  register_client-IsSound, touch_heartbeat-IsSound, streams-IsSound,
}
use monash_fit1045_hd_projec.Service.Requests.Departure.{disconnect-Removes}

-- What follows a call that keeps the server sound, and does not change it any more.
then_pure :
    {A B : Type 0} (r : Result A × Server) (f : A → B)
    → IsSound r.1
    → IsSound (continue r.0 (λ a. pure (f a)) r.1).1
then_pure (ok a, s) f v = v
then_pure (err e, s) f v = v

module _ (lib : UuidLib) where
  pub connect-IsSound :
      (raw : Text) (drawn : ClientId) (system_now steady_now : ℕ) (s : Server)
      → IsSound s
      → Map.find drawn s.clients.clients_by_id ≡ none
      → IsSound (Handlers.connect lib raw drawn system_now steady_now s).1
  unfolding Handlers.connect
  connect-IsSound raw drawn system_now steady_now s v fresh =
      elim (Option-cases (Username.create (trim raw))) [
        | inl bad ↦ rw (bad, Handlers.connect) v
        | inr (username, valid) ↦
            rw (valid, Handlers.connect)
              (then_pure (register_client username drawn system_now steady_now s)
                (λ session. session.id)
                (register_client-IsSound username drawn system_now steady_now s v fresh))
      ]

  pub disconnect-IsSound :
      (raw : Text) (s : Server) → IsSound s → IsSound (Handlers.disconnect lib raw s).1
  unfolding Handlers.disconnect ClientRegistry.find_by_id
  disconnect-IsSound raw s v = elim (Option-cases (parse lib (trim raw))) [
    | inl bad ↦ rw (bad, Handlers.disconnect) v
    | inr (client, parsed) ↦ elim (Bool-cases (is_connected s.clients client)) [
      | inl online ↦ (disconnect-Removes lib raw client s v parsed online).1.sound
      | inr offline ↦ elim (Option-cases (Map.find client s.clients.clients_by_id)) [
        | inl gone ↦ rw (parsed, Handlers.disconnect) (rw gone v)
        | inr (session, known) ↦ absurd (ground arith)
      ]
    ]
  ]

  join_target-IsSound :
      (client : ClientId) (raw : Text) (target : Option ChannelId) (s : Server)
      → IsSound s
      → IsSound (join_target lib client raw target s).1
  unfolding JoinChannel.execute_by_name ClientRegistry.find_by_id
  join_target-IsSound client raw (some k) s v = Effect.execute-IsSound lib client k s v
  join_target-IsSound client raw none s v =
      then_pure (JoinChannel.execute_by_name lib client raw s) (λ joined. tt) by_name
    where
      by_name : IsSound (JoinChannel.execute_by_name lib client raw s).1
      by_name = elim (Option-cases (ChannelName.create (trim raw))) [
        | inl invalid ↦ elim (Option-cases (Map.find client s.clients.clients_by_id)) [
          | inl offline ↦ rw (offline, JoinChannel.execute_by_name) v
          | inr (session, known) ↦ rw (known, JoinChannel.execute_by_name) (rw invalid v)
        ]
        | inr (name, valid) ↦ elim (Result-cases (ChannelRepository.find_by_name name s.channels)) [
          | inl (channel, named) ↦
              rw (Effect.execute_by_name-execute lib client raw name channel s v valid named) (
                then_pure (JoinChannel.execute lib client channel.id s) (λ u. channel.id)
                  (Effect.execute-IsSound lib client channel.id s v))
          | inr (e, missing) ↦ elim (Option-cases (Map.find client s.clients.clients_by_id)) [
            | inl offline ↦ rw (offline, JoinChannel.execute_by_name) v
            | inr (session, known) ↦ rw (known, JoinChannel.execute_by_name) (rw (valid, missing) v)
          ]
        ]
      ]

  pub join_channel-IsSound :
      (client channel : Text) (s : Server)
      → IsSound s
      → IsSound (Handlers.join_channel lib client channel s).1
  unfolding Handlers.join_channel
  join_channel-IsSound client channel s v = elim (Option-cases (parse lib (trim client))) [
    | inl bad ↦ rw (bad, Handlers.join_channel) v
    | inr (c, parsed) ↦
        rw (parsed, Handlers.join_channel)
          (join_target-IsSound c (trim channel) (parse lib (trim channel)) s v)
  ]

  pub create_channel-IsSound :
      (client name : Text) (drawn : ChannelId) (now : ℕ) (s : Server)
      → IsSound s
      → Map.find drawn s.channels.channels_by_id ≡ none
      → IsSound (Handlers.create_channel lib client name drawn now s).1
  unfolding Handlers.create_channel
  create_channel-IsSound client name drawn now s v fresh =
      elim (Option-cases (parse lib (trim client))) [
        | inl bad ↦ rw (bad, Handlers.create_channel) v
        | inr (c, parsed) ↦
            rw (parsed, Handlers.create_channel)
              (then_pure (CreateChannel.execute c (trim name) drawn now s)
                (λ created. record { channel_id = created; channel_name = trim name })
                (Create.execute-IsSound c (trim name) drawn now s v fresh))
      ]

  pub leave_channel-IsSound :
      (client channel : Text) (s : Server)
      → IsSound s
      → IsSound (Handlers.leave_channel lib client channel s).1
  unfolding Handlers.leave_channel
  leave_channel-IsSound client channel s v = elim (Option-cases (parse lib (trim client))) [
    | inl bad ↦ rw (bad, Handlers.leave_channel) v
    | inr (c, parsed) ↦ elim (Option-cases (parse lib (trim channel))) [
      | inl wrong ↦ rw (parsed, Handlers.leave_channel) (rw wrong v)
      | inr (k, parsed') ↦
          rw (parsed, Handlers.leave_channel)
            (rw parsed' (
              Loses-IsSound _ s (LeaveChannel.execute lib c k s).1 (execute_any-Loses lib c k s v)
                v))
    ]
  ]

  pub send_message-IsSound :
      (client channel content : Text) (drawn : MessageId) (now : ℕ) (s : Server)
      → IsSound s
      → IsSound (Handlers.send_message lib client channel content drawn now s).1
  unfolding Handlers.send_message
  send_message-IsSound client channel content drawn now s v =
      elim (Option-cases (parse lib (trim client))) [
        | inl bad ↦ rw (bad, Handlers.send_message) v
        | inr (c, parsed) ↦ elim (Option-cases (parse lib (trim channel))) [
          | inl wrong ↦ rw (parsed, Handlers.send_message) (rw wrong v)
          | inr (k, parsed') ↦
              rw (parsed, Handlers.send_message)
                (rw parsed' (
                  let (same_channels, same_clients) =
                    execute_frame c k (trim content) include_sender drawn now s in
                  streams-IsSound s
                    (SendMessage.execute c k (trim content) include_sender drawn now s).1 v
                    same_channels same_clients))
        ]
      ]

  pub heartbeat-IsSound :
      (client : Text) (now : ℕ) (s : Server)
      → IsSound s
      → IsSound (Handlers.heartbeat lib client now s).1
  unfolding Handlers.heartbeat
  heartbeat-IsSound client now s v = elim (Option-cases (parse lib (trim client))) [
    | inl bad ↦ rw (bad, Handlers.heartbeat) v
    | inr (c, parsed) ↦ rw (parsed, Handlers.heartbeat) (touch_heartbeat-IsSound c now s v)
  ]

  -- Reading keeps the whole server as it is.
  pub list_messages_of_frame :
      (client channel before : Text) (limit : ℕ) (s : Server)
      → (Handlers.list_messages_of lib client channel before limit s).1 ≡ s
  unfolding Handlers.list_messages_of Listing.list_messages ChannelRepository.find_by_id
  list_messages_of_frame client channel before limit s =
      elim (Option-cases (parse lib (trim client))) [
        | inl bad ↦ rw (bad, Handlers.list_messages_of) refl
        | inr (c, parsed) ↦ elim (Option-cases (parse lib (trim channel))) [
          | inl wrong ↦ rw (parsed, Handlers.list_messages_of) (rw wrong refl)
          | inr (k, parsed') ↦ elim (Result-cases (cursor_of lib (trim before))) [
            | inr (e, no_cursor) ↦
                rw (parsed, Handlers.list_messages_of) (rw (parsed', no_cursor) refl)
            | inl (cursor, at) ↦ elim (Option-cases (Map.find k s.channels.channels_by_id)) [
              | inl missing ↦
                  rw (parsed, Handlers.list_messages_of) (rw (parsed', at) (rw missing refl))
              | inr (channel', exists) ↦ elim (Bool-cases (has_member c channel')) [
                | inl there ↦
                    rw (parsed, Handlers.list_messages_of)
                      (rw (parsed', at) (rw exists (rw there refl)))
                | inr stranger ↦
                    rw (parsed, Handlers.list_messages_of)
                      (rw (parsed', at) (rw exists (rw stranger refl)))
              ]
            ]
          ]
        ]
      ]
