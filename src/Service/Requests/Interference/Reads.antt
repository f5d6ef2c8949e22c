-- ===== src/Service/Requests/Interference/Reads.antt =====
-- server/src/adapter/grpc/broadcast_service_impl.cpp: the requests that keep connections, memberships
-- and channels as they are.
use monash_fit1045_hd_projec.Base.{ℕ, ◌≡◌, refl, inl, inr, Text, Option-cases, Bool-cases}
use monash_fit1045_hd_projec.Containers.Map
use monash_fit1045_hd_projec.Shared.StringUtils.{trim}
use monash_fit1045_hd_projec.Shared.Ids.{UuidLib, ClientId, parse}
use monash_fit1045_hd_projec.Domain.ClientSession
use monash_fit1045_hd_projec.Domain.MessageRouter.{include_sender}
use monash_fit1045_hd_projec.Persistence.ChannelRepository
use monash_fit1045_hd_projec.Persistence.ChannelRepository.{is_member}
use monash_fit1045_hd_projec.Persistence.ClientRegistry
use monash_fit1045_hd_projec.Persistence.ClientRegistry.{
  ClientRegistry, register_client, touch_heartbeat,
}
use monash_fit1045_hd_projec.Persistence.ClientRegistry.Memberships.{is_connected}
use monash_fit1045_hd_projec.Usecase.Ports.{Server}
use monash_fit1045_hd_projec.Usecase.SendMessage.Effect.{execute_frame}
use monash_fit1045_hd_projec.Service.Handlers
use monash_fit1045_hd_projec.Service.Handlers.{join_target}
use monash_fit1045_hd_projec.Domain.Channel.{has_member}
use monash_fit1045_hd_projec.Usecase.Subscribe.{subscribe_to_channel, subscribe_to_channel_list}
use monash_fit1045_hd_projec.Persistence.ClientRegistry.Memberships.{update_session-connected}
use monash_fit1045_hd_projec.Service.Requests.Interference.{Spares, nothing, same_stores}

module _ (lib : UuidLib) (d : ClientId) where
  pub send_message-Spares :
      (client channel content : Text) (drawn : Text) (now : ℕ) (s : Server)
      → Spares lib d s (Handlers.send_message lib client channel content drawn now s).1
  unfolding Handlers.send_message
  send_message-Spares client channel content drawn now s =
      elim (Option-cases (parse lib (trim client))) [
        | inl bad ↦ rw (bad, Handlers.send_message) (nothing lib d s)
        | inr (c, parsed) ↦ elim (Option-cases (parse lib (trim channel))) [
          | inl wrong ↦ rw (parsed, Handlers.send_message) (rw wrong (nothing lib d s))
          | inr (k, parsed') ↦
              let (same_channels, same_clients) =
                execute_frame c k (trim content) include_sender drawn now s in
              rw (parsed, Handlers.send_message)
                (rw parsed' (same_stores lib d s _ same_channels same_clients))
        ]
      ]

  touched :
      (c : ClientId) (now : ℕ) (r : ClientRegistry)
      → is_connected (touch_heartbeat c now r).1 d ≡ is_connected r d
  unfolding touch_heartbeat
  touched c now r = update_session-connected c d (ClientSession.touch now) r

  pub heartbeat-Spares :
      (client : Text) (now : ℕ) (s : Server)
      → Spares lib d s (Handlers.heartbeat lib client now s).1
  unfolding Handlers.heartbeat
  heartbeat-Spares client now s = elim (Option-cases (parse lib (trim client))) [
    | inl bad ↦ rw (bad, Handlers.heartbeat) (nothing lib d s)
    | inr (c, parsed) ↦
        rw (parsed, Handlers.heartbeat)
          (record {
            connected = touched c now s.clients;
            member = λ k. refl;
            named = λ k n e. inl e;
          })
  ]

  pub subscribe-Spares :
      (client channel : Text) (writer : ℕ) (s : Server)
      → Spares lib d s (Handlers.subscribe_start lib client channel writer s).1
  unfolding Handlers.subscribe_start subscribe_to_channel ChannelRepository.find_by_id
  subscribe-Spares client channel writer s = elim (Option-cases (parse lib (trim client))) [
    | inl bad ↦ rw (bad, Handlers.subscribe_start) (nothing lib d s)
    | inr (c, parsed) ↦ elim (Option-cases (parse lib (trim channel))) [
      | inl wrong ↦ rw (parsed, Handlers.subscribe_start) (rw wrong (nothing lib d s))
      | inr (k, parsed') ↦ elim (Option-cases (Map.find k s.channels.channels_by_id)) [
        | inl missing ↦
            rw (parsed, Handlers.subscribe_start)
              (rw parsed' (rw (missing, subscribe_to_channel) (same_stores lib d s _ refl refl)))
        | inr (channel', exists) ↦ elim (Bool-cases (has_member c channel')) [
          | inl there ↦
              rw (parsed, Handlers.subscribe_start)
                (rw parsed'
                  (rw (exists, subscribe_to_channel) (rw there (same_stores lib d s _ refl refl))))
          | inr stranger ↦
              rw (parsed, Handlers.subscribe_start)
                (rw parsed' (
                  rw (exists, subscribe_to_channel)
                    (rw stranger (same_stores lib d s _ refl refl))))
        ]
      ]
    ]
  ]

  pub subscribe_list-Spares :
      (client : Text) (writer : ℕ) (s : Server)
      → Spares lib d s (Handlers.subscribe_list_start lib client writer s).1
  unfolding Handlers.subscribe_list_start subscribe_to_channel_list ClientRegistry.find_by_id
  subscribe_list-Spares client writer s = elim (Option-cases (parse lib (trim client))) [
    | inl bad ↦ rw (bad, Handlers.subscribe_list_start) (nothing lib d s)
    | inr (c, parsed) ↦ elim (Option-cases (Map.find c s.clients.clients_by_id)) [
      | inl offline ↦
          rw (parsed, Handlers.subscribe_list_start)
            (rw (offline, subscribe_to_channel_list) (nothing lib d s))
      | inr (session, known) ↦
          rw (parsed, Handlers.subscribe_list_start)
            (rw (known, subscribe_to_channel_list) (same_stores lib d s _ refl refl))
    ]
  ]
