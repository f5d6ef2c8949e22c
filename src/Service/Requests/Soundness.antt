-- ===== src/Service/Requests/Soundness.antt =====
-- server/src/adapter/grpc/broadcast_service_impl.cpp: the invariant of the whole server.
use monash_fit1045_hd_projec.Base.{ℕ, refl, sym, subst, inl, inr, Text, Option-cases, Bool-cases}
use monash_fit1045_hd_projec.Containers.Map
use monash_fit1045_hd_projec.Shared.StringUtils.{trim}
use monash_fit1045_hd_projec.Shared.Ids.{UuidLib, parse}
use monash_fit1045_hd_projec.Domain.Channel.{has_member}
use monash_fit1045_hd_projec.Persistence.ChannelRepository
use monash_fit1045_hd_projec.Persistence.ChannelRepository.{is_member}
use monash_fit1045_hd_projec.Persistence.ClientRegistry
use monash_fit1045_hd_projec.Usecase.Ports.{Server}
use monash_fit1045_hd_projec.Usecase.Membership.{IsSound}
use monash_fit1045_hd_projec.Usecase.Subscribe.{subscribe_to_channel, subscribe_to_channel_list}
use monash_fit1045_hd_projec.Usecase.ExpireInactiveClients.Effect.{run-Removes}
use monash_fit1045_hd_projec.Service.Handlers
use monash_fit1045_hd_projec.Service.Handlers.{
  client_of, channel_of, cursor_of, join_target, authorized_or_undo,
}
use monash_fit1045_hd_projec.Service.Requests.{
  Request, connect, disconnect, create_channel, join_channel, leave_channel, send_message,
  list_messages, heartbeat, subscribe, subscribe_ended, subscribe_list, subscribe_list_ended, sweep,
  serve, IsFresh, Reachable, start, step,
}
use monash_fit1045_hd_projec.Service.Requests.Registration.{streams-IsSound, started-IsSound}
use monash_fit1045_hd_projec.Service.Requests.Calls.{
  connect-IsSound, disconnect-IsSound, join_channel-IsSound, create_channel-IsSound,
  leave_channel-IsSound, send_message-IsSound, heartbeat-IsSound, list_messages_of_frame,
}

module _ (lib : UuidLib) where
  subscribe-IsSound :
      (client channel : Text) (writer : ℕ) (s : Server)
      → IsSound s
      → IsSound (Handlers.subscribe_start lib client channel writer s).1
  unfolding Handlers.subscribe_start subscribe_to_channel ChannelRepository.find_by_id
  subscribe-IsSound client channel writer s v = elim (Option-cases (parse lib (trim client))) [
    | inl bad ↦ rw (bad, Handlers.subscribe_start) v
    | inr (c, parsed) ↦ elim (Option-cases (parse lib (trim channel))) [
      | inl wrong ↦ rw (parsed, Handlers.subscribe_start) (rw wrong v)
      | inr (k, parsed') ↦ elim (Option-cases (Map.find k s.channels.channels_by_id)) [
        | inl missing ↦
            rw (parsed, Handlers.subscribe_start)
              (rw parsed' (rw (missing, subscribe_to_channel) (streams-IsSound s _ v refl refl)))
        | inr (channel', exists) ↦ elim (Bool-cases (has_member c channel')) [
          | inl there ↦
              rw (parsed, Handlers.subscribe_start)
                (rw parsed'
                  (rw (exists, subscribe_to_channel) (rw there (streams-IsSound s _ v refl refl))))
          | inr stranger ↦
              rw (parsed, Handlers.subscribe_start)
                (rw parsed' (
                  rw (exists, subscribe_to_channel)
                    (rw stranger (streams-IsSound s _ v refl refl))))
        ]
      ]
    ]
  ]

  subscribe_list-IsSound :
      (client : Text) (writer : ℕ) (s : Server)
      → IsSound s
      → IsSound (Handlers.subscribe_list_start lib client writer s).1
  unfolding Handlers.subscribe_list_start subscribe_to_channel_list ClientRegistry.find_by_id
  subscribe_list-IsSound client writer s v = elim (Option-cases (parse lib (trim client))) [
    | inl bad ↦ rw (bad, Handlers.subscribe_list_start) v
    | inr (c, parsed) ↦ elim (Option-cases (Map.find c s.clients.clients_by_id)) [
      | inl offline ↦
          rw (parsed, Handlers.subscribe_list_start) (rw (offline, subscribe_to_channel_list) v)
      | inr (session, known) ↦
          rw (parsed, Handlers.subscribe_list_start)
            (rw (known, subscribe_to_channel_list) (streams-IsSound s _ v refl refl))
    ]
  ]

  pub serve-IsSound :
      (r : Request) (s : Server) → IsSound s → IsFresh lib r s → IsSound (serve lib r s)
  unfolding serve Handlers.subscribe_end Handlers.subscribe_list_end
  serve-IsSound (connect name drawn system_now steady_now) s v fresh =
      connect-IsSound lib name drawn system_now steady_now s v fresh
  serve-IsSound (disconnect client) s v fresh = disconnect-IsSound lib client s v
  serve-IsSound (create_channel client name drawn now) s v fresh =
      create_channel-IsSound lib client name drawn now s v fresh
  serve-IsSound (join_channel client channel) s v fresh =
      join_channel-IsSound lib client channel s v
  serve-IsSound (leave_channel client channel) s v fresh =
      leave_channel-IsSound lib client channel s v
  serve-IsSound (send_message client channel content drawn now) s v fresh =
      send_message-IsSound lib client channel content drawn now s v
  serve-IsSound (list_messages client channel before limit) s v fresh =
      subst IsSound (sym (list_messages_of_frame lib client channel before limit s)) v
  serve-IsSound (heartbeat client now) s v fresh = heartbeat-IsSound lib client now s v
  serve-IsSound (subscribe client channel writer) s v fresh =
      subscribe-IsSound client channel writer s v
  serve-IsSound (subscribe_ended client) s v fresh = streams-IsSound s _ v refl refl
  serve-IsSound (subscribe_list client writer) s v fresh = subscribe_list-IsSound client writer s v
  serve-IsSound (subscribe_list_ended client) s v fresh = streams-IsSound s _ v refl refl
  serve-IsSound (sweep deadline) s v fresh = (run-Removes lib deadline s v).sound

  -- In every state that the server reaches by requests and sweeps, one at a time and with fresh
  -- identifiers, the stores are consistent and agree on who is in which channel, and no client is in
  -- two channels.
  pub Reachable-IsSound : (s : Server) → Reachable lib s → IsSound s
  Reachable-IsSound s (start cap drawn now) = started-IsSound cap drawn now
  Reachable-IsSound s (step t r reached fresh) =
      serve-IsSound r t (Reachable-IsSound t reached) fresh
