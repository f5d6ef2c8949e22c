-- ===== src/Service/Requests/Interference/Moves.antt =====
-- server/src/adapter/grpc/broadcast_service_impl.cpp: the requests that change connections,
-- memberships or channels.
use monash_fit1045_hd_projec.Base.{
  ℕ, ◌≡◌, refl, sym, ap, ◌∙◌, subst, inl, inr, true, false, not, ◌&&◌, Option, none, some, arith,
  Text, ◌==◌, eq_iff, Option-cases, Bool-cases,
}
use monash_fit1045_hd_projec.Containers.Map
use monash_fit1045_hd_projec.Shared.Outcome.{Result-cases}
use monash_fit1045_hd_projec.Shared.StringUtils.{trim}
use monash_fit1045_hd_projec.Shared.Ids.{UuidLib, ChannelId, ClientId, parse}
use monash_fit1045_hd_projec.Domain.Username
use monash_fit1045_hd_projec.Domain.ChannelName
use monash_fit1045_hd_projec.Domain.ClientSession
use monash_fit1045_hd_projec.Persistence.ChannelRepository
use monash_fit1045_hd_projec.Persistence.ChannelRepository.{is_member}
use monash_fit1045_hd_projec.Persistence.ClientRegistry
use monash_fit1045_hd_projec.Persistence.ClientRegistry.{
  ClientRegistry, register_client, touch_heartbeat,
}
use monash_fit1045_hd_projec.Persistence.ClientRegistry.Memberships.{is_connected}
use monash_fit1045_hd_projec.Usecase.Ports
use monash_fit1045_hd_projec.Usecase.Ports.{Server}
use monash_fit1045_hd_projec.Usecase.Membership.{IsSound}
use monash_fit1045_hd_projec.Usecase.JoinChannel
use monash_fit1045_hd_projec.Usecase.JoinChannel.Effect as Join
use monash_fit1045_hd_projec.Usecase.LeaveChannel.Effect.{execute_any-Loses}
use monash_fit1045_hd_projec.Usecase.CreateChannel
use monash_fit1045_hd_projec.Usecase.CreateChannel.Effect.{
  refusal, execute-Creates, create_channel_refused,
}
use monash_fit1045_hd_projec.Service.Handlers
use monash_fit1045_hd_projec.Service.Handlers.{join_target}
use monash_fit1045_hd_projec.Service.Requests.Departure.{disconnect-Removes}
use monash_fit1045_hd_projec.Service.Requests.Interference.{is_not, Spares, nothing, then_pure}

module _ (lib : UuidLib) (d : ClientId) where
  registered :
      (name : Text) (drawn : ClientId) (system_now steady_now : ℕ) (r : ClientRegistry)
      → Map.find drawn r.clients_by_id ≡ none
      → (drawn == d) ≡ false
      → is_connected (register_client name drawn system_now steady_now r).1 d ≡ is_connected r d
  unfolding register_client Map.contains ClientSession.create
  registered name drawn system_now steady_now r fresh other =
      elim (Option-cases (Map.find name r.username_to_id)) [
        | inr (j, taken) ↦ rw (taken, register_client, Map.contains) refl
        | inl free ↦ ground (
          arith,
          other,
          Map.find-emplace drawn d (ClientSession.create drawn name system_now steady_now)
              r.clients_by_id fresh,
        )
      ]

  pub connect-Spares :
      (raw : Text) (drawn : ClientId) (system_now steady_now : ℕ) (s : Server)
      → Map.find drawn s.clients.clients_by_id ≡ none
      → not (drawn == d) ≡ true
      → Spares lib d s (Handlers.connect lib raw drawn system_now steady_now s).1
  unfolding Handlers.connect
  connect-Spares raw drawn system_now steady_now s fresh other =
      elim (Option-cases (Username.create (trim raw))) [
        | inl bad ↦ rw (bad, Handlers.connect) (nothing lib d s)
        | inr (username, valid) ↦
            rw (valid, Handlers.connect)
              (then_pure lib d s (Ports.register_client username drawn system_now steady_now s)
                (λ session. session.id)
                (record {
                  connected =
                      registered username drawn system_now steady_now s.clients fresh
                        (ground arith);
                  member = λ k. refl;
                  named = λ k n e. inl e;
                }))
      ]

  pub leave-Spares :
      (client channel : Text) (s : Server)
      → IsSound s
      → is_not (parse lib (trim client)) d ≡ true
      → Spares lib d s (Handlers.leave_channel lib client channel s).1
  unfolding Handlers.leave_channel
  leave-Spares client channel s v other = elim (Option-cases (parse lib (trim client))) [
    | inl bad ↦ rw (bad, Handlers.leave_channel) (nothing lib d s)
    | inr (c, parsed) ↦ elim (Option-cases (parse lib (trim channel))) [
      | inl wrong ↦ rw (parsed, Handlers.leave_channel) (rw wrong (nothing lib d s))
      | inr (k, parsed') ↦
          let l = execute_any-Loses lib c k s v in
          let apart : (c == d) ≡ false = ground (arith, parsed) in
          rw (parsed, Handlers.leave_channel)
            (rw parsed' (record {
              connected = l.connected d;
              member = λ j. ground (arith, l.member j d, apart);
              named = λ j n e. inl (sym (l.named j) ∙ e);
            }))
    ]
  ]

  pub disconnect-Spares :
      (raw : Text) (s : Server)
      → IsSound s
      → is_not (parse lib (trim raw)) d ≡ true
      → Spares lib d s (Handlers.disconnect lib raw s).1
  unfolding Handlers.disconnect ClientRegistry.find_by_id
  disconnect-Spares raw s v other = elim (Option-cases (parse lib (trim raw))) [
    | inl bad ↦ rw (bad, Handlers.disconnect) (nothing lib d s)
    | inr (c, parsed) ↦ elim (Bool-cases (is_connected s.clients c)) [
      | inl online ↦
          let l = (disconnect-Removes lib raw c s v parsed online).1 in
          let apart : (c == d) ≡ false = ground (arith, parsed) in
          record {
            connected = ground (arith, l.connected d, apart);
            member = λ j. ground (arith, l.member j d, apart);
            named = λ j n e. inl (sym (l.named j) ∙ e);
          }
      | inr offline ↦ elim (Option-cases (Map.find c s.clients.clients_by_id)) [
        | inl gone ↦ rw (parsed, Handlers.disconnect) (rw gone (nothing lib d s))
        | inr (session, known) ↦ absurd (ground arith)
      ]
    ]
  ]

  join-Spares :
      (c : ClientId) (k : ChannelId) (s : Server)
      → IsSound s
      → (c == d) ≡ false
      → Spares lib d s (JoinChannel.execute lib c k s).1
  join-Spares c k s v apart =
      elim (Bool-cases (is_connected s.clients c && ChannelRepository.has_channel s.channels k)) [
        | inl fine ↦
            let l =
              (Join.execute-Enters lib c k s v (ground (arith, fine)) (ground (arith, fine))).1 in
            record {
              connected = l.connected d;
              member = λ j. ground (arith, l.member j d, apart);
              named = λ j n e. inl (sym (l.named j) ∙ e);
            }
        | inr refused ↦ rw (Join.join_refused lib c k s refused) (nothing lib d s)
      ]

  join_target-Spares :
      (c : ClientId) (raw : Text) (target : Option ChannelId) (s : Server)
      → IsSound s
      → (c == d) ≡ false
      → Spares lib d s (join_target lib c raw target s).1
  unfolding JoinChannel.execute_by_name ClientRegistry.find_by_id
  join_target-Spares c raw (some k) s v apart = join-Spares c k s v apart
  join_target-Spares c raw none s v apart =
      then_pure lib d s (JoinChannel.execute_by_name lib c raw s) (λ joined. tt) by_name
    where
      by_name : Spares lib d s (JoinChannel.execute_by_name lib c raw s).1
      by_name = elim (Option-cases (ChannelName.create (trim raw))) [
        | inl invalid ↦ elim (Option-cases (Map.find c s.clients.clients_by_id)) [
          | inl offline ↦ rw (offline, JoinChannel.execute_by_name) (nothing lib d s)
          | inr (session, known) ↦
              rw (known, JoinChannel.execute_by_name) (rw invalid (nothing lib d s))
        ]
        | inr (name, valid) ↦ elim (Result-cases (ChannelRepository.find_by_name name s.channels)) [
          | inl (channel, named) ↦
              rw (Join.execute_by_name-execute lib c raw name channel s v valid named) (
                then_pure lib d s (JoinChannel.execute lib c channel.id s) (λ u. channel.id)
                  (join-Spares c channel.id s v apart))
          | inr (e, missing) ↦ elim (Option-cases (Map.find c s.clients.clients_by_id)) [
            | inl offline ↦ rw (offline, JoinChannel.execute_by_name) (nothing lib d s)
            | inr (session, known) ↦
                rw (known, JoinChannel.execute_by_name) (rw (valid, missing) (nothing lib d s))
          ]
        ]
      ]

  pub join_channel-Spares :
      (client channel : Text) (s : Server)
      → IsSound s
      → is_not (parse lib (trim client)) d ≡ true
      → Spares lib d s (Handlers.join_channel lib client channel s).1
  unfolding Handlers.join_channel
  join_channel-Spares client channel s v other = elim (Option-cases (parse lib (trim client))) [
    | inl bad ↦ rw (bad, Handlers.join_channel) (nothing lib d s)
    | inr (c, parsed) ↦
        rw (parsed, Handlers.join_channel)
          (join_target-Spares c (trim channel) (parse lib (trim channel)) s v
            (ground (arith, parsed)))
  ]

  create-Spares :
      (c : ClientId) (raw : Text) (drawn : ChannelId) (now : ℕ) (s : Server)
      → IsSound s
      → Map.find drawn s.channels.channels_by_id ≡ none
      → parse lib (trim drawn) ≡ some drawn
      → Spares lib d s (CreateChannel.execute c raw drawn now s).1
  unfolding Map.contains
  create-Spares c raw drawn now s v fresh printed = elim (Option-cases (refusal c raw s)) [
    | inr (e, refused) ↦ rw (create_channel_refused c raw drawn now s e refused) (nothing lib d s)
    | inl granted ↦ elim (Option-cases (ChannelName.create (trim raw))) [
      | inl invalid ↦ absurd (ground arith)
      | inr (name, valid) ↦
          let l =
            (execute-Creates c raw name drawn now s v (ground arith) valid fresh
              (ground arith)).1 in
          record {
            connected = ap (λ r. is_connected r d) l.clients;
            member = λ j. l.member j d;
            named = λ j n e. elim (Bool-cases (drawn == j)) [
              | inl new ↦
                  inr (subst (λ i. parse lib (trim i) ≡ some i) ((eq_iff drawn j).0 new) printed)
              | inr old ↦ inl (ground (arith, l.named j, e))
            ];
          }
    ]
  ]

  pub create_channel-Spares :
      (client name : Text) (drawn : ChannelId) (now : ℕ) (s : Server)
      → IsSound s
      → Map.find drawn s.channels.channels_by_id ≡ none
      → parse lib (trim drawn) ≡ some drawn
      → Spares lib d s (Handlers.create_channel lib client name drawn now s).1
  unfolding Handlers.create_channel
  create_channel-Spares client name drawn now s v fresh printed =
      elim (Option-cases (parse lib (trim client))) [
        | inl bad ↦ rw (bad, Handlers.create_channel) (nothing lib d s)
        | inr (c, parsed) ↦
            rw (parsed, Handlers.create_channel)
              (then_pure lib d s (CreateChannel.execute c (trim name) drawn now s)
                (λ created. record { channel_id = created; channel_name = trim name })
                (create-Spares c (trim name) drawn now s v fresh printed))
      ]
