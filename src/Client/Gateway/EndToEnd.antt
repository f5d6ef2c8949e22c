-- ===== src/Client/Gateway/EndToEnd.antt =====
-- client-cli/src/adapter/grpc/grpc_server_gateway.cpp over
-- server/src/adapter/grpc/broadcast_service_impl.cpp: the calls of the client, answered by the handlers
-- of the server.
use monash_fit1045_hd_projec.Base.{
  subst, sym, ℕ, ◌≡◌, refl, ap, inl, inr, [], ◌∷◌, map, true, some, arith, Text, ◌==◌, eq_iff,
  eq_refl, Bool-cases,
}
use monash_fit1045_hd_projec.Containers.Map
use monash_fit1045_hd_projec.Containers.Map.{Map, HasDistinctKeys}
use monash_fit1045_hd_projec.Shared.Outcome.{◌>>◌, continue, Result, ok, err, Exec, ◌>>=◌, pure}
use monash_fit1045_hd_projec.Shared.StringUtils.{trim, trim_copy, trim_idem}
use monash_fit1045_hd_projec.Shared.Ids.{UuidLib, ChannelId, ClientId, parse}
use monash_fit1045_hd_projec.Domain.Channel.{Channel}
use monash_fit1045_hd_projec.Persistence.ChannelRepository
use monash_fit1045_hd_projec.Persistence.ChannelRepository.Invariant.{find_by_name_iff}
use monash_fit1045_hd_projec.Persistence.ClientRegistry.Memberships.{is_connected}
use monash_fit1045_hd_projec.Publisher.ChannelListPublisher.{populate_channel_summary}
use monash_fit1045_hd_projec.Usecase.Ports.{Server}
use monash_fit1045_hd_projec.Usecase.Membership.{IsSound}
use monash_fit1045_hd_projec.Usecase.Listing.{list_channels}
use monash_fit1045_hd_projec.Usecase.JoinChannel
use monash_fit1045_hd_projec.Usecase.JoinChannel.Enter.{Enters}
use monash_fit1045_hd_projec.Usecase.JoinChannel.Effect.{execute-Enters}
use monash_fit1045_hd_projec.Service.Handlers
use monash_fit1045_hd_projec.Service.Status.{error_to_status}
use monash_fit1045_hd_projec.Client.Gateway.{
  Stub, Reply, answered, failed, find_named, join_channel, join_channel_by_name,
}

-- The answer to a call: the response, or the status of the error.
abbrev reply_of : {A : Type 0} → Result A → Reply A
reply_of (ok a) = answered a
reply_of (err e) = failed (error_to_status e)

abbrev pub serve_call : {A : Type 0} → Exec Server A → Server → Reply A × Server
serve_call m s = let (r, s') = m s in (reply_of r, s')

-- The stub of a client whose next call is answered by the server. `drawn` is the identifier, and the
-- numbers the clock readings, that serving the call may use.
abbrev pub served_by : UuidLib → Text → ℕ → ℕ → Stub Server
served_by lib drawn system_now steady_now = record {
  connect = λ name. serve_call (Handlers.connect lib name drawn system_now steady_now);
  disconnect = λ client. serve_call (Handlers.disconnect lib client);
  create_channel = λ client name. serve_call (
      Handlers.create_channel lib client name drawn system_now >>= λ created.
      pure created.channel_id);
  list_channels = λ s. (answered (Handlers.list_channels_of s), s);
  join_channel = λ client channel. serve_call (Handlers.join_channel lib client channel);
  leave_channel = λ client channel. serve_call (Handlers.leave_channel lib client channel);
  send_message = λ client channel content.
      serve_call (Handlers.send_message lib client channel content drawn system_now);
  heartbeat = λ client. serve_call (Handlers.heartbeat lib client steady_now);
}

-- Where only one value has the name, the search finds it.
find_named-values :
    (name : Text) (m : Map Channel) (k : ChannelId) (channel : Channel)
    → HasDistinctKeys m
    → ((j : ChannelId) (c : Channel) → Map.find j m ≡ some c → c.name ≡ name → j ≡ k)
    → Map.find k m ≡ some channel
    → channel.name ≡ name
    → find_named name (map populate_channel_summary (Map.values m))
      ≡ some (populate_channel_summary channel)
unfolding find_named Map.values Map.find populate_channel_summary
find_named-values name [] k channel d only found named = absurd (ground arith)
find_named-values name ((j, c) ∷ m) k channel d only found named =
    elim (Bool-cases (c.name == name)) [
      | inl this ↦
          let same : j ≡ k =
            only j c (ground (arith, eq_refl j)) (ground (arith, eq_iff c.name name)) in
          let e : c ≡ channel = ground (arith, eq_iff j k) in
          rw this (ap (λ x. some (populate_channel_summary x)) e)
      | inr other ↦
          let later : Map.find k m ≡ some channel =
            ground (arith, eq_iff c.name name, eq_iff j k) in
          rw other (
            find_named-values name m k channel d.1 (λ i x e. only i x (ground (arith, eq_iff j i)))
              later named)
    ]

found_by_name :
    (name : Text) (channel : Channel) (s : Server)
    → IsSound s
    → ChannelRepository.find_by_name name s.channels ≡ ok channel
    → find_named name (Handlers.list_channels_of s) ≡ some (populate_channel_summary channel)
unfolding Handlers.list_channels_of list_channels ChannelRepository.list_all
    ChannelRepository.find_by_id
found_by_name name channel s v named =
    let (bears, at) = (find_by_name_iff s.channels v.repository name channel).0 named in
    let there : Map.find channel.id s.channels.channels_by_id ≡ some channel = ground (arith, at) in
    find_named-values name s.channels.channels_by_id channel.id channel v.repository.distinct
      (λ k c e q. ground (
        arith,
        v.repository.indexed k c e,
        v.repository.indexed channel.id channel there,
        bears,
        q,
      ))
      there bears

joined_remotely :
    (lib : UuidLib) (drawn : Text) (system_now steady_now : ℕ) (client : ClientId) (k : ChannelId)
    (s : Server)
    → parse lib (trim client) ≡ some client
    → parse lib (trim k) ≡ some k
    → (JoinChannel.execute lib client k s).0 ≡ ok tt
    → join_channel (served_by lib drawn system_now steady_now) client k s
      ≡ (ok tt, (JoinChannel.execute lib client k s).1)
unfolding join_channel Handlers.join_channel trim_copy
joined_remotely lib drawn system_now steady_now client k s this that done =
    let this' : parse lib (trim (trim client)) ≡ some client = rw (trim_idem client) this in
    let that' : parse lib (trim (trim k)) ≡ some k = rw (trim_idem k) that in
    rw (this', Handlers.join_channel) (rw that' (rw done refl))

known_channel :
    (channel : Channel) (s : Server)
    → ChannelRepository.find_by_id channel.id s.channels ≡ ok channel
    → ChannelRepository.has_channel s.channels channel.id ≡ true
unfolding ChannelRepository.find_by_id
known_channel channel s at = ground arith

-- In a sound server, a connected client that asks for a channel by its name, through the gateway
-- and the handlers of the server, ends up in the channel of that name and in no other, and gets
-- the identifier of the channel. The texts of the two identifiers are assumed to parse to
-- themselves.
pub join_channel_by_name-Enters :
    (lib : UuidLib) (drawn : Text) (system_now steady_now : ℕ) (client : ClientId) (raw : Text)
    (channel : Channel) (s : Server)
    → IsSound s
    → is_connected s.clients client ≡ true
    → parse lib (trim client) ≡ some client
    → parse lib (trim channel.id) ≡ some channel.id
    → ChannelRepository.find_by_name (trim raw) s.channels ≡ ok channel
    → let r = join_channel_by_name (served_by lib drawn system_now steady_now) client raw s in
      (r.0 ≡ ok channel.id) × Enters client channel.id s r.1
unfolding join_channel_by_name populate_channel_summary
join_channel_by_name-Enters lib drawn system_now steady_now client raw channel s v online this that
      named =
    let at = ((find_by_name_iff s.channels v.repository (trim raw) channel).0 named).1 in
    let (done, enters) =
      execute-Enters lib client channel.id s v online (known_channel channel s at) in
    let stub : Stub Server = served_by lib drawn system_now steady_now in
    let e : (join_channel stub client channel.id >> pure channel.id) s
        ≡ (ok channel.id, (JoinChannel.execute lib client channel.id s).1) =
      ap (λ p. continue p.0 (λ u. pure channel.id) p.1)
        (joined_remotely lib drawn system_now steady_now client channel.id s this that done) in
    rw (found_by_name (trim raw) channel s v named)
      (subst (λ p. (p.0 ≡ ok channel.id) × Enters client channel.id s p.1) (sym e) (refl, enters))
