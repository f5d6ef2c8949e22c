-- ===== src/Usecase/JoinChannel/Effect.antt =====
-- server/src/application/usecase/join_channel.cpp: the two methods as a whole.
use monash_fit1045_hd_projec.Base.{
  ◌≡◌, refl, inl, inr, true, false, ◌&&◌, some, arith, Text, if◌then◌else◌, Option-cases,
  Bool-cases,
}
use monash_fit1045_hd_projec.Containers.Map
use monash_fit1045_hd_projec.Shared.Outcome.{ok, err, client_not_found, channel_not_found}
use monash_fit1045_hd_projec.Shared.Outcome.{◌>>◌, pure}
use monash_fit1045_hd_projec.Shared.StringUtils.{trim}
use monash_fit1045_hd_projec.Domain.ChannelName
use monash_fit1045_hd_projec.Shared.Ids.{UuidLib, ChannelId, ClientId}
use monash_fit1045_hd_projec.Domain.Channel.{Channel}
use monash_fit1045_hd_projec.Persistence.ChannelRepository
use monash_fit1045_hd_projec.Persistence.ChannelRepository.{is_member, is_member-save}
use monash_fit1045_hd_projec.Persistence.ChannelRepository.Invariant as Repository
use monash_fit1045_hd_projec.Persistence.ClientRegistry
use monash_fit1045_hd_projec.Persistence.ClientRegistry.Memberships.{is_connected}
use monash_fit1045_hd_projec.Usecase.Ports.{Server}
use monash_fit1045_hd_projec.Usecase.Membership.{IsSound}
use monash_fit1045_hd_projec.Usecase.JoinChannel.{execute, execute_by_name}
use monash_fit1045_hd_projec.Usecase.JoinChannel.Enter.{Enters, enter-Enters}

-- In a sound server, a client that is connected may join any channel that exists: the call
-- succeeds, and afterwards the client is a member of that channel and of no other, everybody
-- else's memberships, the channels' names, the connections and the messages are as before, and the
-- server is sound.
pub execute-Enters :
    (lib : UuidLib) (client : ClientId) (target : ChannelId) (s : Server)
    → IsSound s
    → is_connected s.clients client ≡ true
    → ChannelRepository.has_channel s.channels target ≡ true
    → ((execute lib client target s).0 ≡ ok tt)
      × Enters client target s (execute lib client target s).1
unfolding execute ClientRegistry.find_by_id ChannelRepository.find_by_id
execute-Enters lib client target s v online there =
    elim (Option-cases (Map.find client s.clients.clients_by_id)) [
      | inl offline ↦ absurd (ground arith)
      | inr (session, known) ↦ elim (Option-cases (Map.find target s.channels.channels_by_id)) [
        | inl missing ↦ absurd (ground arith)
        | inr (channel, exists) ↦
            rw (known, execute)
              (rw exists (enter-Enters lib client session channel target s v known exists))
      ]
    ]

-- A join of an unknown client or of an unknown channel is refused with the error that names it, the
-- client first, and changes nothing.
pub join_refused :
    (lib : UuidLib) (client : ClientId) (target : ChannelId) (s : Server)
    → (is_connected s.clients client && ChannelRepository.has_channel s.channels target) ≡ false
    → execute lib client target s
      ≡ (err (if is_connected s.clients client then channel_not_found else client_not_found), s)
unfolding execute ClientRegistry.find_by_id ChannelRepository.find_by_id
join_refused lib client target s h = elim (Option-cases (Map.find client s.clients.clients_by_id)) [
  | inl offline ↦ rw (offline, execute) refl
  | inr (session, known) ↦ elim (Option-cases (Map.find target s.channels.channels_by_id)) [
    | inl missing ↦ rw (known, execute) (rw missing refl)
    | inr (channel, exists) ↦ absurd (ground arith)
  ]
]

-- However the call ends, the server is sound.
pub execute-IsSound :
    (lib : UuidLib) (client : ClientId) (target : ChannelId) (s : Server)
    → IsSound s
    → IsSound (execute lib client target s).1
execute-IsSound lib client target s v =
    elim (Bool-cases
      (is_connected s.clients client && ChannelRepository.has_channel s.channels target)) [
        | inl fine ↦
            (execute-Enters lib client target s v (ground (arith, fine))
              (ground (arith, fine))).1.sound
        | inr refused ↦ rw (join_refused lib client target s refused) v
      ]

-- In a sound server, joining by a valid name that a channel bears is joining by the identifier of
-- that channel; if it succeeds, the call then returns the identifier.
pub execute_by_name-execute :
    (lib : UuidLib) (client : ClientId) (raw name : Text) (channel : Channel) (s : Server)
    → IsSound s
    → ChannelName.create (trim raw) ≡ some name
    → ChannelRepository.find_by_name name s.channels ≡ ok channel
    → execute_by_name lib client raw s ≡ (execute lib client channel.id >> pure channel.id) s
unfolding execute execute_by_name ClientRegistry.find_by_id ChannelRepository.find_by_id
execute_by_name-execute lib client raw name channel s v valid named =
    let found : ChannelRepository.find_by_id channel.id s.channels ≡ ok channel =
      ((Repository.find_by_name_iff s.channels v.repository name channel).0 named).1 in
    elim (Option-cases (Map.find client s.clients.clients_by_id)) [
      | inl offline ↦ rw (offline, execute, execute_by_name) refl
      | inr (session, known) ↦ rw (known, execute, execute_by_name) (rw (valid, named, found) refl)
    ]
