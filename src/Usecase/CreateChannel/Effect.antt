-- ===== src/Usecase/CreateChannel/Effect.antt =====
-- server/src/application/usecase/create_channel.cpp: the stores after the call.
use monash_fit1045_hd_projec.Base.{
  ℕ, ◌≡◌, refl, ◌∙◌, inl, inr, true, Option, none, some, arith, Text, ◌==◌, eq_iff, if◌then◌else◌,
  Option-cases,
}
use monash_fit1045_hd_projec.Containers.Map
use monash_fit1045_hd_projec.Containers.IdSet
use monash_fit1045_hd_projec.Shared.Outcome.{
  Error, ok, err, client_not_found, invalid_channel_name, channel_already_exists,
}
use monash_fit1045_hd_projec.Shared.StringUtils.{trim}
use monash_fit1045_hd_projec.Shared.Ids.{ChannelId, ClientId}
use monash_fit1045_hd_projec.Domain.ChannelName
use monash_fit1045_hd_projec.Domain.Channel
use monash_fit1045_hd_projec.Domain.Channel.{Channel, has_member}
use monash_fit1045_hd_projec.Persistence.ChannelRepository
use monash_fit1045_hd_projec.Persistence.ChannelRepository.{
  ChannelRepository, is_member, has_channel,
}
use monash_fit1045_hd_projec.Persistence.ChannelRepository.Invariant.{create-IsConsistent}
use monash_fit1045_hd_projec.Persistence.ClientRegistry
use monash_fit1045_hd_projec.Persistence.ClientRegistry.Memberships.{is_connected}
use monash_fit1045_hd_projec.Usecase.Ports.{Server, publish_created}
use monash_fit1045_hd_projec.Usecase.Membership.{IsSound, name_at}
use monash_fit1045_hd_projec.Usecase.CreateChannel.{execute}

-- The channel is there under its name, it is empty, and all else is as before.
pub record Creates (name : Text) (id : ChannelId) (s s' : Server) : Type 0 where
  pub sound : IsSound s'
  pub named :
      (k : ChannelId)
      → name_at s'.channels k ≡ (if id == k then some name else name_at s.channels k)
  pub member : (k : ChannelId) (c : ClientId) → is_member s'.channels k c ≡ is_member s.channels k c
  pub clients : s'.clients ≡ s.clients
  pub messages : s'.messages ≡ s.messages
  pub publisher : s'.publisher ≡ s.publisher

-- The repository with the new channel.
abbrev with_created : Text → ChannelId → ℕ → Server → Server
with_created name drawn now s = record s {
  channels = (ChannelRepository.create name drawn now s.channels).1;
}

module _ (name : Text) (drawn : ChannelId) (now : ℕ) (s : Server) (v : IsSound s)
    (fresh : Map.find drawn s.channels.channels_by_id ≡ none)
    (free : Map.find name s.channels.name_to_id ≡ none) where
  find_created :
      (k : ChannelId)
      → Map.find k (ChannelRepository.create name drawn now s.channels).1.channels_by_id ≡ (
          if drawn == k
          then some (Channel.create drawn name now)
          else Map.find k s.channels.channels_by_id)
  unfolding ChannelRepository.create Map.contains Channel.create
  find_created k =
      rw (free, ChannelRepository.create, Map.contains)
        (Map.find-emplace drawn k (Channel.create drawn name now) s.channels.channels_by_id fresh)

  member_created :
      (k : ChannelId) (c : ClientId)
      → is_member (with_created name drawn now s).channels k c ≡ is_member s.channels k c
  unfolding Channel.create has_member IdSet.contains
  member_created k c = ground (arith, find_created k, eq_iff drawn k)

  created_lem :
      (ChannelRepository.create name drawn now s.channels).0 ≡ ok (Channel.create drawn name now)
  unfolding ChannelRepository.create Map.contains
  created_lem = rw (free, ChannelRepository.create, Map.contains) refl

  with_created-Creates :
      Creates name drawn s
        (publish_created (Channel.create drawn name now) (with_created name drawn now s))
  unfolding Channel.create
  with_created-Creates = record {
    sound = record {
      repository = create-IsConsistent s.channels v.repository name drawn now fresh;
      registry = v.registry;
      agree = λ k c. member_created k c ∙ v.agree k c;
      single = v.single;
    };
    named = λ k. ground (arith, find_created k);
    member = member_created;
    clients = refl;
    messages = refl;
    publisher = refl;
  }

-- In a sound server, a connected client that asks for a free, valid name gets a new, empty channel
-- of that name, whose identifier is the one drawn, provided that this is not in use. Memberships,
-- clients, messages and the streams of channel events are as before, and the server is sound.
pub execute-Creates :
    (client : ClientId) (raw name : Text) (drawn : ChannelId) (now : ℕ) (s : Server)
    → IsSound s
    → is_connected s.clients client ≡ true
    → ChannelName.create (trim raw) ≡ some name
    → Map.find drawn s.channels.channels_by_id ≡ none
    → Map.find name s.channels.name_to_id ≡ none
    → ((execute client raw drawn now s).0 ≡ ok drawn)
      × Creates name drawn s (execute client raw drawn now s).1
unfolding execute ClientRegistry.find_by_id Channel.create
execute-Creates client raw name drawn now s v online valid fresh free =
    elim (Option-cases (Map.find client s.clients.clients_by_id)) [
      | inl offline ↦ absurd (ground arith)
      | inr (session, known) ↦
          rw (known, execute)
            (rw valid (
              rw (created_lem name drawn now s v fresh free)
                (refl, with_created-Creates name drawn now s v fresh free)))
    ]

-- Why a request is refused, if it is: the first reason that applies.
abbrev pub refusal : ClientId → Text → Server → Option Error
refusal client raw s =
    if is_connected s.clients client
    then (elim (ChannelName.create (trim raw)) [
      | none ↦ some invalid_channel_name
      | some name ↦
          if Map.contains name s.channels.name_to_id then some channel_already_exists else none
    ])
    else some client_not_found

-- A request that there is a reason to refuse changes nothing, and its error is the first reason that
-- applies: the client is not connected, the name is not valid, the name is taken.
pub create_channel_refused :
    (client : ClientId) (raw : Text) (drawn : ChannelId) (now : ℕ) (s : Server) (e : Error)
    → refusal client raw s ≡ some e
    → execute client raw drawn now s ≡ (err e, s)
unfolding execute ClientRegistry.find_by_id ChannelRepository.create Map.contains
create_channel_refused client raw drawn now s e h =
    elim (Option-cases (Map.find client s.clients.clients_by_id)) [
      | inl offline ↦ rw (offline, execute) (ground arith)
      | inr (session, known) ↦ elim (Option-cases (ChannelName.create (trim raw))) [
        | inl invalid ↦ rw (known, execute) (rw invalid (ground arith))
        | inr (name, valid) ↦ elim (Option-cases (Map.find name s.channels.name_to_id)) [
          | inl free ↦ absurd (ground arith)
          | inr (k, taken) ↦
              rw (known, execute)
                (rw valid (rw (taken, ChannelRepository.create, Map.contains) (ground arith)))
        ]
      ]
    ]

-- However the call ends, the server is sound, if the identifier that is drawn is not in use.
pub execute-IsSound :
    (client : ClientId) (raw : Text) (drawn : ChannelId) (now : ℕ) (s : Server)
    → IsSound s
    → Map.find drawn s.channels.channels_by_id ≡ none
    → IsSound (execute client raw drawn now s).1
unfolding Map.contains
execute-IsSound client raw drawn now s v fresh = elim (Option-cases (refusal client raw s)) [
  | inr (e, refused) ↦ rw (create_channel_refused client raw drawn now s e refused) v
  | inl granted ↦ elim (Option-cases (ChannelName.create (trim raw))) [
    | inl invalid ↦ absurd (ground arith)
    | inr (name, valid) ↦
        (execute-Creates client raw name drawn now s v (ground arith) valid fresh
          (ground arith)).1.sound
  ]
]
