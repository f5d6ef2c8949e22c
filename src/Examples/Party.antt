-- ===== src/Examples/Party.antt =====
-- The server of the examples. Identifiers are the letter i and one byte.
use monash_fit1045_hd_projec.Base.{
  subst, eq_iff, ℕ, ◌≡◌, refl, [], ◌∷◌, List, Option, none, some, arith, Text, codes, ◌==◌, eqb,
  if◌then◌else◌,
}
use monash_fit1045_hd_projec.Containers.Map
use monash_fit1045_hd_projec.Containers.IdSet
use monash_fit1045_hd_projec.Shared.StringUtils.{trim, skip_space, is_ascii_space}
use monash_fit1045_hd_projec.Shared.Ids.{UuidLib, PrintsBack, StrongId, parse}
use monash_fit1045_hd_projec.Domain.Names.{is_alnum, create_checked}
use monash_fit1045_hd_projec.Domain.Username
use monash_fit1045_hd_projec.Domain.ChannelName
use monash_fit1045_hd_projec.Domain.Channel
use monash_fit1045_hd_projec.Domain.ClientSession
use monash_fit1045_hd_projec.Persistence.ChannelRepository
use monash_fit1045_hd_projec.Persistence.ClientRegistry
use monash_fit1045_hd_projec.Persistence.MessageRepository
use monash_fit1045_hd_projec.Publisher.Writers
use monash_fit1045_hd_projec.Publisher.ClientPublisher
use monash_fit1045_hd_projec.Publisher.ClientPublisher.Delivery.{IsExclusive}
use monash_fit1045_hd_projec.Publisher.ChannelListPublisher
use monash_fit1045_hd_projec.Usecase.Ports.{Server}
use monash_fit1045_hd_projec.Usecase.Membership.{IsSound}
use monash_fit1045_hd_projec.Usecase.CreateChannel
use monash_fit1045_hd_projec.Usecase.JoinChannel
use monash_fit1045_hd_projec.Usecase.Subscribe.{subscribe_to_channel}
use monash_fit1045_hd_projec.Service.Handlers
use monash_fit1045_hd_projec.Service.Requests.{
  Request, connect, create_channel, join_channel, subscribe, serve, started, seeded, Reachable,
  start, step,
}
use monash_fit1045_hd_projec.Service.Requests.Soundness.{Reachable-IsSound}

abbrev read_byte : Text → Option ℕ
read_byte [] = none
read_byte (c ∷ []) = none
read_byte (c ∷ (n ∷ [])) = if eqb c b'i' then some n else none
read_byte (c ∷ (n ∷ (d ∷ s))) = none

abbrev pub byte_ids : UuidLib
byte_ids = record {
  Uuid = ℕ;
  from_string = read_byte;
  is_nil = λ n. eqb n 0;
  to_string = λ n. b'i' ∷ n ∷ [];
}

pub byte_ids-PrintsBack : PrintsBack byte_ids
byte_ids-PrintsBack u = refl

abbrev pub id : ℕ → StrongId
id n = b'i' ∷ n ∷ []

abbrev pub ann : StrongId
ann = id 65

abbrev pub bob : StrongId
bob = id 66

abbrev pub general : StrongId
general = id 71

abbrev pub random : StrongId
random = id 72

-- The requests, the last one first.
abbrev pub requests : List Request
requests =
    subscribe ann general 100
    ∷ join_channel ann (codes "general")
    ∷ create_channel bob (codes " random ") random 4
    ∷ connect (codes "bob") bob 2 20
    ∷ connect (codes "ann") ann 1 10
    ∷ []

abbrev pub serve_all : List Request → Server
serve_all [] = started 3 general 3
serve_all (r ∷ rs) = serve byte_ids r (serve_all rs)

abbrev pub party : Server
party = record {
  channels = record {
    channels_by_id =
        (
          general,
          record { id = general; name = codes "general"; members = ann ∷ []; created_at = 3 },
        )
        ∷ (random, record { id = random; name = codes "random"; members = []; created_at = 4 })
        ∷ [];
    name_to_id = (codes "general", general) ∷ (codes "random", random) ∷ [];
  };
  clients = record {
    clients_by_id =
        (
          ann,
          record {
            id = ann;
            username = codes "ann";
            joined_channels = general ∷ [];
            connected_since = 1;
            last_heartbeat_at = 10;
          },
        )
        ∷ (
          bob,
          record {
            id = bob;
            username = codes "bob";
            joined_channels = [];
            connected_since = 2;
            last_heartbeat_at = 20;
          },
        )
        ∷ [];
    username_to_id = (codes "ann", ann) ∷ (codes "bob", bob) ∷ [];
    historical_usernames = (ann, codes "ann") ∷ (bob, codes "bob") ∷ [];
  };
  messages = record { cap = 3; buffers = [] };
  publisher = record {
    writers = (ann, 0) ∷ [];
    entry = Writers.set_entry (λ a. none) 0 (some 100);
    next_entry = 1;
    written = [];
  };
  channel_list = Writers.empty;
}

-- Every state that the requests pass through.
served : serve_all requests ≡ party
unfolding serve started seeded Handlers.connect Handlers.create_channel Handlers.join_channel
    Handlers.subscribe_start Username.create ChannelName.create create_checked is_alnum
    Username.is_allowed_char ChannelName.is_allowed_char trim skip_space is_ascii_space parse
    ClientRegistry.register_client ClientSession.create Map.contains Map.find Map.emplace
    Map.insert_or_assign ◌==◌ CreateChannel.execute ClientRegistry.find_by_id
    ChannelRepository.create Channel.create ChannelListPublisher.publish_channel_created
    ChannelListPublisher.populate_channel_summary Channel.member_count Writers.targets
    Writers.write_all JoinChannel.execute_by_name ChannelRepository.find_by_name JoinChannel.enter
    JoinChannel.leave_other_channels JoinChannel.leave_each JoinChannel.add_if_new
    Channel.has_member IdSet.contains Channel.add_member IdSet.insert ChannelRepository.save
    ClientRegistry.join_channel_atomic ClientRegistry.update_session ClientSession.join_channel
    ChannelListPublisher.publish_member_count_changed ClientPublisher.broadcast_member_joined
    subscribe_to_channel ChannelRepository.find_by_id ClientPublisher.register_subscriber
    Writers.register MessageRepository.create
served = refl

pub reached : Reachable byte_ids (serve_all requests)
unfolding serve started seeded Handlers.connect Handlers.create_channel Username.create
    create_checked is_alnum Username.is_allowed_char ChannelName.create ChannelName.is_allowed_char
    trim skip_space is_ascii_space parse ClientRegistry.register_client ClientSession.create
    Map.contains Map.find Map.emplace Map.insert_or_assign ◌==◌ CreateChannel.execute
    ClientRegistry.find_by_id ChannelRepository.create Channel.create MessageRepository.create
reached =
    step _ (subscribe ann general 100)
      (step _ (join_channel ann (codes "general"))
        (step _ (create_channel bob (codes " random ") random 4)
          (step _ (connect (codes "bob") bob 2 20)
            (step _ (connect (codes "ann") ann 1 10) (start 3 general 3) refl) refl)
          refl)
        tt)
      tt

pub party-IsSound : IsSound party
party-IsSound = subst IsSound served (Reachable-IsSound byte_ids (serve_all requests) reached)

-- Ann alone has a stream.
pub party-IsExclusive : IsExclusive party.publisher
unfolding Map.find
party-IsExclusive = record {
  distinct = (refl, tt);
  exclusive = λ i j w f g. ground (arith, eq_iff ann i, eq_iff ann j, f.1, g.1);
}
