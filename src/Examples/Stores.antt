-- ===== src/Examples/Stores.antt =====
-- The stores and the streams.
use monash_fit1045_hd_projec.Base.{
  ℕ, ◌≡◌, refl, [], ◌∷◌, List, true, none, some, arith, codes, ◌==◌, length, min,
}
use monash_fit1045_hd_projec.Containers.Map
use monash_fit1045_hd_projec.Containers.IdSet
use monash_fit1045_hd_projec.Containers.IdSet.{IsDistinct}
use monash_fit1045_hd_projec.Shared.Outcome.{ok}
use monash_fit1045_hd_projec.Domain.Channel.{Channel, has_member}
use monash_fit1045_hd_projec.Domain.ClientSession
use monash_fit1045_hd_projec.Domain.ClientSession.{ClientSession}
use monash_fit1045_hd_projec.Domain.Message.{Message}
use monash_fit1045_hd_projec.Persistence.ClientRegistry
use monash_fit1045_hd_projec.Persistence.ClientRegistry.Invariant.{remove_frees_name}
use monash_fit1045_hd_projec.Persistence.MessageRepository.{
  MessageRepository, create, recent, buffer_of, position,
}
use monash_fit1045_hd_projec.Persistence.MessageRepository.Buffers.{
  save_all, recent-save_all, last, of_channel,
}
use monash_fit1045_hd_projec.Usecase.Ports.{Server}
use monash_fit1045_hd_projec.Usecase.Listing.{fetch, list_messages}
use monash_fit1045_hd_projec.Usecase.Listing.Pages.{walk, walk_all, list_messages_latest}
use monash_fit1045_hd_projec.Examples.Party.{id, ann, general, party, party-IsSound}

abbrev said : ℕ → Message
said n = record {
  id = id n;
  sender_id = ann;
  channel_id = general;
  content = codes "hi";
  sent_at = n;
}

abbrev talk : List Message
talk = said 1 ∷ said 2 ∷ said 3 ∷ said 4 ∷ []

-- Of four messages a buffer of three keeps the last three.
recent-save_all_example :
    recent general 2 (save_all talk (create 3))
    ≡ last (min 2 (create 3).cap) (of_channel general talk)
recent-save_all_example = recent-save_all 3 2 general talk

abbrev history : MessageRepository
history = record { cap = 3; buffers = (general, said 2 ∷ said 3 ∷ said 4 ∷ []) ∷ [] }

walk_all_example :
    walk (length (buffer_of general history)) general 2 (fetch general none 2 history) history
    ≡ some (buffer_of general history)
unfolding Map.find ◌==◌ position
walk_all_example = walk_all general 2 history (refl, (refl, (refl, tt))) (omega arith)

abbrev talked : Server
talked = record party { messages = history }

list_messages_latest_example :
    list_messages ann general none 2 talked
    ≡ (ok (record { messages = said 3 ∷ said 4 ∷ []; has_more = true }), talked)
unfolding Map.find ◌==◌ position has_member IdSet.contains
list_messages_latest_example =
    list_messages_latest ann general 2 talked (refl, (refl, (refl, tt))) refl

abbrev ann_session : ClientSession
ann_session = record {
  id = ann;
  username = codes "ann";
  joined_channels = general ∷ [];
  connected_since = 1;
  last_heartbeat_at = 10;
}

abbrev general_channel : Channel
general_channel = record {
  id = general;
  name = codes "general";
  members = ann ∷ [];
  created_at = 3;
}

remove_frees_name_example :
    ((ClientRegistry.register_client
        (codes "ann")
        (id 80)
        5
        50
        (ClientRegistry.remove ann party.clients).1).0
      ≡ ok (ClientSession.create (id 80) (codes "ann") 5 50))
    × (ClientRegistry.lookup_username ann (ClientRegistry.remove ann party.clients).1
        ≡ ok (codes "ann"))
unfolding ClientRegistry.find_by_id Map.find ◌==◌
remove_frees_name_example =
    remove_frees_name party.clients party-IsSound.registry ann ann_session (id 80) 5 50 refl
