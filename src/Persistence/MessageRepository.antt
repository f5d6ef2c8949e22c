-- ===== src/Persistence/MessageRepository.antt =====
-- server/src/adapter/persistence/in_memory_message_repository.cpp: the last messages of each
-- channel, at most `cap` of them. A std::deque is a list, its front first.
pub mod Buffers
use monash_fit1045_hd_projec.Base.{
  ℕ, suc, ◌+◌, ◌-◌, min, ◌≡◌, [], ◌∷◌, ◌++◌, Bool, true, false, ◌||◌, Option, none, some, List,
  arith, Text, ◌==◌, ltb, eqb, if◌then◌else◌, length, take, drop,
}
use monash_fit1045_hd_projec.Containers.Map
use monash_fit1045_hd_projec.Containers.Map.{Map}
use monash_fit1045_hd_projec.Shared.Outcome.{VoidResult, ok}
use monash_fit1045_hd_projec.Shared.Ids.{ChannelId, MessageId}
use monash_fit1045_hd_projec.Domain.Message.{Message}

abbrev pub default_cap : ℕ
default_cap = 200

pub record MessageRepository : Type 0 where
  pub cap : ℕ
  pub buffers : Map (List Message)

-- The constructor: a cap of 0 stands for the default.
unfoldable pub create : ℕ → MessageRepository
create cap = record { cap = if eqb cap 0 then default_cap else cap; buffers = [] }

-- while (buffer.size() > cap) buffer.pop_front()
unfoldable pub drop_oldest : ℕ → List Message → List Message
drop_oldest cap [] = []
drop_oldest cap (m ∷ buffer) =
    if ltb cap (length (m ∷ buffer)) then drop_oldest cap buffer else m ∷ buffer

-- buffers_[id]: an entry that is missing is made, and is empty.
abbrev pub or_empty : Option (List Message) → List Message
or_empty none = []
or_empty (some buffer) = buffer

abbrev pub buffer_of : ChannelId → MessageRepository → List Message
buffer_of k r = or_empty (Map.find k r.buffers)

unfoldable pub save : Message → MessageRepository → VoidResult × MessageRepository
save message r =
    let buffer = buffer_of message.channel_id r ++ (message ∷ []) in
    (
      ok tt,
      record r {
        buffers = Map.insert_or_assign message.channel_id (drop_oldest r.cap buffer) r.buffers;
      },
    )

-- The elements from position `first` up to `last`.
abbrev pub slice : ℕ → ℕ → List Message → List Message
slice first last buffer = drop first (take last buffer)

unfoldable pub recent : ChannelId → ℕ → MessageRepository → List Message
recent channel_id count r = elim (Map.find channel_id r.buffers) [
  | none ↦ []
  | some buffer ↦
      if eqb count 0
      then []
      else slice (length buffer - min count (length buffer)) (length buffer) buffer
]

-- std::ranges::find_if, as the distance from the beginning.
unfoldable pub position : MessageId → List Message → Option ℕ
position id [] = none
position id (m ∷ buffer) =
    if m.id == id then some 0 else elim (position id buffer) [ none ↦ none | some d ↦ some (suc d) ]

unfoldable pub list_before : ChannelId → MessageId → ℕ → MessageRepository → List Message
list_before channel_id before_message_id count r = elim (Map.find channel_id r.buffers) [
  | none ↦ []
  | some buffer ↦ if eqb count 0 then [] else (elim (position before_message_id buffer) [
    | none ↦ []
    | some distance ↦ slice (distance - min count distance) distance buffer
  ])
]
