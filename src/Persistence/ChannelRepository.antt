-- ===== src/Persistence/ChannelRepository.antt =====
-- server/src/adapter/persistence/in_memory_channel_repository.cpp: channels by identifier, and the
-- index from names to identifiers. `drawn` is the identifier that ChannelId::generate returns, and
-- `now` the reading of the system clock.
pub mod Invariant
use monash_fit1045_hd_projec.Base.{
  ℕ, ◌≡◌, [], Bool, true, false, Option, none, some, List, arith, Text, ◌==◌, eq_iff, if◌then◌else◌,
}
use monash_fit1045_hd_projec.Containers.Map
use monash_fit1045_hd_projec.Containers.Map.{Map}
use monash_fit1045_hd_projec.Containers.IdSet
use monash_fit1045_hd_projec.Shared.Outcome.{
  Result, VoidResult, ok, err, or_fail, channel_not_found, channel_already_exists,
}
use monash_fit1045_hd_projec.Shared.Ids.{ChannelId, ClientId}
use monash_fit1045_hd_projec.Domain.Channel
use monash_fit1045_hd_projec.Domain.Channel.{Channel, has_member}

pub record ChannelRepository : Type 0 where
  pub channels_by_id : Map Channel
  pub name_to_id : Map Text

abbrev pub empty : ChannelRepository
empty = record { channels_by_id = []; name_to_id = [] }

unfoldable pub find_by_id : ChannelId → ChannelRepository → Result Channel
find_by_id channel_id r = or_fail (Map.find channel_id r.channels_by_id) channel_not_found

unfoldable pub find_by_name : Text → ChannelRepository → Result Channel
find_by_name name r = elim (Map.find name r.name_to_id) [
  | none ↦ err channel_not_found
  | some id ↦ or_fail (Map.find id r.channels_by_id) channel_not_found
]

unfoldable pub list_all : ChannelRepository → List Channel
list_all r = Map.values r.channels_by_id

unfoldable pub save : Channel → ChannelRepository → VoidResult × ChannelRepository
save channel r = (
  ok tt,
  record {
    channels_by_id = Map.insert_or_assign channel.id channel r.channels_by_id;
    name_to_id = Map.insert_or_assign channel.name channel.id r.name_to_id;
  },
)

unfoldable pub create :
    Text → ChannelId → ℕ → ChannelRepository → Result Channel × ChannelRepository
create name drawn now r =
    if Map.contains name r.name_to_id
    then (err channel_already_exists, r)
    else (let channel = Channel.create drawn name now in
        (
          ok channel,
          record {
            channels_by_id = Map.emplace channel.id channel r.channels_by_id;
            name_to_id = Map.emplace channel.name channel.id r.name_to_id;
          },
        ))

-- Whether the repository has a channel of this identifier, and whether the client is a member of it.
abbrev pub has_channel : ChannelRepository → ChannelId → Bool
has_channel r k = Map.is_some (Map.find k r.channels_by_id)

abbrev pub member_of : Option Channel → ClientId → Bool
member_of none c = false
member_of (some channel) c = has_member c channel

abbrev pub is_member : ChannelRepository → ChannelId → ClientId → Bool
is_member r k c = member_of (Map.find k r.channels_by_id) c

pub is_member-save :
    (channel : Channel) (r : ChannelRepository) (k : ChannelId) (c : ClientId)
    → is_member (save channel r).1 k c
      ≡ (if channel.id == k then has_member c channel else is_member r k c)
unfolding save
is_member-save channel r k c =
    ground (arith, Map.find-insert_or_assign channel.id k channel r.channels_by_id)

pub has_channel-save :
    (channel : Channel) (r : ChannelRepository) (k : ChannelId)
    → has_channel (save channel r).1 k ≡ (if channel.id == k then true else has_channel r k)
unfolding save
has_channel-save channel r k =
    ground (arith, Map.find-insert_or_assign channel.id k channel r.channels_by_id)
