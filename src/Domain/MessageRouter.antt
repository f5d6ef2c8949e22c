-- ===== src/Domain/MessageRouter.antt =====
-- server/src/domain/service/message_router.cpp: who receives a message.
use monash_fit1045_hd_projec.Base.{
  ◌≡◌, refl, List, [], ◌∷◌, Bool, true, false, ◌&&◌, not, arith, ◌==◌, eq_iff, if◌then◌else◌,
}
use monash_fit1045_hd_projec.Containers.IdSet
use monash_fit1045_hd_projec.Containers.IdSet.{IdSet, IsDistinct}
use monash_fit1045_hd_projec.Shared.Ids.{ClientId}
use monash_fit1045_hd_projec.Domain.Channel.{Channel, has_member}
use monash_fit1045_hd_projec.Domain.Message.{Message}

pub data EchoPolicy : Type 0 where
  exclude_sender include_sender : EchoPolicy

abbrev pub excludes : EchoPolicy → Bool
excludes exclude_sender = true
excludes include_sender = false

-- for (member_id : members) { if (excluded) continue; recipients.push_back(member_id); }
collect : EchoPolicy → ClientId → IdSet → List ClientId
collect policy sender [] = []
collect policy sender (member ∷ rest) =
    let recipients = collect policy sender rest in
    if excludes policy && (member == sender) then recipients else member ∷ recipients

unfoldable pub recipients_for : Channel → Message → EchoPolicy → List ClientId
unfolding collect
recipients_for channel message policy = collect policy message.sender_id channel.members

contains-collect :
    (policy : EchoPolicy) (sender j : ClientId) (s : IdSet)
    → IdSet.contains j (collect policy sender s)
      ≡ (IdSet.contains j s && not (excludes policy && (j == sender)))
unfolding collect IdSet.contains
contains-collect policy sender j [] = refl
contains-collect policy sender j (i ∷ s) =
    ground (arith, contains-collect policy sender j s, eq_iff i j, eq_iff i sender, eq_iff j sender)

collect-IsDistinct :
    (policy : EchoPolicy) (sender : ClientId) (s : IdSet)
    → IsDistinct s
    → IsDistinct (collect policy sender s)
unfolding collect
collect-IsDistinct policy sender [] h = tt
collect-IsDistinct policy sender (i ∷ s) h =
    ground (arith, contains-collect policy sender i s, collect-IsDistinct policy sender s h.1)

-- A message is addressed to the members of the channel, without the sender if the policy says so,
-- and to each of them once, if no member is listed twice.
pub recipients_for_iff :
    (channel : Channel) (message : Message) (policy : EchoPolicy) (j : ClientId)
    → IsDistinct channel.members
    → (IdSet.contains j (recipients_for channel message policy)
        ≡ (has_member j channel && not (excludes policy && (j == message.sender_id))))
      × IsDistinct (recipients_for channel message policy)
unfolding recipients_for has_member
recipients_for_iff channel message policy j h = (
  contains-collect policy message.sender_id j channel.members,
  collect-IsDistinct policy message.sender_id channel.members h,
)
