-- ===== src/Domain/Channel.antt =====
-- server/src/domain/model/channel.cpp and its header: a chat channel and its set of members.
use monash_fit1045_hd_projec.Base.{
  ℕ, ◌≡◌, [], Bool, true, false, ◌||◌, arith, Text, ◌==◌, eqb, if◌then◌else◌, length, Bool-cases,
  inl, inr,
}
use monash_fit1045_hd_projec.Containers.IdSet
use monash_fit1045_hd_projec.Containers.IdSet.{IdSet, IsDistinct}
use monash_fit1045_hd_projec.Shared.Outcome.{VoidResult, ok, err, already_member, not_a_member}
use monash_fit1045_hd_projec.Shared.Ids.{ChannelId, ClientId}

pub record Channel : Type 0 where
  pub id : ChannelId
  pub name : Text
  pub members : IdSet
  pub created_at : ℕ

-- The constructor; `now` is what the system clock reads.
unfoldable pub create : ChannelId → Text → ℕ → Channel
create id name now = record { id = id; name = name; members = []; created_at = now }

unfoldable pub member_count : Channel → ℕ
member_count c = length c.members

unfoldable pub add_member : ClientId → Channel → VoidResult × Channel
add_member client_id c =
    let (members, inserted) = IdSet.insert client_id c.members in
    let c' = record c { members = members } in
    if inserted then (ok tt, c') else (err already_member, c')

unfoldable pub remove_member : ClientId → Channel → VoidResult × Channel
remove_member client_id c =
    let (members, removed) = IdSet.erase client_id c.members in
    let c' = record c { members = members } in
    if eqb removed 0 then (err not_a_member, c') else (ok tt, c')

unfoldable pub has_member : ClientId → Channel → Bool
has_member client_id c = IdSet.contains client_id c.members

pub add_member_new :
    (k : ClientId) (c : Channel) → has_member k c ≡ false → (add_member k c).0 ≡ ok tt
unfolding has_member add_member IdSet.insert
add_member_new k c h = ground arith

pub remove_member_old :
    (k : ClientId) (c : Channel) → has_member k c ≡ true → (remove_member k c).0 ≡ ok tt
unfolding has_member remove_member IdSet.erase
remove_member_old k c h = ground arith

pub remove_member_missing :
    (k : ClientId) (c : Channel) → has_member k c ≡ false → (remove_member k c).0 ≡ err not_a_member
unfolding has_member remove_member IdSet.erase
remove_member_missing k c h = ground arith

pub has_member-add_member :
    (k j : ClientId) (c : Channel) → has_member j (add_member k c).1 ≡ ((k == j) || has_member j c)
unfolding has_member add_member
has_member-add_member k j c = ground (arith, IdSet.contains-insert k j c.members)

pub has_member-remove_member :
    (k j : ClientId) (c : Channel)
    → has_member j (remove_member k c).1 ≡ (if k == j then false else has_member j c)
unfolding has_member remove_member
has_member-remove_member k j c = ground (arith, IdSet.contains-erase k j c.members)

pub id-add_member : (k : ClientId) (c : Channel) → (add_member k c).1.id ≡ c.id
unfolding add_member
id-add_member k c = ground arith

pub id-remove_member : (k : ClientId) (c : Channel) → (remove_member k c).1.id ≡ c.id
unfolding remove_member
id-remove_member k c = ground arith

pub name-add_member : (k : ClientId) (c : Channel) → (add_member k c).1.name ≡ c.name
unfolding add_member
name-add_member k c = ground arith

pub name-remove_member : (k : ClientId) (c : Channel) → (remove_member k c).1.name ≡ c.name
unfolding remove_member
name-remove_member k c = ground arith

pub add_member-IsDistinct :
    (k : ClientId) (c : Channel) → IsDistinct c.members → IsDistinct (add_member k c).1.members
unfolding add_member
add_member-IsDistinct k c h = elim (Bool-cases ((IdSet.insert k c.members).1)) [
  | inl new ↦ rw new (IdSet.insert-IsDistinct k c.members h)
  | inr old ↦ rw old (IdSet.insert-IsDistinct k c.members h)
]

pub remove_member-IsDistinct :
    (k : ClientId) (c : Channel) → IsDistinct c.members → IsDistinct (remove_member k c).1.members
unfolding remove_member
remove_member-IsDistinct k c h = elim (Bool-cases (eqb (IdSet.erase k c.members).1 0)) [
  | inl nothing ↦ rw nothing (IdSet.erase-IsDistinct k c.members h)
  | inr some_ ↦ rw some_ (IdSet.erase-IsDistinct k c.members h)
]
