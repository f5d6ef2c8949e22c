-- ===== src/Publisher/ChannelListPublisher/Follow.antt =====
-- server/src/adapter/grpc/channel_list_publisher.cpp: the stream of one follower.
use monash_fit1045_hd_projec.Base.{
  ℕ, ◌<◌, ◌≡◌, ◌∙◌, [], ◌∷◌, ◌++◌, true, false, some, map, arith, Text, ◌==◌, eq_iff, eq_refl,
  if◌then◌else◌, Bool-cases, inl, inr,
}
use monash_fit1045_hd_projec.Containers.Map
use monash_fit1045_hd_projec.Shared.Ids.{ChannelId, ClientId}
use monash_fit1045_hd_projec.Persistence.ChannelRepository.{ChannelRepository, list_all}
use monash_fit1045_hd_projec.Publisher.Writers
use monash_fit1045_hd_projec.Publisher.Writers.{Writers, sent_to, register}
use monash_fit1045_hd_projec.Publisher.ClientPublisher.Delivery.{
  Serves, IsExclusive, sent_to-broadcast,
}
use monash_fit1045_hd_projec.Publisher.Concurrency.{IsClosed}
use monash_fit1045_hd_projec.Publisher.ChannelListPublisher.{
  ChannelListPublisher, snapshot, member_count_changed, populate_channel_summary,
  register_subscriber_with_snapshot, publish_member_count_changed,
}

-- The entries in the map have addresses that were given out.
abbrev pub IsAllocated : {E : Type 0} → Writers E → Type 0
IsAllocated p = (i : Text) (a : ℕ) → Map.find i p.writers ≡ some a → a < p.next_entry

module _ {E : Type 0} (id : Text) (w : ℕ) (p : Writers E) (x : IsExclusive p)
    (allocated : IsAllocated p) (closed : IsClosed w p) where
  find-register :
      (i : Text)
      → Map.find i (register id w p).writers
        ≡ (if id == i then some p.next_entry else Map.find i p.writers)
  unfolding register
  find-register i = Map.find-insert_or_assign id i p.next_entry p.writers

  -- Who has a stream after the registration: the new subscriber the new one, the others theirs.
  old_Serves : (i : Text) (v : ℕ) → Serves (register id w p) i v → (id == i) ≡ false → Serves p i v
  unfolding register
  old_Serves i v (a, found, armed) other =
      let there : Map.find i p.writers ≡ some a = ground (arith, find-register i) in
      (a, there, ground (arith, allocated i a there))

  new_stream : (i : Text) (v : ℕ) → Serves (register id w p) i v → (id == i) ≡ true → v ≡ w
  unfolding register
  new_stream i v (a, found, armed) this = ground (arith, find-register i)

  register-Serves : Serves (register id w p) id w
  unfolding register
  register-Serves = (p.next_entry, ground (arith, find-register id, eq_refl id), ground arith)

  register-IsExclusive : IsExclusive (register id w p)
  unfolding register
  register-IsExclusive = record {
    distinct = Map.insert_or_assign-HasDistinctKeys id p.next_entry p.writers x.distinct;
    exclusive = λ i j v f g. elim (Bool-cases (id == i)) [
      | inl this ↦ elim (Bool-cases (id == j)) [
        | inl that ↦ ground (arith, eq_iff id i, eq_iff id j)
        | inr other ↦
            let (b, found, armed) = old_Serves j v g other in
            absurd (ground (arith, new_stream i v f this, closed b))
      ]
      | inr other ↦ elim (Bool-cases (id == j)) [
        | inl that ↦
            let (b, found, armed) = old_Serves i v f other in
            absurd (ground (arith, new_stream j v g that, closed b))
        | inr both ↦ x.exclusive i j v (old_Serves i v f other) (old_Serves j v g both)
      ]
    ];
  }

-- A new follower with a stream of its own is sent the list of all channels, and from then on its
-- stream is served, and no stream serves two followers. It is assumed that this held before, that the
-- entries in the map were given out before, and that no entry holds the stream yet.
pub register_subscriber_with_snapshot_lem :
    (id : ClientId) (w : ℕ) (channels : ChannelRepository) (p : ChannelListPublisher)
    → IsExclusive p
    → IsAllocated p
    → IsClosed w p
    → let q = register_subscriber_with_snapshot id w channels p in
      Serves q id w
      × IsExclusive q
      × (sent_to w q.written
          ≡ sent_to w p.written
            ++ (snapshot (map populate_channel_summary (list_all channels)) ∷ []))
unfolding register_subscriber_with_snapshot Writers.write register
register_subscriber_with_snapshot_lem id w channels p x allocated closed =
    let serves = register-Serves id w p x allocated closed in
    let exclusive = register-IsExclusive id w p x allocated closed in
    let armed : (register id w p).entry p.next_entry ≡ some w = ground arith in
    rw (armed, Writers.write)
      (
        serves,
        record { distinct = exclusive.distinct; exclusive = exclusive.exclusive },
        Writers.sent_to-append w p.written _ ∙ ground arith,
      )

-- Every follower is told once of a new member count.
pub sent_to-publish_member_count_changed :
    (k : ChannelId) (n : ℕ) (p : ChannelListPublisher) (j : ClientId) (w : ℕ)
    → IsExclusive p
    → Serves p j w
    → sent_to w (publish_member_count_changed k n p).written
      ≡ sent_to w p.written ++ (member_count_changed k n ∷ [])
unfolding publish_member_count_changed
sent_to-publish_member_count_changed k n p j w x serves =
    sent_to-broadcast (member_count_changed k n) (λ id. true) p j w x serves
