-- ===== src/Persistence/ChannelRepository/Invariant.antt =====
-- server/src/adapter/persistence/in_memory_channel_repository.cpp: how the two maps belong together.
use monash_fit1045_hd_projec.Base.{
  ℕ, ◌≡◌, ◌↔◌, inl, inr, none, some, arith, Text, ◌==◌, eq_iff, eq_refl, if◌then◌else◌, Bool-cases,
  Option-cases,
}
use monash_fit1045_hd_projec.Containers.Map
use monash_fit1045_hd_projec.Containers.Map.{Map, HasDistinctKeys}
use monash_fit1045_hd_projec.Containers.IdSet.{IsDistinct}
use monash_fit1045_hd_projec.Shared.Outcome.{ok, err, channel_already_exists}
use monash_fit1045_hd_projec.Shared.Ids.{ChannelId}
use monash_fit1045_hd_projec.Domain.Channel
use monash_fit1045_hd_projec.Domain.Channel.{Channel, has_member}
use monash_fit1045_hd_projec.Persistence.ChannelRepository.{
  ChannelRepository, empty, find_by_id, find_by_name, save, create,
}

pub record IsConsistent (r : ChannelRepository) : Type 0 where
  pub keyed : (k : ChannelId) (c : Channel) → Map.find k r.channels_by_id ≡ some c → c.id ≡ k
  pub indexed :
      (k : ChannelId) (c : Channel)
      → Map.find k r.channels_by_id ≡ some c
      → Map.find c.name r.name_to_id ≡ some k
  pub named :
      (n : Text) (k : ChannelId)
      → Map.find n r.name_to_id ≡ some k
      → (c : Channel) × (Map.find k r.channels_by_id ≡ some c) × (c.name ≡ n)
  pub counted :
      (k : ChannelId) (c : Channel) → Map.find k r.channels_by_id ≡ some c → IsDistinct c.members
  pub distinct : HasDistinctKeys r.channels_by_id

pub empty-IsConsistent : IsConsistent empty
unfolding Map.find
empty-IsConsistent = record {
  keyed = λ k c h. cc;
  indexed = λ k c h. cc;
  named = λ n k h. cc;
  counted = λ k c h. cc;
  distinct = tt;
}

module _ (r : ChannelRepository) (w : IsConsistent r) where
  -- Saving a channel of the repository under its old name keeps the two maps inverse.
  pub save-IsConsistent :
      (old channel : Channel)
      → Map.find channel.id r.channels_by_id ≡ some old
      → old.name ≡ channel.name
      → IsDistinct channel.members
      → IsConsistent (save channel r).1
  unfolding save
  save-IsConsistent old channel known same distinct = record {
    keyed = λ k c h. ground (arith, at_id k, eq_iff channel.id k, w.keyed k c);
    indexed = λ k c h. ground (
      arith,
      at_id k,
      at_name c.name,
      eq_iff channel.id k,
      eq_refl channel.name,
      eq_iff channel.name c.name,
      w.indexed k c,
      w.indexed channel.id old known,
    );
    named = λ n k h. elim (Bool-cases (channel.name == n)) [
      | inl this ↦ (
        channel,
        ground (arith, at_id k, at_name n, eq_refl channel.id),
        ground (arith, eq_iff channel.name n),
      )
      | inr other ↦
          let (c, e, q) = w.named n k (ground (arith, at_name n)) in
          (c, ground (arith, at_id k, eq_iff channel.id k, eq_iff channel.name n), q)
    ];
    counted = λ k c h. elim (Bool-cases (channel.id == k)) [
      | inl this ↦ ground (arith, at_id k)
      | inr other ↦ w.counted k c (ground (arith, at_id k))
    ];
    distinct = Map.insert_or_assign-HasDistinctKeys channel.id channel r.channels_by_id w.distinct;
  }
    where
      at_id :
          (k : ChannelId)
          → Map.find k (save channel r).1.channels_by_id
            ≡ (if channel.id == k then some channel else Map.find k r.channels_by_id)
      at_id k = Map.find-insert_or_assign channel.id k channel r.channels_by_id

      at_name :
          (n : Text)
          → Map.find n (save channel r).1.name_to_id
            ≡ (if channel.name == n then some channel.id else Map.find n r.name_to_id)
      at_name n = Map.find-insert_or_assign channel.name n channel.id r.name_to_id

  -- Creating a channel under an identifier that is not in use keeps the two maps inverse.
  pub create-IsConsistent :
      (name : Text) (drawn : ChannelId) (now : ℕ)
      → Map.find drawn r.channels_by_id ≡ none
      → IsConsistent (create name drawn now r).1
  unfolding create Map.contains Channel.create
  create-IsConsistent name drawn now fresh = elim (Option-cases (Map.find name r.name_to_id)) [
    | inr (k, taken) ↦ rw (taken, create, Map.contains) w
    | inl free ↦
        rw (free, create, Map.contains)
          (record {
            keyed = λ k c h. ground (arith, at_id k, eq_iff drawn k, w.keyed k c);
            indexed = λ k c h. ground (
              arith,
              at_id k,
              at_name free c.name,
              eq_iff drawn k,
              eq_refl name,
              eq_iff name c.name,
              w.indexed k c,
            );
            named = λ n k h. elim (Bool-cases (name == n)) [
              | inl this ↦ (
                created,
                ground (arith, at_id k, at_name free n, eq_refl drawn),
                ground (arith, eq_iff name n),
              )
              | inr other ↦
                  let (c, e, q) = w.named n k (ground (arith, at_name free n)) in
                  (c, ground (arith, at_id k, eq_iff drawn k), q)
            ];
            counted = λ k c h. elim (Bool-cases (drawn == k)) [
              | inl this ↦ ground (arith, at_id k)
              | inr other ↦ w.counted k c (ground (arith, at_id k))
            ];
            distinct = Map.emplace-HasDistinctKeys drawn created r.channels_by_id w.distinct;
          })
  ]
    where
      created : Channel
      created = Channel.create drawn name now

      at_id :
          (k : ChannelId)
          → Map.find k (Map.emplace drawn created r.channels_by_id)
            ≡ (if drawn == k then some created else Map.find k r.channels_by_id)
      at_id k = Map.find-emplace drawn k created r.channels_by_id fresh

      at_name :
          Map.find name r.name_to_id ≡ none
          → (n : Text)
          → Map.find n (Map.emplace name drawn r.name_to_id)
            ≡ (if name == n then some drawn else Map.find n r.name_to_id)
      at_name free n = Map.find-emplace name n drawn r.name_to_id free

  -- Two channels of the repository never share a name.
  pub name_unique :
      (j k : ChannelId) (c d : Channel)
      → find_by_id j r ≡ ok c
      → find_by_id k r ≡ ok d
      → c.name ≡ d.name
      → j ≡ k
  unfolding find_by_id
  name_unique j k c d hc hd same =
      ground (arith, w.indexed j c (ground arith), w.indexed k d (ground arith))

  -- In a consistent repository, a look-up by name finds the channel that bears the name, and only
  -- that.
  pub find_by_name_iff :
      (name : Text) (c : Channel)
      → (find_by_name name r ≡ ok c) ↔ ((c.name ≡ name) × (find_by_id c.id r ≡ ok c))
  unfolding find_by_name find_by_id
  find_by_name_iff name c = (found, finds)
    where
      found : find_by_name name r ≡ ok c → (c.name ≡ name) × (find_by_id c.id r ≡ ok c)
      found h = elim (Option-cases (Map.find name r.name_to_id)) [
        | inl missing ↦ absurd (ground arith)
        | inr (k, e) ↦
            let (d, at, q) = w.named name k e in (ground arith, ground (arith, w.keyed k d at))
      ]

      finds : (c.name ≡ name) × (find_by_id c.id r ≡ ok c) → find_by_name name r ≡ ok c
      finds h = ground (arith, w.indexed c.id c (ground arith))

  -- In a consistent repository, `create` refuses a name exactly when some channel of the
  -- repository bears it.
  pub create_taken_iff :
      (name : Text) (drawn : ChannelId) (now : ℕ)
      → ((create name drawn now r).0 ≡ err channel_already_exists)
        ↔ ((c : Channel) × (find_by_id c.id r ≡ ok c) × (c.name ≡ name))
  unfolding create find_by_id Map.contains
  create_taken_iff name drawn now = (refused, taken)
    where
      refused :
          (create name drawn now r).0 ≡ err channel_already_exists
          → (c : Channel) × (find_by_id c.id r ≡ ok c) × (c.name ≡ name)
      refused h = elim (Option-cases (Map.find name r.name_to_id)) [
        | inl free ↦ absurd (ground arith)
        | inr (k, e) ↦ let (d, at, q) = w.named name k e in (d, ground (arith, w.keyed k d at), q)
      ]

      taken :
          (c : Channel) × (find_by_id c.id r ≡ ok c) × (c.name ≡ name)
          → (create name drawn now r).0 ≡ err channel_already_exists
      taken h = ground (arith, w.indexed (h.0).id h.0 (ground arith))
