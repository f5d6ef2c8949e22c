-- ===== src/Persistence/MessageRepository/Buffers.antt =====
-- server/src/adapter/persistence/in_memory_message_repository.cpp: the bounded buffers beside the full
-- history of the channel.
use monash_fit1045_hd_projec.Base.{
  ℕ, zero, suc, ◌+◌, ◌-◌, min, ◌≤◌, ◌≡◌, refl, sym, ap, ◌∙◌, inl, inr, [], ◌∷◌, ◌++◌, append_assoc,
  append-nil, none, some, List, arith, ◌==◌, eq_iff, eq_refl, ltb, eqb, if◌then◌else◌, length, take,
  drop, length-append, length-drop, take-append-drop, length-take, take-length, drop-append,
  drop-length, drop_nil, subst, Option-cases, Bool-cases, select,
}
use monash_fit1045_hd_projec.Containers.Map
use monash_fit1045_hd_projec.Containers.Map.{Map}
use monash_fit1045_hd_projec.Shared.Ids.{ChannelId}
use monash_fit1045_hd_projec.Domain.Message.{Message}
use monash_fit1045_hd_projec.Persistence.MessageRepository.{
  MessageRepository, create, drop_oldest, buffer_of, save, slice, recent, position, list_before,
}

-- The last `n` messages of a list.
abbrev pub last : ℕ → List Message → List Message
last n ms = drop (length ms - n) ms

drop_oldest-last : (cap : ℕ) (ms : List Message) → drop_oldest cap ms ≡ last cap ms
unfolding drop_oldest
drop_oldest-last cap [] = ground arith
drop_oldest-last cap (m ∷ ms) = elim (Bool-cases (ltb cap (length (m ∷ ms)))) [
  | inl over ↦
      let e : length (m ∷ ms) - cap ≡ suc (length ms - cap) = ground arith in
      rw (over, e) (drop_oldest-last cap ms)
  | inr fits ↦ let e : length (m ∷ ms) - cap ≡ 0 = ground arith in rw (fits, e) refl
]

drop_twice : (j n : ℕ) (xs : List Message) → drop j (drop n xs) ≡ drop (n + j) xs
drop_twice j zero xs = ap (λ k. drop k xs) (omega arith)
drop_twice j (suc n) [] = drop_nil j ∙ sym (drop_nil (suc n + j))
drop_twice j (suc n) (x ∷ xs) =
    let e : suc n + j ≡ suc (n + j) = omega arith in rw e (drop_twice j n xs)

last-last-append :
    (cap : ℕ) (xs ys : List Message) → last cap (last cap xs ++ ys) ≡ last cap (xs ++ ys)
last-last-append cap xs ys =
    let k : ℕ = length xs - cap in
    let j : ℕ = length (drop k xs ++ ys) - cap in
    let e : drop k xs ++ ys ≡ drop k (xs ++ ys) = sym (drop-append k xs ys (omega arith)) in
    ap (drop j) e
    ∙ drop_twice j k (xs ++ ys)
    ∙ ap (λ i. drop i (xs ++ ys))
        (omega (arith, length-append (drop k xs) ys, length-append xs ys, length-drop k xs))

pub buffer_of-save :
    (m : Message) (k : ChannelId) (r : MessageRepository)
    → buffer_of k (save m r).1
      ≡ (if m.channel_id == k then last r.cap (buffer_of k r ++ (m ∷ [])) else buffer_of k r)
unfolding save
buffer_of-save m k r = ground (
  arith,
  Map.find-insert_or_assign m.channel_id k
      (drop_oldest r.cap (buffer_of m.channel_id r ++ (m ∷ []))) r.buffers,
  drop_oldest-last r.cap (buffer_of m.channel_id r ++ (m ∷ [])),
  eq_iff m.channel_id k,
)

-- A history of saves, oldest first.
pub save_all : List Message → MessageRepository → MessageRepository
save_all [] r = r
save_all (m ∷ ms) r = save_all ms (save m r).1

-- The messages of one channel, in the order in which they were saved.
abbrev pub of_channel : ChannelId → List Message → List Message
of_channel k ms = select (λ m. m.channel_id == k) ms

cap-save_all : (ms : List Message) (r : MessageRepository) → (save_all ms r).cap ≡ r.cap
unfolding save_all save
cap-save_all [] r = refl
cap-save_all (m ∷ ms) r = cap-save_all ms (save m r).1

buffer_of-save_all_from :
    (k : ChannelId) (ms past : List Message) (r : MessageRepository)
    → buffer_of k r ≡ last r.cap past
    → buffer_of k (save_all ms r) ≡ last r.cap (past ++ of_channel k ms)
unfolding save_all save
buffer_of-save_all_from k [] past r h = rw append-nil h
buffer_of-save_all_from k (m ∷ ms) past r h = elim (Bool-cases (m.channel_id == k)) [
  | inl this ↦ rw this (
      subst (λ xs. buffer_of k (save_all ms (save m r).1) ≡ last r.cap xs)
        (append_assoc past (m ∷ []) (of_channel k ms))
        (buffer_of-save_all_from k ms (past ++ (m ∷ [])) (save m r).1 (
          ground (
            arith,
            buffer_of-save m k r,
            last-last-append r.cap past (m ∷ []),
            cap-save_all (m ∷ []) r,
          ))))
  | inr other ↦
      rw other
        (buffer_of-save_all_from k ms past (save m r).1 (ground (arith, buffer_of-save m k r)))
]

-- Whatever was saved, the buffer of a channel holds the last `cap` messages of that channel, in the
-- order in which they were saved.
pub buffer_of-save_all :
    (cap : ℕ) (k : ChannelId) (ms : List Message)
    → buffer_of k (save_all ms (create cap)) ≡ last (create cap).cap (of_channel k ms)
unfolding create Map.find
buffer_of-save_all cap k ms =
    buffer_of-save_all_from k ms [] (create cap) (sym (drop_nil (0 - (create cap).cap)))

-- `recent` returns the last messages of the buffer, oldest first.
pub recent-last :
    (k : ChannelId) (n : ℕ) (r : MessageRepository) → recent k n r ≡ last n (buffer_of k r)
unfolding recent
recent-last k n r = elim (Option-cases (Map.find k r.buffers)) [
  | inl missing ↦ rw (missing, recent) (ground arith)
  | inr (buffer, e) ↦ elim (Bool-cases (eqb n 0)) [
    | inl nothing ↦
        let z : length buffer - n ≡ length buffer = ground arith in
        rw (e, recent, nothing, z) (sym (drop-length buffer))
    | inr some_ ↦ rw (e, recent, some_, take-length buffer) (ap (λ i. drop i buffer) (omega arith))
  ]
]

last-last : (n c : ℕ) (xs : List Message) → last n (last c xs) ≡ last (min n c) xs
last-last n c xs =
    drop_twice (length (drop (length xs - c) xs) - n) (length xs - c) xs
    ∙ ap (λ i. drop i xs) (omega (arith, length-drop (length xs - c) xs))

-- `recent` refines the history: after any saves into a new repository it returns the last messages
-- that were saved to the channel, in their order: as many as asked for, at most the cap of the
-- repository.
pub recent-save_all :
    (cap n : ℕ) (k : ChannelId) (ms : List Message)
    → recent k n (save_all ms (create cap)) ≡ last (min n (create cap).cap) (of_channel k ms)
recent-save_all cap n k ms =
    recent-last k n (save_all ms (create cap))
    ∙ ap (last n) (buffer_of-save_all cap k ms)
    ∙ last-last n (create cap).cap (of_channel k ms)

-- No identifier occurs twice in the buffer.
abbrev pub HasDistinctIds : List Message → Type 0
HasDistinctIds [] = Unit
HasDistinctIds (m ∷ ms) = (position m.id ms ≡ none) × HasDistinctIds ms

position_at :
    (i : ℕ) (buffer : List Message) (m : Message) (rest : List Message)
    → HasDistinctIds buffer
    → drop i buffer ≡ m ∷ rest
    → position m.id buffer ≡ some i
unfolding position
position_at zero [] m rest d h = cc
position_at zero (x ∷ buffer) m rest d h = ground (arith, eq_refl m.id)
position_at (suc i) [] m rest d h = cc
position_at (suc i) (x ∷ buffer) m rest d h =
    ground (arith, position_at i buffer m rest d.1 h, eq_iff x.id m.id)

drop-le-length :
    (i : ℕ) (buffer : List Message) (m : Message) (rest : List Message)
    → drop i buffer ≡ m ∷ rest
    → i ≤ length buffer
drop-le-length zero buffer m rest h = omega arith
drop-le-length (suc i) [] m rest h = cc
drop-le-length (suc i) (x ∷ buffer) m rest h = omega (arith, drop-le-length i buffer m rest h)

-- A page before the first message of what was already read ends where that begins: together they
-- are the buffer from `n` messages earlier, or from its start.
pub list_before-append :
    (k : ChannelId) (n i : ℕ) (r : MessageRepository) (m : Message) (rest : List Message)
    → HasDistinctIds (buffer_of k r)
    → drop i (buffer_of k r) ≡ m ∷ rest
    → list_before k m.id n r ++ (m ∷ rest) ≡ drop (i - n) (buffer_of k r)
unfolding list_before
list_before-append k n i r m rest d h = elim (Option-cases (Map.find k r.buffers)) [
  | inl missing ↦ absurd (ground (arith, drop_nil {A = Message} i))
  | inr (buffer, e) ↦
      let d' : HasDistinctIds buffer = rw e at d in
      let h' : drop i buffer ≡ m ∷ rest = rw e at h in
      elim (Bool-cases (eqb n 0)) [
        | inl nothing ↦ let z : i - n ≡ i = ground arith in rw (e, list_before, nothing, z) (sym h')
        | inr some_ ↦
            rw (e, list_before, some_, position_at i buffer m rest d' h') (joined buffer h')
      ]
]
  where
    joined :
        (buffer : List Message)
        → drop i buffer ≡ m ∷ rest
        → slice (i - min n i) i buffer ++ (m ∷ rest) ≡ drop (i - n) buffer
    joined buffer h' =
        ap (◌++◌ (slice (i - min n i) i buffer)) (sym h')
        ∙ sym (
            drop-append (i - min n i) (take i buffer) (drop i buffer)
              (omega (arith, length-take i buffer, drop-le-length i buffer m rest h')))
        ∙ ap (drop (i - min n i)) (take-append-drop i buffer)
        ∙ ap (λ j. drop j buffer) (omega arith)
