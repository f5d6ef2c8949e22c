-- ===== src/Usecase/Listing/Pages.antt =====
-- server/src/application/usecase/list_messages.cpp: the pages of the history of a channel.
use monash_fit1045_hd_projec.Base.{
  ℕ, zero, suc, ◌-◌, ◌≤◌, ◌<◌, min, ◌≡◌, refl, sym, ap, ◌∙◌, inl, inr, [], ◌∷◌, ◌++◌, List, true,
  false, ◌&&◌, Option, none, some, arith, ltb, eqb, drop_nil, length, drop, length-drop,
  length-append, Option-cases, Bool-cases, List-cases, if◌then◌else◌,
}
use monash_fit1045_hd_projec.Containers.Map
use monash_fit1045_hd_projec.Shared.Outcome.{ok, err, not_a_member, channel_not_found}
use monash_fit1045_hd_projec.Shared.Ids.{ChannelId, ClientId, MessageId}
use monash_fit1045_hd_projec.Domain.Channel.{has_member}
use monash_fit1045_hd_projec.Domain.Message.{Message}
use monash_fit1045_hd_projec.Persistence.ChannelRepository
use monash_fit1045_hd_projec.Persistence.ChannelRepository.{is_member, has_channel}
use monash_fit1045_hd_projec.Persistence.MessageRepository.{
  MessageRepository, buffer_of, recent, list_before,
}
use monash_fit1045_hd_projec.Persistence.MessageRepository.Buffers.{
  HasDistinctIds, last, recent-last, list_before-append,
}
use monash_fit1045_hd_projec.Usecase.Ports.{Server}
use monash_fit1045_hd_projec.Usecase.Listing.{is_older_left, fetch, list_messages, server_max_limit}

-- There is an older page exactly if the page does not begin at the start of the buffer.
is_older_left_at :
    (k : ChannelId) (i : ℕ) (page : List Message) (r : MessageRepository)
    → HasDistinctIds (buffer_of k r)
    → page ≡ drop i (buffer_of k r)
    → i < length (buffer_of k r)
    → is_older_left k page r ≡ ltb 0 i
unfolding is_older_left
is_older_left_at k i [] r d h lt =
    absurd (omega (arith, ap length h, length-drop i (buffer_of k r)))
is_older_left_at k i (m ∷ ms) r d h lt = elim (List-cases (list_before k m.id 1 r)) [
  | inl none_left ↦
      let n = ap length joined in
      let z : i ≡ 0 = omega (
        arith,
        n,
        ap length h,
        ap length none_left,
        length-append (list_before k m.id 1 r) (m ∷ ms),
        length-drop i (buffer_of k r),
        length-drop (i - 1) (buffer_of k r),
      ) in
      rw none_left (ground (arith, z))
  | inr (x, xs, e) ↦
      let n = ap length joined in
      let p : 0 < i = omega (
        arith,
        n,
        ap length h,
        ap length e,
        length-append (list_before k m.id 1 r) (m ∷ ms),
        length-drop i (buffer_of k r),
        length-drop (i - 1) (buffer_of k r),
      ) in
      rw e (ground (arith, p))
]
  where
    joined : list_before k m.id 1 r ++ (m ∷ ms) ≡ drop (i - 1) (buffer_of k r)
    joined = list_before-append k 1 i r m ms d (sym h)

-- A client that pages back: while it is told that there are older messages, it reads the `n` messages
-- before the first one that it has, in at most `rounds` rounds. The result is what it has when it is
-- told that there are no older ones, and none if it is not told so within those rounds.
pub walk : ℕ → ChannelId → ℕ → List Message → MessageRepository → Option (List Message)
walk zero k n read r = if is_older_left k read r then none else some read
walk (suc rounds) k n [] r = if is_older_left k [] r then none else some []
walk (suc rounds) k n (m ∷ read) r =
    let rest = walk rounds k n (fetch k (some m.id) n r ++ (m ∷ read)) r in
    if is_older_left k (m ∷ read) r then rest else some (m ∷ read)

none_of_length : (ms : List Message) → length ms ≡ 0 → ms ≡ []
none_of_length [] z = refl
none_of_length (m ∷ ms) z = absurd (omega arith)

walk_from :
    (rounds : ℕ) (k : ChannelId) (n i : ℕ) (read : List Message) (r : MessageRepository)
    → HasDistinctIds (buffer_of k r)
    → 0 < n
    → i ≤ rounds
    → i < length (buffer_of k r)
    → read ≡ drop i (buffer_of k r)
    → walk rounds k n read r ≡ some (buffer_of k r)
unfolding walk fetch
walk_from zero k n i read r d pos small lt h =
    let z : i ≡ 0 = omega arith in
    let oldest : is_older_left k read r ≡ false =
      is_older_left_at k i read r d h lt ∙ ap (ltb 0) z in
    rw oldest (ap some (h ∙ ap (λ j. drop j (buffer_of k r)) z))
walk_from (suc rounds) k n i [] r d pos small lt h =
    absurd (omega (arith, ap length h, length-drop i (buffer_of k r)))
walk_from (suc rounds) k n i (m ∷ read) r d pos small lt h =
    let more : is_older_left k (m ∷ read) r ≡ ltb 0 i = is_older_left_at k i (m ∷ read) r d h lt in
    elim (Bool-cases (ltb 0 i)) [
      | inl older ↦
          let p : 0 < i = ground (arith, older) in
          rw (more, older)
            (walk_from rounds k n (i - n) (list_before k m.id n r ++ (m ∷ read)) r d pos
              (omega arith) (omega arith) (list_before-append k n i r m read d (sym h)))
      | inr oldest ↦
          let z : i ≡ 0 = ground (arith, oldest) in
          rw (more, oldest) (ap some (h ∙ ap (λ j. drop j (buffer_of k r)) z))
    ]

-- A client that pages back from the newest page, some messages at a time and while it is told that
-- there are older ones, is told that there are none after at most as many rounds as the buffer is
-- long, and then has the whole buffer of the channel in its order. It is assumed that no identifier is used twice in the
-- buffer and that the size of a page is not 0.
pub walk_all :
    (k : ChannelId) (n : ℕ) (r : MessageRepository)
    → HasDistinctIds (buffer_of k r)
    → 0 < n
    → walk (length (buffer_of k r)) k n (fetch k none n r) r ≡ some (buffer_of k r)
unfolding walk fetch is_older_left
walk_all k n r d pos = elim (Bool-cases (eqb (length (buffer_of k r)) 0)) [
  | inl empty ↦
      let z : length (buffer_of k r) ≡ 0 = ground (arith, empty) in
      let e : length (buffer_of k r) - n ≡ 0 = omega (arith, z) in
      let nothing : recent k n r ≡ [] =
        recent-last k n r ∙ ap (λ j. drop j (buffer_of k r)) e ∙ none_of_length (buffer_of k r) z in
      rw (z, nothing) (ap some (sym (none_of_length (buffer_of k r) z)))
  | inr filled ↦
      let p : 0 < length (buffer_of k r) = ground (arith, filled) in
      walk_from (length (buffer_of k r)) k n (length (buffer_of k r) - n) (recent k n r) r d pos
        (omega arith) (omega (arith, p)) (recent-last k n r)
]

is_older_left-recent :
    (k : ChannelId) (n : ℕ) (r : MessageRepository)
    → HasDistinctIds (buffer_of k r)
    → is_older_left k (recent k n r) r ≡ (ltb 0 n && ltb n (length (buffer_of k r)))
unfolding is_older_left
is_older_left-recent k n r d = elim (Bool-cases (ltb 0 n && ltb 0 (length (buffer_of k r)))) [
  | inl some_ ↦
      is_older_left_at k (length (buffer_of k r) - n) (recent k n r) r d (recent-last k n r)
        (ground (arith, some_))
      ∙ ground (arith, some_)
  | inr nothing ↦
      let e : recent k n r ≡ [] =
        recent-last k n r
        ∙ none_of (length (buffer_of k r) - n) (buffer_of k r) (ground (arith, nothing)) in
      rw e (ground (arith, nothing))
]
  where
    none_of : (i : ℕ) (ms : List Message) → length ms ≤ i → drop i ms ≡ []
    none_of i [] le = drop_nil i
    none_of zero (m ∷ ms) le = absurd (omega arith)
    none_of (suc i) (m ∷ ms) le = none_of i ms (omega arith)

-- Without a cursor a member reads the newest messages of the buffer, oldest first: as many as it
-- asks for, at most 200. `has_more` tells whether that leaves out an older one, unless it asks for
-- none. Reading changes nothing. It is assumed that no identifier is used twice in the buffer.
pub list_messages_latest :
    (c : ClientId) (k : ChannelId) (limit : ℕ) (s : Server)
    → HasDistinctIds (buffer_of k s.messages)
    → is_member s.channels k c ≡ true
    → let n : ℕ = min limit server_max_limit in
      list_messages c k none limit s ≡ (
        ok (record {
          messages = last n (buffer_of k s.messages);
          has_more = ltb 0 n && ltb n (length (buffer_of k s.messages));
        }),
        s,
      )
unfolding list_messages fetch ChannelRepository.find_by_id
list_messages_latest c k limit s d member =
    elim (Option-cases (Map.find k s.channels.channels_by_id)) [
      | inl missing ↦ absurd (ground arith)
      | inr (channel, exists) ↦
          let there : has_member c channel ≡ true = ground arith in
          let n : ℕ = min limit server_max_limit in
          rw (exists, list_messages)
            (rw there (
              ap (λ p. (ok p, s))
                (ap (λ b. record { messages = recent k n s.messages; has_more = b })
                    (is_older_left-recent k n s.messages d)
                  ∙ ap
                      (λ ms. record {
                        messages = ms;
                        has_more = ltb 0 n && ltb n (length (buffer_of k s.messages));
                      })
                      (recent-last k n s.messages))))
    ]

-- Who is no member reads nothing, whatever it asks for: the error tells whether the channel exists.
pub list_messages_refused :
    (c : ClientId) (k : ChannelId) (before : Option MessageId) (limit : ℕ) (s : Server)
    → is_member s.channels k c ≡ false
    → list_messages c k before limit s
      ≡ (if has_channel s.channels k then err not_a_member else err channel_not_found, s)
unfolding list_messages ChannelRepository.find_by_id
list_messages_refused c k before limit s stranger =
    elim (Option-cases (Map.find k s.channels.channels_by_id)) [
      | inl missing ↦ rw (missing, list_messages) refl
      | inr (channel, exists) ↦
          let out : has_member c channel ≡ false = ground arith in
          rw (exists, list_messages) (rw out refl)
    ]
