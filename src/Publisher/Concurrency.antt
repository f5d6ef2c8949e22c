-- ===== src/Publisher/Concurrency.antt =====
-- The publishers under threads. Each lock of client_publisher.cpp and channel_list_publisher.cpp
-- guards one action on the shared entries; threads may take them in any order. A thread that
-- publishes first copies entries out of the map, so it may write to an entry that has left the map
-- since: here a write may name any entry at any time, which allows more than the code does.
use monash_fit1045_hd_projec.Base.{
  ℕ, suc, ◌≡◌, ◌≢◌, refl, ◌∙◌, [], ◌∷◌, append-nil, Bool, false, none, some, List, arith, Text, eqb,
  eq_refl, Option-cases, inl, inr, All,
}
use monash_fit1045_hd_projec.Containers.Map
use monash_fit1045_hd_projec.Publisher.Writers.{
  Writers, register, detach, disarm, unregister, write, sent_to, sent_to-append,
}

pub data Action (E : Type 0) : Type 0 where
  registers : Text → ℕ → Action E
  detaches : Text → Action E
  disarms : ℕ → Action E
  writes : E → ℕ → Action E

module _ {E : Type 0} where
  unfoldable pub act : Action E → Writers E → Writers E
  act (registers id w) p = register id w p
  act (detaches id) p = detach id p
  act (disarms a) p = disarm a p
  act (writes event a) p = write event a p

  -- An interleaving of the actions of all threads, the first one first.
  unfoldable pub act_all : List (Action E) → Writers E → Writers E
  act_all [] p = p
  act_all (x ∷ xs) p = act_all xs (act x p)

  -- The action registers the stream.
  abbrev pub opens : ℕ → Action E → Bool
  opens w (registers id v) = eqb v w
  opens w (detaches id) = false
  opens w (disarms a) = false
  opens w (writes event a) = false

  -- No action of the interleaving registers the stream.
  abbrev pub NeverOpens : ℕ → List (Action E) → Type 0
  NeverOpens w xs = All (λ x. opens w x ≡ false) xs

  -- Only the entry at this address may hold the stream.
  abbrev pub IsOnlyAt : ℕ → ℕ → Writers E → Type 0
  IsOnlyAt a w p = (b : ℕ) → p.entry b ≡ some w → b ≡ a

  act-IsOnlyAt :
      (x : Action E) (a w : ℕ) (p : Writers E)
      → opens w x ≡ false
      → IsOnlyAt a w p
      → IsOnlyAt a w (act x p)
  unfolding act register detach disarm write
  act-IsOnlyAt (registers id v) a w p h only = λ b e. ground (arith, only b)
  act-IsOnlyAt (detaches id) a w p h only = only
  act-IsOnlyAt (disarms c) a w p h only = λ b e. ground (arith, only b)
  act-IsOnlyAt (writes event c) a w p h only = λ b e. ground (arith, only b)

  act_all-IsOnlyAt :
      (xs : List (Action E)) (a w : ℕ) (p : Writers E)
      → NeverOpens w xs
      → IsOnlyAt a w p
      → IsOnlyAt a w (act_all xs p)
  unfolding act_all
  act_all-IsOnlyAt [] a w p h only = only
  act_all-IsOnlyAt (x ∷ xs) a w p h only =
      act_all-IsOnlyAt xs a w (act x p) h.1 (act-IsOnlyAt x a w p h.0 only)

  -- No entry holds the stream.
  abbrev pub IsClosed : ℕ → Writers E → Type 0
  IsClosed w p = (b : ℕ) → p.entry b ≢ some w

  act-IsClosed :
      (x : Action E) (w : ℕ) (p : Writers E)
      → opens w x ≡ false
      → IsClosed w p
      → IsClosed w (act x p) × (sent_to w (act x p).written ≡ sent_to w p.written)
  unfolding act register detach disarm write
  act-IsClosed (registers id v) w p h closed = (λ b e. ground (arith, closed b), refl)
  act-IsClosed (detaches id) w p h closed = (closed, refl)
  act-IsClosed (disarms c) w p h closed = (λ b e. ground (arith, closed b), refl)
  act-IsClosed (writes event c) w p h closed = elim (Option-cases (p.entry c)) [
    | inl null ↦ (λ b e. ground (arith, closed b), ground arith)
    | inr (v, armed) ↦ (
      λ b e. ground (arith, closed b),
      ground (
        arith,
        closed c,
        sent_to-append w p.written ((v, event) ∷ []),
        append-nil (sent_to w p.written),
      ),
    )
  ]

  act_all-IsClosed :
      (xs : List (Action E)) (w : ℕ) (p : Writers E)
      → NeverOpens w xs
      → IsClosed w p
      → sent_to w (act_all xs p).written ≡ sent_to w p.written
  unfolding act_all
  act_all-IsClosed [] w p h closed = refl
  act_all-IsClosed (x ∷ xs) w p h closed =
      let (still, same) = act-IsClosed x w p h.0 closed in
      act_all-IsClosed xs w (act x p) h.1 still ∙ same

  -- After a stream was registered in a fresh entry, and that entry was disarmed, nothing is written
  -- to the stream any more, whatever other threads do before, meanwhile and after: publishers that
  -- still hold the entry, registrations of other streams, and unregistrations included. It is assumed
  -- that the stream is registered only once.
  pub nothing_written_after_disarm :
      (id : Text) (w : ℕ) (p : Writers E) (before after : List (Action E))
      → IsClosed w p
      → NeverOpens w before
      → NeverOpens w after
      → let q = act_all before (register id w p) in
        sent_to w (act_all after (disarm p.next_entry q)).written ≡ sent_to w q.written
  unfolding register disarm
  nothing_written_after_disarm id w p before after closed h k =
      act_all-IsClosed after w (disarm p.next_entry (act_all before (register id w p))) k (λ b e.
        let only =
          act_all-IsOnlyAt before p.next_entry w (register id w p) h
            (λ c f. ground (arith, closed c)) b in
        ground (arith, only))

  -- If a client registers a second stream, then to unregister it takes its second stream away and
  -- leaves the entry of the first one armed, though no longer in the map.
  pub unregister-register_twice :
      (id : Text) (v w : ℕ) (p : Writers E)
      → let q = unregister id (register id w (register id v p)) in
        (Map.find id q.writers ≡ none)
        × (q.entry p.next_entry ≡ some v)
        × (q.entry (suc p.next_entry) ≡ none)
  unfolding unregister register detach disarm
  unregister-register_twice id v w p =
      let there : Map.find id (register id w (register id v p)).writers ≡ some (suc p.next_entry) =
        ground (
          arith,
          Map.find-insert_or_assign id id (suc p.next_entry)
              (Map.insert_or_assign id p.next_entry p.writers),
          eq_refl id,
        ) in
      rw (there, unregister)
        (
          ground (
            arith,
            Map.find-erase id id (
                Map.insert_or_assign id (suc p.next_entry)
                  (Map.insert_or_assign id p.next_entry p.writers)),
            eq_refl id,
          ),
          ground arith,
          ground arith,
        )
