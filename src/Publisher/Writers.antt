-- ===== src/Publisher/Writers.antt =====
-- What the two publishers share: `writers_`, a map from client identifiers to shared entries, and
-- the entries themselves, each with a pointer to the stream of a subscriber or a null pointer. An
-- entry is an address, so that a caller may still hold it after it has left the map. A stream is
-- a number; `written` is the log of all calls of Write, oldest first.
use monash_fit1045_hd_projec.Base.{
  ℕ, suc, ◌≡◌, refl, [], ◌∷◌, ◌++◌, append_assoc, append-nil, Bool, Option, none, some, List, arith,
  Text, eqb, if◌then◌else◌, Option-cases, inl, inr,
}
use monash_fit1045_hd_projec.Containers.Map
use monash_fit1045_hd_projec.Containers.Map.{Map}

pub record Writers (E : Type 0) : Type 0 where
  pub writers : Map ℕ
  pub entry : ℕ → Option ℕ
  pub next_entry : ℕ
  pub written : List (ℕ × E)

abbrev pub set_entry : (ℕ → Option ℕ) → ℕ → Option ℕ → ℕ → Option ℕ
set_entry f a w b = if eqb a b then w else f b

-- for (const auto& [id, entry] : writers_) if (wanted(id)) targets.push_back(entry)
unfoldable pub targets : (Text → Bool) → Map ℕ → List ℕ
targets wanted [] = []
targets wanted ((id, a) ∷ m) = let rest = targets wanted m in if wanted id then a ∷ rest else rest

module _ {E : Type 0} where
  abbrev pub empty : Writers E
  empty = record { writers = []; entry = λ a. none; next_entry = 0; written = [] }

  -- auto entry = make_shared<WriterEntry>(); entry->writer = writer; writers_.insert_or_assign
  unfoldable pub register : Text → ℕ → Writers E → Writers E
  register id writer p = record p {
    writers = Map.insert_or_assign id p.next_entry p.writers;
    entry = set_entry p.entry p.next_entry (some writer);
    next_entry = suc p.next_entry;
  }

  -- The entry leaves the map under the lock of the map, and is disarmed under its own lock.
  unfoldable pub detach : Text → Writers E → Writers E
  detach id p = record p { writers = Map.erase id p.writers }

  unfoldable pub disarm : ℕ → Writers E → Writers E
  disarm a p = record p { entry = set_entry p.entry a none }

  unfoldable pub unregister : Text → Writers E → Writers E
  unfolding detach disarm
  unregister id p = elim (Map.find id p.writers) [ none ↦ p | some a ↦ disarm a (detach id p) ]

  -- const std::scoped_lock write_lock(entry->write_mutex); if (entry->writer) entry->writer->Write
  unfoldable pub write : E → ℕ → Writers E → Writers E
  write event a p = elim (p.entry a) [
    | none ↦ p
    | some w ↦ record p { written = p.written ++ ((w, event) ∷ []) }
  ]

  unfoldable pub write_all : E → List ℕ → Writers E → Writers E
  write_all event [] p = p
  write_all event (a ∷ targets) p = write_all event targets (write event a p)

  -- The events that a stream has been sent, oldest first.
  abbrev pub sent_to : ℕ → List (ℕ × E) → List E
  sent_to w [] = []
  sent_to w ((v, event) ∷ rest) =
      let tail = sent_to w rest in if eqb v w then event ∷ tail else tail

  pub sent_to-append :
      (w : ℕ) (xs ys : List (ℕ × E)) → sent_to w (xs ++ ys) ≡ sent_to w xs ++ sent_to w ys
  sent_to-append w [] ys = refl
  sent_to-append w ((v, event) ∷ xs) ys = ground (arith, sent_to-append w xs ys)

  -- Writing changes the log only.
  pub write_all_frame :
      (event : E) (es : List ℕ) (p : Writers E)
      → ((write_all event es p).writers ≡ p.writers)
        × ((write_all event es p).entry ≡ p.entry)
        × ((write_all event es p).next_entry ≡ p.next_entry)
  unfolding write_all write
  write_all_frame event [] p = (refl, refl, refl)
  write_all_frame event (a ∷ es) p =
      let (x, y, z) = write_all_frame event es (write event a p) in
      (ground (arith, x), ground (arith, y), ground (arith, z))

  -- What a list of entries sends to a stream: the event once for each entry that holds the stream.
  abbrev pub copies : E → ℕ → (ℕ → Option ℕ) → List ℕ → List E
  copies event w entry [] = []
  copies event w entry (a ∷ es) =
      let rest = copies event w entry es in
      elim (entry a) [ none ↦ rest | some v ↦ if eqb v w then event ∷ rest else rest ]

  pub sent_to-write_all :
      (event : E) (w : ℕ) (es : List ℕ) (p : Writers E)
      → sent_to w (write_all event es p).written ≡ sent_to w p.written ++ copies event w p.entry es
  unfolding write_all write
  sent_to-write_all event w [] p = rw append-nil refl
  sent_to-write_all event w (a ∷ es) p = elim (Option-cases (p.entry a)) [
    | inl null ↦ ground (arith, sent_to-write_all event w es p)
    | inr (v, e) ↦ ground (
      arith,
      sent_to-write_all event w es (record p { written = p.written ++ ((v, event) ∷ []) }),
      sent_to-append w p.written ((v, event) ∷ []),
      append_assoc (sent_to w p.written) (event ∷ []) (copies event w p.entry es),
      append-nil (sent_to w p.written),
    )
  ]
