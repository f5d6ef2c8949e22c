-- ===== src/Publisher/ClientPublisher/Delivery.antt =====
-- server/src/adapter/grpc/client_publisher.cpp: which streams get an event.
use monash_fit1045_hd_projec.Base.{
  ℕ, ◌≡◌, ◌≢◌, refl, ap, ◌∙◌, [], ◌∷◌, ◌++◌, append-nil, Bool, Option, some, arith, Text, ◌==◌,
  eq_iff, eq_refl, eqb, if◌then◌else◌, Option-cases, Bool-cases, inl, inr,
}
use monash_fit1045_hd_projec.Containers.Map
use monash_fit1045_hd_projec.Containers.Map.{Map, HasDistinctKeys}
use monash_fit1045_hd_projec.Containers.IdSet.{IdSet}
use monash_fit1045_hd_projec.Shared.Ids.{UuidLib, ChannelId, ClientId}
use monash_fit1045_hd_projec.Domain.Message.{Message}
use monash_fit1045_hd_projec.Persistence.ClientRegistry.{ClientRegistry}
use monash_fit1045_hd_projec.Publisher.Writers
use monash_fit1045_hd_projec.Publisher.Writers.{Writers, sent_to, copies, targets, set_entry}
use monash_fit1045_hd_projec.Publisher.ClientPublisher.{
  ClientPublisher, member_joined, member_left, message_to_event, publish, broadcast_member_joined,
  broadcast_member_left, is_recipient,
}

-- The client is registered, and its entry holds the stream.
abbrev pub Serves : {E : Type 0} → Writers E → ClientId → ℕ → Type 0
Serves p j w = (a : ℕ) × (Map.find j p.writers ≡ some a) × (p.entry a ≡ some w)

-- No stream serves two clients, and the map has no key twice.
pub record IsExclusive {E : Type 0} (p : Writers E) : Type 0 where
  pub distinct : HasDistinctKeys p.writers
  pub exclusive : (i j : ClientId) (w : ℕ) → Serves p i w → Serves p j w → i ≡ j

module _ {E : Type 0} (event : E) (w : ℕ) (entry : ℕ → Option ℕ) (wanted : Text → Bool) where
  copies_missing :
      (m : Map ℕ)
      → HasDistinctKeys m
      → ((i : Text) (a : ℕ) → Map.find i m ≡ some a → entry a ≢ some w)
      → copies event w entry (targets wanted m) ≡ []
  unfolding targets Map.find
  copies_missing [] d h = refl
  copies_missing ((i, a) ∷ m) d h = ground (
    arith,
    copies_missing m d.1 (λ j b e. h j b (ground (arith, eq_iff i j))),
    h i a (ground (arith, eq_refl i)),
  )

  copies_served :
      (m : Map ℕ) (j : Text) (a : ℕ)
      → HasDistinctKeys m
      → Map.find j m ≡ some a
      → entry a ≡ some w
      → ((i : Text) (b : ℕ) → Map.find i m ≡ some b → entry b ≡ some w → i ≡ j)
      → copies event w entry (targets wanted m) ≡ (if wanted j then event ∷ [] else [])
  unfolding targets Map.find
  copies_served [] j a d found armed only = cc
  copies_served ((i, b) ∷ m) j a d found armed only = elim (Bool-cases (i == j)) [
    | inl this ↦
        let none_left = copies_missing m d.1 (λ k e p q.
          absurd (ground (arith, only k e (ground (arith, eq_iff i k)) q, eq_iff i j))) in
        ground (arith, none_left, eq_iff i j)
    | inr other ↦
        let rest =
          copies_served m j a d.1 (ground arith) armed
            (λ k e p q. only k e (ground (arith, eq_iff i k)) q) in
        ground (arith, rest, only i b (ground (arith, eq_refl i)), eq_iff i j)
  ]

-- A broadcast sends the event once to each subscriber that is wanted, and nothing to the others.
pub sent_to-broadcast :
    {E : Type 0} (event : E) (wanted : Text → Bool) (p : Writers E) (j : ClientId) (w : ℕ)
    → IsExclusive p
    → Serves p j w
    → sent_to w (Writers.write_all event (targets wanted p.writers) p).written
      ≡ sent_to w p.written ++ (if wanted j then event ∷ [] else [])
sent_to-broadcast event wanted p j w x (a, found, armed) =
    Writers.sent_to-write_all event w (targets wanted p.writers) p
    ∙ ap (◌++◌ (sent_to w p.written)) (
        copies_served event w p.entry wanted p.writers j a x.distinct found armed
          (λ i b e q. x.exclusive i j w (b, e, q) (a, found, armed)))

-- A subscriber is told once of a new member if it is itself a recipient, and is otherwise sent
-- nothing.
pub sent_to-broadcast_member_joined :
    (lib : UuidLib) (k : ChannelId) (recipients : IdSet) (client : ClientId) (name : Text)
    (p : ClientPublisher) (j : ClientId) (w : ℕ)
    → IsExclusive p
    → Serves p j w
    → sent_to w (broadcast_member_joined lib k recipients client name p).written
      ≡ sent_to w p.written
        ++ (if is_recipient lib recipients j
            then member_joined (record { channel_id = k; client_id = client; username = name }) ∷ []
            else [])
unfolding broadcast_member_joined
sent_to-broadcast_member_joined lib k recipients client name p j w x serves =
    sent_to-broadcast _ (is_recipient lib recipients) p j w x serves

-- A subscriber is told once that a member has left if it is itself a recipient, and is otherwise
-- sent nothing. It is assumed that no two subscribers share a stream.
pub sent_to-broadcast_member_left :
    (lib : UuidLib) (k : ChannelId) (recipients : IdSet) (client : ClientId) (name : Text)
    (p : ClientPublisher) (j : ClientId) (w : ℕ)
    → IsExclusive p
    → Serves p j w
    → sent_to w (broadcast_member_left lib k recipients client name p).written
      ≡ sent_to w p.written
        ++ (if is_recipient lib recipients j
            then member_left (record { channel_id = k; client_id = client; username = name }) ∷ []
            else [])
unfolding broadcast_member_left
sent_to-broadcast_member_left lib k recipients client name p j w x serves =
    sent_to-broadcast _ (is_recipient lib recipients) p j w x serves

-- Publishing to a client appends the message to its stream, and to no other.
pub sent_to-publish :
    (registry : ClientRegistry) (i j : ClientId) (m : Message) (p : ClientPublisher) (w : ℕ)
    → IsExclusive p
    → Serves p j w
    → sent_to w (publish registry i m p).written
      ≡ sent_to w p.written ++ (if i == j then message_to_event registry m ∷ [] else [])
unfolding publish Writers.write
sent_to-publish registry i j m p w x (a, found, armed) =
    elim (Option-cases (Map.find i p.writers)) [
      | inl missing ↦ ground (arith, eq_iff i j, append-nil (sent_to w p.written))
      | inr (b, e) ↦ elim (Option-cases (p.entry b)) [
        | inl null ↦ ground (arith, eq_iff i j, append-nil (sent_to w p.written))
        | inr (u, armed') ↦ elim (Bool-cases (eqb u w)) [
          | inl same ↦
              let i_is_j : i ≡ j = x.exclusive i j w (b, e, ground arith) (a, found, armed) in
              ground (
                arith,
                eq_iff i j,
                Writers.sent_to-append w p.written ((u, message_to_event registry m) ∷ []),
              )
          | inr other ↦ ground (
            arith,
            eq_iff i j,
            append-nil (sent_to w p.written),
            Writers.sent_to-append w p.written ((u, message_to_event registry m) ∷ []),
          )
        ]
      ]
    ]

-- Publishing moves no subscription.
pub publish_frame :
    (registry : ClientRegistry) (i : ClientId) (m : Message) (p : ClientPublisher)
    → ((publish registry i m p).writers ≡ p.writers) × ((publish registry i m p).entry ≡ p.entry)
unfolding publish Writers.write
publish_frame registry i m p = (ground arith, ground arith)
