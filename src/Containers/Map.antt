-- ===== src/Containers/Map.antt =====
-- std::unordered_map<std::string, V> as an association list: find, contains, insert_or_assign,
-- emplace, erase, and the loop over the values.
use monash_fit1045_hd_projec.Base.{
  ◌≡◌, refl, inl, inr, Bool, true, false, ◌||◌, Option, none, some, List, [], ◌∷◌, arith, Text,
  ◌==◌, eq_iff, eq_refl, eq_comm, if◌then◌else◌, Bool-cases, select, All,
}

abbrev pub Map {ℓ} : Type ℓ → Type ℓ
Map V = List (Text × V)

module _ {ℓ} {V : Type ℓ} where
  unfoldable pub find : Text → Map V → Option V
  find k [] = none
  find k ((j, v) ∷ m) = if j == k then some v else find k m

  unfoldable pub insert_or_assign : Text → V → Map V → Map V
  insert_or_assign k v [] = (k, v) ∷ []
  insert_or_assign k v ((j, w) ∷ m) = if j == k then (j, v) ∷ m else (j, w) ∷ insert_or_assign k v m

  unfoldable pub erase : Text → Map V → Map V
  erase k [] = []
  erase k ((j, w) ∷ m) = let rest = erase k m in if j == k then rest else (j, w) ∷ rest

  unfoldable pub values : Map V → List V
  values [] = []
  values ((j, w) ∷ m) = w ∷ values m

  abbrev pub is_some : Option V → Bool
  is_some none = false
  is_some (some v) = true

  unfoldable pub contains : Text → Map V → Bool
  contains k m = is_some (find k m)

  -- An existing entry is left as it is.
  unfoldable pub emplace : Text → V → Map V → Map V
  emplace k v m = elim (find k m) [ none ↦ insert_or_assign k v m | some w ↦ m ]

  pub find-insert_or_assign :
      (k j : Text) (v : V) (m : Map V)
      → find j (insert_or_assign k v m) ≡ (if k == j then some v else find j m)
  unfolding find insert_or_assign
  find-insert_or_assign k j v [] = refl
  find-insert_or_assign k j v ((i, w) ∷ m) =
      ground (arith, find-insert_or_assign k j v m, eq_iff i k, eq_iff i j, eq_iff k j)

  pub find-erase :
      (k j : Text) (m : Map V) → find j (erase k m) ≡ (if k == j then none else find j m)
  unfolding find erase
  find-erase k j [] = ground arith
  find-erase k j ((i, w) ∷ m) = ground (arith, find-erase k j m, eq_iff i k, eq_iff i j, eq_iff k j)

  pub find-emplace :
      (k j : Text) (v : V) (m : Map V)
      → find k m ≡ none
      → find j (emplace k v m) ≡ (if k == j then some v else find j m)
  unfolding emplace
  find-emplace k j v m h = rw (h, emplace) (find-insert_or_assign k j v m)

  -- No key occurs twice.
  abbrev pub HasDistinctKeys : Map V → Type ℓ
  HasDistinctKeys [] = Unit
  HasDistinctKeys ((k, v) ∷ m) = (find k m ≡ none) × HasDistinctKeys m

  pub insert_or_assign-HasDistinctKeys :
      (k : Text) (v : V) (m : Map V) → HasDistinctKeys m → HasDistinctKeys (insert_or_assign k v m)
  unfolding find insert_or_assign
  insert_or_assign-HasDistinctKeys k v [] h = (refl, tt)
  insert_or_assign-HasDistinctKeys k v ((i, w) ∷ m) h = elim (Bool-cases (i == k)) [
    | inl same ↦ rw same h
    | inr other ↦ rw other (
      ground (arith, find-insert_or_assign k i v m, eq_comm k i),
      insert_or_assign-HasDistinctKeys k v m h.1,
    )
  ]

  pub erase-HasDistinctKeys :
      (k : Text) (m : Map V) → HasDistinctKeys m → HasDistinctKeys (erase k m)
  unfolding erase
  erase-HasDistinctKeys k [] h = tt
  erase-HasDistinctKeys k ((i, w) ∷ m) h = elim (Bool-cases (i == k)) [
    | inl same ↦ rw same (erase-HasDistinctKeys k m h.1)
    | inr other ↦ rw other (ground (arith, find-erase k i m), erase-HasDistinctKeys k m h.1)
  ]

  pub emplace-HasDistinctKeys :
      (k : Text) (v : V) (m : Map V) → HasDistinctKeys m → HasDistinctKeys (emplace k v m)
  unfolding emplace
  emplace-HasDistinctKeys k v m h =
      elim (find k m)
        as (λ o. HasDistinctKeys (elim o [ none ↦ insert_or_assign k v m | some w ↦ m ])) [
          | none ↦ insert_or_assign-HasDistinctKeys k v m h
          | some w ↦ h
        ]

  -- Some value passes the test.
  abbrev pub any : (V → Bool) → List V → Bool
  any p [] = false
  any p (v ∷ vs) = p v || any p vs

  -- What holds of every entry that can be found holds of every value that a loop selects.
  pub All-select-values {κ} :
      (P : V → Type κ) (p : V → Bool) (m : Map V)
      → HasDistinctKeys m
      → ((k : Text) (v : V) → find k m ≡ some v → P v)
      → All P (select p (values m))
  unfolding find values
  All-select-values P p [] h each = tt
  All-select-values P p ((j, v) ∷ m) h each =
      let rest = All-select-values P p m h.1 (λ k w e. each k w (ground (arith, eq_iff j k))) in
      elim (Bool-cases (p v)) [
        | inl chosen ↦ rw chosen (each j v (ground (arith, eq_refl j)), rest)
        | inr other ↦ rw other rest
      ]
