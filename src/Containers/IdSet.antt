-- ===== src/Containers/IdSet.antt =====
-- std::unordered_set of identifiers: contains, insert, erase, size.
use monash_fit1045_hd_projec.Base.{
  ℕ, ◌≡◌, inl, inr, Bool, true, false, ◌||◌, List, [], ◌∷◌, arith, Text, ◌==◌, eq_iff,
  if◌then◌else◌, Bool-cases,
}

abbrev pub IdSet : Type 0
IdSet = List Text

unfoldable pub contains : Text → IdSet → Bool
contains k [] = false
contains k (j ∷ s) = (j == k) || contains k s

-- The new set, and whether the identifier was inserted.
unfoldable pub insert : Text → IdSet → IdSet × Bool
insert k s = if contains k s then (s, false) else (k ∷ s, true)

remove_all : Text → IdSet → IdSet
remove_all k [] = []
remove_all k (j ∷ s) = let rest = remove_all k s in if j == k then rest else j ∷ rest

-- The new set, and the number of identifiers that were removed.
unfoldable pub erase : Text → IdSet → IdSet × ℕ
unfolding remove_all
erase k s = (remove_all k s, if contains k s then 1 else 0)

-- No identifier occurs twice, so that `length` is the size of the set.
abbrev pub IsDistinct : IdSet → Type 0
IsDistinct [] = Unit
IsDistinct (k ∷ s) = (contains k s ≡ false) × IsDistinct s

pub contains-insert :
    (k j : Text) (s : IdSet) → contains j (insert k s).0 ≡ ((k == j) || contains j s)
unfolding insert contains
contains-insert k j s = ground (arith, eq_iff k j)

contains-remove_all :
    (k j : Text) (s : IdSet)
    → contains j (remove_all k s) ≡ (if k == j then false else contains j s)
unfolding contains remove_all
contains-remove_all k j [] = ground arith
contains-remove_all k j (i ∷ s) =
    ground (arith, contains-remove_all k j s, eq_iff i k, eq_iff i j, eq_iff k j)

pub contains-erase :
    (k j : Text) (s : IdSet) → contains j (erase k s).0 ≡ (if k == j then false else contains j s)
unfolding erase
contains-erase k j s = contains-remove_all k j s

pub insert-IsDistinct : (k : Text) (s : IdSet) → IsDistinct s → IsDistinct (insert k s).0
unfolding insert
insert-IsDistinct k s h = elim (Bool-cases (contains k s)) [
  | inl old ↦ rw old h
  | inr new ↦ rw new (new, h)
]

remove_all-IsDistinct : (k : Text) (s : IdSet) → IsDistinct s → IsDistinct (remove_all k s)
unfolding remove_all
remove_all-IsDistinct k [] h = tt
remove_all-IsDistinct k (j ∷ s) h = elim (Bool-cases (j == k)) [
  | inl same ↦ rw same (remove_all-IsDistinct k s h.1)
  | inr other ↦ rw other (ground (arith, contains-remove_all k j s), remove_all-IsDistinct k s h.1)
]

pub erase-IsDistinct : (k : Text) (s : IdSet) → IsDistinct s → IsDistinct (erase k s).0
unfolding erase
erase-IsDistinct k s h = remove_all-IsDistinct k s h
