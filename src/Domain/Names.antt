-- ===== src/Domain/Names.antt =====
-- server/src/domain/model/username.cpp and channel_name.cpp. `isalnum` is that of the C locale.
-- A value object is its text: the constructors are private, so every value comes from `create`.
use monash_fit1045_hd_projec.Base.{
  ℕ, ◌≤◌, ◌≡◌, refl, ◌↔◌, Bool, true, ◌&&◌, ◌||◌, Option, none, some, [], ◌∷◌, arith, Text, leb,
  ltb, if◌then◌else◌, all_chars, length, All, ◌⊎◌,
}

unfoldable pub is_alnum : ℕ → Bool
is_alnum c =
    (leb b'0' c && leb c b'9') || ((leb b'A' c && leb c b'Z') || (leb b'a' c && leb c b'z'))

-- The tests that the two `create` functions share: a length within bounds, and allowed bytes only.
-- for (character : raw) if (!allowed(character)) return nullopt; return the text
check_chars : (ℕ → Bool) → Text → Text → Option Text
check_chars allowed raw [] = some raw
check_chars allowed raw (c ∷ rest) = if allowed c then check_chars allowed raw rest else none

unfoldable pub create_checked : (ℕ → Bool) → ℕ → ℕ → Text → Option Text
unfolding check_chars
create_checked allowed shortest longest raw =
    if ltb (length raw) shortest || ltb longest (length raw)
    then none
    else check_chars allowed raw raw

check_chars_lem :
    (allowed : ℕ → Bool) (raw rest : Text)
    → check_chars allowed raw rest ≡ (if all_chars allowed rest then some raw else none)
unfolding check_chars all_chars
check_chars_lem allowed raw [] = refl
check_chars_lem allowed raw (c ∷ rest) = ground (arith, check_chars_lem allowed raw rest)

create_checked_lem :
    (allowed : ℕ → Bool) (shortest longest : ℕ) (raw : Text)
    → create_checked allowed shortest longest raw ≡ (
        if leb shortest (length raw) && (leb (length raw) longest && all_chars allowed raw)
        then some raw
        else none)
unfolding create_checked
create_checked_lem allowed shortest longest raw =
    rw (check_chars_lem allowed raw raw) (ground arith)

-- What a value object promises of its text, by an alphabet.
pub record IsName (Allowed : ℕ → Type 0) (shortest longest : ℕ) (raw : Text) : Type 0 where
  pub long_enough : shortest ≤ length raw
  pub short_enough : length raw ≤ longest
  pub in_alphabet : All Allowed raw

abbrev pub IsAlnum : ℕ → Type 0
IsAlnum c = ((b'0' ≤ c) × (c ≤ b'9')) ⊎ (((b'A' ≤ c) × (c ≤ b'Z')) ⊎ ((b'a' ≤ c) × (c ≤ b'z')))

module _ {Allowed : ℕ → Type 0} (allowed : ℕ → Bool)
    (reads : (c : ℕ) → (allowed c ≡ true) ↔ Allowed c) where
  all_chars_iff : (s : Text) → (all_chars allowed s ≡ true) ↔ All Allowed s
  unfolding all_chars
  all_chars_iff [] = (λ h. tt, λ h. refl)
  all_chars_iff (c ∷ s) = (
    λ h. ((reads c).0 (ground arith), (all_chars_iff s).0 (ground arith)),
    λ h. ground (arith, (reads c).1 h.0, (all_chars_iff s).1 h.1),
  )

  -- `create` accepts exactly the names of the alphabet within the bounds, and keeps the text.
  pub create_checked_iff :
      (shortest longest : ℕ) (raw v : Text)
      → (create_checked allowed shortest longest raw ≡ some v)
        ↔ ((v ≡ raw) × IsName Allowed shortest longest raw)
  create_checked_iff shortest longest raw v = (
    λ h. (
      ground (arith, create_checked_lem allowed shortest longest raw),
      record {
        long_enough = ground (arith, create_checked_lem allowed shortest longest raw);
        short_enough = ground (arith, create_checked_lem allowed shortest longest raw);
        in_alphabet =
            (all_chars_iff raw).0 (ground (arith, create_checked_lem allowed shortest longest raw));
      },
    ),
    λ h. ground (
      arith,
      create_checked_lem allowed shortest longest raw,
      (all_chars_iff raw).1 h.1.in_alphabet,
      h.1.long_enough,
      h.1.short_enough,
    ),
  )
