-- ===== src/Domain/ChannelName.antt =====
-- server/src/domain/model/channel_name.cpp and its header: a validated channel name.
use monash_fit1045_hd_projec.Base.{
  ℕ, ◌≡◌, ◌↔◌, ◌⊎◌, Bool, ◌||◌, Option, some, true, arith, Text, eqb,
}
use monash_fit1045_hd_projec.Domain.Names.{
  is_alnum, create_checked, create_checked_iff, IsName, IsAlnum,
}

abbrev pub min_length : ℕ
min_length = 1

abbrev pub max_length : ℕ
max_length = 64

unfoldable pub is_allowed_char : ℕ → Bool
unfolding is_alnum
is_allowed_char c = is_alnum c || eqb c b'-'

unfoldable pub create : Text → Option Text
unfolding create_checked is_allowed_char
create raw = create_checked is_allowed_char min_length max_length raw

-- The documented alphabet, [a-zA-Z0-9-].
abbrev pub IsAllowed : ℕ → Type 0
IsAllowed c = IsAlnum c ⊎ (c ≡ b'-')

is_allowed_char_iff : (c : ℕ) → (is_allowed_char c ≡ true) ↔ IsAllowed c
unfolding is_allowed_char
is_allowed_char_iff c = (λ h. ground arith, λ h. ground arith)

-- The factory accepts a text exactly when it has 1 to 64 bytes of the documented alphabet, and
-- then returns that text.
create_channel-IsName_iff :
    (raw v : Text)
    → (create raw ≡ some v) ↔ ((v ≡ raw) × IsName IsAllowed min_length max_length raw)
unfolding create
create_channel-IsName_iff raw v =
    create_checked_iff is_allowed_char is_allowed_char_iff min_length max_length raw v
