-- ===== src/Domain/MessageContent.antt =====
-- server/src/domain/model/message_content.cpp and its header: the validated text of a message. The
-- file has its own copy of the trimming loops.
use mathlib.Core.List.{reverse}
use monash_fit1045_hd_projec.Base.{
  is_empty, ℕ, ◌≤◌, ◌≡◌, ◌≢◌, refl, sym, subst, ◌∙◌, ◌↔◌, all_chars, Bool, true, false, ◌||◌, ◌&&◌,
  [], ◌∷◌, arith, Text, eqb, leb, ltb, if◌then◌else◌, length,
}
use monash_fit1045_hd_projec.Shared.Outcome.{
  Result, ok, err, message_empty, message_too_long, message_invalid_prefix,
}
use monash_fit1045_hd_projec.Shared.StringUtils
use monash_fit1045_hd_projec.Shared.StringUtils.{IsTrimmed}

abbrev pub max_length : ℕ
max_length = 4096

unfoldable pub is_whitespace : ℕ → Bool
is_whitespace c = eqb c b' ' || (leb 9 c && leb c 13)

unfoldable pub skip_whitespace : Text → Text
unfolding is_whitespace
skip_whitespace [] = []
skip_whitespace (c ∷ s) = if is_whitespace c then skip_whitespace s else c ∷ s

unfoldable pub trim : Text → Text
unfolding skip_whitespace
trim raw = reverse (skip_whitespace (reverse (skip_whitespace raw)))

-- trimmed.front() == '/', read after the test for the empty text
abbrev front_is : ℕ → Text → Bool
front_is c [] = false
front_is c (d ∷ s) = eqb d c

unfoldable pub create : Text → Result Text
create raw =
    let trimmed = trim raw in
    if is_empty trimmed
    then err message_empty
    else if ltb max_length (length trimmed)
    then err message_too_long
    else if front_is b'/' trimmed
    then err message_invalid_prefix
    else ok trimmed

skip_whitespace-skip_space : (s : Text) → skip_whitespace s ≡ StringUtils.skip_space s
unfolding skip_whitespace StringUtils.skip_space StringUtils.is_ascii_space
skip_whitespace-skip_space [] = refl
skip_whitespace-skip_space (c ∷ s) = ground (arith, skip_whitespace-skip_space s)

-- The copy of the trimming loops does what the shared helper does.
pub trim-shared_trim : (s : Text) → trim s ≡ StringUtils.trim s
unfolding trim StringUtils.trim
trim-shared_trim s =
    rw (
      skip_whitespace-skip_space s,
      skip_whitespace-skip_space (reverse (StringUtils.skip_space s)),
    )

-- What an accepted message promises.
pub record IsContent (v : Text) : Type 0 where
  pub trimmed : IsTrimmed v
  pub not_empty : v ≢ []
  pub short_enough : length v ≤ max_length
  pub no_command : front_is b'/' v ≡ false

create_accepted : (raw v : Text) → create raw ≡ ok v → (v ≡ trim raw) × IsContent v
unfolding create
create_accepted raw v h =
    let e : v ≡ trim raw = ground arith in
    (
      e,
      record {
        trimmed = rw (e, trim-shared_trim raw) (StringUtils.trim-IsTrimmed raw);
        not_empty = ground arith;
        short_enough = ground arith;
        no_command = ground arith;
      },
    )

create_accepts : (raw : Text) → IsContent (trim raw) → create raw ≡ ok (trim raw)
unfolding create
create_accepts raw c = ground (arith, c.not_empty, c.short_enough, c.no_command)

-- A message is accepted exactly when its trimmed text has 1 to 4096 bytes and does not begin with a
-- slash, and then the trimmed text is what is stored.
pub create-IsContent_iff :
    (raw v : Text) → (create raw ≡ ok v) ↔ ((v ≡ StringUtils.trim raw) × IsContent v)
create-IsContent_iff raw v = (
  λ h. let (e, c) = create_accepted raw v h in (e ∙ trim-shared_trim raw, c),
  λ h.
      let e : v ≡ trim raw = h.0 ∙ sym (trim-shared_trim raw) in
      rw e (create_accepts raw (subst IsContent e h.1)),
)

create-empty_iff : (raw : Text) → (create raw ≡ err message_empty) ↔ (trim raw ≡ [])
unfolding create
create-empty_iff raw = (λ h. ground arith, λ h. ground arith)

-- A message is refused as empty exactly when it has no byte but spaces.
pub create-message_empty_iff :
    (raw : Text)
    → (create raw ≡ err message_empty) ↔ (all_chars StringUtils.is_ascii_space raw ≡ true)
create-message_empty_iff raw = (
  λ h. (StringUtils.trim-nil_iff raw).0 (sym (trim-shared_trim raw) ∙ (create-empty_iff raw).0 h),
  λ h. (create-empty_iff raw).1 (trim-shared_trim raw ∙ (StringUtils.trim-nil_iff raw).1 h),
)
