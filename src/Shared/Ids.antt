-- ===== src/Shared/Ids.antt =====
-- shared/include/bcmd/shared/ids.hpp. A StrongId is its canonical text; the phantom tags that
-- keep ClientId, ChannelId and MessageId apart exist for the C++ compiler only. The stduuid
-- library is a parameter.
use monash_fit1045_hd_projec.Base.{
  ◌≡◌, refl, Bool, false, Option, none, some, arith, Text, inl, inr, Option-cases, if◌then◌else◌,
}

abbrev pub StrongId : Type 0
StrongId = Text

abbrev pub ClientId : Type 0
ClientId = StrongId

abbrev pub ChannelId : Type 0
ChannelId = StrongId

abbrev pub MessageId : Type 0
MessageId = StrongId

-- What the code calls of stduuid.
pub record UuidLib : Type 1 where
  pub Uuid : Type 0
  pub from_string : Text → Option Uuid
  pub is_nil : Uuid → Bool
  pub to_string : Uuid → Text

-- Printing a UUID and reading it back gives the UUID.
abbrev pub PrintsBack : UuidLib → Type 0
PrintsBack lib = (u : lib.Uuid) → lib.from_string (lib.to_string u) ≡ some u

-- The identifier of a UUID that the random generator drew.
unfoldable pub generate : (lib : UuidLib) → lib.Uuid → StrongId
generate lib drawn = lib.to_string drawn

unfoldable pub parse : (lib : UuidLib) → Text → Option StrongId
parse lib str = elim (lib.from_string str) [
  | none ↦ none
  | some parsed ↦ if lib.is_nil parsed then none else some (lib.to_string parsed)
]

-- An identifier that the parser returns is canonical: it parses to itself.
pub parse_canonical :
    (lib : UuidLib) (str i : Text) → PrintsBack lib → parse lib str ≡ some i → parse lib i ≡ some i
unfolding parse
parse_canonical lib str i back h = elim (Option-cases (lib.from_string str)) [
  | inl e ↦ ground arith
  | inr (u, e) ↦ ground (arith, back u)
]

-- A generated identifier that is not nil parses to itself.
pub parse-generate :
    (lib : UuidLib) (u : lib.Uuid)
    → PrintsBack lib
    → lib.is_nil u ≡ false
    → parse lib (generate lib u) ≡ some (generate lib u)
unfolding parse generate
parse-generate lib u back h = rw (back u, parse, h) refl
