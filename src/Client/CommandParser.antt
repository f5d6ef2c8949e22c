-- ===== src/Client/CommandParser.antt =====
-- client-cli/include/bcmd/client/adapter/cli/command_parser.hpp: the commands a user types.
use mathlib.Core.List.{reverse, reverse-append, reverse-reverse}
use monash_fit1045_hd_projec.Base.{
  subst, ◌⊎◌, all_chars, starts_with-append, ◌≡◌, ◌≢◌, ◌↔◌, refl, sym, ap, ◌∙◌, true, false, [],
  ◌∷◌, ◌++◌, arith, Text, codes, ◌==◌, eq_iff, starts_with, drop, length, if◌then◌else◌,
}
use monash_fit1045_hd_projec.Shared.StringUtils.{
  trim, trim_copy, is_ascii_space, starts_solid, IsTrimmed, trim-IsTrimmed, trim-nil_iff,
  trim_trimmed, all_chars-reverse,
}

pub data CommandType : Type 0 where
  join create leave list quit unknown none : CommandType

pub record ParsedCommand : Type 0 where
  pub type : CommandType
  pub arg : Text

abbrev pub join_prefix : Text
join_prefix = codes "/join "

abbrev pub create_prefix : Text
create_prefix = codes "/create "

unfoldable pub parse_command : Text → ParsedCommand
parse_command input =
    let trimmed = trim input in
    if starts_with join_prefix trimmed
    then record { type = join; arg = trim_copy (drop (length join_prefix) trimmed) }
    else if starts_with create_prefix trimmed
    then record { type = create; arg = trim_copy (drop (length create_prefix) trimmed) }
    else if trimmed == codes "/leave"
    then record { type = leave; arg = [] }
    else if trimmed == codes "/list"
    then record { type = list; arg = [] }
    else if trimmed == codes "/quit"
    then record { type = quit; arg = [] }
    else if starts_with (codes "/") trimmed
    then record { type = unknown; arg = trimmed }
    else record { type = none; arg = [] }

starts_with_left : (p q s : Text) → starts_with (p ++ q) s ≡ true → starts_with p s ≡ true
unfolding starts_with
starts_with_left [] q s h = refl
starts_with_left (c ∷ p) q [] h = cc
starts_with_left (c ∷ p) q (d ∷ s) h = ground (arith, starts_with_left p q s)

equal_starts : (p q s : Text) → (s == (p ++ q)) ≡ true → starts_with p s ≡ true
equal_starts p q s h =
    subst (λ t. starts_with p t ≡ true) (sym ((eq_iff s (p ++ q)).0 h)) (starts_with-append p q)

-- A typed line is no command exactly if it does not begin with a slash once it is trimmed.
pub parse_command-none_iff :
    (input : Text)
    → ((parse_command input).type ≡ none) ↔ (starts_with (codes "/") (trim input) ≡ false)
unfolding parse_command
parse_command-none_iff input = (
  λ h. ground arith,
  λ h. ground (
    arith,
    starts_with_left (codes "/") (codes "join ") (trim input),
    starts_with_left (codes "/") (codes "create ") (trim input),
    equal_starts (codes "/") (codes "leave") (trim input),
    equal_starts (codes "/") (codes "list") (trim input),
    equal_starts (codes "/") (codes "quit") (trim input),
  ),
)

starts_with_split : (p s : Text) → starts_with p s ≡ true → s ≡ p ++ drop (length p) s
unfolding starts_with
starts_with_split [] s h = refl
starts_with_split (c ∷ p) [] h = cc
starts_with_split (c ∷ p) (d ∷ s) h =
    let tail : s ≡ p ++ drop (length p) s = starts_with_split p s (ground arith) in
    let head : d ≡ c = ground arith in rw head (ap (◌∷◌ c) tail)

blank_start :
    (s rest : Text) → all_chars is_ascii_space s ≡ true → starts_solid (s ++ (b' ' ∷ rest)) ≡ false
unfolding all_chars is_ascii_space
blank_start [] rest h = refl
blank_start (c ∷ s) rest h = ground arith

-- A trimmed text that begins with a prefix whose last byte is a space goes on after it.
goes_on :
    (p t : Text)
    → IsTrimmed t
    → starts_with (p ++ (b' ' ∷ [])) t ≡ true
    → trim_copy (drop (length (p ++ (b' ' ∷ []))) t) ≢ []
unfolding trim_copy
goes_on p t trimmed h e =
    let rest : Text = drop (length (p ++ (b' ' ∷ []))) t in
    let blank : all_chars is_ascii_space (reverse rest) ≡ true =
      all_chars-reverse is_ascii_space rest ∙ (trim-nil_iff rest).0 e in
    let backwards : reverse t ≡ reverse rest ++ (b' ' ∷ reverse p) =
      ap reverse (starts_with_split (p ++ (b' ' ∷ [])) t h)
      ∙ reverse-append (p ++ (b' ' ∷ [])) rest
      ∙ ap (◌++◌ (reverse rest)) (reverse-append p (b' ' ∷ [])) in
    ground
      (arith, trimmed.back, ap starts_solid backwards, blank_start (reverse rest) (reverse p) blank)

-- A join or create command always has an argument: what follows the word is never blank.
parse_command_arg :
    (input : Text)
    → ((parse_command input).type ≡ join) ⊎ ((parse_command input).type ≡ create)
    → (parse_command input).arg ≢ []
unfolding parse_command
parse_command_arg input h e = ground (
  arith,
  goes_on (codes "/join") (trim input) (trim-IsTrimmed input),
  goes_on (codes "/create") (trim input) (trim-IsTrimmed input),
)

solid_append : (s rest : Text) → s ≢ [] → starts_solid s ≡ true → starts_solid (s ++ rest) ≡ true
solid_append [] rest n h = absurd (n refl)
solid_append (c ∷ s) rest n h = h

-- A join command is trimmed already.
pub trim-join :
    (name : Text) → IsTrimmed name → name ≢ [] → trim (join_prefix ++ name) ≡ join_prefix ++ name
unfolding is_ascii_space
trim-join name trimmed solid =
    let whole : IsTrimmed (join_prefix ++ name) = record {
      front = refl;
      back =
          subst (λ t. starts_solid t ≡ true) (sym (reverse-append join_prefix name))
            (solid_append (reverse name) (reverse join_prefix)
              (λ e. solid (sym (reverse-reverse name) ∙ ap reverse e)) trimmed.back);
    } in
    trim_trimmed (join_prefix ++ name) whole

-- A name that is not empty and has no space at its ends, typed after the word join and one space,
-- is read back as the name of the channel to join.
pub parse_command_join :
    (name : Text)
    → IsTrimmed name
    → name ≢ []
    → parse_command (join_prefix ++ name) ≡ record { type = join; arg = name }
unfolding parse_command trim_copy is_ascii_space starts_with
parse_command_join name trimmed solid =
    rw (trim-join name trimmed solid)
      (ap (λ a. record { type = join; arg = a }) (trim_trimmed name trimmed))
