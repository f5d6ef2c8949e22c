-- ===== src/Shared/StringUtils.antt =====
-- shared/src/string_utils.cpp. `isspace` is that of the C locale.
use mathlib.Core.List.{reverse, reverse-cons, reverse-append, reverse-reverse}
use monash_fit1045_hd_projec.Base.{
  ℕ, ◌≡◌, refl, sym, ap, ◌∙◌, ◌↔◌, Bool, true, false, ◌&&◌, ◌||◌, not, [], ◌∷◌, ◌++◌, arith, Text,
  eqb, leb, if◌then◌else◌, all_chars, Bool-cases, inl, inr,
}

unfoldable pub is_ascii_space : ℕ → Bool
is_ascii_space c = eqb c b' ' || (leb 9 c && leb c 13)

-- while (!input.empty() && is_ascii_space(input.front())) input.remove_prefix(1)
unfoldable pub skip_space : Text → Text
skip_space [] = []
skip_space (c ∷ s) = if is_ascii_space c then skip_space s else c ∷ s

-- The second loop removes from the back: it is the first one on the reversed view.
unfoldable pub trim : Text → Text
trim input = reverse (skip_space (reverse (skip_space input)))

unfoldable pub trim_copy : Text → Text
trim_copy input = trim input

-- The text is empty, or its first byte is no space.
abbrev pub starts_solid : Text → Bool
starts_solid [] = true
starts_solid (c ∷ s) = not (is_ascii_space c)

-- Neither end of the text is a space.
pub record IsTrimmed (s : Text) : Type 0 where
  pub front : starts_solid s ≡ true
  pub back : starts_solid (reverse s) ≡ true

skip_space-starts_solid : (s : Text) → starts_solid (skip_space s) ≡ true
unfolding skip_space
skip_space-starts_solid [] = refl
skip_space-starts_solid (c ∷ s) = elim (Bool-cases (is_ascii_space c)) [
  | inl space ↦ rw space (skip_space-starts_solid s)
  | inr solid ↦ rw solid (rw solid)
]

skip_space_solid : (s : Text) → starts_solid s ≡ true → skip_space s ≡ s
unfolding skip_space
skip_space_solid [] h = refl
skip_space_solid (c ∷ s) h = ground arith

-- What the loop removes is a run of spaces at the front.
skip_space_split :
    (s : Text) → (pre : Text) × (all_chars is_ascii_space pre ≡ true) × (s ≡ pre ++ skip_space s)
unfolding skip_space all_chars
skip_space_split [] = ([], refl, refl)
skip_space_split (c ∷ s) = elim (Bool-cases (is_ascii_space c)) [
  | inl space ↦
      let (pre, p, e) = skip_space_split s in (c ∷ pre, rw (space, p), rw space (ap (◌∷◌ c) e))
  | inr solid ↦ ([], refl, rw solid)
]

all_chars-append :
    (p : ℕ → Bool) (s t : Text) → all_chars p (s ++ t) ≡ (all_chars p s && all_chars p t)
unfolding all_chars
all_chars-append p [] t = refl
all_chars-append p (c ∷ s) t = ground (arith, all_chars-append p s t)

pub all_chars-reverse : (p : ℕ → Bool) (s : Text) → all_chars p (reverse s) ≡ all_chars p s
unfolding all_chars
all_chars-reverse p [] = refl
all_chars-reverse p (c ∷ s) =
    rw (reverse-cons c s, all_chars-append p (reverse s) (c ∷ []), all_chars-reverse p s)
      (ground arith)

skip_space-append_solid :
    (s : Text) (c : ℕ)
    → is_ascii_space c ≡ false
    → skip_space (s ++ c ∷ []) ≡ skip_space s ++ c ∷ []
unfolding skip_space
skip_space-append_solid [] c h = rw h
skip_space-append_solid (d ∷ s) c h = ground (arith, skip_space-append_solid s c h)

-- The second loop keeps the first byte, if that is no space.
trim_end-starts_solid :
    (s : Text) → starts_solid s ≡ true → starts_solid (reverse (skip_space (reverse s))) ≡ true
unfolding skip_space
trim_end-starts_solid [] h = refl
trim_end-starts_solid (c ∷ s) h = elim (Bool-cases (is_ascii_space c)) [
  | inl space ↦ ground arith
  | inr solid ↦
      rw
        (
          reverse-cons c s,
          skip_space-append_solid (reverse s) c solid,
          reverse-append (skip_space (reverse s)) (c ∷ []),
        )
        h
]

-- After `trim` no space is left at either end.
pub trim-IsTrimmed : (s : Text) → IsTrimmed (trim s)
unfolding trim
trim-IsTrimmed s = record {
  front = trim_end-starts_solid (skip_space s) (skip_space-starts_solid s);
  back =
      rw (reverse-reverse (skip_space (reverse (skip_space s))))
        (skip_space-starts_solid (reverse (skip_space s)));
}

-- A text with no space at its ends is left as it is.
pub trim_trimmed : (s : Text) → IsTrimmed s → trim s ≡ s
unfolding trim
trim_trimmed s t =
    rw (skip_space_solid s t.front, skip_space_solid (reverse s) t.back) (reverse-reverse s)

pub trim_idem : (s : Text) → trim (trim s) ≡ trim s
trim_idem s = trim_trimmed (trim s) (trim-IsTrimmed s)

-- `trim` removes a run of spaces at the front and one at the back, either of them perhaps empty,
-- and nothing else.
pub trim_split :
    (s : Text)
    → (pre post : Text) × (all_chars is_ascii_space pre ≡ true)
      × (all_chars is_ascii_space post ≡ true)
      × (s ≡ pre ++ (trim s ++ post))
unfolding trim
trim_split s =
    let (pre, p, e) = skip_space_split s in
    let (post, q, f) = skip_space_split (reverse (skip_space s)) in
    (
      pre,
      reverse post,
      p,
      rw (all_chars-reverse is_ascii_space post) q,
      e
          ∙ ap (◌++◌ pre) (
              sym (reverse-reverse (skip_space s))
              ∙ ap reverse f
              ∙ reverse-append post (skip_space (reverse (skip_space s)))),
    )

skip_space_blank : (s : Text) → all_chars is_ascii_space s ≡ true → skip_space s ≡ []
unfolding skip_space all_chars
skip_space_blank [] h = refl
skip_space_blank (c ∷ s) h = ground (arith, skip_space_blank s)

trim_blank : (s : Text) → all_chars is_ascii_space s ≡ true → trim s ≡ []
unfolding trim skip_space
trim_blank s h = rw (skip_space_blank s h) refl

-- Nothing is left exactly of a text of spaces.
pub trim-nil_iff : (s : Text) → (trim s ≡ []) ↔ (all_chars is_ascii_space s ≡ true)
trim-nil_iff s = (
  λ e.
      let (pre, post, p, q, split) = trim_split s in
      rw split (rw e (all_chars-append is_ascii_space pre post ∙ ground arith)),
  trim_blank s,
)
