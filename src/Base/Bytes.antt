-- ===== src/Base/Bytes.antt =====
-- Text as a list of bytes, with the comparisons of std::string and std::string_view.
use Prim.Native.Nat.{ℕ}
use Prim.Native.Char.{code}
use Prim.Native.String.{String}
use mathlib.Core.Path.{◌≡◌, refl}
use mathlib.Core.Logic.{◌↔◌}
use mathlib.Core.Bool.{Bool, true, false, ◌&&◌}
use mathlib.Core.List.{List, [], ◌∷◌, ◌++◌}
use native.Mathlib.Omega.{arith}
use monash_fit1045_hd_projec.Base.Tests.{eqb}

abbrev pub Text : Type 0
Text = List ℕ

-- The bytes of an ASCII literal.
abbrev pub codes : String → Text
codes String.[] = []
codes (String.◌∷◌ c s) = code c ∷ codes s

infix 50 ◌==◌
unfoldable pub ◌==◌ : Text → Text → Bool
[] == [] = true
[] == (b ∷ t) = false
(a ∷ s) == [] = false
(a ∷ s) == (b ∷ t) = eqb a b && (s == t)

-- s.starts_with(prefix), the prefix first.
unfoldable pub starts_with : Text → Text → Bool
starts_with [] s = true
starts_with (p ∷ ps) [] = false
starts_with (p ∷ ps) (c ∷ s) = eqb p c && starts_with ps s

-- Every byte passes the test.
unfoldable pub all_chars : (ℕ → Bool) → Text → Bool
all_chars p [] = true
all_chars p (c ∷ s) = p c && all_chars p s

pub eq_refl : (s : Text) → (s == s) ≡ true
unfolding ◌==◌
eq_refl [] = refl
eq_refl (a ∷ s) = ground (arith, eq_refl s)

eq_sound : (s t : Text) → (s == t) ≡ true → s ≡ t
unfolding ◌==◌
eq_sound [] [] h = refl
eq_sound [] (b ∷ t) h = cc
eq_sound (a ∷ s) [] h = cc
eq_sound (a ∷ s) (b ∷ t) h = ground (arith, eq_sound s t)

pub eq_iff : (s t : Text) → ((s == t) ≡ true) ↔ (s ≡ t)
eq_iff s t = (eq_sound s t, λ e. ground (arith, eq_refl s))

pub eq_comm : (s t : Text) → (s == t) ≡ (t == s)
eq_comm s t = ground (arith, eq_iff s t, eq_iff t s)

pub starts_with-append : (p s : Text) → starts_with p (p ++ s) ≡ true
unfolding starts_with
starts_with-append [] s = refl
starts_with-append (c ∷ p) s = ground (arith, starts_with-append p s)
