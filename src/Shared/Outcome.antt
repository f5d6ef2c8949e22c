-- ===== src/Shared/Outcome.antt =====
-- shared/include/bcmd/shared/result.hpp, shared/src/result.cpp: the error codes, Result<T> and
-- the text of each code. `Exec` is a method that reads and writes a state and returns a Result;
-- what was written before an error stays written.
use monash_fit1045_hd_projec.Base.{
  ◌≢◌, ◌≡◌, refl, ◌⊎◌, inl, inr, Bool, true, false, Option, none, some, Text, codes, if◌then◌else◌,
}

pub data Error : Type 0 where
  channel_not_found channel_already_exists client_not_found client_already_exists : Error
  already_member not_a_member : Error
  message_empty message_invalid_prefix message_too_long : Error
  invalid_username invalid_channel_name invalid_argument : Error
  storage_error network_error not_implemented : Error

pub Error-discrete : Discrete Error
Error-discrete = hlevel

-- `==` of the enumeration.
abbrev pub same_error : Error → Error → Bool
same_error e f = elim (Error-discrete e f) [ yes p ↦ true | no p ↦ false ]

unequal :
    {A : Type 0} (e f : A) (d : Dec (e ≡ f))
    → e ≢ f
    → (elim d [ yes p ↦ true | no p ↦ false ]) ≡ false
unequal e f (yes p) n = absurd (n p)
unequal e f (no p) n = refl

pub same_error-distinct : (e f : Error) → e ≢ f → same_error e f ≡ false
same_error-distinct e f n = unequal e f (Error-discrete e f) n

pub data Result {ℓ} (A : Type ℓ) : Type ℓ where
  ok : A → Result A
  err : Error → Result A

abbrev pub VoidResult : Type 0
VoidResult = Result (Unit {0})

unfoldable pub error_message : Error → Text
error_message channel_not_found = codes "channel not found"
error_message channel_already_exists = codes "channel already exists"
error_message client_not_found = codes "client not found"
error_message client_already_exists = codes "client already exists"
error_message already_member = codes "already a member"
error_message not_a_member = codes "not a member"
error_message message_empty = codes "message is empty"
error_message message_invalid_prefix = codes "message must not start with '/'"
error_message message_too_long = codes "message too long"
error_message invalid_username = codes "invalid username"
error_message invalid_channel_name =
    codes "invalid channel name (allowed: 1-64 chars of [a-zA-Z0-9-])"
error_message invalid_argument = codes "invalid argument"
error_message storage_error = codes "storage error"
error_message network_error = codes "network error"
error_message not_implemented = codes "not implemented"

abbrev pub Exec : Type 0 → Type 0 → Type 0
Exec S A = S → Result A × S

abbrev pub continue {ℓ} : {S A B : Type ℓ} → Result A → (A → S → Result B × S) → S → Result B × S
continue (ok a) f s = f a s
continue (err e) f s = (err e, s)

infixl 5 ◌>>=◌ ◌>>◌
abbrev pub ◌>>=◌ : {S A B : Type 0} → Exec S A → (A → Exec S B) → Exec S B
◌>>=◌ m f s = let (r, s') = m s in continue r f s'

abbrev pub ◌>>◌ : {S A B : Type 0} → Exec S A → Exec S B → Exec S B
m >> n = m >>= λ _. n

abbrev pub pure : {S A : Type 0} → A → Exec S A
pure a s = (ok a, s)

abbrev pub raise : {S A : Type 0} → Error → Exec S A
raise e s = (err e, s)

-- An early return with the error of a Result.
abbrev pub lift : {S A : Type 0} → Result A → Exec S A
lift r s = (r, s)

-- A call that returns nothing and cannot fail.
abbrev pub modify : {S : Type 0} → (S → S) → Exec S (Unit {0})
modify f s = (ok tt, f s)

abbrev pub gets : {S A : Type 0} → (S → A) → Exec S A
gets f s = (ok (f s), s)

-- The value of an optional, or an early return with the error.
abbrev pub or_fail : {A : Type 0} → Option A → Error → Result A
or_fail none e = err e
or_fail (some a) e = ok a

-- if (!test) return the error.
abbrev pub require : Bool → Error → VoidResult
require true e = ok tt
require false e = err e

-- if (r has an error that is none of the tolerated ones) return it.
abbrev pub tolerate : (Error → Bool) → VoidResult → VoidResult
tolerate p (ok u) = ok u
tolerate p (err e) = if p e then ok tt else err e

pub Result-cases :
    {A : Type 0} (r : Result A) → ((a : A) × (r ≡ ok a)) ⊎ ((e : Error) × (r ≡ err e))
Result-cases (ok a) = inl (a, refl)
Result-cases (err e) = inr (e, refl)

pub tolerate_all :
    (p : Error → Bool) (r : Result (Unit {0}))
    → ((e : Error) → r ≡ err e → p e ≡ true)
    → tolerate p r ≡ ok tt
tolerate_all p (ok u) h = refl
tolerate_all p (err e) h = rw (h e refl)

-- The errors of a leave that races with another leave or with a deletion.
abbrev pub is_race : Error → Bool
is_race not_a_member = true
is_race channel_not_found = true
is_race _ = false

abbrev pub is_client_not_found : Error → Bool
is_client_not_found client_not_found = true
is_client_not_found _ = false
