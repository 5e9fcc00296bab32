-- ===== src/Identity/Password.antt =====
-- `verifyPassword` of apps/api/src/identity/password.ts. The derivations whose result the code throws
-- away, so that a refusal takes as long, are left out.
use b2b_stm.Prelude.{
  ℕ, Bool, true, false, ◌&&◌, Option, none, some, List, [], ◌∷◌, length, ◌==◌, nat_eq,
  if◌then◌else◌,
}
use b2b_stm.Prelude.Int.{pos}
use b2b_stm.Text.{Text, text_eq, codes}
use b2b_stm.Json.{str, Number, int, number}
use b2b_stm.Identity.{Crypto}

abbrev pub add_to_first : ℕ → List Text → List Text
add_to_first c [] = (c ∷ []) ∷ []
add_to_first c (t ∷ ts) = (c ∷ t) ∷ ts

-- `s.split(separator)`
unfoldable pub split : ℕ → Text → List Text
split separator [] = [] ∷ []
split separator (c ∷ s) =
    let rest = split separator s in if c == separator then [] ∷ rest else add_to_first c rest

abbrev pub has_prefix : Text → Text → Bool
has_prefix [] s = true
has_prefix (c ∷ p) [] = false
has_prefix (c ∷ p) (d ∷ s) = c == d && has_prefix p s

abbrev pub number_is : ℕ → Number → Bool
number_is n (int (pos m)) = n == m
number_is n _ = false

-- `Number(s) === n`
unfoldable pub numeral_is : ℕ → Text → Bool
unfolding number
numeral_is n s = number_is n (number (str s))

module _ (crypto : Crypto) where
  abbrev pub is_true : Option Bool → Bool
  is_true none = false
  is_true (some b) = b

  abbrev pub equals : Text → Option Text → Bool
  equals expected none = false
  equals expected (some actual) = actual == expected

  -- A hash of the earlier format, by its parts: `scrypt$N$r$p$salt$key`.
  unfoldable pub verify_scrypt : Text → List Text → Bool
  unfolding numeral_is
  verify_scrypt password (name ∷ n ∷ r ∷ p ∷ salt ∷ key ∷ []) =
      name == codes "scrypt"
      && numeral_is 16384 n
      && numeral_is 8 r
      && numeral_is 1 p
      && length (crypto.base64url key) == 64
      && equals (crypto.base64url key) (crypto.scrypt password (crypto.base64url salt))
  verify_scrypt password _ = false

  unfoldable pub verify_password : Text → Option Text → Bool
  unfolding verify_scrypt split
  verify_password password none = false
  verify_password password (some encoded) =
      if has_prefix (codes "$argon2id$") encoded
      then is_true (crypto.argon2_verify encoded password)
      else verify_scrypt password (split b'$' encoded)
