-- ===== src/Identity/Requests.antt =====
-- The requests of apps/api/src/identity/account-lifecycle.service.ts with the checks of their bodies:
-- invite, reissue, complete and setStatus.
use b2b_stm.Prelude.{
  ℕ, suc, Bool, true, false, ◌&&◌, ◌||◌, not, Option, none, some, List, [], ◌∷◌, map, any, length,
  set_size, ltb, ◌==◌, nat_eq, if◌then◌else◌,
}
use b2b_stm.Text.{Text, text_eq, codes, trim, is_space, uuid_test, uuid_value}
use b2b_stm.Json.{Json, undefined, null, bool, str, get, items, string}
use b2b_stm.Table.{lookup}
use b2b_stm.Tx.{Error, Result, ok, err, bad_request, http_error}
use b2b_stm.Import.Csv.{byte_length, is_high, is_low}
use b2b_stm.Identity.{
  Crypto, Accounts, AccountType, internal, customer, Role, customer_role, warehouse, operations,
  settlement, system, AccountToken, Purpose, settle_with,
}
use b2b_stm.Identity.Password.{split}
use b2b_stm.Identity.Guard.{is_token}
use b2b_stm.Identity.Tokens.{
  Invitation, Issued, usable, invite_work, reissue_work, complete_work, set_status_work,
}

abbrev pub is_text : Json → Bool
is_text (str s) = true
is_text _ = false

abbrev pub text_value : Json → Text
text_value (str s) = s
text_value _ = []

-- A dot with something before and behind it.
unfoldable pub has_inner_dot : Bool → Text → Bool
has_inner_dot started [] = false
has_inner_dot started (c ∷ s) = started && c == b'.' && not (length s == 0) || has_inner_dot true s

abbrev pub is_address : List Text → Bool
unfolding has_inner_dot
is_address (local ∷ domain ∷ []) = not (length local == 0) && has_inner_dot false domain
is_address _ = false

-- `/^[^\s@]+@[^\s@]+\.[^\s@]+$/`
unfoldable pub is_email : Text → Bool
unfolding any is_space split has_inner_dot
is_email s = not (any is_space s) && is_address (split b'@' s)

unfoldable pub account_type_of : Json → Option AccountType
account_type_of (str s) =
    if s == codes "internal"
    then some internal
    else if s == codes "customer"
    then some customer
    else none
account_type_of _ = none

abbrev pub role_of : Text → Option Role
role_of s =
    if s == codes "warehouse"
    then some warehouse
    else if s == codes "operations"
    then some operations
    else if s == codes "settlement"
    then some settlement
    else if s == codes "system"
    then some system
    else none

-- A role that an account of the type may have.
unfoldable pub allowed_role : AccountType → Json → Option Role
allowed_role customer (str s) = if s == codes "customer" then some customer_role else none
allowed_role internal (str s) = role_of s
allowed_role _ _ = none

abbrev pub add_role : Option Role → Option (List Role) → Option (List Role)
add_role (some r) (some rs) = some (r ∷ rs)
add_role _ _ = none

unfoldable pub allowed_roles : AccountType → List Json → Option (List Role)
unfolding allowed_role
allowed_roles type [] = some []
allowed_roles type (v ∷ vs) = add_role (allowed_role type v) (allowed_roles type vs)

abbrev pub is_missing : Json → Bool
is_missing undefined = true
is_missing null = true
is_missing _ = false

-- The customer of the account: a UUID for a customer's, none for an internal one.
unfoldable pub customer_given : AccountType → Json → Option (Option ℕ)
customer_given customer (str s) = if uuid_test s then some (some (uuid_value s)) else none
customer_given customer _ = none
customer_given internal v = if is_missing v then some none else none

abbrev pub bad_email : Json → Bool
unfolding is_email trim
bad_email v =
    not (is_text v) || ltb 254 (length (text_value v)) || not (is_email (trim (text_value v)))

abbrev pub bad_roles : List Json → Bool
bad_roles roles = length roles == 0 || not (set_size (map text_value roles) == length roles)

abbrev pub build_invitation :
    Text → AccountType → Option (List Role) → Option (Option ℕ) → Result Invitation
build_invitation email type (some roles) (some c) =
    ok (record { email = email; account_type = type; customer_id = c; roles = roles })
build_invitation email type _ _ = err (bad_request "Invalid invitation")

abbrev pub invitation_for : Text → Option AccountType → Json → Result Invitation
unfolding allowed_roles customer_given
invitation_for email none body = err (bad_request "Invalid invitation")
invitation_for email (some type) body =
    build_invitation email type (allowed_roles type (items (get "roles" body)))
      (customer_given type (get "customerId" body))

-- How many characters: a pair of code units counts once.
unfoldable pub character_count : Text → ℕ
character_count [] = 0
character_count (c ∷ []) = 1
character_count (c ∷ d ∷ s) = elim (is_high c && is_low d) [
  | true ↦ suc (character_count s)
  | false ↦ suc (character_count (d ∷ s))
]

-- The bounds of a new password.
unfoldable pub bad_password : Text → Bool
unfolding character_count byte_length
bad_password s =
    ltb (character_count s) 12 || ltb 128 (character_count s) || ltb 512 (byte_length s)

abbrev pub account_error : Error → Error
account_error e = http_error "Account service unavailable" e

module _ (crypto : Crypto) where
  -- `invitation`
  unfoldable pub invitation_of : Json → Result Invitation
  unfolding account_type_of trim
  invitation_of body =
      if bad_email (get "email" body) || bad_roles (items (get "roles" body))
      then err (bad_request "Invalid invitation")
      else invitation_for (crypto.lower (trim (text_value (get "email" body))))
          (account_type_of (get "accountType" body)) body

  -- `invite`, with the token that it draws.
  unfoldable pub invite : Text → Json → Text → Accounts → Result Issued × Accounts
  unfolding invite_work invitation_of
  invite session body token s =
      settle_with account_error s
        (invite_work (crypto.digest session) (crypto.digest token) token (invitation_of body) s)

  -- `reissue`
  unfoldable pub reissue : Text → Text → Purpose → Text → Accounts → Result Issued × Accounts
  unfolding reissue_work
  reissue session user purpose token s =
      if not (uuid_test user)
      then (err (bad_request "Invalid user ID"), s)
      else settle_with account_error s (
          reissue_work (crypto.digest session) (crypto.digest token) token (uuid_value user) purpose
            s)

  -- The look at the token before the transaction decides whose password is set.
  abbrev pub complete_for :
      Text → Text → Purpose → Option AccountToken → Accounts → Result (Unit {0}) × Accounts
  unfolding complete_work
  complete_for hash password purpose none s = (err (bad_request "Invalid or expired token"), s)
  complete_for hash password purpose (some t) s =
      settle_with account_error s
        (complete_work hash (crypto.argon2_hash password) purpose t.user_id s)

  abbrev pub complete_with : Text → Text → Purpose → Accounts → Result (Unit {0}) × Accounts
  unfolding lookup complete_work
  complete_with token password purpose s =
      complete_for (crypto.digest token) password purpose
        (usable s.now purpose (lookup (crypto.digest token) s.account_tokens)) s

  abbrev pub complete_body : Json → Json → Purpose → Accounts → Result (Unit {0}) × Accounts
  unfolding is_token bad_password lookup complete_work
  complete_body (str token) (str password) purpose s =
      if not (is_token token) || bad_password password
      then (err (bad_request "Invalid token or password (12–128 characters required)"), s)
      else complete_with token password purpose s
  complete_body _ _ purpose s =
      (err (bad_request "Invalid token or password (12–128 characters required)"), s)

  -- `complete`
  unfoldable pub complete : Json → Purpose → Accounts → Result (Unit {0}) × Accounts
  unfolding is_token bad_password lookup complete_work
  complete body purpose s = complete_body (get "token" body) (get "password" body) purpose s

  abbrev pub bad_reason_for_status : Text → Bool
  bad_reason_for_status reason = ltb (length reason) 4 || ltb 300 (length reason)

  abbrev pub status_body : Text → Text → Json → Text → Accounts → Result Bool × Accounts
  unfolding set_status_work
  status_body session user (bool active) reason s =
      if not (uuid_test user) || bad_reason_for_status reason
      then (err (bad_request "Invalid account status change"), s)
      else settle_with account_error s
          (set_status_work (crypto.digest session) user active reason s)
  status_body session user _ reason s = (err (bad_request "Invalid account status change"), s)

  -- `setStatus`
  unfoldable pub set_status : Text → Text → Json → Accounts → Result Bool × Accounts
  unfolding set_status_work
  set_status session user body s =
      status_body session user (get "active" body) (string (get "reason" body)) s
