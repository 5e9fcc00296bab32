-- ===== src/Identity/Guard.antt =====
-- Who may call what: session.guard.ts, csrf.guard.ts and `workspace` of identity.controller.ts in
-- apps/api/src/identity. The check of a CSRF token by its library is a parameter.
use b2b_stm.Prelude.{
  ℕ, Bool, true, false, ◌&&◌, ◌||◌, not, Option, none, some, List, [], ◌∷◌, map, filter, any,
  length, is_some, leb, ltb, ◌==◌, nat_eq, if◌then◌else◌,
}
use b2b_stm.Text.{Text, text_eq, codes, trim, is_digit}
use b2b_stm.Table.{lookup, modify}
use b2b_stm.Tx.{Result, ok, err, forbidden, unauthorized}
use b2b_stm.Identity.{
  Crypto, Accounts, Account, Session, Role, customer_role, warehouse, operations, settlement,
  system, is_live, has_active_customer,
}
use b2b_stm.Identity.Password.{split, has_prefix}

-- `Principal`
pub record Principal : Type 0 where
  pub id : ℕ
  pub customer_id : Option ℕ
  pub roles : List Role
  pub mfa_verified : Bool

abbrev pub is_token_digit : ℕ → Bool
unfolding is_digit
is_token_digit c = is_digit c || leb b'a' c && leb c b'f'

-- `/^[a-f0-9]{64}$/`
unfoldable pub is_token : Text → Bool
unfolding any is_digit
is_token s = length s == 64 && not (any (λ c. not (is_token_digit c)) s)

abbrev pub drop_text : Text → Text → Text
drop_text [] s = s
drop_text (c ∷ p) [] = []
drop_text (c ∷ p) (d ∷ s) = drop_text p s

abbrev pub session_name : Text
session_name = codes "b2b_session="

abbrev pub only_token : List Text → Option Text
only_token (v ∷ []) = some (drop_text session_name v)
only_token _ = none

-- The token of the one session cookie of a request.
unfoldable pub session_token : Text → Option Text
unfolding split filter trim
session_token cookie = only_token (filter (has_prefix session_name) (map trim (split b';' cookie)))

abbrev pub touch : ℕ → Session → Session
touch now x = record x { last_seen_at = now }

abbrev pub principal : ℕ → Session → Account → Principal
principal id x u = record {
  id = id;
  customer_id = u.customer_id;
  roles = u.roles;
  mfa_verified = is_some x.mfa_verified_at;
}

-- The update of a live session, whose account, and the customer of a customer's account, are active.
abbrev pub admitted : Session → Option Account → Accounts → Option Principal
unfolding is_live has_active_customer
admitted x none s = none
admitted x (some u) s =
    if is_live s.now x && u.active && has_active_customer u.customer_id s
    then some (principal x.user_id x u)
    else none

unfoldable pub admit : Option Session → Accounts → Option Principal
unfolding lookup is_live has_active_customer
admit none s = none
admit (some x) s = admitted x (lookup x.user_id s.users) s

module _ (crypto : Crypto) where
  abbrev pub let_in : Text → Option Principal → Accounts → Result Principal × Accounts
  let_in hash none s = (err (unauthorized "Unauthorized"), s)
  let_in hash (some p) s = (ok p, record s { sessions = modify hash (touch s.now) s.sessions })

  abbrev pub guard_token : Option Text → Accounts → Result Principal × Accounts
  unfolding is_token admit
  guard_token none s = (err (unauthorized "Unauthorized"), s)
  guard_token (some token) s =
      if not (is_token token)
      then (err (unauthorized "Unauthorized"), s)
      else let_in (crypto.digest token) (admit (lookup (crypto.digest token) s.sessions) s) s

  -- `SessionGuard.canActivate`, at an endpoint that is not public.
  unfoldable pub session_guard : Text → Accounts → Result Principal × Accounts
  unfolding session_token is_token admit
  session_guard cookie s = guard_token (session_token cookie) s

abbrev pub is_role : Role → Role → Bool
is_role customer_role customer_role = true
is_role warehouse warehouse = true
is_role operations operations = true
is_role settlement settlement = true
is_role system system = true
is_role _ _ = false

abbrev pub needs_mfa : Role → Bool
needs_mfa operations = true
needs_mfa settlement = true
needs_mfa system = true
needs_mfa _ = false

-- `workspace`, for one of the five roles.
unfoldable pub workspace : Role → Principal → Result (Role × Option ℕ)
unfolding any
workspace role p =
    if not (any (is_role role) p.roles)
    then err (forbidden "Forbidden")
    else if needs_mfa role && not p.mfa_verified
    then err (forbidden "MFA required")
    else ok (role, p.customer_id)

-- A request, as far as the CSRF guard reads it.
pub data Method : Type 0 where
  get head options other_method : Method

abbrev pub is_safe : Method → Bool
is_safe other_method = false
is_safe _ = true

abbrev pub same_text : Text → Option Text → Bool
same_text s none = false
same_text s (some t) = s == t

abbrev pub first_part : List Text → Text
first_part [] = []
first_part (t ∷ ts) = t

-- The names of the cookies of a request.
abbrev pub cookie_names : Text → List Text
unfolding split trim
cookie_names cookie = map (λ v. first_part (split b'=' (trim v))) (split b';' cookie)

abbrev pub times : Text → List Text → ℕ
unfolding filter
times name names = length (filter (λ v. v == name) names)

-- `checkCookies`: neither cookie stands twice.
unfoldable pub ambiguous : Text → Text → Bool
unfolding filter split trim
ambiguous csrf_name cookie =
    ltb 1 (times (codes "b2b_session") (cookie_names cookie))
    || ltb 1 (times csrf_name (cookie_names cookie))

-- `CsrfGuard.canActivate`
unfoldable pub csrf_guard : Text → Text → Bool → Method → Option Text → Text → Result (Unit {0})
unfolding ambiguous
csrf_guard own_origin csrf_name token_valid method origin cookie =
    if is_safe method
    then ok tt
    else if not (same_text own_origin origin)
    then err (forbidden "Invalid Origin")
    else if ambiguous csrf_name cookie
    then err (forbidden "Ambiguous cookies")
    else if not token_valid
    then err (forbidden "Invalid CSRF token")
    else ok tt

abbrev pub foreign : Text → Option Text → Bool
foreign own none = false
foreign own (some origin) = not (origin == own)

-- `CsrfGuard.issue`: whether a token is given.
unfoldable pub csrf_issue : Text → Text → Option Text → Text → Result (Unit {0})
unfolding ambiguous
csrf_issue own_origin csrf_name origin cookie =
    if foreign own_origin origin
    then err (forbidden "Invalid Origin")
    else if ambiguous csrf_name cookie
    then err (forbidden "Ambiguous cookies")
    else ok tt
