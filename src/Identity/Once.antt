-- ===== src/Identity/Once.antt =====
-- Tokens and codes that were used cannot be used again.
use mathlib.Core.Option
use mathlib.Core.Path.{subst}
use b2b_stm.Prelude.{
  ℕ, ◌≡◌, refl, Bool, true, false, ◌&&◌, ◌||◌, not, Option, none, some, [], ◌∷◌, arith, ◌==◌,
  nat_eq, if◌then◌else◌, beq_refl,
}
use b2b_stm.Text.{Text, text_eq}
use b2b_stm.Json.{Json, str, get}
use b2b_stm.Table.{Table, lookup, modify}
use b2b_stm.Table.Laws.{lookup-modify}
use b2b_stm.Tx.{ok, err, bad_request}
use b2b_stm.Identity.{Crypto, Accounts, AccountToken, Purpose}
use b2b_stm.Identity.Inversion.{settled_ok}
use b2b_stm.Identity.Lockout.{at_time}
use b2b_stm.Identity.Guard.{is_token}
use b2b_stm.Identity.Tokens.{
  is_open, revoke_token, revoke_tokens, consume, set_password, complete_work, usable,
  active_customer,
}
use b2b_stm.Identity.Requests.{complete, complete_body, complete_for, bad_password, account_error}

abbrev revoked_if : ℕ → ℕ → AccountToken → AccountToken
revoked_if user now t = if t.user_id == user && is_open t then revoke_token now t else t

lookup-revoke_tokens :
    (hash : Text) (user now : ℕ) (ts : Table Text AccountToken)
    → lookup hash (revoke_tokens user now ts) ≡ Option.map (revoked_if user now) (lookup hash ts)
unfolding lookup revoke_tokens
lookup-revoke_tokens hash user now [] = refl
lookup-revoke_tokens hash user now ((h, t) ∷ ts) =
    ground (arith, lookup-revoke_tokens hash user now ts)

-- A token that was consumed is not usable, for whatever purpose and at whatever time.
consumed_unusable :
    (hash password_hash : Text) (user now : ℕ) (purpose purpose' : Purpose) (s : Accounts)
    (o : Option AccountToken)
    → lookup hash s.account_tokens ≡ o
    → usable now purpose'
        (lookup hash (set_password hash user password_hash purpose s).account_tokens)
      ≡ none
unfolding set_password
consumed_unusable hash password_hash user now purpose purpose' s none e = ground (
  arith,
  e,
  lookup-revoke_tokens hash user s.now (modify hash (consume s.now) s.account_tokens),
  lookup-modify hash hash (consume s.now) s.account_tokens,
)
consumed_unusable hash password_hash user now purpose purpose' s (some t) e = ground (
  arith,
  e,
  lookup-revoke_tokens hash user s.now (modify hash (consume s.now) s.account_tokens),
  lookup-modify hash hash (consume s.now) s.account_tokens,
  beq_refl hash,
)

complete_work_state :
    (hash password_hash : Text) (purpose : Purpose) (user : ℕ) (s : Accounts) (a : Unit {0})
    (s' : Accounts)
    → complete_work hash password_hash purpose user s ≡ ok (a, s')
    → set_password hash user password_hash purpose s ≡ s'
unfolding complete_work active_customer
complete_work_state hash password_hash purpose user s a s' ran = ground (arith, ran)

module _ (crypto : Crypto) where
  used_up :
      (hash password : Text) (purpose purpose' : Purpose) (o : Option AccountToken) (s : Accounts)
      (a : Unit {0}) (s' : Accounts) (now : ℕ)
      → complete_for crypto hash password purpose o s ≡ (ok a, s')
      → usable now purpose' (lookup hash s'.account_tokens) ≡ none
  unfolding complete_work
  used_up hash password purpose purpose' none s a s' now ran = ground (arith, ran)
  used_up hash password purpose purpose' (some t) s a s' now ran =
      let done = settled_ok account_error s _ a s' ran in
      let after =
        complete_work_state hash (crypto.argon2_hash password) purpose t.user_id s a s' done in
      subst (λ (z : Accounts). usable now purpose' (lookup hash z.account_tokens) ≡ none) after
        (consumed_unusable hash (crypto.argon2_hash password) t.user_id now purpose purpose' s
          (lookup hash s.account_tokens) refl)

  not_usable :
      (hash password : Text) (purpose : Purpose) (o : Option AccountToken) (s : Accounts)
      → o ≡ none
      → complete_for crypto hash password purpose o s
        ≡ (err (bad_request "Invalid or expired token"), s)
  unfolding complete_work
  not_usable hash password purpose none s e = refl
  not_usable hash password purpose (some t) s e = cc

  complete_again :
      (token password : Json) (purpose purpose' : Purpose) (s : Accounts) (a : Unit {0})
      (s' : Accounts) (now : ℕ)
      → complete_body crypto token password purpose s ≡ (ok a, s')
      → complete_body crypto token password purpose' (at_time now s')
        ≡ (err (bad_request "Invalid or expired token"), at_time now s')
  unfolding is_token bad_password lookup complete_work
  complete_again (str token) (str password) purpose purpose' s a s' now ran =
      go (not (is_token token) || bad_password password) ran
    where
      hash : Text
      hash = crypto.digest token

      go :
          (b : Bool)
          → (if b
              then (err (bad_request "Invalid token or password (12–128 characters required)"), s)
              else complete_for crypto hash password purpose
                  (usable s.now purpose (lookup hash s.account_tokens))
                  s)
            ≡ (ok a, s')
          → (if b
              then (
                err (bad_request "Invalid token or password (12–128 characters required)"),
                at_time now s',
              )
              else complete_for crypto hash password purpose'
                  (usable now purpose' (lookup hash s'.account_tokens))
                  (at_time now s'))
            ≡ (err (bad_request "Invalid or expired token"), at_time now s')
      go true e = ground (arith, e)
      go false e =
          not_usable hash password purpose' (usable now purpose' (lookup hash s'.account_tokens))
            (at_time now s')
            (used_up hash password purpose purpose'
              (usable s.now purpose (lookup hash s.account_tokens)) s a s' now e)
  complete_again _ _ purpose purpose' s a s' now ran = ground (arith, ran)

  -- A token that set a password once sets none again: the same request, for either purpose and at any time,
  -- is answered with 400 and changes nothing.
  pub complete-once :
      (body : Json) (purpose purpose' : Purpose) (s : Accounts) (a : Unit {0}) (s' : Accounts)
      (now : ℕ)
      → complete crypto body purpose s ≡ (ok a, s')
      → complete crypto body purpose' (at_time now s')
        ≡ (err (bad_request "Invalid or expired token"), at_time now s')
  unfolding complete
  complete-once body purpose purpose' s a s' now ran =
      complete_again (get "token" body) (get "password" body) purpose purpose' s a s' now ran
