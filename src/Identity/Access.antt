-- ===== src/Identity/Access.antt =====
-- How many sessions and tokens of an account can be used: the counts that the operations keep.
use b2b_stm.Prelude.{
  ℕ, ◌+◌, ◌≤◌, ◌≡◌, true, false, ◌&&◌, not, [], ◌∷◌, arith, is_some, ◌==◌, nat_eq, if◌then◌else◌,
}
use b2b_stm.Text.{Text, text_eq}
use b2b_stm.Table.{Table, modify}
use b2b_stm.Identity.{Accounts, Session, AccountToken, revoke_all}
use b2b_stm.Identity.Tokens.{is_open, revoke_tokens}

-- The sessions of an account that are not revoked.
unfoldable pub open_sessions : ℕ → Table Text Session → ℕ
open_sessions user [] = 0
open_sessions user ((h, x) ∷ t) =
    (if x.user_id == user && not (is_some x.revoked_at) then 1 else 0) + open_sessions user t

-- The tokens of an account that are neither consumed nor revoked.
unfoldable pub open_tokens : ℕ → Table Text AccountToken → ℕ
open_tokens user [] = 0
open_tokens user ((h, x) ∷ t) =
    (if x.user_id == user && is_open x then 1 else 0) + open_tokens user t

pub open_sessions-revoke_all :
    (user k now : ℕ) (t : Table Text Session)
    → open_sessions k (revoke_all user now t) ≡ (if user == k then 0 else open_sessions k t)
unfolding open_sessions revoke_all
open_sessions-revoke_all user k now [] = ground arith
open_sessions-revoke_all user k now ((h, x) ∷ t) =
    ground (arith, open_sessions-revoke_all user k now t)

pub open_tokens-revoke_tokens :
    (user k now : ℕ) (t : Table Text AccountToken)
    → open_tokens k (revoke_tokens user now t) ≡ (if user == k then 0 else open_tokens k t)
unfolding open_tokens revoke_tokens
open_tokens-revoke_tokens user k now [] = ground arith
open_tokens-revoke_tokens user k now ((h, x) ∷ t) =
    ground (arith, open_tokens-revoke_tokens user k now t)

-- A change of a session that keeps its user and does not reopen it opens none.
pub open_sessions-modify :
    (k : ℕ) (hash : Text) (f : Session → Session) (t : Table Text Session)
    → ((x : Session)
        → ((f x).user_id ≡ x.user_id)
          × (is_some x.revoked_at ≡ true → is_some (f x).revoked_at ≡ true))
    → open_sessions k (modify hash f t) ≤ open_sessions k t
unfolding open_sessions modify
open_sessions-modify k hash f [] keeps = ground arith
open_sessions-modify k hash f ((h, x) ∷ t) keeps =
    ground (arith, (keeps x).0, (keeps x).1, open_sessions-modify k hash f t keeps)

pub open_tokens-modify :
    (k : ℕ) (hash : Text) (f : AccountToken → AccountToken) (t : Table Text AccountToken)
    → ((x : AccountToken)
        → ((f x).user_id ≡ x.user_id) × (is_open x ≡ false → is_open (f x) ≡ false))
    → open_tokens k (modify hash f t) ≤ open_tokens k t
unfolding open_tokens modify
open_tokens-modify k hash f [] keeps = ground arith
open_tokens-modify k hash f ((h, x) ∷ t) keeps =
    ground (arith, (keeps x).0, (keeps x).1, open_tokens-modify k hash f t keeps)

-- One session and one token at most can be used of each account.
pub record IsLimited (s : Accounts) : Type 0 where
  pub one_session : (user : ℕ) → open_sessions user s.sessions ≤ 1
  pub one_token : (user : ℕ) → open_tokens user s.account_tokens ≤ 1
