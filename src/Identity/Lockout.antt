-- ===== src/Identity/Lockout.antt =====
-- Failed logins and the lock that they lead to.
use b2b_stm.Prelude.{
  ℕ, zero, suc, ◌+◌, ◌≤◌, ◌<◌, ◌≡◌, Bool, ◌&&◌, List, [], ◌∷◌, filter, length, leb, arith, ◌==◌,
  nat_eq, beq_refl,
}
use b2b_stm.Text.{Text, text_eq, trim}
use b2b_stm.Tx.{err, unauthorized, too_many_requests}
use b2b_stm.Identity.{Crypto, Accounts, by_email, Failure}
use b2b_stm.Identity.Login.{
  failures, is_blocked, login, login_work, counts, same_scope, start_session,
}

-- The failures of an email since a time.
abbrev is_recent : ℕ → Text → Failure → Bool
is_recent since key f = same_scope f.scope by_email && f.scope_key == key && leb since f.failed_at

recent : ℕ → Text → List Failure → ℕ
unfolding filter
recent since key fs = length (filter (is_recent since key) fs)

abbrev pub at_time : ℕ → Accounts → Accounts
at_time now s = record s { now = now }

recent-le :
    (since now : ℕ) (key : Text) (fs : List Failure)
    → now < since + 900
    → recent since key fs ≤ length (filter (counts now by_email key) fs)
unfolding recent filter
recent-le since now key [] h = ground arith
recent-le since now key (f ∷ fs) h = ground (arith, recent-le since now key fs h)

module _ (crypto : Crypto) (email : Text) where
  abbrev pub email_key : Text
  unfolding trim
  email_key = crypto.digest (crypto.lower (trim email))

  -- Enough failures of an email in the window lock it.
  login-blocked :
      (password ip token : Text) (s : Accounts)
      → 5 ≤ failures by_email email_key s
      → login crypto email password ip token s
        ≡ (err (too_many_requests "Too many login attempts"), s)
  unfolding login login_work is_blocked
  login-blocked password ip token s h = ground (arith, h)

  -- Attempts on an email since a time that were all answered with 401, however much time passed between
  -- them, and from whatever addresses.
  pub data Failed (since : ℕ) (s : Accounts) : ℕ → Accounts → Type 0 where
    none_yet : Failed since s zero s
    one_more :
        (n now : ℕ) (t u : Accounts) (password ip token : Text)
        → Failed since s n t
        → since ≤ now
        → login crypto email password ip token (at_time now t)
          ≡ (err (unauthorized "Invalid email or password"), u)
        → Failed since s (suc n) u

  failure_recorded :
      (since now : ℕ) (t u : Accounts) (password ip token : Text)
      → since ≤ now
      → login crypto email password ip token (at_time now t)
        ≡ (err (unauthorized "Invalid email or password"), u)
      → suc (recent since email_key t.login_failures) ≤ recent since email_key u.login_failures
  unfolding login login_work start_session recent filter
  failure_recorded since now t u password ip token h e = ground (arith, e, beq_refl email_key)

  failures_recorded :
      (since n : ℕ) (s u : Accounts)
      → Failed since s n u
      → n ≤ recent since email_key u.login_failures
  failures_recorded since zero s _ none_yet = ground arith
  failures_recorded since (suc n) s u (one_more _ now t _ password ip token before h e) = ground (
    arith,
    failures_recorded since n s t before,
    failure_recorded since now t u password ip token h e,
  )

  -- After five attempts on an email that were answered with 401, within fifteen minutes from the first one no
  -- password opens a session, from whatever address, and the attempt changes nothing.
  pub login-locked :
      (since n now : ℕ) (s t : Accounts) (password ip token : Text)
      → Failed since s n t
      → 5 ≤ n
      → now < since + 900
      → login crypto email password ip token (at_time now t)
        ≡ (err (too_many_requests "Too many login attempts"), at_time now t)
  unfolding failures
  login-locked since n now s t password ip token tried enough soon =
      login-blocked password ip token (at_time now t) (
        ground (
          arith,
          failures_recorded since n s t tried,
          recent-le since now email_key t.login_failures soon,
        ))
