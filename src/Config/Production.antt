-- ===== src/Config/Production.antt =====
-- What a production server is configured with.
use mathlib.Core.Path.{subst}
use b2b_stm.Prelude.{
  ◌≤◌, ◌≡◌, refl, ap, Bool, All, true, false, ◌||◌, not, Option, none, some, is_some, [], ◌∷◌,
  String, any, length, arith, ◌==◌, nat_eq, if◌then◌else◌,
}
use b2b_stm.Text.{Text, text_eq, codes, trim, is_hex}
use b2b_stm.Json.{number, natural}
use b2b_stm.Tx.{Result, ok, err}
use b2b_stm.Config.{
  Env, Url, MailTransport, MailConfig, ScannerConfig, OriginConfig, ApiConfig, require, and_then,
  text_or, is_production, is_json, transport_text, mail_with, mail_by, transport_of, clamav,
  scan_mode, read_scanner, read_secrets, read_database, origin_at, origin_text, read_origin,
  with_smtp_check, read_mail, mail_untouched, mail_complete, has_sender, with_port, with_origin,
  with_mail, with_scanner, worker_given, port_text, read_config, worker_enabled, config_of,
  in_range, is_one_of, all_hex,
}

hex_in : (s : Text) → all_hex s ≡ true → All (λ c. is_hex c ≡ true) s
unfolding all_hex any
hex_in [] h = tt
hex_in (c ∷ s) h = (ground (arith, h), hex_in s (ground (arith, h)))

abbrev pub uses_json : Option MailConfig → Bool
uses_json none = false
uses_json (some m) = is_json m.transport

-- Cookies are sent over HTTPS only, CSRF tokens have a secret of at least 64 hexadecimal digits, mail is not
-- written to a log, and attachments are scanned.
abbrev pub IsHexSecret : Text → Type 0
IsHexSecret s = (64 ≤ length s) × All (λ c. is_hex c ≡ true) s

pub record IsSecure (c : ApiConfig) : Type 0 where
  pub https : c.origin.secure_cookies ≡ true
  pub secret : IsHexSecret (text_or [] c.csrf_secret)
  pub sent : uses_json c.mail ≡ false
  pub has_scanner : is_some c.attachment_scanner ≡ true

require-ok :
    {A C : Type 0} (b : Bool) (m : String) (r : Result A) (a : A)
    → require b m r ≡ ok a
    → (r ≡ ok a → C)
    → C
require-ok true m r a e k = k e
require-ok false m r a e k = cc

and_then-ok :
    {A B C : Type 0} (r : Result A) (f : A → Result B) (b : B)
    → and_then r f ≡ ok b
    → ((a : A) → r ≡ ok a → f a ≡ ok b → C)
    → C
and_then-ok (ok a) f b e k = k a refl e
and_then-ok (err x) f b e k = cc

three_gates :
    {A C : Type 0} (a b c : Bool) (l m n : String) (r : Result A) (x : A)
    → require a l (require b m (require c n r)) ≡ ok x
    → (r ≡ ok x → C)
    → C
three_gates true true true l m n r x e k = k e
three_gates true true false l m n r x e k = cc
three_gates true false c l m n r x e k = cc
three_gates false b c l m n r x e k = cc

gates :
    (a p c : Bool) (m n : String) (r : Result (Option ScannerConfig)) (s : Option ScannerConfig)
    → p ≡ true
    → require a m (require (not p || c) n (if c then r else ok none)) ≡ ok s
    → r ≡ ok s
gates false p c m n r s h e = cc
gates true false c m n r s h e = cc
gates true true false m n r s h e = cc
gates true true true m n r s h e = e

module _ (env : Env) (production : is_production env ≡ true) where
  secret_given : (x : Unit {0}) → read_secrets env ≡ ok x → IsHexSecret (text_or [] env.csrf_secret)
  unfolding read_secrets
  secret_given x e =
      let hex : all_hex (text_or [] env.csrf_secret) ≡ true = ground (arith, e, production) in
      (ground (arith, e, production), hex_in (text_or [] env.csrf_secret) hex)

  clamav_scans : (s : Option ScannerConfig) → clamav env ≡ ok s → is_some s ≡ true
  unfolding in_range trim number natural
  clamav_scans s e = ground (arith, e)

  scanner_given : (s : Option ScannerConfig) → read_scanner env ≡ ok s → is_some s ≡ true
  unfolding read_scanner is_production in_range trim number natural any
  scanner_given s e = clamav_scans s (
      gates (is_one_of (codes "disabled" ∷ codes "clamav" ∷ []) (scan_mode env)) (is_production env)
        (scan_mode env == codes "clamav") _ _ (clamav env) s production e)

  mail_sent :
      (o : Option MailTransport) (m : Option MailConfig)
      → mail_with env o ≡ ok m
      → uses_json m ≡ false
  unfolding is_production trim
  mail_sent none m e = ground (arith, e)
  mail_sent (some t) m e = ground (arith, e, production)

  mail_by-sent :
      (o : Option Text) (m : Option MailConfig) → mail_by env o ≡ ok m → uses_json m ≡ false
  unfolding is_production trim
  mail_by-sent none m e = ground (arith, e)
  mail_by-sent (some s) m e = go (length s == 0) e
    where
      go :
          (b : Bool)
          → (if b then ok none else mail_with env (transport_of s)) ≡ ok m
          → uses_json m ≡ false
      go true k = ground (arith, k)
      go false k = mail_sent (transport_of s) m k

  origin_secure :
      (parse : Text → Option Url) (text : Text) (o : Option Url) (c : OriginConfig)
      → origin_at parse env text o ≡ ok c
      → c.secure_cookies ≡ true
  unfolding is_production any
  origin_secure parse text none c e = ground (arith, e)
  origin_secure parse text (some u) c e = ground (arith, e, production)

  smtp_checked :
      (parse : Text → Option Url) (m n : Option MailConfig)
      → uses_json m ≡ false
      → with_smtp_check parse env m ≡ ok n
      → uses_json n ≡ false
  unfolding any
  smtp_checked parse m n sent e = require-ok _ _ (ok m) n e λ same. ground (arith, same, sent)

  read_mail-sent :
      (parse : Text → Option Url) (m : Option MailConfig)
      → read_mail parse env ≡ ok m
      → uses_json m ≡ false
  unfolding read_mail is_production any trim
  read_mail-sent parse m e =
      three_gates (mail_untouched parse env) (mail_complete parse env) (has_sender parse env)
        "Disabled mail must not contain SMTP_URL or MAIL_FROM"
        "Production SMTP_URL and MAIL_FROM are required" "MAIL_FROM is required for email delivery"
        (and_then (mail_by env (transport_text env)) (with_smtp_check parse env)) m e
        λ e3.
          and_then-ok (mail_by env (transport_text env)) (with_smtp_check parse env) m e3
            λ n one two. smtp_checked parse n m (mail_by-sent (transport_text env) n one) two

abbrev config_in : ApiConfig → Result ApiConfig → ApiConfig
config_in c (ok d) = d
config_in c (err e) = c

config-IsSecure :
    (parse : Text → Option Url) (env : Env) (database : Text) (origin : OriginConfig)
    (mail : Option MailConfig) (scanner : Option ScannerConfig) (c : ApiConfig)
    → origin.secure_cookies ≡ true
    → IsHexSecret (text_or [] env.csrf_secret)
    → uses_json mail ≡ false
    → is_some scanner ≡ true
    → ok (config_of parse env database origin mail scanner) ≡ ok c
    → IsSecure c
unfolding number natural worker_enabled
config-IsSecure parse env database origin mail scanner c https secret sent scanned same =
    let it : config_of parse env database origin mail scanner ≡ c =
      ap (config_in (config_of parse env database origin mail scanner)) same in
    subst IsSecure it
      (record { https = https; secret = secret; sent = sent; has_scanner = scanned })

-- A production server that reads its configuration has secure cookies, a secret of at least 64 hexadecimal
-- digits for CSRF tokens, no mail transport that only writes JSON, and a scanner for attachments.
pub read_config-IsSecure :
    (parse : Text → Option Url) (env : Env) (c : ApiConfig)
    → read_config parse env ≡ ok c
    → is_production env ≡ true
    → IsSecure c
unfolding read_config read_origin in_range worker_enabled number natural any
read_config-IsSecure parse env c e production =
    and_then-ok (read_database parse env) _ c e λ database _ e1.
      require-ok (in_range 1 65535 (port_text parse env)) "API_PORT must be 1..65535"
        (with_port parse env database) c e1
        λ e2.
          and_then-ok (read_origin parse env) (λ origin. with_origin parse env database origin) c e2
            λ origin of_origin e3. and_then-ok (read_secrets env) _ c e3 λ x of_secrets e4.
              and_then-ok (read_mail parse env) (λ mail. with_mail parse env database origin mail) c
                e4
                λ mail of_mail e5.
                  require-ok (worker_given parse env)
                    "NOTIFICATION_WORKER_ENABLED must be true or false"
                    (with_scanner parse env database origin mail) c e5
                    λ e6. and_then-ok (read_scanner env) _ c e6 λ scanner of_scanner e7.
                      config-IsSecure parse env database origin mail scanner c
                        (origin_secure env production parse (origin_text parse env)
                          (parse (origin_text parse env)) origin of_origin)
                        (secret_given env production x of_secrets)
                        (read_mail-sent env production parse mail of_mail)
                        (scanner_given env production scanner of_scanner) e7
