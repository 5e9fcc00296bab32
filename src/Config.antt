-- ===== src/Config.antt =====
-- The configuration: `readConfig` of apps/api/src/config.ts. The parser of URLs is a parameter.
pub mod Production
mod Examples
use b2b_stm.Prelude.{
  ℕ, Bool, true, false, ◌&&◌, ◌||◌, not, Option, none, some, is_some, List, [], ◌∷◌, String, any,
  length, leb, ltb, ◌==◌, nat_eq, if◌then◌else◌,
}
use b2b_stm.Text.{Text, text_eq, codes, trim, is_digit, is_hex}
use b2b_stm.Json.{str, number, integer_from, natural}
use b2b_stm.Tx.{Error, Result, ok, err, fault}

-- The variables that the code reads.
pub record Env : Type 0 where
  pub node_env : Option Text
  pub database_url : Option Text
  pub api_port : Option Text
  pub api_host : Option Text
  pub app_origin : Option Text
  pub csrf_secret : Option Text
  pub mfa_encryption_key : Option Text
  pub mail_transport : Option Text
  pub smtp_url : Option Text
  pub mail_from : Option Text
  pub notification_worker_enabled : Option Text
  pub attachment_scan_mode : Option Text
  pub clamav_host : Option Text
  pub clamav_port : Option Text
  pub clamav_timeout_ms : Option Text

pub record Url : Type 0 where
  pub protocol : Text
  pub username : Text
  pub password : Text
  pub pathname : Text
  pub origin : Text

pub data MailTransport : Type 0 where
  smtp_mail json_mail : MailTransport

pub record MailConfig : Type 0 where
  pub transport : MailTransport
  pub smtp_url : Option Text
  pub from : Text

pub record ScannerConfig : Type 0 where
  pub host : Text
  pub port : ℕ
  pub timeout_ms : ℕ

pub record OriginConfig : Type 0 where
  pub origin : Text
  pub secure_cookies : Bool

-- `ApiConfig`
pub record ApiConfig : Type 0 where
  pub database_url : Text
  pub port : ℕ
  pub host : Text
  pub origin : OriginConfig
  pub csrf_secret : Option Text
  pub mfa_key : Option Text
  pub notification_worker_enabled : Bool
  pub mail : Option MailConfig
  pub attachment_scanner : Option ScannerConfig

-- `if (!b) throw new Error(message)`, and go on.
abbrev pub require : {A : Type 0} → Bool → String → Result A → Result A
require true message r = r
require false message r = err (fault message)

abbrev pub and_then : {A B : Type 0} → Result A → (A → Result B) → Result B
and_then (ok a) f = f a
and_then (err e) f = err e

abbrev pub is_set_to : Text → Option Text → Bool
is_set_to s none = false
is_set_to s (some t) = t == s

-- `!value` of an optional text.
abbrev pub is_given : Option Text → Bool
is_given none = false
is_given (some s) = not (length s == 0)

abbrev pub text_or : Text → Option Text → Text
text_or default none = default
text_or default (some s) = s

abbrev pub is_one_of : List Text → Text → Bool
unfolding any
is_one_of texts s = any (λ t. t == s) texts

unfoldable pub is_production : Env → Bool
is_production env = is_set_to (codes "production") env.node_env

-- A text of digits, whose number lies between two bounds.
unfoldable pub in_range : ℕ → ℕ → Text → Bool
unfolding any is_digit number natural
in_range least most s =
    not (length s == 0)
    && not (any (λ c. not (is_digit c)) s)
    && leb least (natural (number (str s)))
    && leb (natural (number (str s))) most

unfoldable pub all_hex : Text → Bool
unfolding any is_hex
all_hex s = not (any (λ c. not (is_hex c)) s)

-- The transport of mail, where there is mail.
abbrev pub transport_text : Env → Option Text
transport_text env =
    if is_set_to (codes "disabled") env.mail_transport
    then none
    else if is_some env.mail_transport
    then env.mail_transport
    else if is_given env.smtp_url
    then some (codes "smtp")
    else none

abbrev pub mail_disabled : Env → Bool
mail_disabled env = is_set_to (codes "disabled") env.mail_transport

abbrev pub wants_mail : Env → Bool
wants_mail env =
    not (mail_disabled env)
    && (is_some env.smtp_url || is_some env.mail_from || is_some env.mail_transport)

abbrev pub transport_of : Text → Option MailTransport
transport_of s =
    if s == codes "smtp" then some smtp_mail else if s == codes "json" then some json_mail else none

abbrev pub is_json : MailTransport → Bool
is_json json_mail = true
is_json smtp_mail = false

abbrev pub is_smtp : MailTransport → Bool
is_smtp smtp_mail = true
is_smtp json_mail = false

abbrev pub mail_with : Env → Option MailTransport → Result (Option MailConfig)
unfolding is_production trim
mail_with env none = err (fault "MAIL_TRANSPORT must be smtp or json")
mail_with env (some t) = require (not (is_smtp t) || is_given env.smtp_url) "SMTP_URL is required" (
    require (not (is_json t) || not (is_production env))
      "JSON mail transport is unavailable in production"
      (ok (
        some (record {
          transport = t;
          smtp_url = env.smtp_url;
          from = trim (text_or [] env.mail_from);
        }))))

abbrev pub mail_by : Env → Option Text → Result (Option MailConfig)
unfolding is_production trim
mail_by env none = ok none
mail_by env (some s) = if length s == 0 then ok none else mail_with env (transport_of s)

unfoldable pub worker_enabled : Env → Bool
unfolding is_production
worker_enabled env =
    not (mail_disabled env)
    && (if is_given env.notification_worker_enabled
        then is_set_to (codes "true") env.notification_worker_enabled
        else is_production env)

abbrev pub scan_mode : Env → Text
unfolding is_production
scan_mode env =
    text_or (if is_production env then codes "clamav" else codes "disabled")
      env.attachment_scan_mode

-- `scannerHost.includes('://')`
abbrev pub has_protocol : Text → Bool
has_protocol [] = false
has_protocol (c ∷ []) = false
has_protocol (c ∷ d ∷ []) = false
has_protocol (c ∷ d ∷ e ∷ s) = c == b':' && d == b'/' && e == b'/' || has_protocol (d ∷ e ∷ s)

abbrev pub clamav : Env → Result (Option ScannerConfig)
unfolding in_range trim number natural
clamav env =
    let host = trim (text_or [] env.clamav_host) in
    let port = text_or (codes "3310") env.clamav_port in
    let timeout = text_or (codes "5000") env.clamav_timeout_ms in
    require (not (length host == 0) && not (has_protocol host))
      "CLAMAV_HOST is required and must not contain a protocol"
      (require (in_range 1 65535 port) "CLAMAV_PORT must be 1..65535" (
        require (in_range 100 30000 timeout) "CLAMAV_TIMEOUT_MS must be 100..30000" (
          ok (
            some (record {
              host = host;
              port = natural (number (str port));
              timeout_ms = natural (number (str timeout));
            })))))

-- The scanner of attachments.
unfoldable pub read_scanner : Env → Result (Option ScannerConfig)
unfolding is_production in_range trim number natural
read_scanner env =
    require (is_one_of (codes "disabled" ∷ codes "clamav" ∷ []) (scan_mode env))
      "ATTACHMENT_SCAN_MODE must be disabled or clamav"
      (require (not (is_production env) || scan_mode env == codes "clamav")
        "Production attachment scanning must use clamav"
        (if scan_mode env == codes "clamav" then clamav env else ok none))

-- The secrets for CSRF tokens and second factors.
unfoldable pub read_secrets : Env → Result (Unit {0})
unfolding is_production all_hex
read_secrets env =
    require
      (not (is_production env || is_some env.csrf_secret)
        || (leb 64 (length (text_or [] env.csrf_secret)) && all_hex (text_or [] env.csrf_secret)))
      "CSRF_SECRET must contain at least 32 random bytes encoded as hex"
      (require
        (not (is_some env.mfa_encryption_key)
          || (length (text_or [] env.mfa_encryption_key) == 64
              && all_hex (text_or [] env.mfa_encryption_key)))
        "MFA_ENCRYPTION_KEY must be 32 bytes in hex" (ok tt))

module _ (parse : Text → Option Url) where
  abbrev pub is_perf : Url → Bool
  is_perf u = u.pathname == codes "/b2b_stm_perf"

  abbrev pub database_at : Env → Text → Option Url → Result Text
  unfolding is_production any
  database_at env text none = err (fault "DATABASE_URL is invalid")
  database_at env text (some u) =
      require
        (is_one_of (codes "postgres:" ∷ codes "postgresql:" ∷ []) u.protocol
          && not (length u.username == 0)
          && not (length u.password == 0))
        "DATABASE_URL must contain PostgreSQL credentials"
        (require (not (is_perf u) || is_set_to (codes "performance") env.node_env)
          "Performance database requires NODE_ENV=performance"
          (require
            (is_one_of (codes "/b2b_stm" ∷ codes "/b2b_stm_test" ∷ codes "/b2b_stm_perf" ∷ [])
              u.pathname)
            "A B2B database is required"
            (require (not (is_production env && u.pathname == codes "/b2b_stm_test"))
              "Production cannot use test database"
              (require (not (is_production env && is_perf u))
                "Production cannot use performance database" (ok text)))))

  unfoldable pub read_database : Env → Result Text
  unfolding is_production any
  read_database env =
      require (is_given env.database_url) "DATABASE_URL is required"
        (database_at env (text_or [] env.database_url) (parse (text_or [] env.database_url)))

  abbrev pub origin_at : Env → Text → Option Url → Result OriginConfig
  unfolding is_production any
  origin_at env text none = err (fault "APP_ORIGIN is required and must be an origin")
  origin_at env text (some u) =
      require
        (u.origin == text
          && is_one_of (codes "http:" ∷ codes "https:" ∷ []) u.protocol
          && (not (is_production env) || u.protocol == codes "https:"))
        "APP_ORIGIN must be an exact HTTP origin (HTTPS in production)"
        (ok (record { origin = text; secure_cookies = u.protocol == codes "https:" }))

  abbrev pub origin_text : Env → Text
  unfolding is_production
  origin_text env =
      text_or (if is_production env then [] else codes "http://127.0.0.1:3100") env.app_origin

  unfoldable pub read_origin : Env → Result OriginConfig
  unfolding is_production any
  read_origin env = origin_at env (origin_text env) (parse (origin_text env))

  -- `new URL(env.SMTP_URL)` throws where it does not parse.
  abbrev pub is_smtp_url : Option Url → Bool
  unfolding any
  is_smtp_url none = false
  is_smtp_url (some u) = is_one_of (codes "smtp:" ∷ codes "smtps:" ∷ []) u.protocol

  abbrev pub with_smtp_check : Env → Option MailConfig → Result (Option MailConfig)
  unfolding any
  with_smtp_check env mail =
      require (not (is_given env.smtp_url) || is_smtp_url (parse (text_or [] env.smtp_url)))
        "SMTP_URL must use smtp or smtps" (ok mail)

  abbrev pub mail_untouched : Env → Bool
  mail_untouched env = not (mail_disabled env && (is_given env.smtp_url || is_given env.mail_from))

  abbrev pub mail_complete : Env → Bool
  unfolding is_production
  mail_complete env = not (
      is_production env
      && not (mail_disabled env)
      && not (is_given env.smtp_url && is_given env.mail_from))

  abbrev pub has_sender : Env → Bool
  unfolding trim
  has_sender env = not (wants_mail env) || not (length (trim (text_or [] env.mail_from)) == 0)

  unfoldable pub read_mail : Env → Result (Option MailConfig)
  unfolding is_production any trim
  read_mail env =
      require (mail_untouched env) "Disabled mail must not contain SMTP_URL or MAIL_FROM" (
        require (mail_complete env) "Production SMTP_URL and MAIL_FROM are required" (
          require (has_sender env) "MAIL_FROM is required for email delivery"
            (and_then (mail_by env (transport_text env)) (with_smtp_check env))))

  abbrev pub worker_given : Env → Bool
  unfolding any
  worker_given env =
      not (is_some env.notification_worker_enabled)
      || is_one_of (codes "true" ∷ codes "false" ∷ []) (text_or [] env.notification_worker_enabled)

  abbrev pub port_text : Env → Text
  port_text env = text_or (codes "3200") env.api_port

  abbrev pub config_of :
      Env → Text → OriginConfig → Option MailConfig → Option ScannerConfig → ApiConfig
  unfolding number natural worker_enabled
  config_of env database origin mail scanner = record {
    database_url = database;
    port = natural (number (str (port_text env)));
    host = text_or (codes "127.0.0.1") env.api_host;
    origin = origin;
    csrf_secret = env.csrf_secret;
    mfa_key = env.mfa_encryption_key;
    notification_worker_enabled = worker_enabled env;
    mail = mail;
    attachment_scanner = scanner;
  }

  -- The last steps of `readConfig`, from the end.
  abbrev pub with_scanner : Env → Text → OriginConfig → Option MailConfig → Result ApiConfig
  unfolding read_scanner worker_enabled number natural
  with_scanner env database origin mail =
      and_then (read_scanner env) λ scanner. ok (config_of env database origin mail scanner)

  abbrev pub with_mail : Env → Text → OriginConfig → Option MailConfig → Result ApiConfig
  unfolding read_scanner worker_enabled number natural any
  with_mail env database origin mail =
      require (worker_given env) "NOTIFICATION_WORKER_ENABLED must be true or false"
        (with_scanner env database origin mail)

  abbrev pub with_origin : Env → Text → OriginConfig → Result ApiConfig
  unfolding read_secrets read_mail read_scanner worker_enabled number natural any
  with_origin env database origin =
      and_then (read_secrets env)
        λ secrets. and_then (read_mail env) λ mail. with_mail env database origin mail

  abbrev pub with_port : Env → Text → Result ApiConfig
  unfolding read_origin read_secrets read_mail read_scanner worker_enabled number natural any
  with_port env database = and_then (read_origin env) λ origin. with_origin env database origin

  -- `readConfig`
  unfoldable pub read_config : Env → Result ApiConfig
  unfolding read_database read_origin read_secrets read_mail read_scanner in_range worker_enabled
      number natural any
  read_config env = and_then (read_database env) λ database.
      require (in_range 1 65535 (port_text env)) "API_PORT must be 1..65535"
        (with_port env database)
