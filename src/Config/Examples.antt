-- ===== src/Config/Examples.antt =====
-- The configuration of a production server.
use b2b_stm.Prelude.{◌≡◌, refl, true, Option, none, some, any, ◌==◌, nat_eq, if◌then◌else◌}
use b2b_stm.Text.{Text, text_eq, codes, trim}
use b2b_stm.Json.{number, natural}
use b2b_stm.Tx.{ok}
use b2b_stm.Config.{
  Env, Url, smtp_mail, ApiConfig, is_production, in_range, all_hex, worker_enabled, read_scanner,
  read_secrets, read_database, read_origin, read_mail, read_config,
}
use b2b_stm.Config.Production.{IsSecure, read_config-IsSecure}

abbrev parsed_as : Text → Text → Url
parsed_as protocol origin = record {
  protocol = protocol;
  username = codes "u";
  password = codes "p";
  pathname = codes "/b2b_stm";
  origin = origin;
}

-- What the parser gives for the three addresses below.
abbrev parse_url : Text → Option Url
parse_url s =
    if s == codes "postgres://u:p@db/b2b_stm"
    then some (parsed_as (codes "postgres:") s)
    else if s == codes "smtp://mail"
    then some (parsed_as (codes "smtp:") s)
    else if s == codes "https://shop.kr"
    then some (parsed_as (codes "https:") s)
    else none

abbrev the_secret : Text
the_secret = codes "0123456789abcdef0123456789abcdef0123456789abcdef0123456789abcdef"

abbrev server : Env
server = record {
  node_env = some (codes "production");
  database_url = some (codes "postgres://u:p@db/b2b_stm");
  api_port = none;
  api_host = none;
  app_origin = some (codes "https://shop.kr");
  csrf_secret = some the_secret;
  mfa_encryption_key = none;
  mail_transport = none;
  smtp_url = some (codes "smtp://mail");
  mail_from = some (codes "shop@shop.kr");
  notification_worker_enabled = none;
  attachment_scan_mode = none;
  clamav_host = some (codes "clamav");
  clamav_port = none;
  clamav_timeout_ms = none;
}

abbrev configured : ApiConfig
configured = record {
  database_url = codes "postgres://u:p@db/b2b_stm";
  port = 3200;
  host = codes "127.0.0.1";
  origin = record { origin = codes "https://shop.kr"; secure_cookies = true };
  csrf_secret = some the_secret;
  mfa_key = none;
  notification_worker_enabled = true;
  mail = some (record {
    transport = smtp_mail;
    smtp_url = some (codes "smtp://mail");
    from = codes "shop@shop.kr";
  });
  attachment_scanner = some (record { host = codes "clamav"; port = 3310; timeout_ms = 5000 });
}

server_reads : read_config parse_url server ≡ ok configured
unfolding read_config read_database read_origin read_secrets read_mail read_scanner in_range all_hex
    worker_enabled is_production number natural any trim
server_reads = refl

in_production : is_production server ≡ true
unfolding is_production
in_production = refl

read_config-IsSecure_example : IsSecure configured
read_config-IsSecure_example =
    read_config-IsSecure parse_url server configured server_reads in_production
