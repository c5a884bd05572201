-- ===== src/Tests/Settings.antt =====
-- The configuration: an environment with credentials, and what it starts.
use mathlib.Core.List.{cons-ne-nil}
use superkb.Base.{◌≡◌, ◌≢◌, ◌↔◌, refl, false, Option, some, [], ◌∷◌, arith, inl, exists_where}
use superkb.Base.Int.{pos, negsuc}
use superkb.Base.Text.{Text, lit, text_eq}
use superkb.Base.Text.Decimal.{atoi, scan_number, scan_digits}
use superkb.Config.{
  Config, Environment, env, env_int, env_bool, parse_bool, read_config, checked, load,
}
use superkb.Config.Guarding.{IsOpen, load-denied}
use superkb.Config.Loading.{HasCredentials, load_iff}
use superkb.Config.RoundTrip.{environment_of, find_variable, HasTexts, load-environment_of}
use superkb.Delivery.Api.{receive_request, delete_document}
use superkb.Domain.Errors.{ok}
use superkb.Infra.Vision.{duration, effective_timeout}
use superkb.Tests.Fixtures.{counter, served_world}

abbrev pub variables : Environment
variables key = find_variable key (
    (lit "AUTH_USERNAME", lit "admin")
    ∷ (lit "AUTH_PASSWORD", lit "x")
    ∷ (lit "HTTP_PORT", lit "+9090")
    ∷ [])

abbrev pub settings : Config
settings = read_config variables

port : settings.http.port ≡ pos 9090
unfolding read_config env env_int env_bool atoi scan_number scan_digits text_eq lit
port = refl

defaults : (settings.hindsight.profile ≡ lit "default") × (settings.worker.queue_size ≡ pos 64)
unfolding read_config env env_int env_bool atoi scan_number scan_digits text_eq lit
defaults = (refl, refl)

-- a timeout of 2 ^ 55 seconds has no nanoseconds left in 64 bits, and is none
timeout_lost : duration (effective_timeout (pos 36028797018963968)) ≡ pos 0
timeout_lost = refl

load_iff_example : (load variables ≡ ok settings) ↔ HasCredentials settings
load_iff_example = load_iff variables

pub started : load variables ≡ ok settings
unfolding load checked read_config env env_int env_bool parse_bool exists_where text_eq lit
started = refl

variables-shut : ¬ IsOpen variables
unfolding text_eq lit
variables-shut (v, set, off) = cc

-- not the credentials of the settings
abbrev stranger : Option (Text × Text)
stranger = some ([], [])

stranger-other : stranger ≢ some (settings.auth.username, settings.auth.password)
unfolding read_config env env_int env_bool parse_bool exists_where text_eq lit
stranger-other h = cc

load-denied_example :
    (settings.auth.username ≢ [])
    × (settings.auth.password ≢ [])
    × ((receive_request counter settings.auth.enabled settings.auth.username settings.auth.password
          stranger
          (delete_document (7 ∷ []))
          served_world).1
        ≡ served_world)
    × ((receive_request counter settings.auth.enabled settings.auth.username settings.auth.password
          stranger
          (delete_document (7 ∷ []))
          served_world).0.status
        ≡ 401)
load-denied_example =
    load-denied counter variables settings stranger (delete_document (7 ∷ [])) served_world started
      variables-shut stranger-other

abbrev plan : Config
plan = record {
  http = record { port = pos 80; read_timeout_sec = pos 5; write_timeout_sec = negsuc 0 };
  postgres = record { dsn = lit "postgres://db" };
  s3 = record {
    endpoint = [];
    region = lit "eu";
    bucket = lit "b";
    access_key_id = lit "id";
    secret_access_key = lit "secret";
    use_path_style = false;
    public_base_url = [];
  };
  hindsight = record {
    base_url = lit "http://i";
    api_key = [];
    profile = lit "p";
    timeout_sec = pos 30;
  };
  auth = record { enabled = false; username = []; password = [] };
  worker = record { concurrency = pos 4; queue_size = pos 8 };
  vision_ocr = record {
    api_key = [];
    base_url = [];
    model = [];
    prompt = [];
    timeout_sec = pos 60;
    max_pages = pos 0;
  };
}

plan-HasTexts : HasTexts plan
unfolding lit
plan-HasTexts =
    (cons-ne-nil _ _, cons-ne-nil _ _, cons-ne-nil _ _, cons-ne-nil _ _, cons-ne-nil _ _)

load-environment_of_example : load (environment_of plan) ≡ ok plan
load-environment_of_example =
    load-environment_of plan
      (
        omega arith,
        omega arith,
        omega arith,
        omega arith,
        omega arith,
        omega arith,
        omega arith,
        omega arith,
      )
      plan-HasTexts (inl refl)
