-- ===== src/Tests/Configured.antt =====
-- The settings of a process, loaded and shown.
use nexabot.Prelude.{
  String, ◌≡◌, refl, Bool, true, false, some, none, [], ◌∷◌, is_empty, is_space, strip, str_eq,
  if◌then◌else◌, inl, inr,
}
use nexabot.Prelude.Codes.{same_codes, upper, fold_case, contains, is_prefix}
use nexabot.Config.Numerals.{int}
use nexabot.Prelude.Int.{pos}
use nexabot.Exec.{Result, ok, err}
use nexabot.Config.Required.{Source, local, stub}
use nexabot.Config.Parsing.{Ends, as_enum, as_bool, as_int, normalize_log_level, level_named}
use nexabot.Config.Settings.{Settings, DatabaseSettings, console, validation_failure, load}
use nexabot.Config.Settings.Loading.{IsRefusal}
use nexabot.Config.Settings.Loaded.{IsConfigured, load-Ends}
use nexabot.Bootstrap.Main.{Launch, run_api, IsLaunched, run_api-IsLaunched}
use nexabot.Config.Redaction.{Split, UrlParse, behind_at, is_sensitive, safe_summary}
use nexabot.Config.Redaction.Secrecy.{SameButSecrets, safe_summary-same}

abbrev port_zero : Source
port_zero key = if str_eq key "NEXABOT_API_PORT" then some " 0 " else none

-- A port out of range raises pydantic's exception, not a configuration error.
port_zero-refused : load port_zero ≡ err validation_failure
unfolding load as_enum as_bool normalize_log_level level_named same_codes upper strip is_space
    as_int int
port_zero-refused = refl

abbrev empty : Source
empty key = none

abbrev settings : Bool → Settings
settings first = record {
  app = record { name = "NexaBot"; environment = local; log_level = "INFO"; log_format = console };
  api = record { host = "127.0.0.1"; port = pos 8000 };
  database = record {
    url = if first then "db://u:p@h/n?token=1" else "db://v:q@h/n?token=2";
    pool_size = pos 5;
    max_overflow = pos 10;
  };
  redis = record { url = "redis://localhost:6379/0"; queue_prefix = "nexabot" };
  telegram = record {
    bot_token = some (record { secret_value = if first then "a" else "b" });
    polling_enabled = false;
  };
  llm = record { provider = stub; default_model = none; openai_api_key = none };
  security = record {
    secret_key = none;
    max_requests_per_minute = pos 60;
    max_file_size_mb = pos 25;
  };
  features = record { enable_telegram = false; enable_api = true; enable_workers = false };
}

load-Ends_example : Ends (IsConfigured port_zero) (IsRefusal port_zero) (load port_zero)
load-Ends_example = load-Ends port_zero

abbrev parts : String → String → Split
parts netloc query = record {
  scheme = "db";
  netloc = netloc;
  path = "/n";
  query = query;
  fragment = "";
}

abbrev url : UrlParse
url = record {
  urlsplit = λ s.
      if str_eq s "db://u:p@h/n?token=1"
      then some (parts "u:p@h" "token=1")
      else if str_eq s "db://v:q@h/n?token=2"
      then some (parts "v:q@h" "token=2")
      else none;
  parse_qsl = λ q. if str_eq q "token=1" then ("token", "1") ∷ [] else ("token", "2") ∷ [];
  urlencode = λ pairs. "token=********";
  urlunsplit = λ p. p.netloc;
}

settings-SameButSecrets : SameButSecrets url (settings true) (settings false)
unfolding contains is_prefix behind_at is_sensitive fold_case is_empty
settings-SameButSecrets = record {
  app = refl;
  api = refl;
  database_url = inr (record {
    first = parts "u:p@h" "token=1";
    second = parts "v:q@h" "token=2";
    parsed_first = refl;
    parsed_second = refl;
    written_first = refl;
    written_second = refl;
    parts = record {
      scheme = refl;
      netloc = inr ("h", refl, refl);
      path = refl;
      query = inr (refl, refl, (refl, inr refl, tt));
      fragment = refl;
    };
  });
  redis_url = inl refl;
  queue_prefix = refl;
  bot_token = refl;
  polling = refl;
  provider = refl;
  model = refl;
  api_key = refl;
  secret_key = refl;
  requests = refl;
  size = refl;
  features = refl;
}

safe_summary-same_example : safe_summary url (settings true) ≡ safe_summary url (settings false)
safe_summary-same_example =
    safe_summary-same url (settings true) (settings false) settings-SameButSecrets

abbrev reachable : DatabaseSettings → Result Unit
reachable database = ok tt

abbrev launched : Launch
launched = record {
  title = "NexaBot";
  log_level = "INFO";
  log_format = console;
  host = "127.0.0.1";
  port = pos 8000;
}

empty-launched : run_api reachable empty ≡ ok launched
unfolding run_api load as_enum as_bool normalize_log_level level_named same_codes upper strip
    is_space as_int
empty-launched = refl

run_api-IsLaunched_example : IsLaunched empty launched
run_api-IsLaunched_example = run_api-IsLaunched reachable empty launched empty-launched
