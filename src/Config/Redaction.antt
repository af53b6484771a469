-- ===== src/Config/Redaction.antt =====
-- config/settings.py: `safe_summary`, the view of the settings that may be written to a log. The
-- functions of urllib.parse are parameters.
pub mod Secrecy
use Prim.Native.Char.{code}
use Prim.Native.String.{◌++◌}
use nexabot.Prelude.{
  ℕ, String, ◌≡◌, refl, ap, Bool, true, false, not, Option, none, some, List, [], ◌∷◌, any, map,
  is_empty, ◌==◌, if◌then◌else◌,
}
use nexabot.Prelude.Codes.{codes, fold_case, contains}
use nexabot.Prelude.Int.{ℤ}
use nexabot.Config.Parsing.{Secret}
use nexabot.Config.Required.{LlmProvider, provider_value, FeatureFlags}
use nexabot.Config.Settings.{
  AppSettings, ApiSettings, Settings, TelegramSettings, LlmSettings, is_set, enabled, implemented,
}

-- The parts of a URL: `urlsplit`'s result.
pub record Split : Type 0 where
  pub scheme : String
  pub netloc : String
  pub path : String
  pub query : String
  pub fragment : String

-- urllib.parse; `urlsplit` has none where it raises ValueError.
pub record UrlParse : Type 0 where
  pub urlsplit : String → Option Split
  pub parse_qsl : String → List (String × String)
  pub urlencode : List (String × String) → String
  pub urlunsplit : Split → String

abbrev pub mask : String
mask = "********"

-- The words of `SENSITIVE_QUERY_PARAMETERS`.
abbrev pub sensitive_words : List (List ℕ)
sensitive_words = map codes (
    "password" ∷ "passwd" ∷ "pwd" ∷ "token" ∷ "secret" ∷ "apikey" ∷ "api_key" ∷ "api-key" ∷ "sslkey"
    ∷ "auth" ∷ [])

-- `SENSITIVE_QUERY_PARAMETERS.search(key)`
unfoldable pub is_sensitive : String → Bool
is_sensitive key = any (λ word. contains word (fold_case key)) sensitive_words

abbrev pub redact_pair : String × String → String × String
redact_pair (key, value) = (key, if is_sensitive key then mask else value)

-- `netloc.rsplit("@", 1)[1]` if there is an "@", and else none.
unfoldable pub behind_at : String → Option String
behind_at String.[] = none
behind_at (String.◌∷◌ c s) = elim (behind_at s) [
  | some host ↦ some host
  | none ↦ if code c == 64 then some s else none
]

abbrev pub redact_netloc : Option String → String → String
redact_netloc none netloc = netloc
redact_netloc (some host) netloc = mask ++ "@" ++ host

module _ (url : UrlParse) where
  unfoldable pub redact_query : String → String
  redact_query query =
      if is_empty query then query else url.urlencode (map redact_pair (url.parse_qsl query))

  abbrev pub redact_split : Split → String
  redact_split parsed = url.urlunsplit (record {
    scheme = parsed.scheme;
    netloc = redact_netloc (behind_at parsed.netloc) parsed.netloc;
    path = parsed.path;
    query = redact_query parsed.query;
    fragment = parsed.fragment;
  })

  abbrev pub redact_parsed : Option Split → String
  redact_parsed none = mask
  redact_parsed (some parsed) = redact_split parsed

  -- `_redact_url`
  unfoldable pub redact_url : String → String
  redact_url value =
      if contains (codes "://") (codes value) then redact_parsed (url.urlsplit value) else value

-- `_redact_secret`
unfoldable pub redact_secret : Option Secret → Option String
redact_secret value = if is_set value then some mask else none

pub record TelegramSummary : Type 0 where
  pub bot_token : Option String
  pub polling_enabled : Bool
  pub enabled : Bool

pub record LlmSummary : Type 0 where
  pub provider : String
  pub implemented : Bool
  pub default_model : Option String
  pub openai_api_key : Option String

pub record SecuritySummary : Type 0 where
  pub secret_key : Option String
  pub max_requests_per_minute : ℤ
  pub max_file_size_mb : ℤ

pub record Summary : Type 0 where
  pub app : AppSettings
  pub api : ApiSettings
  pub database_url : String
  pub redis_url : String
  pub queue_prefix : String
  pub telegram : TelegramSummary
  pub llm : LlmSummary
  pub security : SecuritySummary
  pub features : FeatureFlags

unfoldable pub safe_summary : UrlParse → Settings → Summary
unfolding redact_url redact_secret
safe_summary url settings = record {
  app = settings.app;
  api = settings.api;
  database_url = redact_url url settings.database.url;
  redis_url = redact_url url settings.redis.url;
  queue_prefix = settings.redis.queue_prefix;
  telegram = record {
    bot_token = redact_secret settings.telegram.bot_token;
    polling_enabled = settings.telegram.polling_enabled;
    enabled = enabled settings.telegram;
  };
  llm = record {
    provider = provider_value settings.llm.provider;
    implemented = implemented settings.llm;
    default_model = settings.llm.default_model;
    openai_api_key = redact_secret settings.llm.openai_api_key;
  };
  security = record {
    secret_key = redact_secret settings.security.secret_key;
    max_requests_per_minute = settings.security.max_requests_per_minute;
    max_file_size_mb = settings.security.max_file_size_mb;
  };
  features = settings.features;
}
