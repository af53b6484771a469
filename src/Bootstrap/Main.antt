-- ===== src/Bootstrap/Main.antt =====
-- bootstrap/main.py and container.py: the start of the API process. Creating the engine is a
-- parameter, since SQLAlchemy may refuse the URL; the process then serves with what `uvicorn.run`
-- is given.
use nexabot.Prelude.{
  String, ◌≡◌, refl, ap, ◌∙◌, true, not, [], ◌∷◌, if◌then◌else◌, Bool-cases, inl, inr, arith,
}
use nexabot.Prelude.Int.{ℤ}
use nexabot.Domain.Errors.{Detail, configuration_error}
use nexabot.Exec.{Result, ok, fails, and_then, and_then-eq-ok}
use nexabot.Config.Required.{Source}
use nexabot.Config.Parsing.{Ends-ok}
use nexabot.Config.Settings.Loaded.{IsConfigured, load-Ends}
use nexabot.Config.Settings.{Settings, DatabaseSettings, LogFormat, load}

-- `Container`: the session maker and the readiness checker follow from the engine.
pub record Container : Type 0 where
  pub settings : Settings

-- `Container.from_environment`
unfoldable pub from_environment : (DatabaseSettings → Result Unit) → Source → Result Container
unfolding load
from_environment create_engine source =
    and_then (load source) λ settings.
      and_then (create_engine settings.database) λ _. ok (record { settings = settings })

-- What `build_api_app` and `uvicorn.run` are given.
pub record Launch : Type 0 where
  pub title : String
  pub log_level : String
  pub log_format : LogFormat
  pub host : String
  pub port : ℤ

abbrev pub launch : Settings → Launch
launch settings = record {
  title = settings.app.name;
  log_level = settings.app.log_level;
  log_format = settings.app.log_format;
  host = settings.api.host;
  port = settings.api.port;
}

abbrev pub serve : Container → Result Launch
serve container =
    if not container.settings.features.enable_api
    then fails (
        configuration_error "The API interface is disabled." "api_disabled"
          (("flag", Detail.text "NEXABOT_ENABLE_API") ∷ []))
    else ok (launch container.settings)

-- `run_api`
unfoldable pub run_api : (DatabaseSettings → Result Unit) → Source → Result Launch
unfolding from_environment
run_api create_engine source = and_then (from_environment create_engine source) serve

-- What a process that serves has been given.
pub record IsLaunched (source : Source) (launched : Launch) : Type 0 where
  pub settings : Settings
  pub loaded : load source ≡ ok settings
  pub configured : IsConfigured source settings
  pub api_enabled : settings.features.enable_api ≡ true
  pub launched_with : launched ≡ launch settings

serve-eq-ok :
    (container : Container) (launched : Launch)
    → serve container ≡ ok launched
    → (container.settings.features.enable_api ≡ true) × (launched ≡ launch container.settings)
serve-eq-ok container launched h = elim (Bool-cases container.settings.features.enable_api) [
  | inl on ↦ (on, cc (served_on on, h))
  | inr off ↦ absurd (ground arith)
]
  where
    served_on :
        container.settings.features.enable_api ≡ true
        → serve container ≡ ok (launch container.settings)
    served_on on = rw on refl

from_environment-eq-ok :
    (create_engine : DatabaseSettings → Result Unit) (source : Source) (container : Container)
    → from_environment create_engine source ≡ ok container
    → load source ≡ ok container.settings
unfolding from_environment
from_environment-eq-ok create_engine source container h =
    let (settings, loaded, rest) =
      and_then-eq-ok (load source)
        (λ settings.
          and_then (create_engine settings.database) λ _. ok (record { settings = settings }))
        h in
    let (u, created, last) =
      and_then-eq-ok (create_engine settings.database) (λ _. ok (record { settings = settings }))
        rest in
    let same : settings ≡ container.settings = ap (λ (c : Container). c.settings) (cc last) in
    loaded ∙ ap ok same

-- The API process serves only with the API enabled and with settings that say what the environment
-- says: the port and the limits in range, and in production everything required given, the secret
-- key set, and the bot's token if the bot is enabled. This holds whatever creating the engine does.
pub run_api-IsLaunched :
    (create_engine : DatabaseSettings → Result Unit) (source : Source) (launched : Launch)
    → run_api create_engine source ≡ ok launched
    → IsLaunched source launched
unfolding run_api
run_api-IsLaunched create_engine source launched h =
    let (container, made, served) =
      and_then-eq-ok (from_environment create_engine source) serve h in
    let (on, same) = serve-eq-ok container launched served in
    let loaded = from_environment-eq-ok create_engine source container made in
    record {
      settings = container.settings;
      loaded = loaded;
      configured = Ends-ok container.settings (load-Ends source) loaded;
      api_enabled = on;
      launched_with = same;
    }
