-- ===== src/Config/Settings/Loaded.antt =====
-- config/settings.py: what `Settings.load` makes of any environment.
use nexabot.Prelude.{
  String, ◌≡◌, ◌≢◌, refl, sym, subst, ap, ◌∙◌, ◌⊎◌, inl, inr, Bool, true, false, Option, none, some,
  List, [], ◌∷◌, Bool-cases, arith, is_empty,
}
use nexabot.Exec.{ok}
use nexabot.Config.Parsing.{
  named, Ends, returns, raises, and_then-Ends, Ends-weaken, Reads, read_or-Ends, optional_secret,
  as_enum, enum_error,
}
use nexabot.Config.Required.{
  Environment, local, test, production, LlmProvider, stub, openai, FeatureFlags, Source, IsComplete,
  AllGiven, missing, required, is_given, check_provider, refuse_missing,
  validate_required_environment, production_starts,
}
use nexabot.Config.Settings.{
  AppSettings, ApiSettings, DatabaseSettings, TelegramSettings, SecuritySettings, Settings,
  environments, providers, is_set, enabled, load_redis, load_llm, build, load,
}
use nexabot.Config.Settings.Loading.{
  IsRefusal, FeaturesRead, AppRead, ApiRead, DatabaseRead, TelegramRead, SecurityRead,
  load_features-Ends, load_app-Ends, load_api-Ends, load_database-Ends, load_telegram-Ends,
  load_security-Ends,
}

-- What production has: a secret key, and a token if the bot is enabled.
pub record IsArmed (settings : Settings) : Type 0 where
  pub secret_key : is_set settings.security.secret_key ≡ true
  pub token : (settings.features.enable_telegram ≡ false) ⊎ (enabled settings.telegram ≡ true)

-- Settings that say what the environment says, in range, and complete in production.
pub record IsConfigured (source : Source) (settings : Settings) : Type 0 where
  pub environment :
      Reads (named environments) (source "NEXABOT_ENVIRONMENT") local settings.app.environment
  pub provider : Reads (named providers) (source "LLM_PROVIDER") stub settings.llm.provider
  pub features : FeaturesRead source settings.features
  pub app : AppRead source settings.app.environment settings.app
  pub api : ApiRead source settings.api
  pub database : DatabaseRead source settings.database
  pub redis : settings.redis ≡ load_redis source
  pub telegram : TelegramRead source settings.telegram
  pub llm : settings.llm ≡ load_llm source settings.llm.provider
  pub security : SecurityRead source settings.security
  pub complete :
      (settings.app.environment ≢ production)
      ⊎ (IsComplete source settings.features settings.llm.provider × IsArmed settings)

refuse_missing-Ends :
    (source : Source) (keys : List String) (provider : LlmProvider)
    → Ends
        (λ _. refuse_missing keys provider ≡ ok tt)
        (IsRefusal source)
        (refuse_missing keys provider)
unfolding refuse_missing check_provider
refuse_missing-Ends source [] stub = returns refl
refuse_missing-Ends source [] openai = raises (inl (_, refl, refl))
refuse_missing-Ends source (key ∷ keys) provider = raises (inl (_, refl, refl))

module _ (source : Source) (features : FeatureFlags) (provider : LlmProvider) where
  complete_if_ok :
      validate_required_environment source production features provider ≡ ok tt
      → IsComplete source features provider
  complete_if_ok h = elim (production_starts source features provider) [
    | inl (done, c) ↦ c
    | inr (refused, r) ↦ absurd (refused h)
  ]

  validate-Ends :
      (environment : Environment)
      → Ends
          (λ _. (environment ≢ production) ⊎ IsComplete source features provider)
          (IsRefusal source)
          (validate_required_environment source environment features provider)
  unfolding validate_required_environment
  validate-Ends production =
      Ends-weaken
        (refuse_missing-Ends source (missing source (required features provider)) provider)
        λ _ h. inr (complete_if_ok h)
  validate-Ends local = returns (inl λ e. absurd (cc e))
  validate-Ends test = returns (inl λ e. absurd (cc e))

-- A given secret is set.
given_secret : (raw : Option String) → is_given raw ≡ true → is_set (optional_secret raw) ≡ true
unfolding optional_secret
given_secret none h = absurd (ground arith)
given_secret (some value) h = elim (Bool-cases (is_empty value)) [
  | inl blank ↦ absurd (ground arith)
  | inr full ↦ rw full (rw full refl)
]

token_if_on :
    (source : Source) (on api workers : Bool) (provider : LlmProvider)
    → AllGiven source (
        required
          (record { enable_telegram = on; enable_api = api; enable_workers = workers })
          provider)
    → (on ≡ false) ⊎ (is_given (source "TELEGRAM_BOT_TOKEN") ≡ true)
unfolding required
token_if_on source false api workers provider given = inl refl
token_if_on source true api workers provider given = inr given.1.1.0

armed_secret :
    (source : Source) (on : Bool) (telegram : TelegramSettings)
    → telegram.bot_token ≡ optional_secret (source "TELEGRAM_BOT_TOKEN")
    → (on ≡ false) ⊎ (is_given (source "TELEGRAM_BOT_TOKEN") ≡ true)
    → (on ≡ false) ⊎ (enabled telegram ≡ true)
unfolding enabled
armed_secret source on telegram same (inl off) = inl off
armed_secret source on telegram same (inr given) =
    inr (ap is_set same ∙ given_secret (source "TELEGRAM_BOT_TOKEN") given)

-- A complete environment arms the settings that are read from it.
arm :
    (source : Source) (settings : Settings)
    → TelegramRead source settings.telegram
    → SecurityRead source settings.security
    → IsComplete source settings.features settings.llm.provider
    → IsArmed settings
unfolding required
arm source settings telegram security c = record {
  secret_key = ap is_set security.secret ∙ given_secret (source "NEXABOT_SECRET_KEY") c.given.1.0;
  token = armed_secret source settings.features.enable_telegram settings.telegram telegram.token (
      token_if_on source settings.features.enable_telegram settings.features.enable_api
        settings.features.enable_workers settings.llm.provider c.given);
}

completed :
    (source : Source) (settings : Settings)
    → TelegramRead source settings.telegram
    → SecurityRead source settings.security
    → (settings.app.environment ≢ production)
      ⊎ IsComplete source settings.features settings.llm.provider
    → (settings.app.environment ≢ production)
      ⊎ (IsComplete source settings.features settings.llm.provider × IsArmed settings)
completed source settings telegram security (inl elsewhere) = inl elsewhere
completed source settings telegram security (inr c) =
    inr (c, arm source settings telegram security c)

module _ (source : Source) (environment : Environment) (features : FeatureFlags)
    (provider : LlmProvider)
    (environment_read : Reads (named environments) (source "NEXABOT_ENVIRONMENT") local environment)
    (features_read : FeaturesRead source features)
    (provider_read : Reads (named providers) (source "LLM_PROVIDER") stub provider)
    (complete : (environment ≢ production) ⊎ IsComplete source features provider) where
  built :
      (app : AppSettings) (api : ApiSettings) (database : DatabaseSettings)
      (telegram : TelegramSettings) (security : SecuritySettings)
      → AppRead source environment app
      → ApiRead source api
      → DatabaseRead source database
      → TelegramRead source telegram
      → SecurityRead source security
      → IsConfigured source (record {
        app = app;
        api = api;
        database = database;
        redis = load_redis source;
        telegram = telegram;
        llm = load_llm source provider;
        security = security;
        features = features;
      })
  unfolding load_llm
  built app api database telegram security ha hi hd ht hs = record {
    environment =
        subst (Reads (named environments) (source "NEXABOT_ENVIRONMENT") local)
          (sym ha.environment_kept) environment_read;
    provider = provider_read;
    features = features_read;
    app = subst (λ e. AppRead source e app) (sym ha.environment_kept) ha;
    api = hi;
    database = hd;
    redis = refl;
    telegram = ht;
    llm = refl;
    security = hs;
    complete = completed source _ ht hs (
        subst (λ e. (e ≢ production) ⊎ IsComplete source features provider)
          (sym ha.environment_kept) complete);
  }

  build-Ends :
      Ends (IsConfigured source) (IsRefusal source) (build source environment features provider)
  unfolding build
  build-Ends = and_then-Ends (load_app-Ends source environment) λ app ha.
      and_then-Ends (load_api-Ends source) λ api hi.
        and_then-Ends (load_database-Ends source) λ database hd.
          and_then-Ends (load_telegram-Ends source) λ telegram ht.
            and_then-Ends (load_security-Ends source)
              λ security hs. returns (built app api database telegram security ha hi hd ht hs)

-- On every environment, loading ends in one of two ways. It returns settings in which every value
-- is the default of a blank variable or what its text spells, the port, the limits and the log
-- level are valid, and in production everything required is given, the secret key is set, and so is
-- the bot's token if the bot is enabled. Or it raises: a configuration error, or pydantic's
-- exception, the latter only when the port or a limit is a number out of range.
pub load-Ends : (source : Source) → Ends (IsConfigured source) (IsRefusal source) (load source)
unfolding load as_enum
load-Ends source =
    and_then-Ends
      (read_or-Ends (named environments) (source "NEXABOT_ENVIRONMENT") local _ (IsRefusal source)
        (inl (enum_error environments "NEXABOT_ENVIRONMENT", refl, refl)))
      λ environment he. and_then-Ends (load_features-Ends source) λ features hf.
        and_then-Ends
          (read_or-Ends (named providers) (source "LLM_PROVIDER") stub _ (IsRefusal source)
            (inl (enum_error providers "LLM_PROVIDER", refl, refl)))
          λ provider hp.
            and_then-Ends (validate-Ends source features provider environment)
              λ _ hc. build-Ends source environment features provider he hf hp hc
