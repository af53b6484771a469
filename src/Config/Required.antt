-- ===== src/Config/Required.antt =====
-- config/settings.py: what a production process must be given before it starts.
use Prim.Native.Nat.{Ordering}
use Prim.Native.String.{String, compare}
use nexabot.Prelude.{
  ◌≡◌, ◌≢◌, refl, ap, ◌∙◌, ◌⊎◌, inl, inr, Bool, true, false, not, Option, none, some, List, [], ◌∷◌,
  ◌++◌, arith, is_empty, if◌then◌else◌, select,
}
use nexabot.Domain.Errors.{Detail, configuration_error}
use nexabot.Exec.{Result, ok, fails, Result-cases}

pub data Environment : Type 0 where
  local test production : Environment

pub data LlmProvider : Type 0 where
  stub openai : LlmProvider

abbrev pub provider_value : LlmProvider → String
provider_value stub = "stub"
provider_value openai = "openai"

-- `IMPLEMENTED_LLM_PROVIDERS`
abbrev pub is_implemented : LlmProvider → Bool
is_implemented stub = true
is_implemented openai = false

pub record FeatureFlags : Type 0 where
  pub enable_telegram : Bool
  pub enable_api : Bool
  pub enable_workers : Bool

-- `source.get`
abbrev pub Source : Type 0
Source = String → Option String

-- `bool(source.get(key))`
abbrev pub is_given : Option String → Bool
is_given none = false
is_given (some value) = not (is_empty value)

abbrev if_so : Bool → String → List String
if_so b key = if b then key ∷ [] else []

abbrev is_openai : LlmProvider → Bool
is_openai openai = true
is_openai stub = false

unfoldable pub required : FeatureFlags → LlmProvider → List String
required features provider =
    ("DATABASE_URL" ∷ "NEXABOT_SECRET_KEY" ∷ [])
    ++ if_so features.enable_telegram "TELEGRAM_BOT_TOKEN"
    ++ if_so features.enable_workers "REDIS_URL"
    ++ if_so (is_openai provider) "OPENAI_API_KEY"

unfoldable pub missing : Source → List String → List String
missing source = select (λ key. not (is_given (source key)))

-- `sorted`
unfoldable pub insert_sorted : String → List String → List String
insert_sorted x [] = x ∷ []
insert_sorted x (y ∷ ys) = elim (compare x y) [
  | Ordering.gt ↦ y ∷ insert_sorted x ys
  | _ ↦ x ∷ y ∷ ys
]

unfoldable pub sorted : List String → List String
sorted [] = []
sorted (x ∷ xs) = insert_sorted x (sorted xs)

-- `if provider not in IMPLEMENTED_LLM_PROVIDERS: raise`
unfoldable pub check_provider : LlmProvider → Result Unit
check_provider provider =
    if is_implemented provider
    then ok tt
    else fails (
        configuration_error "The configured LLM provider has no adapter."
          "llm_provider_not_implemented"
          (("provider", Detail.text (provider_value provider))
            ∷ ("implemented", Detail.names ("stub" ∷ []))
            ∷ []))

-- `if missing: raise`, and what follows. The names are distinct, so `set` keeps them all.
unfoldable pub refuse_missing : List String → LlmProvider → Result Unit
refuse_missing [] provider = check_provider provider
refuse_missing (key ∷ keys) provider = fails (
    configuration_error "Missing required production configuration."
      "missing_required_configuration" (("missing", Detail.names (sorted (key ∷ keys))) ∷ []))

-- `_validate_required_environment`
unfoldable pub validate_required_environment :
    Source → Environment → FeatureFlags → LlmProvider → Result Unit
validate_required_environment source production features provider =
    refuse_missing (missing source (required features provider)) provider
validate_required_environment source _ features provider = ok tt

abbrev pub AllGiven : Source → List String → Type 0
AllGiven source [] = Unit {0}
AllGiven source (key ∷ keys) = (is_given (source key) ≡ true) × AllGiven source keys

-- Everything that production needs.
pub record IsComplete (source : Source) (features : FeatureFlags) (provider : LlmProvider)
    : Type 0 where
  pub given : AllGiven source (required features provider)
  pub adapter : is_implemented provider ≡ true

missing_none :
    (source : Source) (keys : List String) → missing source keys ≡ [] → AllGiven source keys
unfolding missing
missing_none source [] h = tt
missing_none source (key ∷ keys) h = (ground arith, missing_none source keys (ground arith))

given-missing :
    (source : Source) (keys : List String) → AllGiven source keys → missing source keys ≡ []
unfolding missing
given-missing source [] h = refl
given-missing source (key ∷ keys) h = ground (arith, h.0, given-missing source keys h.1)

checked_provider :
    (provider : LlmProvider) → check_provider provider ≡ ok tt → is_implemented provider ≡ true
unfolding check_provider
checked_provider stub h = refl
checked_provider openai h = absurd (cc h)

accepted_provider :
    (provider : LlmProvider) → is_implemented provider ≡ true → check_provider provider ≡ ok tt
unfolding check_provider
accepted_provider provider h = rw h refl

none_missing :
    (keys : List String) (provider : LlmProvider)
    → refuse_missing keys provider ≡ ok tt
    → (keys ≡ []) × (is_implemented provider ≡ true)
unfolding refuse_missing
none_missing [] provider h = (refl, checked_provider provider h)
none_missing (key ∷ keys) provider h = absurd (cc h)

completes :
    (source : Source) (features : FeatureFlags) (provider : LlmProvider)
    → IsComplete source features provider
    → refuse_missing (missing source (required features provider)) provider ≡ ok tt
unfolding refuse_missing
completes source features provider c =
    ap (λ keys. refuse_missing keys provider)
      (given-missing source (required features provider) c.given)
    ∙ accepted_provider provider c.adapter

-- Production starts exactly on a complete configuration: every variable that its features and its
-- provider require is given and not empty, and the provider has an adapter. On any other it raises.
pub production_starts :
    (source : Source) (features : FeatureFlags) (provider : LlmProvider)
    → ((validate_required_environment source production features provider ≡ ok tt)
        × IsComplete source features provider)
      ⊎ ((validate_required_environment source production features provider ≢ ok tt)
          × (IsComplete source features provider → ⊥))
unfolding validate_required_environment
production_starts source features provider =
    elim (Result-cases (refuse_missing (missing source (required features provider)) provider)) [
      | inl (done, e) ↦
          let (nothing, adapter) =
            none_missing (missing source (required features provider)) provider e in
          inl (
            e,
            record {
              given = missing_none source (required features provider) nothing;
              adapter = adapter;
            },
          )
      | inr (exc, e) ↦
          let refused : refuse_missing (missing source (required features provider)) provider
              ≢ ok tt =
            λ h. ground arith in
          inr (refused, λ c. refused (completes source features provider c))
    ]
