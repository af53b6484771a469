-- ===== src/Config/Parsing.antt =====
-- config/settings.py: the helpers that read one variable of the environment, and how each ends.
use nexabot.Prelude.{
  ℕ, String, ◌≡◌, refl, subst, ◌⊎◌, inl, inr, Bool, true, false, Option, none, some, List, [], ◌∷◌,
  is_empty, is_space, map, lstrip, rstrip, strip, if◌then◌else◌, Bool-cases,
}
use nexabot.Prelude.Codes.{codes, same_codes, lower, upper}
use nexabot.Prelude.Int.{ℤ}
use nexabot.Domain.Errors.{
  Detail, NexaBotError, Exception, domain_error, configuration, configuration_error,
}
use nexabot.Exec.{Result, ok, err, fails, and_then}
use nexabot.Config.Numerals.{int}
use nexabot.Config.Required.{Source, sorted}

-- `SecretStr`
pub record Secret : Type 0 where
  pub secret_value : String

-- `raw is None or raw.strip() == ""`
abbrev pub is_blank : Option String → Bool
is_blank none = true
is_blank (some raw) = is_empty (strip raw)

unfoldable pub optional_secret : Option String → Option Secret
optional_secret none = none
optional_secret (some value) =
    if is_empty value then none else some (record { secret_value = value })

-- The members of an enum: the text of each, and the member.
abbrev pub Members : Type 0 → Type 0
Members A = List (String × A)

-- `enum_type(text)`: the member with this text.
abbrev pub member_of : {A : Type 0} → Members A → List ℕ → Option A
member_of [] text = none
member_of ((value, member) ∷ rest) text =
    if same_codes text (codes value) then some member else member_of rest text

abbrev pub invalid : String → String → String → NexaBotError
invalid message code variable =
    configuration_error message code (("variable", Detail.text variable) ∷ [])

abbrev pub enum_error : {A : Type 0} → Members A → String → NexaBotError
enum_error members variable = configuration_error "Unsupported value." "invalid_enum_setting" (
    ("variable", Detail.text variable)
    ∷ ("allowed", Detail.names (sorted (map (λ m. m.0) members)))
    ∷ [])

-- What `_as_bool`, `_as_int` and `_as_enum` share: a blank variable has the default, and any other
-- value is parsed without the spaces around it, or refused.
abbrev pub parsed_or : {A : Type 0} → Option A → NexaBotError → Result A
parsed_or none error = fails error
parsed_or (some value) error = ok value

abbrev pub read_or :
    {A : Type 0} → (String → Option A) → Option String → A → NexaBotError → Result A
read_or parse none default error = ok default
read_or parse (some raw) default error =
    if is_empty (strip raw) then ok default else parsed_or (parse (strip raw)) error

-- The accepted spellings; none for any other text.
unfoldable pub truth_of : String → Option Bool
truth_of text =
    member_of
      (("1", true)
        ∷ ("true", true)
        ∷ ("yes", true)
        ∷ ("on", true)
        ∷ ("0", false)
        ∷ ("false", false)
        ∷ ("no", false)
        ∷ ("off", false)
        ∷ [])
      (lower text)

unfoldable pub as_bool : Source → String → Bool → Result Bool
as_bool source variable default =
    read_or truth_of (source variable) default
      (invalid "Expected a boolean value." "invalid_boolean_setting" variable)

unfoldable pub as_int : Source → String → ℤ → Result ℤ
as_int source variable default =
    read_or int (source variable) default
      (invalid "Expected an integer value." "invalid_integer_setting" variable)

abbrev pub named : {A : Type 0} → Members A → String → Option A
named members text = member_of members (lower text)

unfoldable pub as_enum : {A : Type 0} → Members A → Option String → String → A → Result A
as_enum members raw variable default =
    read_or (named members) raw default (enum_error members variable)

-- `VALID_LOG_LEVELS`, with the numbers of `logging`.
abbrev pub valid_log_levels : Members ℕ
valid_log_levels =
    ("CRITICAL", 50)
    ∷ ("ERROR", 40)
    ∷ ("WARNING", 30)
    ∷ ("INFO", 20)
    ∷ ("DEBUG", 10)
    ∷ ("NOTSET", 0)
    ∷ []

abbrev pub level_error : NexaBotError
level_error = configuration_error "Unknown log level." "invalid_log_level" (
    ("variable", Detail.text "NEXABOT_LOG_LEVEL")
    ∷ ("allowed", Detail.names (sorted (map (λ m. m.0) valid_log_levels)))
    ∷ [])

abbrev name_of : {A : Type 0} → Members A → List ℕ → Option String
name_of [] text = none
name_of ((value, member) ∷ rest) text =
    if same_codes text (codes value) then some value else name_of rest text

-- `normalized`, when it is the name of a level.
unfoldable pub level_named : String → Option String
level_named value = name_of valid_log_levels (upper (strip value))

unfoldable pub normalize_log_level : String → Result String
normalize_log_level value = parsed_or (level_named value) level_error

-- `log_level_number`; none is the KeyError of an unknown level.
unfoldable pub log_level_number : String → Option ℕ
log_level_number level = member_of valid_log_levels (codes level)

-- How a step ends: with a value that meets `Q`, or with an exception that meets `P`.
pub data Ends {A : Type 0} (Q : A → Type 0) (P : Exception → Type 0) : Result A → Type 0 where
  returns : {a : A} → Q a → Ends Q P (ok a)
  raises : {e : Exception} → P e → Ends Q P (err e)

pub and_then-Ends :
    {A B : Type 0} {Q : A → Type 0} {R : B → Type 0} {P : Exception → Type 0} {r : Result A}
    {f : A → Result B}
    → Ends Q P r
    → ((a : A) → Q a → Ends R P (f a))
    → Ends R P (and_then r f)
and_then-Ends (returns {a} h) rest = rest a h
and_then-Ends (raises h) rest = raises h

-- What holds of every returned value holds of this one.
pub Ends-ok :
    {A : Type 0} {Q : A → Type 0} {P : Exception → Type 0} {r : Result A} (a : A)
    → Ends Q P r
    → r ≡ ok a
    → Q a
Ends-ok {Q = Q} a (returns h) e = subst Q (cc e) h
Ends-ok a (raises h) e = absurd (cc e)

pub Ends-weaken :
    {A : Type 0} {Q R : A → Type 0} {P : Exception → Type 0} {r : Result A}
    → Ends Q P r
    → ((a : A) → Q a → R a)
    → Ends R P r
Ends-weaken (returns {a} h) f = returns (f a h)
Ends-weaken (raises h) f = raises h

-- A `ConfigurationError`
abbrev pub IsConfigurationError : Exception → Type 0
IsConfigurationError e =
    (error : NexaBotError) × (e ≡ domain_error error) × (error.category ≡ configuration)

-- The value of a variable: the default if it is blank, and otherwise what its text spells.
abbrev pub Reads : {A : Type 0} → (String → Option A) → Option String → A → A → Type 0
Reads parse raw default value =
    ((is_blank raw ≡ true) × (value ≡ default))
    ⊎ ((text : String) × (raw ≡ some text) × (parse (strip text) ≡ some value))

parsed_or-Ends :
    {A : Type 0} (parse : String → Option A) (text : String) (default : A) (error : NexaBotError)
    (P : Exception → Type 0)
    → P (domain_error error)
    → (found : Option A) → parse (strip text) ≡ found
    → Ends (Reads parse (some text) default) P (parsed_or found error)
parsed_or-Ends parse text default error P h none e = raises h
parsed_or-Ends parse text default error P h (some value) e = returns (inr (text, refl, e))

pub read_or-Ends :
    {A : Type 0} (parse : String → Option A) (raw : Option String) (default : A)
    (error : NexaBotError) (P : Exception → Type 0)
    → P (domain_error error)
    → Ends (Reads parse raw default) P (read_or parse raw default error)
read_or-Ends parse none default error P h = returns (inl (refl, refl))
read_or-Ends parse (some text) default error P h = elim (Bool-cases (is_empty (strip text))) [
  | inl blank ↦ rw blank (returns (inl (blank, refl)))
  | inr given ↦ rw given (parsed_or-Ends parse text default error P h (parse (strip text)) refl)
]

spellings : (truth_of "YES" ≡ some true) × (truth_of "off" ≡ some false) × (truth_of "y" ≡ none)
unfolding truth_of same_codes lower
spellings = (refl, refl, refl)

levels : (level_named " ınfo " ≡ some "INFO") × (level_named "trace" ≡ none)
unfolding level_named same_codes upper strip lstrip rstrip is_space is_empty
levels = (refl, refl)
