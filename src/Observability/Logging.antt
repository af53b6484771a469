-- ===== src/Observability/Logging.antt =====
-- observability/logging.py: what is masked in a log record. A text is its code points.
pub mod Plain
pub mod Words
pub mod Secrecy
use Prim.Native.Nat.{suc, zero, ◌+◌, ◌-◌}
use nexabot.Prelude.{
  ℕ, String, ◌≡◌, refl, Bool, true, false, not, ◌&&◌, ◌||◌, Option, none, some, List, [], ◌∷◌, ◌++◌,
  any, map, length, leb, ◌==◌, is_space, if◌then◌else◌, is_empty,
}
use nexabot.Prelude.Codes.{codes, fold_case, contains}
use nexabot.Observability.Context.{TraceContext, as_log_fields}

-- The words of `SECRET_FIELD_PATTERN`.
abbrev pub secret_words : List (List ℕ)
secret_words =
    map codes
      ("token" ∷ "secret" ∷ "password" ∷ "apikey" ∷ "api_key" ∷ "api-key" ∷ "authorization" ∷ [])

-- `SECRET_FIELD_PATTERN.search(key)`
unfoldable pub is_secret : String → Bool
is_secret key = any (λ word. contains word (fold_case key)) secret_words

abbrev pub is_lower : ℕ → Bool
is_lower c = leb 97 c && leb c 122

-- `[a-z0-9+.\-]`
unfoldable pub is_scheme : ℕ → Bool
is_scheme c = is_lower c || (leb 48 c && leb c 57) || c == 43 || c == 46 || c == 45

-- `[^/\s@]`
unfoldable pub is_user : ℕ → Bool
is_user c = not (c == 47 || is_space c || c == 64)

-- The longest prefix of characters that pass the test, and the rest.
abbrev pub span : (ℕ → Bool) → List ℕ → List ℕ × List ℕ
span p [] = ([], [])
span p (c ∷ s) = elim (p c) [
  | true ↦ (let (taken, rest) = span p s in (c ∷ taken, rest))
  | false ↦ ([], c ∷ s)
]

-- `://`, and the text behind it.
abbrev pub behind_colon : List ℕ → Option (List ℕ)
behind_colon (a ∷ b ∷ c ∷ s) = if a == 58 && b == 47 && c == 47 then some s else none
behind_colon _ = none

-- `@` behind a user that is not empty: the length of the user.
abbrev pub user_length : List ℕ × List ℕ → Option ℕ
user_length (u ∷ us, c ∷ s) = if c == 64 then some (length (u ∷ us)) else none
user_length _ = none

abbrev pub with_user : List ℕ → Option ℕ → Option (List ℕ × ℕ)
with_user scheme none = none
with_user scheme (some n) = some (scheme, length scheme + 3 + n)

abbrev pub with_scheme : List ℕ → Option (List ℕ) → Option (List ℕ × ℕ)
with_scheme scheme none = none
with_scheme scheme (some s) = with_user scheme (user_length (span is_user s))

-- `URL_CREDENTIALS_PATTERN` at the start of the text: the scheme, and how many characters stand
-- between the first and the "@" of the match. No class of the pattern has the character that must
-- follow it, so the longest prefixes are the only match.
unfoldable pub credentials_at : ℕ → List ℕ → Option (List ℕ × ℕ)
unfolding is_scheme is_user
credentials_at c s =
    if is_lower c
    then (let (name, rest) = span is_scheme s in with_scheme (c ∷ name) (behind_colon rest))
    else none

-- `\g<scheme>********@`
abbrev pub masked : List ℕ → List ℕ
masked scheme = scheme ++ codes "://********@"

-- `URL_CREDENTIALS_PATTERN.sub`: the number is how many characters the last match still covers.
unfoldable pub sub : ℕ → List ℕ → List ℕ
unfolding credentials_at
sub k [] = []
sub (suc k) (c ∷ s) = sub k s
sub zero (c ∷ s) = elim (credentials_at c s) [
  | none ↦ c ∷ sub zero s
  | some (scheme, n) ↦ masked scheme ++ sub n s
]

-- A value of a log record; `other` is one that `redact` returns as it is.
mutual
  pub data Value : Type 0 where
    text : List ℕ → Value
    dict : Fields → Value
    list : Values → Value
    tuple : Values → Value
    other : String → Value

  pub data Fields : Type 0 where
    end : Fields
    field : String → Value → Fields → Fields

  pub data Values : Type 0 where
    nil : Values
    cons : Value → Values → Values

abbrev pub mask : Value
mask = text (codes "********")

-- `redact`
unfoldable mutual
  unfolding sub

  pub redact : Value → Value
  redact (text s) = text (sub zero s)
  redact (dict fields) = dict (redact_fields fields)
  redact (list items) = list (redact_items items)
  redact (tuple items) = tuple (redact_items items)
  redact (other v) = other v

  pub redact_fields : Fields → Fields
  redact_fields end = end
  redact_fields (field key child rest) =
      field key (elim (is_secret key) [ true ↦ mask | false ↦ redact child ]) (redact_fields rest)

  pub redact_items : Values → Values
  redact_items nil = nil
  redact_items (cons item rest) = cons (redact item) (redact_items rest)

-- A log record; a field is one of the five that `TraceContextFilter` sets.
pub record LogRecord : Type 0 where
  pub timestamp : List ℕ
  pub level : List ℕ
  pub logger : List ℕ
  pub get_message : List ℕ
  pub fields : List (String × String)
  -- `formatException(exc_info)`
  pub exception : Option (List ℕ)

-- `TraceContextFilter.filter`
unfoldable pub filter : TraceContext → LogRecord → LogRecord
unfolding as_log_fields
filter context r = record r { fields = as_log_fields context }

abbrev exception_field : Option (List ℕ) → Fields
exception_field none = end
exception_field (some s) = field "exception" (text s) end

-- `if value: payload[field] = value`
abbrev context_fields : List (String × String) → Fields → Fields
context_fields [] rest = rest
context_fields ((key, value) ∷ more) rest =
    if is_empty value
    then context_fields more rest
    else field key (text (codes value)) (context_fields more rest)

-- `JsonFormatter.format`, up to `json.dumps`
unfoldable pub format : LogRecord → Value
unfolding redact
format r = redact (
    dict (
      field "timestamp" (text r.timestamp) (
        field "level" (text r.level) (
          field "logger" (text r.logger) (
            field "message" (text r.get_message)
              (context_fields r.fields (exception_field r.exception)))))))

sub_runs :
    (sub zero (codes "at x://u:p@h/d y://v@w") ≡ codes "at x://********@h/d y://********@w")
    × (sub zero (codes "a://b://u:p@h X://u@h a://@h") ≡ codes "a://b://********@h X://u@h a://@h")
unfolding sub is_space is_scheme is_user credentials_at
sub_runs = (refl, refl)
