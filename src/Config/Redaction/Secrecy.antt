-- ===== src/Config/Redaction/Secrecy.antt =====
-- config/settings.py: `safe_summary` shows no credential. Settings that differ in their credentials
-- alone have the same summary.
use nexabot.Prelude.{
  String, ◌≡◌, refl, ap, ◌⊎◌, inl, inr, true, false, Option, some, List, [], ◌∷◌, map, is_empty,
}
use nexabot.Prelude.Codes.{codes, contains}
use nexabot.Config.Parsing.{Secret}
use nexabot.Config.Redaction.{
  Split, UrlParse, is_sensitive, redact_pair, behind_at, redact_netloc, redact_query, redact_split,
  redact_url, redact_secret, safe_summary,
}
use nexabot.Config.Settings.{Settings, is_set, enabled, implemented}

-- Query parameters that differ in the values of sensitive keys alone.
abbrev pub SameParameters : List (String × String) → List (String × String) → Type 0
SameParameters [] [] = Unit {0}
SameParameters ((k, v) ∷ ps) ((l, w) ∷ qs) =
    (k ≡ l) × ((v ≡ w) ⊎ (is_sensitive k ≡ true)) × SameParameters ps qs
SameParameters _ _ = ⊥

-- Network locations that differ in the text before their last "@" alone.
abbrev pub SameHost : String → String → Type 0
SameHost s t = (s ≡ t) ⊎ ((host : String) × (behind_at s ≡ some host) × (behind_at t ≡ some host))

-- URLs that differ in their credentials alone.
pub record SameParts (url : UrlParse) (p q : Split) : Type 0 where
  pub scheme : p.scheme ≡ q.scheme
  pub netloc : SameHost p.netloc q.netloc
  pub path : p.path ≡ q.path
  pub query :
      (p.query ≡ q.query)
      ⊎ ((is_empty p.query ≡ false)
          × (is_empty q.query ≡ false)
          × SameParameters (url.parse_qsl p.query) (url.parse_qsl q.query))
  pub fragment : p.fragment ≡ q.fragment

pub record SameParsed (url : UrlParse) (s t : String) : Type 0 where
  pub first : Split
  pub second : Split
  pub parsed_first : url.urlsplit s ≡ some first
  pub parsed_second : url.urlsplit t ≡ some second
  pub written_first : contains (codes "://") (codes s) ≡ true
  pub written_second : contains (codes "://") (codes t) ≡ true
  pub parts : SameParts url first second

abbrev pub SameUrl : UrlParse → String → String → Type 0
SameUrl url s t = (s ≡ t) ⊎ SameParsed url s t

-- Secrets of which both are set or neither is.
abbrev pub SameSecret : Option Secret → Option Secret → Type 0
SameSecret a b = is_set a ≡ is_set b

-- Settings that differ in their credentials alone.
pub record SameButSecrets (url : UrlParse) (s t : Settings) : Type 0 where
  pub app : s.app ≡ t.app
  pub api : s.api ≡ t.api
  pub database_url : SameUrl url s.database.url t.database.url
  pub redis_url : SameUrl url s.redis.url t.redis.url
  pub queue_prefix : s.redis.queue_prefix ≡ t.redis.queue_prefix
  pub bot_token : SameSecret s.telegram.bot_token t.telegram.bot_token
  pub polling : s.telegram.polling_enabled ≡ t.telegram.polling_enabled
  pub provider : s.llm.provider ≡ t.llm.provider
  pub model : s.llm.default_model ≡ t.llm.default_model
  pub api_key : SameSecret s.llm.openai_api_key t.llm.openai_api_key
  pub secret_key : SameSecret s.security.secret_key t.security.secret_key
  pub requests : s.security.max_requests_per_minute ≡ t.security.max_requests_per_minute
  pub size : s.security.max_file_size_mb ≡ t.security.max_file_size_mb
  pub features : s.features ≡ t.features

redact_pair-same :
    (k v l w : String)
    → k ≡ l
    → (v ≡ w) ⊎ (is_sensitive k ≡ true)
    → redact_pair (k, v) ≡ redact_pair (l, w)
redact_pair-same k v l w same (inl e) = cc
redact_pair-same k v l w same (inr hidden) = rw (← same) (rw hidden refl)

redact_pairs-same :
    (ps qs : List (String × String))
    → SameParameters ps qs
    → map redact_pair ps ≡ map redact_pair qs
redact_pairs-same [] [] h = refl
redact_pairs-same [] (q ∷ qs) h = absurd h
redact_pairs-same (p ∷ ps) [] h = absurd h
redact_pairs-same ((k, v) ∷ ps) ((l, w) ∷ qs) (key, value, rest) =
    cc (redact_pair-same k v l w key value, redact_pairs-same ps qs rest)

redact_netloc-same :
    (s t : String) → SameHost s t → redact_netloc (behind_at s) s ≡ redact_netloc (behind_at t) t
redact_netloc-same s t (inl e) = ap (λ x. redact_netloc (behind_at x) x) e
redact_netloc-same s t (inr (host, first, second)) = rw first (rw second refl)

module _ (url : UrlParse) where
  redact_query-same :
      (s t : String)
      → (s ≡ t)
        ⊎ ((is_empty s ≡ false)
            × (is_empty t ≡ false)
            × SameParameters (url.parse_qsl s) (url.parse_qsl t))
      → redact_query url s ≡ redact_query url t
  unfolding redact_query
  redact_query-same s t (inl e) = ap (redact_query url) e
  redact_query-same s t (inr (first, second, h)) =
      rw first (rw second (ap url.urlencode (redact_pairs-same _ _ h)))

  redact_split-same : (p q : Split) → SameParts url p q → redact_split url p ≡ redact_split url q
  redact_split-same p q h = cc (
    h.scheme,
    redact_netloc-same p.netloc q.netloc h.netloc,
    h.path,
    redact_query-same p.query q.query h.query,
    h.fragment,
  )

  redact_url-same : (s t : String) → SameUrl url s t → redact_url url s ≡ redact_url url t
  unfolding redact_url
  redact_url-same s t (inl e) = ap (redact_url url) e
  redact_url-same s t (inr h) = rw h.written_first (
      rw h.written_second
        (rw h.parsed_first (rw h.parsed_second (redact_split-same h.first h.second h.parts))))

  -- Settings that differ in their credentials alone, which are the secrets, what stands before the
  -- "@" of a URL's host, and the values of its sensitive query parameters, have the same summary.
  pub safe_summary-same :
      (s t : Settings) → SameButSecrets url s t → safe_summary url s ≡ safe_summary url t
  unfolding safe_summary redact_secret enabled implemented
  safe_summary-same s t h = cc (
    redact_url-same s.database.url t.database.url h.database_url,
    redact_url-same s.redis.url t.redis.url h.redis_url,
    h.app,
    h.api,
    h.queue_prefix,
    h.bot_token,
    h.polling,
    h.provider,
    h.model,
    h.api_key,
    h.secret_key,
    h.requests,
    h.size,
    h.features,
  )
