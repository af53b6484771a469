-- ===== src/Observability/Logging/Secrecy.antt =====
-- observability/logging.py: a formatted record shows no secret. Records that differ in their secrets
-- alone are written alike.
use nexabot.Prelude.{
  ℕ, String, ◌≡◌, refl, sym, ap, ◌∙◌, ◌==◌, true, false, List, ◌∷◌, ◌++◌, All, is_space, arith,
  zero,
}
use nexabot.Observability.Logging.{
  is_lower, is_scheme, is_user, sub, Value, text, dict, list, tuple, other, Fields, end, field,
  Values, nil, cons, is_secret, mask, masked, redact, redact_fields, redact_items,
}
use nexabot.Observability.Logging.Words.{sub-word, sub-url}
use nexabot.Observability.Logging.Plain.{HasNoColon, sub-plain}

-- Texts that differ in the credentials of their URLs alone, where each such URL stands at the start
-- of the text, behind whitespace, behind another such URL, or behind text without a colon that does
-- not end in a character of a scheme.
pub data SameText : List ℕ → List ℕ → Type 0 where
  same : (s : List ℕ) → SameText s s
  word :
      (a : List ℕ) (x : ℕ) (s t : List ℕ)
      → is_space x ≡ true
      → SameText s t
      → SameText (a ++ x ∷ s) (a ++ x ∷ t)
  plain :
      (a : List ℕ) (x : ℕ) (s t : List ℕ)
      → HasNoColon a
      → is_scheme x ≡ false
      → x == 58 ≡ false
      → SameText s t
      → SameText (a ++ x ∷ s) (a ++ x ∷ t)
  url :
      (c : ℕ) (name : List ℕ) (u : ℕ) (us : List ℕ) (v : ℕ) (vs s t : List ℕ)
      → is_lower c ≡ true
      → All (λ x. is_scheme x ≡ true) name
      → All (λ x. is_user x ≡ true) (u ∷ us)
      → All (λ x. is_user x ≡ true) (v ∷ vs)
      → SameText s t
      → SameText
          (c ∷ (name ++ 58 ∷ 47 ∷ 47 ∷ u ∷ (us ++ 64 ∷ s)))
          (c ∷ (name ++ 58 ∷ 47 ∷ 47 ∷ v ∷ (vs ++ 64 ∷ t)))

-- Values that differ in the credentials of their texts, and below their secret keys, alone.
mutual
  pub data SameValue : Value → Value → Type 0 where
    texts : {s t : List ℕ} → SameText s t → SameValue (text s) (text t)
    dicts : {f g : Fields} → SameFields f g → SameValue (dict f) (dict g)
    lists : {v w : Values} → SameItems v w → SameValue (list v) (list w)
    tuples : {v w : Values} → SameItems v w → SameValue (tuple v) (tuple w)
    others : (v : String) → SameValue (other v) (other v)

  pub data SameFields : Fields → Fields → Type 0 where
    ends : SameFields end end
    hidden :
        (key : String) (v w : Value) {f g : Fields}
        → is_secret key ≡ true
        → SameFields f g
        → SameFields (field key v f) (field key w g)
    shown :
        (key : String) {v w : Value} {f g : Fields}
        → SameValue v w
        → SameFields f g
        → SameFields (field key v f) (field key w g)

  pub data SameItems : Values → Values → Type 0 where
    nils : SameItems nil nil
    items :
        {v w : Value} {vs ws : Values}
        → SameValue v w
        → SameItems vs ws
        → SameItems (cons v vs) (cons w ws)

sub-same : (s t : List ℕ) → SameText s t → sub zero s ≡ sub zero t
sub-same _ _ (same s) = refl
sub-same _ _ (word a x s t h rest) =
    sub-word zero a x s h (omega arith)
    ∙ ap (λ r. sub zero a ++ x ∷ r) (sub-same s t rest)
    ∙ sym (sub-word zero a x t h (omega arith))
sub-same _ _ (plain a x s t h hs hx rest) =
    sub-plain a x s h hs hx
    ∙ ap (λ r. a ++ x ∷ r) (sub-same s t rest)
    ∙ sym (sub-plain a x t h hs hx)
sub-same _ _ (url c name u us v vs s t hc hn hu hv rest) =
    sub-url c name u us s hc hn hu
    ∙ ap (λ r. masked (c ∷ name) ++ r) (sub-same s t rest)
    ∙ sym (sub-url c name v vs t hc hn hv)

mutual
  unfolding redact

  redact_value-same : {v w : Value} → SameValue v w → redact v ≡ redact w
  redact_value-same (texts h) = ap text (sub-same _ _ h)
  redact_value-same (dicts h) = ap dict (redact_fields-same h)
  redact_value-same (lists h) = ap list (redact_items-same h)
  redact_value-same (tuples h) = ap tuple (redact_items-same h)
  redact_value-same (others v) = refl

  redact_fields-same : {f g : Fields} → SameFields f g → redact_fields f ≡ redact_fields g
  redact_fields-same ends = refl
  redact_fields-same (hidden key v w h rest) = rw h (ap (field key mask) (redact_fields-same rest))
  redact_fields-same (shown key h rest) = cc (redact_value-same h, redact_fields-same rest)

  redact_items-same : {v w : Values} → SameItems v w → redact_items v ≡ redact_items w
  redact_items-same nils = refl
  redact_items-same (items h rest) = cc (redact_value-same h, redact_items-same rest)

-- Values that differ alone in what stands below a key that names a secret, at any depth, and in the
-- credentials of URLs, are redacted alike. The URLs are those that stand at the start of a text, behind whitespace, behind another such URL, or behind text
-- without a colon that does not end in a character of a scheme, such as an opening quote.
pub redact-same : (v w : Value) → SameValue v w → redact v ≡ redact w
redact-same v w h = redact_value-same h
