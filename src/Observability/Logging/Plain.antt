-- ===== src/Observability/Logging/Plain.antt =====
-- observability/logging.py: text without a colon is written as it is.
use Prim.Native.Nat.{zero}
use nexabot.Prelude.{
  ℕ, ◌≡◌, refl, ap, ◌∙◌, inl, inr, Bool, false, none, List, [], ◌∷◌, ◌++◌, All, arith, ◌==◌,
  Bool-cases,
}
use nexabot.Observability.Logging.{
  is_lower, is_scheme, span, behind_colon, with_scheme, credentials_at, sub,
}
use nexabot.Observability.Logging.Words.{span-stop, span-hit, span-miss, sub-miss}

abbrev pub HasNoColon : List ℕ → Type 0
HasNoColon = All (λ c. c == 58 ≡ false)

span-HasNoColon : (p : ℕ → Bool) (a : List ℕ) → HasNoColon a → HasNoColon (span p a).1
span-HasNoColon p [] h = tt
span-HasNoColon p (c ∷ a) (hc, h) = elim (Bool-cases (p c)) [
  | inl hit ↦ rw (span-hit p c a hit) (span-HasNoColon p a h)
  | inr miss ↦ rw (span-miss p c a miss) (hc, h)
]

colon-first : (c : ℕ) (s : List ℕ) → c == 58 ≡ false → behind_colon (c ∷ s) ≡ none
colon-first c [] h = refl
colon-first c (b ∷ []) h = refl
colon-first c (b ∷ d ∷ s) h = rw h refl

behind_colon-plain :
    (r : List ℕ) (x : ℕ) (t : List ℕ)
    → HasNoColon r
    → x == 58 ≡ false
    → behind_colon (r ++ x ∷ t) ≡ none
behind_colon-plain [] x t h hx = colon-first x t hx
behind_colon-plain (c ∷ r) x t (hc, h) hx = colon-first c (r ++ x ∷ t) hc

credentials_at-plain :
    (c : ℕ) (a : List ℕ) (x : ℕ) (t : List ℕ)
    → HasNoColon a
    → is_scheme x ≡ false
    → x == 58 ≡ false
    → credentials_at c (a ++ x ∷ t) ≡ none
unfolding credentials_at
credentials_at-plain c a x t h hs hx = elim (Bool-cases (is_lower c)) [
  | inl hit ↦ rw hit (
      rw (span-stop is_scheme a x t hs) (
        ap (with_scheme (c ∷ (span is_scheme a).0))
          (behind_colon-plain (span is_scheme a).1 x t (span-HasNoColon is_scheme a h) hx)))
  | inr miss ↦ rw miss refl
]

-- A character outside a scheme starts no match.
credentials_at-outside : (x : ℕ) (t : List ℕ) → is_scheme x ≡ false → credentials_at x t ≡ none
unfolding credentials_at is_scheme
credentials_at-outside x t h = elim (Bool-cases (is_lower x)) [
  | inl hit ↦ absurd (ground arith)
  | inr miss ↦ rw miss refl
]

pub sub-plain :
    (a : List ℕ) (x : ℕ) (t : List ℕ)
    → HasNoColon a
    → is_scheme x ≡ false
    → x == 58 ≡ false
    → sub zero (a ++ x ∷ t) ≡ a ++ x ∷ sub zero t
sub-plain [] x t h hs hx = sub-miss x t (credentials_at-outside x t hs)
sub-plain (c ∷ a) x t (hc, h) hs hx =
    sub-miss c (a ++ x ∷ t) (credentials_at-plain c a x t h hs hx)
    ∙ ap (λ s. c ∷ s) (sub-plain a x t h hs hx)
