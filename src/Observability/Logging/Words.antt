-- ===== src/Observability/Logging/Words.antt =====
-- observability/logging.py: the URL pattern reads a log message word by word.
use Prim.Native.Nat.{suc, zero, ◌+◌, ◌≤◌}
use nexabot.Prelude.{
  ℕ, ◌≡◌, refl, sym, ap, ◌∙◌, inl, inr, Bool, true, false, Option, none, some, List, [], ◌∷◌, ◌++◌,
  All, length, length-append, arith, is_space, ◌==◌, Bool-cases, Option-cases,
}
use mathlib.Core.List.{append_assoc}
use nexabot.Observability.Logging.{
  is_lower, is_scheme, is_user, span, behind_colon, user_length, with_user, with_scheme,
  credentials_at, masked, sub,
}

-- A whitespace character is in no part of the pattern.
space-is_scheme : (x : ℕ) → is_space x ≡ true → is_scheme x ≡ false
unfolding is_space is_scheme
space-is_scheme x h = ground arith

space-is_user : (x : ℕ) → is_space x ≡ true → is_user x ≡ false
unfolding is_user
space-is_user x h = ground arith

space-outside :
    (x : ℕ)
    → is_space x ≡ true
    → (x == 58 ≡ false) × (x == 47 ≡ false) × (x == 64 ≡ false) × (is_lower x ≡ false)
unfolding is_space
space-outside x h = (ground arith, ground arith, ground arith, ground arith)

module _ (p : ℕ → Bool) where
  pub span-hit :
      (c : ℕ) (a : List ℕ) → p c ≡ true → span p (c ∷ a) ≡ (c ∷ (span p a).0, (span p a).1)
  span-hit c a h = rw (h, span) refl

  pub span-miss : (c : ℕ) (a : List ℕ) → p c ≡ false → span p (c ∷ a) ≡ ([], c ∷ a)
  span-miss c a h = rw (h, span) refl

  pub span-stop :
      (a : List ℕ) (x : ℕ) (t : List ℕ)
      → p x ≡ false
      → span p (a ++ x ∷ t) ≡ ((span p a).0, (span p a).1 ++ x ∷ t)
  span-stop [] x t h = span-miss x t h
  span-stop (c ∷ a) x t h = elim (Bool-cases (p c)) [
    | inl hit ↦
        rw (span-hit c (a ++ x ∷ t) hit) (rw (span-hit c a hit) (rw (span-stop a x t h) refl))
    | inr miss ↦ rw (span-miss c (a ++ x ∷ t) miss) (rw (span-miss c a miss) refl)
  ]

  span-whole :
      (a : List ℕ) (x : ℕ) (t : List ℕ)
      → All (λ c. p c ≡ true) a
      → p x ≡ false
      → span p (a ++ x ∷ t) ≡ (a, x ∷ t)
  span-whole [] x t all h = span-miss x t h
  span-whole (c ∷ a) x t (hc, all) h =
      rw (span-hit c (a ++ x ∷ t) hc) (rw (span-whole a x t all h) refl)

  length-span : (a : List ℕ) → length (span p a).0 + length (span p a).1 ≡ length a
  length-span [] = refl
  length-span (c ∷ a) = elim (Bool-cases (p c)) [
    | inl hit ↦ rw (span-hit c a hit) (omega (arith, length-span a))
    | inr miss ↦ rw (span-miss c a miss) (omega arith)
  ]

sub-suc : (k c : ℕ) (a : List ℕ) → sub (suc k) (c ∷ a) ≡ sub k a
unfolding sub
sub-suc k c a = refl

-- Skipping a prefix.
sub-skip : (a t : List ℕ) → sub (length a) (a ++ t) ≡ sub zero t
unfolding sub
sub-skip [] t = refl
sub-skip (c ∷ a) t = sub-skip a t

abbrev onto : List ℕ → Option (List ℕ) → Option (List ℕ)
onto t none = none
onto t (some s) = some (s ++ t)

behind_colon-stop :
    (r : List ℕ) (x : ℕ) (t : List ℕ)
    → is_space x ≡ true
    → behind_colon (r ++ x ∷ t) ≡ onto (x ∷ t) (behind_colon r)
behind_colon-stop [] x [] h = refl
behind_colon-stop [] x (a ∷ []) h = refl
behind_colon-stop [] x (a ∷ b ∷ t) h = rw (space-outside x h).0 refl
behind_colon-stop (a ∷ []) x [] h = refl
behind_colon-stop (a ∷ []) x (b ∷ t) h = ground (arith, (space-outside x h).1)
behind_colon-stop (a ∷ b ∷ []) x t h = ground (arith, (space-outside x h).1)
behind_colon-stop (a ∷ b ∷ c ∷ r) x t h = ground arith

user_length-stop :
    (u r : List ℕ) (x : ℕ) (t : List ℕ)
    → is_space x ≡ true
    → user_length (u, r ++ x ∷ t) ≡ user_length (u, r)
user_length-stop [] r x t h = refl
user_length-stop (u ∷ us) [] x t h = rw (space-outside x h).2 refl
user_length-stop (u ∷ us) (c ∷ r) x t h = refl

with_scheme-stop :
    (scheme : List ℕ) (s : Option (List ℕ)) (x : ℕ) (t : List ℕ)
    → is_space x ≡ true
    → with_scheme scheme (onto (x ∷ t) s) ≡ with_scheme scheme s
with_scheme-stop scheme none x t h = refl
with_scheme-stop scheme (some s) x t h =
    rw (span-stop is_user s x t (space-is_user x h))
      (ap (with_user scheme) (user_length-stop (span is_user s).0 (span is_user s).1 x t h))

credentials_at-stop :
    (c : ℕ) (a : List ℕ) (x : ℕ) (t : List ℕ)
    → is_space x ≡ true
    → credentials_at c (a ++ x ∷ t) ≡ credentials_at c a
unfolding credentials_at
credentials_at-stop c a x t h = elim (Bool-cases (is_lower c)) [
  | inl hit ↦ rw hit (
      rw (span-stop is_scheme a x t (space-is_scheme x h)) (
        rw (behind_colon-stop (span is_scheme a).1 x t h)
          (with_scheme-stop (c ∷ (span is_scheme a).0) (behind_colon (span is_scheme a).1) x t h)))
  | inr miss ↦ rw miss refl
]

-- A match ends within the text.
behind_colon-length : (r s : List ℕ) → behind_colon r ≡ some s → length r ≡ 3 + length s
behind_colon-length [] s h = absurd (cc h)
behind_colon-length (a ∷ []) s h = absurd (cc h)
behind_colon-length (a ∷ b ∷ []) s h = absurd (cc h)
behind_colon-length (a ∷ b ∷ c ∷ r) s h = ground arith

user_length-le : (u r : List ℕ) (n : ℕ) → user_length (u, r) ≡ some n → n + 1 ≤ length u + length r
user_length-le [] r n h = absurd (cc h)
user_length-le (u ∷ us) [] n h = absurd (cc h)
user_length-le (u ∷ us) (c ∷ r) n h = ground arith

with_user-le :
    (scheme : List ℕ) (found : Option ℕ) (k : List ℕ) (n : ℕ)
    → with_user scheme found ≡ some (k, n)
    → (m : ℕ) × (found ≡ some m) × (n ≡ length scheme + 3 + m)
with_user-le scheme none k n h = absurd (cc h)
with_user-le scheme (some m) k n h = (m, refl, ground arith)

with_scheme-le :
    (scheme : List ℕ) (s : Option (List ℕ)) (k : List ℕ) (n : ℕ)
    → with_scheme scheme s ≡ some (k, n)
    → (u : List ℕ) × (s ≡ some u) × (n + 1 ≤ length scheme + 3 + length u)
with_scheme-le scheme none k n h = absurd (cc h)
with_scheme-le scheme (some u) k n h =
    let (m, found, e) = with_user-le scheme (user_length (span is_user u)) k n h in
    let short = user_length-le (span is_user u).0 (span is_user u).1 m found in
    (u, refl, omega (arith, length-span is_user u))

credentials_at-le : (c : ℕ) (a k : List ℕ) (n : ℕ) → credentials_at c a ≡ some (k, n) → n ≤ length a
unfolding credentials_at
credentials_at-le c a k n h = elim (Bool-cases (is_lower c)) [
  | inl hit ↦
      let (u, found, short) =
        with_scheme-le (c ∷ (span is_scheme a).0) (behind_colon (span is_scheme a).1) k n
          (rw hit at h) in
      omega (arith, length-span is_scheme a, behind_colon-length (span is_scheme a).1 u found)
  | inr miss ↦ absurd (ground arith)
]

sub-hit :
    (c : ℕ) (a k : List ℕ) (n : ℕ)
    → credentials_at c a ≡ some (k, n)
    → sub zero (c ∷ a) ≡ masked k ++ sub n a
unfolding sub
sub-hit c a k n e = rw (e, sub) refl

pub sub-miss : (c : ℕ) (a : List ℕ) → credentials_at c a ≡ none → sub zero (c ∷ a) ≡ c ∷ sub zero a
unfolding sub
sub-miss c a e = rw (e, sub) refl

credentials_at-space : (x : ℕ) (t : List ℕ) → is_space x ≡ true → credentials_at x t ≡ none
unfolding credentials_at
credentials_at-space x t h = rw (space-outside x h).3 refl

-- Whitespace is in no match, so the words of a text are masked one by one.
pub sub-word :
    (k : ℕ) (a : List ℕ) (x : ℕ) (t : List ℕ)
    → is_space x ≡ true
    → k ≤ length a
    → sub k (a ++ x ∷ t) ≡ sub k a ++ x ∷ sub zero t
sub-word (suc k) [] x t h le = absurd (ground arith)
sub-word (suc k) (c ∷ a) x t h le =
    sub-suc k c (a ++ x ∷ t)
    ∙ sub-word k a x t h (omega arith)
    ∙ ap (λ s. s ++ x ∷ sub zero t) (sym (sub-suc k c a))
sub-word zero [] x t h le = unfold sub in sub-miss x t (credentials_at-space x t h)
sub-word zero (c ∷ a) x t h le = elim (Option-cases (credentials_at c a)) [
  | inl none_found ↦
      rw (sub-miss c (a ++ x ∷ t) (credentials_at-stop c a x t h ∙ none_found))
        (rw (sub-miss c a none_found) (ap (λ s. c ∷ s) (sub-word zero a x t h (omega arith))))
  | inr ((scheme, n), found) ↦
      rw (sub-hit c (a ++ x ∷ t) scheme n (credentials_at-stop c a x t h ∙ found)) (
        rw (sub-hit c a scheme n found) (
          ap (λ s. masked scheme ++ s) (sub-word n a x t h (credentials_at-le c a scheme n found))
          ∙ sym (append_assoc (masked scheme) (sub n a) (x ∷ sub zero t))))
]

colon-is_scheme : is_scheme 58 ≡ false
unfolding is_scheme
colon-is_scheme = refl

at-is_user : is_user 64 ≡ false
unfolding is_user is_space
at-is_user = refl

-- The pattern matches at a scheme with a user behind it.
credentials_at-url :
    (c : ℕ) (name : List ℕ) (u : ℕ) (us post : List ℕ)
    → is_lower c ≡ true
    → All (λ x. is_scheme x ≡ true) name
    → All (λ x. is_user x ≡ true) (u ∷ us)
    → credentials_at c (name ++ 58 ∷ 47 ∷ 47 ∷ u ∷ (us ++ 64 ∷ post))
      ≡ some (c ∷ name, length (c ∷ name) + 3 + length (u ∷ us))
unfolding credentials_at
credentials_at-url c name u us post hc hn hu = rw hc (
    rw (span-whole is_scheme name 58 (47 ∷ 47 ∷ u ∷ (us ++ 64 ∷ post)) hn colon-is_scheme) (
      ap (λ r. with_user (c ∷ name) (user_length r))
        (span-whole is_user (u ∷ us) 64 post hu at-is_user)))

-- What a match covers behind its first character.
abbrev matched : List ℕ → ℕ → List ℕ → List ℕ
matched name u us = name ++ 58 ∷ 47 ∷ 47 ∷ u ∷ (us ++ 64 ∷ [])

matched-append :
    (name : List ℕ) (u : ℕ) (us post : List ℕ)
    → matched name u us ++ post ≡ name ++ 58 ∷ 47 ∷ 47 ∷ u ∷ (us ++ 64 ∷ post)
matched-append name u us post =
    append_assoc name (58 ∷ 47 ∷ 47 ∷ u ∷ (us ++ 64 ∷ [])) post
    ∙ ap (λ s. name ++ 58 ∷ 47 ∷ 47 ∷ u ∷ s) (append_assoc us (64 ∷ []) post)

length-matched :
    (c : ℕ) (name : List ℕ) (u : ℕ) (us : List ℕ)
    → length (matched name u us) ≡ length (c ∷ name) + 3 + length (u ∷ us)
length-matched c name u us =
    omega
      (arith, length-append name (58 ∷ 47 ∷ 47 ∷ u ∷ (us ++ 64 ∷ [])), length-append us (64 ∷ []))

skip-url :
    (c : ℕ) (name : List ℕ) (u : ℕ) (us post : List ℕ)
    → sub (length (c ∷ name) + 3 + length (u ∷ us)) (name ++ 58 ∷ 47 ∷ 47 ∷ u ∷ (us ++ 64 ∷ post))
      ≡ sub zero post
skip-url c name u us post =
    rw (← length-matched c name u us)
      (rw (← matched-append name u us post) (sub-skip (matched name u us) post))

-- A URL at the start of a text is masked up to its "@".
pub sub-url :
    (c : ℕ) (name : List ℕ) (u : ℕ) (us post : List ℕ)
    → is_lower c ≡ true
    → All (λ x. is_scheme x ≡ true) name
    → All (λ x. is_user x ≡ true) (u ∷ us)
    → sub zero (c ∷ (name ++ 58 ∷ 47 ∷ 47 ∷ u ∷ (us ++ 64 ∷ post)))
      ≡ masked (c ∷ name) ++ sub zero post
sub-url c name u us post hc hn hu =
    sub-hit c _ (c ∷ name) _ (credentials_at-url c name u us post hc hn hu)
    ∙ ap (λ s. masked (c ∷ name) ++ s) (skip-url c name u us post)
