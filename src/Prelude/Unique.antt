-- ===== src/Prelude/Unique.antt =====
-- Tables in which at most one row passes a test.
use mathlib.Core.Path.{◌≡◌, refl}
use mathlib.Core.Bool.{Bool, true, false, ◌||◌}
use mathlib.Core.Option.{Option, none, some}
use mathlib.Core.List.{List, [], ◌∷◌, ◌++◌}
use native.Mathlib.Omega.{arith}
use nexabot.Prelude.Tests.{if◌then◌else◌}
use nexabot.Prelude.Lists.{find, any, select, update_where}

module _ {A : Type 0} where
  -- A row that passes is followed by none.
  abbrev pub Unique : (A → Bool) → List A → Type 0
  Unique p [] = Unit {0}
  Unique p (x ∷ xs) = (p x ≡ true → any p xs ≡ false) × Unique p xs

  -- What an UPDATE makes of the row that a query finds.
  abbrev pub changed : (A → Bool) → (A → A) → Option A → Option A
  changed q f none = none
  changed q f (some x) = some (if q x then f x else x)

  abbrev pub matched : (A → Bool) → Option A → List A
  matched q none = []
  matched q (some x) = if q x then x ∷ [] else []

  pub find-update_where :
      (p q : A → Bool) (f : A → A)
      → ((x : A) → p (f x) ≡ p x)
      → (xs : List A) → find p (update_where q f xs) ≡ changed q f (find p xs)
  find-update_where p q f same [] = refl
  find-update_where p q f same (x ∷ xs) = ground (arith, same x, find-update_where p q f same xs)

  pub any-update_where :
      (p q : A → Bool) (f : A → A)
      → ((x : A) → p (f x) ≡ p x)
      → (xs : List A) → any p (update_where q f xs) ≡ any p xs
  any-update_where p q f same [] = refl
  any-update_where p q f same (x ∷ xs) = ground (arith, same x, any-update_where p q f same xs)

  pub Unique-update_where :
      (p q : A → Bool) (f : A → A)
      → ((x : A) → p (f x) ≡ p x)
      → (xs : List A) → Unique p xs
      → Unique p (update_where q f xs)
  Unique-update_where p q f same [] u = tt
  Unique-update_where p q f same (x ∷ xs) u = (
    λ h. ground (arith, u.0, same x, any-update_where p q f same xs),
    Unique-update_where p q f same xs u.1,
  )

  any-append : (p : A → Bool) (xs : List A) (y : A) → any p (xs ++ y ∷ []) ≡ any p xs || p y
  any-append p [] y = ground arith
  any-append p (x ∷ xs) y = ground (arith, any-append p xs y)

  pub Unique-append :
      (p : A → Bool) (xs : List A) (y : A)
      → Unique p xs
      → any p xs ≡ false
      → Unique p (xs ++ y ∷ [])
  Unique-append p [] y u h = (λ _. refl, tt)
  Unique-append p (x ∷ xs) y u h =
      (λ e. absurd (ground arith), Unique-append p xs y u.1 (ground arith))

  pub Unique-append_other :
      (p : A → Bool) (xs : List A) (y : A) → Unique p xs → p y ≡ false → Unique p (xs ++ y ∷ [])
  Unique-append_other p [] y u h = (λ _. refl, tt)
  Unique-append_other p (x ∷ xs) y u h =
      (λ e. ground (arith, u.0, any-append p xs y), Unique-append_other p xs y u.1 h)

  pub find-none-any : (p : A → Bool) (xs : List A) → any p xs ≡ false → find p xs ≡ none
  find-none-any p [] h = refl
  find-none-any p (x ∷ xs) h = ground (arith, find-none-any p xs)

  -- A narrower test selects at most the one row.
  select_none :
      (p q : A → Bool)
      → ((x : A) → q x ≡ true → p x ≡ true)
      → (xs : List A) → any p xs ≡ false
      → select q xs ≡ []
  select_none p q narrow [] h = refl
  select_none p q narrow (x ∷ xs) h = ground (arith, narrow x, select_none p q narrow xs)

  pub select-Unique :
      (p q : A → Bool)
      → ((x : A) → q x ≡ true → p x ≡ true)
      → (xs : List A) → Unique p xs
      → select q xs ≡ matched q (find p xs)
  select-Unique p q narrow [] u = refl
  select-Unique p q narrow (x ∷ xs) u =
      ground (arith, narrow x, u.0, select-Unique p q narrow xs u.1, select_none p q narrow xs)

  pub update_where_none :
      (q : A → Bool) (f : A → A) (xs : List A) → select q xs ≡ [] → update_where q f xs ≡ xs
  update_where_none q f [] h = refl
  update_where_none q f (x ∷ xs) h = ground (arith, update_where_none q f xs)

  any-found :
      (p q : A → Bool) (xs : List A) (r : A) → find p xs ≡ some r → q r ≡ true → any q xs ≡ true
  any-found p q [] r h e = absurd (ground arith)
  any-found p q (x ∷ xs) r h e = ground (arith, any-found p q xs r)

  -- The one row of another test, if it passes this one.
  pub find-Unique :
      (p q : A → Bool) (xs : List A) (r : A)
      → find p xs ≡ some r
      → q r ≡ true
      → Unique q xs
      → find q xs ≡ some r
  find-Unique p q [] r h e u = absurd (ground arith)
  find-Unique p q (x ∷ xs) r h e u = ground (arith, any-found p q xs r, u.0, find-Unique p q xs r)

  pub any-or : (p q : A → Bool) (xs : List A) → any (λ x. p x || q x) xs ≡ (any p xs || any q xs)
  any-or p q [] = refl
  any-or p q (x ∷ xs) = ground (arith, any-or p q xs)
