-- ===== src/Config/Settings/Ranges.antt =====
-- config/settings.py: which numbers the fields of the settings take.
use nexabot.Prelude.{
  ℕ, ◌≤◌, ◌≡◌, refl, ap, ◌⊎◌, inl, inr, Bool, true, false, ◌||◌, arith, Bool-cases,
}
use nexabot.Prelude.Int.{ℤ, pos, negsuc, to_ℕ, not_positive}
use nexabot.Config.Settings.{port_broken}

-- What the fields with `ge=1` take, and the port with its `le=65535`.
abbrev pub IsPositive : ℤ → Type 0
IsPositive z = (n : ℕ) × (z ≡ pos n) × (1 ≤ n)

abbrev pub IsPort : ℤ → Type 0
IsPort z = (n : ℕ) × (z ≡ pos n) × (1 ≤ n) × (n ≤ 65535)

-- A test that decides whether a field takes its value.
abbrev pub Decides : Bool → Type 0 → Type 0
Decides broken Good = ((broken ≡ true) × ¬ Good) ⊎ ((broken ≡ false) × Good)

pub port_broken-cases : (z : ℤ) → Decides (port_broken z) (IsPort z)
port_broken-cases (negsuc n) = inl (refl, λ (m, e, low, high). absurd (cc e))
port_broken-cases (pos n) = elim (Bool-cases (port_broken (pos n))) [
  | inl broken ↦ inl (broken, λ (m, e, low, high). absurd (ground (arith, ap to_ℕ e)))
  | inr valid ↦ inr (valid, (n, refl, ground arith, ground arith))
]

positive-cases : (z : ℤ) → Decides (not_positive z) (IsPositive z)
positive-cases (negsuc n) = inl (refl, λ (m, e, low). absurd (cc e))
positive-cases (pos n) = elim (Bool-cases (not_positive (pos n))) [
  | inl broken ↦ inl (broken, λ (m, e, low). absurd (ground (arith, ap to_ℕ e)))
  | inr valid ↦ inr (valid, (n, refl, ground arith))
]

pub limits-cases :
    (r s : ℤ) → Decides (not_positive r || not_positive s) (IsPositive r × IsPositive s)
limits-cases r s = elim (positive-cases r) [
  | inl (broken, bad) ↦ inl (rw broken refl, λ (good, _). bad good)
  | inr (valid, good) ↦ elim (positive-cases s) [
    | inl (broken, bad) ↦ inl (rw valid broken, λ (_, other). bad other)
    | inr (also, other) ↦ inr (rw valid also, (good, other))
  ]
]
