-- ===== src/Prelude/Str.antt =====
-- Python's `str`: length, `strip`, and the laws that the entities rest on.
use Prim.Native.Nat.{ℕ, suc}
use Prim.Native.Char.{Char, code}
use Prim.Native.String.{String}
use mathlib.Core.Path.{◌≡◌, refl}
use mathlib.Core.Logic.{inl, inr}
use mathlib.Core.Bool.{Bool, true, false, ◌&&◌, ◌||◌}
use nexabot.Prelude.Tests.{leb, ◌==◌, if◌then◌else◌, Bool-cases}

-- `len(s)`: the number of code points.
unfoldable pub len : String → ℕ
len String.[] = 0
len (String.◌∷◌ c s) = suc (len s)

-- `not s`
unfoldable pub is_empty : String → Bool
is_empty String.[] = true
is_empty (String.◌∷◌ c s) = false

-- The code points that `str.strip` removes.
unfoldable pub is_space : ℕ → Bool
is_space c =
    (leb 9 c && leb c 13)
    || (leb 28 c && leb c 32)
    || c == 0x85
    || c == 0xa0
    || c == 0x1680
    || (leb 0x2000 c && leb c 0x200a)
    || c == 0x2028
    || c == 0x2029
    || c == 0x202f
    || c == 0x205f
    || c == 0x3000

unfoldable pub lstrip : String → String
lstrip String.[] = String.[]
lstrip (String.◌∷◌ c s) = if is_space (code c) then lstrip s else String.◌∷◌ c s

-- A space goes if all that follows it goes.
abbrev trim : Char → String → String
trim c r = if is_space (code c) && is_empty r then String.[] else String.◌∷◌ c r

unfoldable pub rstrip : String → String
rstrip String.[] = String.[]
rstrip (String.◌∷◌ c s) = trim c (rstrip s)

unfoldable pub strip : String → String
unfolding lstrip rstrip is_empty
strip s = rstrip (lstrip s)

rstrip-trim : (c : Char) (s : String) → rstrip s ≡ s → rstrip (trim c s) ≡ trim c s
unfolding rstrip is_empty
rstrip-trim c s h = elim (Bool-cases (is_space (code c) && is_empty s)) [
  | inl gone ↦ rw gone refl
  | inr kept ↦ rw kept (rw h (rw kept refl))
]

rstrip-rstrip : (s : String) → rstrip (rstrip s) ≡ rstrip s
unfolding rstrip
rstrip-rstrip String.[] = refl
rstrip-rstrip (String.◌∷◌ c s) = rstrip-trim c (rstrip s) (rstrip-rstrip s)

lstrip_kept :
    (c : Char) (s : String)
    → is_space (code c) ≡ false
    → lstrip (rstrip (String.◌∷◌ c s)) ≡ rstrip (String.◌∷◌ c s)
unfolding lstrip rstrip
lstrip_kept c s h = rw h (rw h refl)

lstrip-rstrip-lstrip : (s : String) → lstrip (rstrip (lstrip s)) ≡ rstrip (lstrip s)
unfolding lstrip
lstrip-rstrip-lstrip String.[] = unfold rstrip in refl
lstrip-rstrip-lstrip (String.◌∷◌ c s) = elim (Bool-cases (is_space (code c))) [
  | inl space ↦ rw space (lstrip-rstrip-lstrip s)
  | inr kept ↦ rw kept (lstrip_kept c s kept)
]

-- Stripping twice is stripping once.
pub strip-strip : (s : String) → strip (strip s) ≡ strip s
unfolding strip
strip-strip s = rw lstrip-rstrip-lstrip (rstrip-rstrip (lstrip s))

trim-kept : (c : Char) (r : String) → is_space (code c) ≡ false → is_empty (trim c r) ≡ false
unfolding is_empty
trim-kept c r h = rw h refl

-- A text that does not begin with a space is not stripped away.
pub strip-kept :
    (c : Char) (s : String) → is_space (code c) ≡ false → is_empty (strip (String.◌∷◌ c s)) ≡ false
unfolding strip lstrip rstrip
strip-kept c s h = rw h (trim-kept c (rstrip s) h)
