-- ===== src/Config/Numerals.antt =====
-- Python's `int(text)` in base ten, on a text without spaces around it.
use Prim.Native.Nat.{zero, suc, ◌+◌, ◌-◌, ◌*◌}
use nexabot.Prelude.{
  ℕ, String, ◌≡◌, refl, Bool, true, false, ◌&&◌, Option, none, some, List, [], ◌∷◌, leb, ◌==◌,
  if◌then◌else◌,
}
use nexabot.Prelude.Codes.{codes}
use nexabot.Prelude.Int.{ℤ, pos, negsuc}

-- The digit zero of each script: nine digits follow it.
abbrev zeros : List ℕ
zeros =
    0x30 ∷ 0x660 ∷ 0x6f0 ∷ 0x7c0 ∷ 0x966 ∷ 0x9e6 ∷ 0xa66 ∷ 0xae6 ∷ 0xb66 ∷ 0xbe6 ∷ 0xc66 ∷ 0xce6
    ∷ 0xd66 ∷ 0xde6 ∷ 0xe50 ∷ 0xed0 ∷ 0xf20 ∷ 0x1040 ∷ 0x1090 ∷ 0x17e0 ∷ 0x1810 ∷ 0x1946 ∷ 0x19d0
    ∷ 0x1a80 ∷ 0x1a90 ∷ 0x1b50 ∷ 0x1bb0 ∷ 0x1c40 ∷ 0x1c50 ∷ 0xa620 ∷ 0xa8d0 ∷ 0xa900 ∷ 0xa9d0
    ∷ 0xa9f0 ∷ 0xaa50 ∷ 0xabf0 ∷ 0xff10 ∷ 0x104a0 ∷ 0x10d30 ∷ 0x11066 ∷ 0x110f0 ∷ 0x11136 ∷ 0x111d0
    ∷ 0x112f0 ∷ 0x11450 ∷ 0x114d0 ∷ 0x11650 ∷ 0x116c0 ∷ 0x11730 ∷ 0x118e0 ∷ 0x11950 ∷ 0x11c50
    ∷ 0x11d50 ∷ 0x11da0 ∷ 0x16a60 ∷ 0x16ac0 ∷ 0x16b50 ∷ 0x1d7ce ∷ 0x1d7d8 ∷ 0x1d7e2 ∷ 0x1d7ec
    ∷ 0x1d7f6 ∷ 0x1e140 ∷ 0x1e2f0 ∷ 0x1e950 ∷ 0x1fbf0 ∷ []

abbrev digit_in : List ℕ → ℕ → Option ℕ
digit_in [] c = none
digit_in (z ∷ zs) c = if leb z c && leb c (z + 9) then some (c - z) else digit_in zs c

-- `unicodedata.decimal`
unfoldable pub decimal : ℕ → Option ℕ
decimal = digit_in zeros

-- `sys.get_int_max_str_digits()`
abbrev max_str_digits : ℕ
max_str_digits = 4300

-- The rest of a numeral behind `count` digits that spell `n`; a single underscore may stand between
-- two digits, so `after` tells that a digit stands just before.
unfoldable pub scan : List ℕ → Bool → ℕ → ℕ → Option ℕ
unfolding decimal
scan [] after count n = if after && leb count max_str_digits then some n else none
scan (c ∷ s) after count n = elim (decimal c) [
  | some d ↦ scan s true (suc count) (n * 10 + d)
  | none ↦ elim (after && c == 95) [ true ↦ scan s false count n | false ↦ none ]
]

abbrev negate : ℕ → ℤ
negate zero = pos zero
negate (suc n) = negsuc n

abbrev positive : Option ℕ → Option ℤ
positive none = none
positive (some n) = some (pos n)

abbrev negative : Option ℕ → Option ℤ
negative none = none
negative (some n) = some (negate n)

abbrev signed : List ℕ → Option ℤ
signed [] = none
signed (c ∷ s) = elim (c == 45) [
  | true ↦ negative (scan s false 0 0)
  | false ↦ elim (c == 43) [
    | true ↦ positive (scan s false 0 0)
    | false ↦ positive (scan (c ∷ s) false 0 0)
  ]
]

-- `int(text)`; none is the ValueError.
unfoldable pub int : String → Option ℤ
unfolding scan
int text = signed (codes text)

int_runs :
    (int "8000" ≡ some (pos 8000))
    × (int "-1_0" ≡ some (negsuc 9))
    × (int "1__0" ≡ none)
    × (int "+३" ≡ some (pos 3))
    × (int "" ≡ none)
unfolding int
int_runs = (refl, refl, refl, refl, refl)
