-- ===== src/Prelude/Codes.antt =====
-- A Python text as its code points, with the mappings of case that comparisons with ASCII words see.
use Prim.Native.Nat.{ℕ, ◌+◌, ◌-◌}
use Prim.Native.Char.{code}
use Prim.Native.String.{String}
use mathlib.Core.Bool.{Bool, true, false, ◌&&◌, ◌||◌}
use mathlib.Core.List.{List, [], ◌∷◌, map}
use nexabot.Prelude.Tests.{leb, ◌==◌, if◌then◌else◌}

abbrev pub codes : String → List ℕ
codes String.[] = []
codes (String.◌∷◌ c s) = code c ∷ codes s

-- `a == b`
unfoldable pub same_codes : List ℕ → List ℕ → Bool
same_codes [] [] = true
same_codes (a ∷ s) (b ∷ t) = a == b && same_codes s t
same_codes _ _ = false

-- `str.lower`, up to characters that no ASCII text has: besides A to Z, the Kelvin sign is the only
-- one that becomes ASCII.
abbrev lower_code : ℕ → ℕ
lower_code c = if leb 65 c && leb c 90 then c + 32 else if c == 0x212a then 107 else c

unfoldable pub lower : String → List ℕ
lower s = map lower_code (codes s)

-- `str.upper`, likewise: the dotless i and the long s become ASCII letters. The sharp s and the
-- ligatures, which become two letters (SS, FF, FI, FL, ST) or three, are in no word compared here.
abbrev upper_code : ℕ → ℕ
upper_code c =
    if leb 97 c && leb c 122
    then c - 32
    else if c == 0x131
    then 73
    else if c == 0x17f
    then 83
    else c

unfoldable pub upper : String → List ℕ
upper s = map upper_code (codes s)

-- What `re.IGNORECASE` identifies with a lower-case ASCII letter: its capital, both Turkish i, the
-- long s and the Kelvin sign.
abbrev fold_code : ℕ → ℕ
fold_code c =
    if leb 65 c && leb c 90
    then c + 32
    else if c == 0x130 || c == 0x131
    then 105
    else if c == 0x17f
    then 115
    else if c == 0x212a
    then 107
    else c

unfoldable pub fold_case : String → List ℕ
fold_case s = map fold_code (codes s)

unfoldable pub is_prefix : List ℕ → List ℕ → Bool
is_prefix [] s = true
is_prefix (a ∷ p) (b ∷ s) = a == b && is_prefix p s
is_prefix (a ∷ p) [] = false

-- `word in s`
unfoldable pub contains : List ℕ → List ℕ → Bool
contains word [] = is_prefix word []
contains word (a ∷ s) = is_prefix word (a ∷ s) || contains word s
