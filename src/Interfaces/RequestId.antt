-- ===== src/Interfaces/RequestId.antt =====
-- interfaces/api/middleware.py: which inbound request id is echoed and logged.
use Prim.Native.Char.{code}
use Prim.Native.String.{String}
use nexabot.Prelude.{
  ℕ, ◌≤◌, ◌≡◌, ap, ◌∙◌, Bool, true, false, not, ◌&&◌, ◌||◌, Option, none, some, arith, is_empty,
  len, strip, strip-strip, ltb, leb, if◌then◌else◌,
}

abbrev pub max_inbound_request_id_length : ℕ
max_inbound_request_id_length = 128

-- `isascii`
unfoldable pub is_ascii : String → Bool
is_ascii String.[] = true
is_ascii (String.◌∷◌ c s) = ltb (code c) 128 && is_ascii s

-- `isprintable`, which the code asks of ASCII texts only: there the printable characters are those
-- from the space to the tilde.
unfoldable pub is_printable : String → Bool
is_printable String.[] = true
is_printable (String.◌∷◌ c s) = (leb 32 (code c) && leb (code c) 126) && is_printable s

-- The checks of `_accept_inbound_request_id` on the stripped value.
unfoldable pub accept_candidate : String → Option String
accept_candidate candidate =
    if is_empty candidate || ltb max_inbound_request_id_length (len candidate)
    then none
    else if not (is_ascii candidate) || not (is_printable candidate)
    then none
    else some candidate

-- `_accept_inbound_request_id`
unfoldable pub accept_inbound_request_id : Option String → Option String
unfolding accept_candidate
accept_inbound_request_id none = none
accept_inbound_request_id (some raw) = accept_candidate (strip raw)

-- A character that cannot end a log line or start a control sequence.
abbrev pub AllVisible : String → Type 0
AllVisible String.[] = Unit {0}
AllVisible (String.◌∷◌ c s) = (32 ≤ code c) × (code c ≤ 126) × AllVisible s

printable-AllVisible : (s : String) → is_printable s ≡ true → AllVisible s
unfolding is_printable
printable-AllVisible String.[] h = tt
printable-AllVisible (String.◌∷◌ c s) h =
    (ground arith, ground arith, printable-AllVisible s (ground arith))

accept_candidate-eq-some :
    (candidate id : String)
    → accept_candidate candidate ≡ some id
    → (id ≡ candidate)
      × (is_empty candidate ≡ false)
      × (len candidate ≤ 128)
      × (is_printable candidate ≡ true)
unfolding accept_candidate
accept_candidate-eq-some candidate id h = (ground arith, ground arith, ground arith, ground arith)

-- An inbound request id that is accepted is not empty, has at most 128 characters, all of them
-- printable ASCII, so no line break, and is accepted again unchanged.
pub accept_inbound_request_id_sound :
    (raw : Option String) (id : String)
    → accept_inbound_request_id raw ≡ some id
    → (is_empty id ≡ false)
      × (len id ≤ 128)
      × AllVisible id
      × (accept_inbound_request_id (some id) ≡ some id)
unfolding accept_inbound_request_id
accept_inbound_request_id_sound none id h = absurd (ground arith)
accept_inbound_request_id_sound (some raw) id h =
    let (same, written, short, printable) = accept_candidate-eq-some (strip raw) id h in
    (
      ap is_empty same ∙ written,
      rw same short,
      rw same (printable-AllVisible (strip raw) printable),
      ap (λ s. accept_candidate (strip s)) same ∙ ap accept_candidate (strip-strip raw) ∙ h,
    )
