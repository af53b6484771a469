-- ===== src/Ports/Repositories.antt =====
-- ports/repositories/conversations.py and idempotency.py: the message window and the
-- idempotency records.
use nexabot.Prelude.{ℕ, String, Bool, Option, [], ◌∷◌, if◌then◌else◌}
use nexabot.Prelude.Int.{ℤ, pos, not_positive, exceeds, to_ℕ}
use nexabot.Domain.Errors.{Detail, validation_error}
use nexabot.Domain.Json.{Mapping}
use nexabot.Exec.{Result, ok, fails}

abbrev pub default_message_window : ℕ
default_message_window = 50

abbrev pub max_message_window : ℕ
max_message_window = 500

unfoldable pub validate_message_window : ℤ → Result ℕ
validate_message_window limit =
    if not_positive limit
    then fails (
        validation_error "Message window must be positive." "message_window_invalid"
          (("requested", Detail.int limit) ∷ []))
    else if exceeds limit max_message_window
    then fails (
        validation_error "Message window exceeds the maximum page size." "message_window_too_large"
          (("requested", Detail.int limit) ∷ ("maximum", Detail.int (pos max_message_window)) ∷ []))
    else ok (to_ℕ limit)

abbrev pub default_claim_ttl_seconds : ℕ
default_claim_ttl_seconds = 300

pub data IdempotencyState : Type 0 where
  started completed failed : IdempotencyState

-- `owned` and `claim_token` say whether this caller holds the claim, and prove it.
pub record IdempotencyRecord : Type 0 where
  pub namespace : String
  pub key : String
  pub state : IdempotencyState
  pub result : Mapping
  pub owned : Bool
  pub claim_token : Option ℕ
