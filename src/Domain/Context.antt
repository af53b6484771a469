-- ===== src/Domain/Context.antt =====
-- domain/agent/context.py: the token estimate and the selection of history that fits a budget.
pub mod Budget
use nexabot.Prelude.{ℕ, ◌+◌, ◌-◌, ◌/◌, String, List, [], ◌∷◌, len, ltb, reverse, if◌then◌else◌}
use nexabot.Prelude.Int.{ℤ, not_positive, to_ℕ}
use nexabot.Domain.Conversations.{Message}

abbrev pub chars_per_token : ℕ
chars_per_token = 3

abbrev pub message_token_overhead : ℕ
message_token_overhead = 4

-- `-(-n // d)` is the quotient rounded up.
unfoldable pub estimate_tokens : String → ℕ
estimate_tokens text = (len text + (chars_per_token - 1)) / chars_per_token + message_token_overhead

-- The loop over the reversed messages; `selected` grows at its end, so newest first.
unfoldable pub select_newest : ℕ → List Message → List Message
select_newest remaining [] = []
select_newest remaining (message ∷ older) =
    let cost = estimate_tokens message.content in
    let rest = select_newest (remaining - cost) older in
    if ltb remaining cost then [] else message ∷ rest

unfoldable pub select_within_token_budget : ℤ → List Message → List Message
unfolding select_newest
select_within_token_budget budget messages =
    if not_positive budget then [] else reverse (select_newest (to_ℕ budget) (reverse messages))
