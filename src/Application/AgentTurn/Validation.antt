-- ===== src/Application/AgentTurn/Validation.antt =====
-- application/agent/use_cases.py: which commands `_validate_input` lets through.
use nexabot.Prelude.{
  ◌≡◌, refl, ap, ◌∙◌, ◌≤◌, ◌⊎◌, inl, inr, String, Bool, true, false, arith, len, is_empty, strip,
  ◌||◌,
}
use nexabot.Prelude.Int.{ℤ, pos, negsuc, not_positive, exceeds, to_ℕ}
use nexabot.Domain.Errors.{NexaBotError, ErrorCategory, Exception, validation, domain_error}
use nexabot.Domain.Context.{estimate_tokens}
use nexabot.Application.AgentTurn.Command.{RunAgentTurnCommand, validate_input, check_text}
use nexabot.Exec.{ok, err, Result-cases}

-- What the code promises of an accepted command, in numbers.
pub record IsAcceptable (text : String) (command : RunAgentTurnCommand) : Type 0 where
  pub written : is_empty text ≡ false
  pub short : len text ≤ 32000
  pub window_low : 1 ≤ to_ℕ command.context_window
  pub window_high : to_ℕ command.context_window ≤ 500
  pub affordable : estimate_tokens text ≤ command.limits.max_context_tokens

window_range : (z : ℤ) → (not_positive z || exceeds z 500) ≡ false → (1 ≤ to_ℕ z) × (to_ℕ z ≤ 500)
window_range (pos n) h = (ground arith, ground arith)
window_range (negsuc n) h = absurd (ground arith)

window_accepted : (z : ℤ) → 1 ≤ to_ℕ z → to_ℕ z ≤ 500 → (not_positive z || exceeds z 500) ≡ false
window_accepted (pos n) low high = ground arith
window_accepted (negsuc n) low high = absurd (omega arith)

abbrev is_validation : ErrorCategory → Bool
is_validation validation = true
is_validation _ = false

abbrev is_refusal : Exception → Bool
is_refusal (domain_error f) = is_validation f.category
is_refusal _ = false

validation_only : (c : ErrorCategory) → is_validation c ≡ true → c ≡ validation
validation_only validation h = refl
validation_only _ h = absurd (ground arith)

module _ (text : String) (command : RunAgentTurnCommand) where
  check_text_sound :
      {given : String}
      → check_text text command ≡ ok given
      → (given ≡ text) × IsAcceptable text command
  unfolding check_text
  check_text_sound h =
      let (low, high) = window_range command.context_window (ground arith) in
      (
        ground arith,
        record {
          written = ground arith;
          short = ground arith;
          window_low = low;
          window_high = high;
          affordable = ground arith;
        },
      )

  check_text-accepts : IsAcceptable text command → check_text text command ≡ ok text
  unfolding check_text
  check_text-accepts a =
      let window = window_accepted command.context_window a.window_low a.window_high in
      ground (arith, a.written, a.short, a.affordable)

  -- Every refusal of the checks is a validation error.
  check_text-rejects : {e : Exception} → check_text text command ≡ err e → is_refusal e ≡ true
  unfolding check_text
  check_text-rejects h = ground arith

refusal :
    (e : Exception)
    → is_refusal e ≡ true
    → (failure : NexaBotError) × (e ≡ domain_error failure) × (failure.category ≡ validation)
refusal (domain_error f) h = (f, refl, validation_only f.category h)
refusal _ h = absurd (ground arith)

-- A command is either acceptable, and then `_validate_input` answers with its stripped text, or it
-- is not, and then the code raises a validation error.
pub validate_input-cases :
    (command : RunAgentTurnCommand)
    → ((validate_input command ≡ ok (strip command.text))
        × IsAcceptable (strip command.text) command)
      ⊎ ((failure : NexaBotError) × (validate_input command ≡ err (domain_error failure))
          × (failure.category ≡ validation)
          × (IsAcceptable (strip command.text) command → ⊥))
unfolding validate_input
validate_input-cases command =
    let text = strip command.text in
    elim (Result-cases (check_text text command)) [
      | inl (given, e) ↦
          let (same, acceptable) = check_text_sound text command e in
          inl (e ∙ ap ok same, acceptable)
      | inr (exc, e) ↦
          let (failure, same, category) = refusal exc (check_text-rejects text command e) in
          inr (
            failure,
            e ∙ ap err same,
            category,
            λ a. let fine = check_text-accepts text command a in absurd (ground arith),
          )
    ]
