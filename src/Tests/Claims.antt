-- ===== src/Tests/Claims.antt =====
-- Two workers on one key: the first one claims it and is overtaken, the second one settles it.
use nexabot.Prelude.{ℕ, ◌≡◌, refl, true, false, none, some, [], ◌∷◌, arith}
use nexabot.Domain.Json.{end}
use nexabot.Ports.Repositories.{started, completed}
use nexabot.Database.Tables.{IdempotencyRow}
use nexabot.Database.Idempotency.Statements.{
  get_row, insert_claim, is_expired, reclaim_row, settle_row,
}
use nexabot.Database.Idempotency.Claims.{IsKeyed}
use nexabot.Database.Idempotency.Interleaving.{
  saw, holds, settled, Sys, update, init, Step, ticks, looks, creates, reclaims, settles, Reach,
  here, next,
}
use nexabot.Database.Idempotency.Interleaving.Safety.{one_winner, one_holder, settled_final}
use nexabot.Database.Idempotency.Interleaving.Takeover.{takeover_expired}

abbrev first_claim : IdempotencyRow
first_claim = record {
  id = 1;
  namespace = "agent_run";
  key = "k";
  state = started;
  result = end;
  claimed_at = 0;
  claim_token = 0;
}

abbrev second_claim : IdempotencyRow
second_claim = record first_claim { claimed_at = 400000000; claim_token = 2 }

abbrev settled_claim : IdempotencyRow
settled_claim = record second_claim { state = completed }

abbrev s0 : Sys
s0 = init [] 0

abbrev s1 : Sys
s1 = record s0 { phase = update s0.phase 0 (saw none) }

abbrev s2 : Sys
s2 = record s1 { rows = first_claim ∷ []; drawn = 2; phase = update s1.phase 0 (holds 0) }

abbrev s3 : Sys
s3 = record s2 { time = 400000000 }

abbrev s4 : Sys
s4 = record s3 { phase = update s3.phase 1 (saw (some first_claim)) }

abbrev s5 : Sys
s5 = record s4 { rows = second_claim ∷ []; drawn = 3; phase = update s4.phase 1 (holds 2) }

abbrev s6 : Sys
s6 = record s5 { phase = update s5.phase 0 (settled false) }

abbrev s7 : Sys
s7 = record s6 { rows = settled_claim ∷ []; phase = update s6.phase 1 (settled true) }

to_s4 : Reach "agent_run" "k" 300 s0 s4
unfolding get_row insert_claim
to_s4 =
    next
      (next (next (next here (looks 0 refl refl)) (creates 0 (first_claim ∷ []) refl refl refl))
        (ticks 400000000 (omega arith) refl))
      (looks 1 refl refl)

takes_over : Step "agent_run" "k" 300 s4 s5
unfolding is_expired reclaim_row
takes_over = reclaims 1 first_claim refl refl refl

to_s5 : Reach "agent_run" "k" 300 s0 s5
to_s5 = next to_s4 takes_over

to_s7 : Reach "agent_run" "k" 300 s0 s7
unfolding settle_row
to_s7 =
    next (next to_s5 (settles 0 0 completed end refl refl refl))
      (settles 1 2 completed end refl refl refl)

nothing_stored : IsKeyed []
nothing_stored = record { keys = λ namespace key. tt; ids = λ id. tt }

one_stored : IsKeyed (first_claim ∷ [])
one_stored = record { keys = λ namespace key. (λ _. refl, tt); ids = λ id. (λ _. refl, tt) }

one_winner_example : ◌≡◌ {A = ℕ} 1 1
unfolding get_row
one_winner_example = one_winner "agent_run" "k" 300 [] 0 nothing_stored refl to_s7 1 1 refl refl

one_holder_example : (i : ℕ) × (s5.phase i ≡ holds 2) × ((j : ℕ) → s5.phase j ≡ holds 2 → i ≡ j)
unfolding get_row
one_holder_example =
    one_holder "agent_run" "k" 300 [] 0 nothing_stored refl to_s5 second_claim refl refl

settled_final_example : get_row "agent_run" "k" (settled_claim ∷ []) ≡ some settled_claim
unfolding get_row
settled_final_example =
    settled_final "agent_run" "k" 300 [] 0 nothing_stored refl to_s7 settled_claim refl refl
      (next here (looks 3 refl refl))

takeover_expired_example : is_expired 300 400000000 first_claim ≡ true
unfolding get_row
takeover_expired_example =
    takeover_expired "agent_run" "k" 300 [] 0 nothing_stored refl to_s4 takes_over first_claim
      second_claim refl refl (λ e. absurd (omega (arith, e)))
