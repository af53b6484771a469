-- ===== src/Domain/Context/Budget.antt =====
-- domain/agent/context.py: the selected history fits, is contiguous, and cannot be longer.
use nexabot.Prelude.{
  ℕ, zero, suc, ◌+◌, ◌-◌, ◌*◌, ◌≤◌, ◌<◌, ◌≡◌, refl, sym, ap, ◌∙◌, String, true, false, List, [],
  ◌∷◌, ◌++◌, arith, len, ltb, reverse, Bool-cases, inl, inr, if◌then◌else◌,
}
use mathlib.Core.List.{reverse-append, reverse-reverse, append-nil}
use mathlib.Core.Path.{◌≡⟨◌⟩◌, ◌∎}
use nexabot.Prelude.Int.{ℤ, pos, negsuc, not_positive, to_ℕ}
use nexabot.Domain.Conversations.{Message}
use nexabot.Domain.Context.{estimate_tokens, select_newest, select_within_token_budget}

-- The estimated cost of a list of messages.
abbrev pub cost : List Message → ℕ
cost [] = 0
cost (m ∷ ms) = estimate_tokens m.content + cost ms

-- The estimate is at least a third of the length, rounded up, plus the overhead: it is the
-- smallest such number.
pub estimate_tokens_bounds :
    (text : String)
    → (len text ≤ 3 * (estimate_tokens text - 4))
      × (3 * (estimate_tokens text - 4) < len text + 3)
      × (4 ≤ estimate_tokens text)
unfolding estimate_tokens
estimate_tokens_bounds text = omega arith

cost-append : (xs ys : List Message) → cost (xs ++ ys) ≡ cost xs + cost ys
cost-append [] ys = omega arith
cost-append (x ∷ xs) ys = omega (arith, cost-append xs ys)

cost-reverse : (xs : List Message) → cost (reverse xs) ≡ cost xs
cost-reverse [] = refl
cost-reverse (x ∷ xs) =
    ap cost (reverse-append (x ∷ []) xs)
    ∙ cost-append (reverse xs) (x ∷ [])
    ∙ omega (arith, cost-reverse xs)

select_newest-le : (n : ℕ) (ms : List Message) → cost (select_newest n ms) ≤ n
unfolding select_newest
select_newest-le n [] = omega arith
select_newest-le n (m ∷ ms) = ground (arith, select_newest-le (n - estimate_tokens m.content) ms)

-- What the loop left out, newest first.
left_out : ℕ → List Message → List Message
left_out n [] = []
left_out n (m ∷ ms) =
    let cost = estimate_tokens m.content in
    let rest = left_out (n - cost) ms in if ltb n cost then m ∷ ms else rest

select_newest-left_out : (n : ℕ) (ms : List Message) → select_newest n ms ++ left_out n ms ≡ ms
unfolding select_newest left_out
select_newest-left_out n [] = refl
select_newest-left_out n (m ∷ ms) =
    ground (arith, select_newest-left_out (n - estimate_tokens m.content) ms)

-- One message more would not fit.
abbrev pub Overflows : ℕ → List Message → List Message → Type 0
Overflows n chosen [] = Unit {0}
Overflows n chosen (m ∷ older) = n < cost chosen + estimate_tokens m.content

Overflows-cons :
    (n : ℕ) (m : Message) (chosen rest : List Message)
    → estimate_tokens m.content ≤ n
    → Overflows (n - estimate_tokens m.content) chosen rest
    → Overflows n (m ∷ chosen) rest
Overflows-cons n m chosen [] fits h = tt
Overflows-cons n m chosen (x ∷ rest) fits h = omega arith

Overflows-reverse :
    (n : ℕ) (chosen rest : List Message)
    → Overflows n chosen rest
    → Overflows n (reverse chosen) rest
Overflows-reverse n chosen [] h = tt
Overflows-reverse n chosen (x ∷ rest) h = omega (arith, cost-reverse chosen)

Overflows-none : (ms : List Message) → Overflows 0 [] ms
Overflows-none [] = tt
Overflows-none (m ∷ ms) = omega (arith, (estimate_tokens_bounds m.content).2)

fits_of_test : (n c : ℕ) → ltb n c ≡ false → c ≤ n
fits_of_test n c h = ground arith

overflows_of_test : (n c : ℕ) → ltb n c ≡ true → n < c
overflows_of_test n c h = ground arith

select_newest-Overflows :
    (n : ℕ) (ms : List Message) → Overflows n (select_newest n ms) (left_out n ms)
unfolding select_newest left_out
select_newest-Overflows n [] = tt
select_newest-Overflows n (m ∷ ms) = elim (Bool-cases (ltb n (estimate_tokens m.content))) [
  | inl over ↦ rw over (omega (arith, overflows_of_test n (estimate_tokens m.content) over))
  | inr fits ↦ rw fits (
      Overflows-cons n m (select_newest (n - estimate_tokens m.content) ms)
        (left_out (n - estimate_tokens m.content) ms)
        (fits_of_test n (estimate_tokens m.content) fits)
        (select_newest-Overflows (n - estimate_tokens m.content) ms))
]

-- A budgeted selection: what travels, after the older messages that do not.
pub record IsSelection (budget : ℤ) (messages older chosen : List Message) : Type 0 where
  pub contiguous : messages ≡ older ++ chosen
  pub fits : cost chosen ≤ to_ℕ budget
  pub maximal : Overflows (to_ℕ budget) chosen (reverse older)

select_parts :
    (n : ℕ) (ms : List Message)
    → ms ≡ reverse (left_out n (reverse ms)) ++ reverse (select_newest n (reverse ms))
select_parts n ms =
    ms
    ≡⟨ sym (reverse-reverse ms) ⟩ reverse (reverse ms)
    ≡⟨ ap reverse (sym (select_newest-left_out n (reverse ms))) ⟩
      reverse (select_newest n (reverse ms) ++ left_out n (reverse ms))
    ≡⟨ reverse-append (select_newest n (reverse ms)) (left_out n (reverse ms)) ⟩
      reverse (left_out n (reverse ms)) ++ reverse (select_newest n (reverse ms)) ∎

IsSelection-positive :
    (n : ℕ) (ms : List Message)
    → IsSelection
        (pos n)
        ms
        (reverse (left_out n (reverse ms)))
        (reverse (select_newest n (reverse ms)))
IsSelection-positive n ms = record {
  contiguous = select_parts n ms;
  fits =
      omega (arith, cost-reverse (select_newest n (reverse ms)), select_newest-le n (reverse ms));
  maximal = rw reverse-reverse (
      Overflows-reverse n (select_newest n (reverse ms)) (left_out n (reverse ms))
        (select_newest-Overflows n (reverse ms)));
}

IsSelection-none : (budget : ℤ) (ms : List Message) → to_ℕ budget ≡ 0 → IsSelection budget ms ms []
IsSelection-none budget ms h = record {
  contiguous = sym (append-nil ms);
  fits = omega arith;
  maximal = rw h (Overflows-none (reverse ms));
}

suc-not-positive : (n : ℕ) → not_positive (pos (suc n)) ≡ false
suc-not-positive n = ground arith

-- What `select_within_token_budget` returns is the end of the messages, for every budget, also one
-- that is zero or negative: its estimated cost is within the budget, and the newest message that
-- was left out would exceed it.
pub select_within_token_budget-IsSelection :
    (budget : ℤ) (messages : List Message)
    → (older : List Message) × IsSelection budget messages older
        (select_within_token_budget budget messages)
unfolding select_within_token_budget
select_within_token_budget-IsSelection (negsuc n) messages =
    (messages, IsSelection-none (negsuc n) messages refl)
select_within_token_budget-IsSelection (pos zero) messages =
    (messages, IsSelection-none (pos zero) messages refl)
select_within_token_budget-IsSelection (pos (suc n)) messages = (
  reverse (left_out (suc n) (reverse messages)),
  rw (suc-not-positive n) (IsSelection-positive (suc n) messages),
)
