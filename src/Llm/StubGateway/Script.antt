-- ===== src/Llm/StubGateway/Script.antt =====
-- infrastructure/llm/stub_gateway.py: what a sequence of calls is answered, and that the orchestration
-- accepts the stub's own answer.
use Prim.Native.String.{String, ◌++◌ as append}
use text.Mathlib.TextLemmas.{cons-append}
use nexabot.Prelude.{
  ℕ, zero, suc, reverse, ◌≡◌, refl, sym, ap, ◌∙◌, false, List, [], ◌∷◌, ◌++◌, map, take, drop,
  length, inl, inr, Bool-cases, is_empty, strip, strip-kept, is_space,
}
use mathlib.Core.List.{append_assoc, append-nil}
use nexabot.Exec.{Result, ok}
use nexabot.Ports.Gateway.{LlmRequest, LlmResponse}
use nexabot.Application.AgentTurn.Request.{validate_response}
use nexabot.Llm.StubGateway.{
  StubLlmGateway, unscripted, complete, echo_of, echo_response, first_user_content,
}

-- One call after another.
pub play : List LlmRequest → StubLlmGateway → List (Result LlmResponse) × StubLlmGateway
play [] g = ([], g)
play (request ∷ requests) g =
    let (answer, g') = complete request g in
    let (answers, g'') = play requests g' in (answer ∷ answers, g'')

-- The script in order, and then what the stub gives without one.
pub record IsPlayed (requests : List LlmRequest) (g : StubLlmGateway)
    (end : List (Result LlmResponse) × StubLlmGateway) : Type 0 where
  pub answers :
      end.0
      ≡ take (length requests) g.scripted_responses
        ++ map (unscripted g) (drop (length g.scripted_responses) requests)
  pub recorded : end.1.calls ≡ g.calls ++ requests
  pub left : end.1.scripted_responses ≡ drop (length requests) g.scripted_responses

module _ {A : Type 0} where
  take-nil : (n : ℕ) → take {A = A} n [] ≡ []
  take-nil zero = refl
  take-nil (suc n) = refl

  drop-nil : (n : ℕ) → drop {A = A} n [] ≡ []
  drop-nil zero = refl
  drop-nil (suc n) = refl

played :
    (script : List (Result LlmResponse)) (requests : List LlmRequest) (g : StubLlmGateway)
    → IsPlayed requests
        (record g { scripted_responses = script })
        (play requests (record g { scripted_responses = script }))
unfolding play complete
played [] [] g = record { answers = refl; recorded = sym (append-nil g.calls); left = refl }
played (r ∷ script) [] g = record {
  answers = refl;
  recorded = sym (append-nil g.calls);
  left = refl;
}
played [] (request ∷ requests) g =
    let h = played [] requests (record g { calls = g.calls ++ request ∷ [] }) in
    record {
      answers =
          ap (λ rest. unscripted g request ∷ rest)
            (h.answers ∙ ap (λ s. s ++ map (unscripted g) requests) (take-nil (length requests)));
      recorded = h.recorded ∙ append_assoc g.calls (request ∷ []) requests;
      left = h.left ∙ drop-nil (length requests);
    }
played (r ∷ script) (request ∷ requests) g =
    let h = played script requests (record g { calls = g.calls ++ request ∷ [] }) in
    record {
      answers = ap (λ rest. r ∷ rest) h.answers;
      recorded = h.recorded ∙ append_assoc g.calls (request ∷ []) requests;
      left = h.left;
    }

-- Calls in sequence get the scripted entries in their order, one each, and those beyond the script
-- get what the stub gives without one. Each request is recorded, also when its answer is an
-- exception, and what is left of the script is what was not played.
pub play-IsPlayed :
    (requests : List LlmRequest) (g : StubLlmGateway) → IsPlayed requests g (play requests g)
play-IsPlayed requests g = played g.scripted_responses requests g

echo-kept : (last : String) → is_empty (strip (echo_of last)) ≡ false
unfolding is_space
echo-kept last = elim (Bool-cases (is_empty last)) [
  | inl blank ↦ rw blank (strip-kept "A" "cknowledged." refl)
  | inr full ↦
      rw full (rw (cons-append "E" "cho: " last) (strip-kept "E" (append "cho: " last) refl))
]

-- The answer that the stub makes up is accepted: `_validate_response` gives its content back without
-- the spaces around it.
pub echo_response-accepted :
    (request : LlmRequest)
    → validate_response (echo_response request)
      ≡ ok (strip (echo_of (first_user_content (reverse request.messages))))
unfolding validate_response echo_response
echo_response-accepted request = rw (echo-kept (first_user_content (reverse request.messages))) refl
