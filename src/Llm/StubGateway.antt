-- ===== src/Llm/StubGateway.antt =====
-- infrastructure/llm/stub_gateway.py: the provider of tests and of local runs.
pub mod Script
use Prim.Native.Char.{code}
use Prim.Native.Nat.{suc, ◌+◌}
use Prim.Native.String.{◌++◌}
use nexabot.Prelude.{
  ℕ, String, Bool, true, false, Option, none, some, List, [], ◌∷◌, reverse, is_empty, is_space,
  if◌then◌else◌,
}
use nexabot.Prelude as P
use nexabot.Domain.Errors.{Exception}
use nexabot.Domain.Json.{Json, Mapping, end, entry}
use nexabot.Ports.Gateway.{LlmMessageRole, LlmMessage, LlmRequest, LlmUsage, LlmResponse}
use nexabot.Exec.{Result, ok, err, Exec}

pub record StubLlmGateway : Type 0 where
  pub default_response : Option LlmResponse
  -- a factory may raise
  pub response_factory : Option (LlmRequest → Result LlmResponse)
  -- a response, or an exception to raise
  pub scripted_responses : List (Result LlmResponse)
  pub fail_with : Option Exception
  pub calls : List LlmRequest

abbrev is_user : LlmMessageRole → Bool
is_user LlmMessageRole.user = true
is_user _ = false

-- The content of the first user message of a list, or the empty text.
abbrev pub first_user_content : List LlmMessage → String
first_user_content [] = ""
first_user_content (m ∷ ms) = if is_user m.role then m.content else first_user_content ms

-- `len(text.split())`: the runs of characters that are no whitespace; the test tells whether the
-- character before was in such a run.
unfoldable pub words_from : Bool → String → ℕ
words_from inside String.[] = 0
words_from inside (String.◌∷◌ c s) = elim (is_space (code c)) [
  | true ↦ words_from false s
  | false ↦ (if inside then 0 else 1) + words_from true s
]

abbrev pub word_count : String → ℕ
word_count = words_from false

abbrev pub echo_of : String → String
echo_of last = if is_empty last then "Acknowledged." else "Echo: " ++ last

-- `_echo_response`
unfoldable pub echo_response : LlmRequest → LlmResponse
echo_response request =
    let last = first_user_content (reverse request.messages) in
    let content = echo_of last in
    record {
      content = some content;
      tool_calls = [];
      usage = record {
        input_tokens = word_count last;
        output_tokens = word_count content;
        total_tokens = word_count last + word_count content;
      };
      provider_metadata = entry "stub" (Json.bool true) end;
    }

-- What follows the script.
abbrev from_default : Option LlmResponse → LlmRequest → Result LlmResponse
from_default (some response) request = ok response
from_default none request = ok (echo_response request)

abbrev from_factory :
    Option (LlmRequest → Result LlmResponse) → Option LlmResponse → LlmRequest → Result LlmResponse
from_factory (some factory) default request = factory request
from_factory none default request = from_default default request

abbrev from_failure :
    Option Exception
    → Option (LlmRequest → Result LlmResponse)
    → Option LlmResponse
    → LlmRequest
    → Result LlmResponse
from_failure (some exc) factory default request = err exc
from_failure none factory default request = from_factory factory default request

abbrev pub unscripted : StubLlmGateway → LlmRequest → Result LlmResponse
unscripted g request = from_failure g.fail_with g.response_factory g.default_response request

abbrev pub answer_from : List (Result LlmResponse) → LlmRequest → Exec StubLlmGateway LlmResponse
answer_from (next_item ∷ rest) request g = (next_item, record g { scripted_responses = rest })
answer_from [] request g = (unscripted g request, g)

-- `StubLLMGateway.complete`: the call is recorded whatever comes of it.
unfoldable pub complete : LlmRequest → Exec StubLlmGateway LlmResponse
complete request g =
    let g' = record g { calls = P.◌++◌ g.calls (request ∷ []) } in
    answer_from g'.scripted_responses request g'
