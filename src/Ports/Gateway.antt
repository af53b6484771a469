-- ===== src/Ports/Gateway.antt =====
-- ports/llm/gateway.py: what the application and a model provider exchange.
use nexabot.Prelude.{ℕ, String, Option, List}
use nexabot.Domain.Json.{Mapping}
use nexabot.Domain.Errors.{Exception}

pub data LlmMessageRole : Type 0 where
  system user assistant tool : LlmMessageRole

pub record LlmMessage : Type 0 where
  pub role : LlmMessageRole
  pub content : String
  pub name : Option String

-- The fields that the orchestration leaves at their defaults (tools, temperature,
-- max_output_tokens, metadata) are left out.
pub record LlmRequest : Type 0 where
  pub provider : String
  pub model : String
  pub messages : List LlmMessage

pub record LlmToolCall : Type 0 where
  pub id : String
  pub name : String
  pub arguments : Mapping

pub record LlmUsage : Type 0 where
  pub input_tokens : ℕ
  pub output_tokens : ℕ
  pub total_tokens : ℕ

pub record LlmResponse : Type 0 where
  pub content : Option String
  pub tool_calls : List LlmToolCall
  pub usage : LlmUsage
  pub provider_metadata : Mapping

-- How a call of `LLMGateway.complete` ends, after how many microseconds; `hangs` is a call that
-- never returns.
pub data Answer : Type 0 where
  responds : ℕ → LlmResponse → Answer
  raises : ℕ → Exception → Answer
  hangs : Answer
