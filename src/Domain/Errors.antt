-- ===== src/Domain/Errors.antt =====
-- domain/common/errors.py: the error taxonomy, and the other exceptions that cross the layers.
use nexabot.Prelude.{ℕ, String, Bool, true, false, Option, none, some, List, [], ◌∷◌}
use nexabot.Prelude.Int.{ℤ}

pub data ErrorCategory : Type 0 where
  validation authorization not_found conflict rate_limit external_service : ErrorCategory
  task_execution agent_execution storage configuration internal : ErrorCategory

unfoldable pub category_value : ErrorCategory → String
category_value validation = "validation"
category_value authorization = "authorization"
category_value not_found = "not_found"
category_value conflict = "conflict"
category_value rate_limit = "rate_limit"
category_value external_service = "external_service"
category_value task_execution = "task_execution"
category_value agent_execution = "agent_execution"
category_value storage = "storage"
category_value configuration = "configuration"
category_value internal = "internal"

-- The values that the source passes as keyword details.
pub data Detail : Type 0 where
  text : String → Detail
  int : ℤ → Detail
  names : List String → Detail

abbrev pub Details : Type 0
Details = List (String × Detail)

pub record NexaBotError : Type 0 where
  pub code : String
  pub safe_message : String
  pub category : ErrorCategory
  pub retryable : Bool
  pub http_status : ℕ
  pub details : Details

-- The object under the key "error" of `to_safe_dict`; "details" is left out when there are none.
pub record SafeDict : Type 0 where
  pub code : String
  pub message : String
  pub category : String
  pub retryable : Bool
  pub details : Option Details

abbrev non_empty_details : Details → Option Details
non_empty_details [] = none
non_empty_details (d ∷ ds) = some (d ∷ ds)

unfoldable pub to_safe_dict : NexaBotError → SafeDict
unfolding category_value
to_safe_dict e = record {
  code = e.code;
  message = e.safe_message;
  category = category_value e.category;
  retryable = e.retryable;
  details = non_empty_details e.details;
}

-- The constructors, with every keyword written out; each class's default code is named below it.
abbrev pub validation_error : String → String → Details → NexaBotError
validation_error message code details = record {
  code = code;
  safe_message = message;
  category = validation;
  retryable = false;
  http_status = 400;
  details = details;
}

abbrev pub default_validation_code : String
default_validation_code = "validation_error"

abbrev pub authorization_error : String → String → Details → NexaBotError
authorization_error message code details = record {
  code = code;
  safe_message = message;
  category = authorization;
  retryable = false;
  http_status = 403;
  details = details;
}

abbrev pub not_found_error : String → String → Details → NexaBotError
not_found_error message code details = record {
  code = code;
  safe_message = message;
  category = not_found;
  retryable = false;
  http_status = 404;
  details = details;
}

abbrev pub conflict_error : String → String → Details → NexaBotError
conflict_error message code details = record {
  code = code;
  safe_message = message;
  category = conflict;
  retryable = false;
  http_status = 409;
  details = details;
}

abbrev pub rate_limit_error : String → String → Details → NexaBotError
rate_limit_error message code details = record {
  code = code;
  safe_message = message;
  category = rate_limit;
  retryable = true;
  http_status = 429;
  details = details;
}

abbrev pub external_service_error : String → String → Bool → Details → NexaBotError
external_service_error message code retryable details = record {
  code = code;
  safe_message = message;
  category = external_service;
  retryable = retryable;
  http_status = 502;
  details = details;
}

abbrev pub task_execution_error : String → String → Bool → Details → NexaBotError
task_execution_error message code retryable details = record {
  code = code;
  safe_message = message;
  category = task_execution;
  retryable = retryable;
  http_status = 500;
  details = details;
}

abbrev pub agent_execution_error : String → String → Bool → Details → NexaBotError
agent_execution_error message code retryable details = record {
  code = code;
  safe_message = message;
  category = agent_execution;
  retryable = retryable;
  http_status = 500;
  details = details;
}

abbrev pub storage_error : String → String → Bool → Details → NexaBotError
storage_error message code retryable details = record {
  code = code;
  safe_message = message;
  category = storage;
  retryable = retryable;
  http_status = 500;
  details = details;
}

abbrev pub configuration_error : String → String → Details → NexaBotError
configuration_error message code details = record {
  code = code;
  safe_message = message;
  category = configuration;
  retryable = false;
  http_status = 500;
  details = details;
}

-- What a Python statement may raise. `other` is any exception class that the source does not name;
-- `cancelled` is `asyncio.CancelledError`, which `except Exception` does not catch.
pub data Exception : Type 0 where
  domain_error : NexaBotError → Exception
  integrity_error dbapi_error sqlalchemy_error : Exception
  timeout_error : Exception
  cancelled : Exception
  other : String → Exception

-- `type(exc).__name__`, for the exceptions that `except Exception` may see.
unfoldable pub type_name : Exception → String
type_name (domain_error e) = "NexaBotError"
type_name integrity_error = "IntegrityError"
type_name dbapi_error = "DBAPIError"
type_name sqlalchemy_error = "SQLAlchemyError"
type_name timeout_error = "TimeoutError"
type_name cancelled = "CancelledError"
type_name (other name) = name
