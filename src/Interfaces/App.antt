-- ===== src/Interfaces/App.antt =====
-- interfaces/api/app.py: how an error becomes an HTTP response, and what it leaves in the log.
use nexabot.Prelude.{ℕ, ◌≤◌, ◌≡◌, refl, String, Bool, true, false, arith, if◌then◌else◌}
use nexabot.Domain.Errors.{
  ErrorCategory, external_service, task_execution, agent_execution, storage, configuration,
  internal, category_value, NexaBotError, SafeDict, to_safe_dict, Details, Exception, domain_error,
  validation_error, authorization_error, not_found_error, conflict_error, rate_limit_error,
  external_service_error, task_execution_error, agent_execution_error, storage_error,
  configuration_error,
}
use nexabot.Exec.{Result, ok, err}

-- `_SERVER_SIDE_CATEGORIES`
abbrev pub is_server_side : ErrorCategory → Bool
is_server_side external_service = true
is_server_side task_execution = true
is_server_side agent_execution = true
is_server_side storage = true
is_server_side configuration = true
is_server_side internal = true
is_server_side _ = false

-- `logger.exception` with the traceback, or `logger.info`.
pub data LogCall : Type 0 where
  exception info : String → String → LogCall

pub record JsonResponse : Type 0 where
  pub status_code : ℕ
  pub content : SafeDict

abbrev pub log_call : NexaBotError → LogCall
log_call e =
    if is_server_side e.category
    then exception e.code (category_value e.category)
    else info e.code (category_value e.category)

-- `nexabot_error_handler`; an exception that is no domain error is raised again.
unfoldable pub nexabot_error_handler : Exception → Result (LogCall × JsonResponse)
nexabot_error_handler (domain_error e) =
    ok (log_call e, record { status_code = e.http_status; content = to_safe_dict e })
nexabot_error_handler exc = err exc

-- The errors that the classes of the taxonomy construct.
pub data IsTaxonomic : NexaBotError → Type 0 where
  a_validation : (m c : String) (d : Details) → IsTaxonomic (validation_error m c d)
  an_authorization : (m c : String) (d : Details) → IsTaxonomic (authorization_error m c d)
  a_not_found : (m c : String) (d : Details) → IsTaxonomic (not_found_error m c d)
  a_conflict : (m c : String) (d : Details) → IsTaxonomic (conflict_error m c d)
  a_rate_limit : (m c : String) (d : Details) → IsTaxonomic (rate_limit_error m c d)
  an_external :
      (m c : String) (r : Bool) (d : Details) → IsTaxonomic (external_service_error m c r d)
  a_task : (m c : String) (r : Bool) (d : Details) → IsTaxonomic (task_execution_error m c r d)
  an_agent : (m c : String) (r : Bool) (d : Details) → IsTaxonomic (agent_execution_error m c r d)
  a_storage : (m c : String) (r : Bool) (d : Details) → IsTaxonomic (storage_error m c r d)
  a_configuration : (m c : String) (d : Details) → IsTaxonomic (configuration_error m c d)

-- What a client and the log are told: a traceback goes with a status of 500 and above, and none with
-- one from 400 to 499.
abbrev pub IsConsistent : LogCall → JsonResponse → Type 0
IsConsistent (exception code category) response = 500 ≤ response.status_code
IsConsistent (info code category) response =
    (400 ≤ response.status_code) × (response.status_code ≤ 499)

pub record IsHandled (e : NexaBotError) (end : Result (LogCall × JsonResponse)) : Type 0 where
  pub log : LogCall
  pub response : JsonResponse
  pub answered : end ≡ ok (log, response)
  pub consistent : IsConsistent log response
  pub code_shown : response.content.code ≡ e.code
  pub message_shown : response.content.message ≡ e.safe_message

handled :
    (e : NexaBotError)
    → IsConsistent (log_call e) (record { status_code = e.http_status; content = to_safe_dict e })
    → IsHandled e (nexabot_error_handler (domain_error e))
unfolding nexabot_error_handler to_safe_dict
handled e h = record {
  log = log_call e;
  response = record { status_code = e.http_status; content = to_safe_dict e };
  answered = refl;
  consistent = h;
  code_shown = refl;
  message_shown = refl;
}

-- Every error of the taxonomy gets a response: its code and its safe message, with a status that is
-- 500 or above exactly when the error is logged with its traceback, and from 400 to 499 otherwise.
pub nexabot_error_handler-IsHandled :
    (e : NexaBotError) → IsTaxonomic e → IsHandled e (nexabot_error_handler (domain_error e))
unfolding nexabot_error_handler to_safe_dict
nexabot_error_handler-IsHandled _ (a_validation m c d) = handled _ (omega arith, omega arith)
nexabot_error_handler-IsHandled _ (an_authorization m c d) = handled _ (omega arith, omega arith)
nexabot_error_handler-IsHandled _ (a_not_found m c d) = handled _ (omega arith, omega arith)
nexabot_error_handler-IsHandled _ (a_conflict m c d) = handled _ (omega arith, omega arith)
nexabot_error_handler-IsHandled _ (a_rate_limit m c d) = handled _ (omega arith, omega arith)
nexabot_error_handler-IsHandled _ (an_external m c r d) = handled _ (omega arith)
nexabot_error_handler-IsHandled _ (a_task m c r d) = handled _ (omega arith)
nexabot_error_handler-IsHandled _ (an_agent m c r d) = handled _ (omega arith)
nexabot_error_handler-IsHandled _ (a_storage m c r d) = handled _ (omega arith)
nexabot_error_handler-IsHandled _ (a_configuration m c d) = handled _ (omega arith)
