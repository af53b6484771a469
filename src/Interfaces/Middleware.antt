-- ===== src/Interfaces/Middleware.antt =====
-- interfaces/api/middleware.py: the request id of an HTTP request. The application behind the
-- middleware is a parameter: what it does, step by step.
pub mod Tracing
use nexabot.Prelude.{
  String, Bool, true, false, Option, none, some, List, [], ◌∷◌, ◌++◌, ℕ, is_empty, if◌then◌else◌,
}
use nexabot.Exec.{Result, ok, err, Exec}
use nexabot.Observability.Context.{TraceContext, empty_context, get_trace_context}
use nexabot.Interfaces.RequestId.{accept_inbound_request_id}

abbrev pub Headers : Type 0
Headers = List (String × String)

-- An ASGI message; `response_start` is the one of type "http.response.start".
pub data Message : Type 0 where
  response_start : ℕ → Headers → Message
  message : String → String → Message

pub data ScopeType : Type 0 where
  http websocket lifespan : ScopeType

pub record Scope : Type 0 where
  pub scope_type : ScopeType
  -- `request.headers.get("X-Request-ID")`
  pub inbound : Option String
  -- `scope["state"]["request_id"]`
  pub request_id : Option String

-- A coroutine that logs in the context it finds, sends messages, and ends or raises.
pub data Program : Type 0 where
  done : Result Unit → Program
  send : Message → Program → Program
  in_context : (TraceContext → Program) → Program

-- The context variable, and what has gone to the client.
pub record Connection : Type 0 where
  pub trace : Option TraceContext
  pub sent : List Message

abbrev pub server_send : Message → Exec Connection Unit
server_send m c = (ok tt, record c { sent = c.sent ++ m ∷ [] })

abbrev and_then_run : Result Unit × Connection → Exec Connection Unit → Result Unit × Connection
and_then_run (ok _, c) rest = rest c
and_then_run (err e, c) rest = (err e, c)

-- The application, with the `send` that it is given.
unfoldable pub run : Program → (Message → Exec Connection Unit) → Exec Connection Unit
run (done r) give c = (r, c)
run (send m rest) give c = and_then_run (give m c) (run rest give)
run (in_context body) give c = run (body (get_trace_context c.trace)) give c

-- `send_with_request_id`
abbrev pub with_header : String → Message → Message
with_header id (response_start status headers) =
    response_start status (headers ++ ("x-request-id", id) ∷ [])
with_header id (message kind body) = message kind body

unfoldable pub send_with_request_id : String → Message → Exec Connection Unit
send_with_request_id id m = server_send (with_header id m)

-- `bind_trace_context`: the `finally` resets the variable however the body ends.
unfoldable pub bind_trace_context : TraceContext → Exec Connection Unit → Exec Connection Unit
bind_trace_context context body c =
    let (r, c') = body (record c { trace = some context }) in (r, record c' { trace = c.trace })

-- `accepted or uuid4().hex`
unfoldable pub request_id_for : String → Option String → String
request_id_for fresh none = fresh
request_id_for fresh (some id) = if is_empty id then fresh else id

abbrev pub traced : String → TraceContext
traced id = record empty_context { request_id = some id }

-- `TraceContextMiddleware.__call__`; `fresh` is `uuid4().hex`.
unfoldable pub call_http : String → (Scope → Program) → Scope → Exec Connection Unit
call_http id app scope =
    bind_trace_context (traced id)
      (run (app (record scope { request_id = some id })) (send_with_request_id id))

unfoldable pub call : String → (Scope → Program) → Scope → Exec Connection Unit
unfolding call_http
call fresh app scope = elim scope.scope_type [
  | http ↦ call_http (request_id_for fresh (accept_inbound_request_id scope.inbound)) app scope
  | _ ↦ run (app scope) server_send
]

-- `request_id_of`
abbrev pub request_id_of : Scope → Option String
request_id_of scope = scope.request_id
