-- ===== src/Interfaces/Middleware/Tracing.antt =====
-- interfaces/api/middleware.py: what a request behind the middleware logs and answers.
use nexabot.Prelude.{
  String, ◌≡◌, ◌≢◌, refl, ap, ◌∙◌, Option, none, some, List, [], ◌∷◌, ◌++◌, map, ◌⊎◌, inl, inr,
}
use mathlib.Core.List.{append_assoc, append-nil}
use nexabot.Exec.{Result}
use nexabot.Observability.Context.{TraceContext, get_trace_context}
use nexabot.Interfaces.RequestId.{accept_inbound_request_id, accept_inbound_request_id_sound}
use nexabot.Interfaces.Middleware.{
  Message, ScopeType, http, websocket, lifespan, Scope, Program, done, send, in_context, Connection,
  server_send, run, with_header, send_with_request_id, bind_trace_context, request_id_for, traced,
  call_http, call,
}

-- What a program sends and how it ends, if it finds this context whenever it looks.
pub sends_in : TraceContext → Program → List Message × Result Unit
sends_in context (done r) = ([], r)
sends_in context (send m rest) = let (ms, r) = sends_in context rest in (m ∷ ms, r)
sends_in context (in_context body) = sends_in context (body context)

-- A `send` that maps the messages.
run-sends_in :
    (f : Message → Message) (trace : Option TraceContext) (program : Program) (sent : List Message)
    → run program (λ m. server_send (f m)) (record { trace = trace; sent = sent }) ≡ (
      (sends_in (get_trace_context trace) program).1,
      record { trace = trace; sent = sent ++ map f (sends_in (get_trace_context trace) program).0 },
    )
unfolding run sends_in
run-sends_in f trace (done r) sent = rw append-nil refl
run-sends_in f trace (send m rest) sent =
    run-sends_in f trace rest (sent ++ f m ∷ []) ∙ rw append_assoc refl
run-sends_in f trace (in_context body) sent =
    run-sends_in f trace (body (get_trace_context trace)) sent

map_same : (ms : List Message) → map (λ m. m) ms ≡ ms
map_same [] = refl
map_same (m ∷ ms) = ap (λ rest. m ∷ rest) (map_same ms)

-- The id is the caller's, if it is accepted, and fresh otherwise.
abbrev pub IsRequestId : String → Option String → String → Type 0
IsRequestId fresh inbound id =
    (accept_inbound_request_id inbound ≡ some id)
    ⊎ ((accept_inbound_request_id inbound ≡ none) × (id ≡ fresh))

chosen-IsRequestId :
    (fresh : String) (inbound : Option String) (found : Option String)
    → accept_inbound_request_id inbound ≡ found
    → IsRequestId fresh inbound (request_id_for fresh found)
unfolding request_id_for
chosen-IsRequestId fresh inbound none e = inr (e, refl)
chosen-IsRequestId fresh inbound (some id) e =
    let (full, short, visible, again) = accept_inbound_request_id_sound inbound id e in
    inl (rw full e)

-- What an HTTP request leaves: the application has run in the context of its id, each of its
-- responses has the id as a header, and the context variable is as it was.
pub record IsTraced (fresh : String) (app : Scope → Program) (scope : Scope) (c : Connection)
    (end : Result Unit × Connection) : Type 0 where
  pub id : String
  pub chosen : IsRequestId fresh scope.inbound id
  pub ended : end ≡ (
    (sends_in (traced id) (app (record scope { request_id = some id }))).1,
    record c {
      sent =
          c.sent
          ++ map
              (with_header id)
              (sends_in (traced id) (app (record scope { request_id = some id }))).0;
    },
  )

call_http-ends :
    (id : String) (app : Scope → Program) (scope : Scope) (c : Connection)
    → call_http id app scope c ≡ (
      (sends_in (traced id) (app (record scope { request_id = some id }))).1,
      record c {
        sent =
            c.sent
            ++ map
                (with_header id)
                (sends_in (traced id) (app (record scope { request_id = some id }))).0;
      },
    )
unfolding call_http bind_trace_context send_with_request_id
call_http-ends id app scope c =
    ap (λ (p : Result Unit × Connection). (p.0, record p.1 { trace = c.trace }))
      (run-sends_in (with_header id) (some (traced id))
        (app (record scope { request_id = some id })) c.sent)

abbrev pub Passes : (Scope → Program) → Scope → Connection → Result Unit × Connection → Type 0
Passes app scope c end = end ≡ (
  (sends_in (get_trace_context c.trace) (app scope)).1,
  record c { sent = c.sent ++ (sends_in (get_trace_context c.trace) (app scope)).0 },
)

passes :
    (app : Scope → Program) (scope : Scope) (c : Connection)
    → Passes app scope c (run (app scope) server_send c)
passes app scope c = run-sends_in (λ m. m) c.trace (app scope) c.sent ∙ rw map_same refl

abbrev IsHandled : String → (Scope → Program) → Scope → Connection → Type 0
IsHandled fresh app scope c =
    ((scope.scope_type ≡ http) × IsTraced fresh app scope c (call fresh app scope c))
    ⊎ ((scope.scope_type ≢ http) × Passes app scope c (call fresh app scope c))

handled :
    (fresh : String) (app : Scope → Program) (kind : ScopeType) (inbound own : Option String)
    (c : Connection)
    → IsHandled fresh app (record { scope_type = kind; inbound = inbound; request_id = own }) c
unfolding call
handled fresh app http inbound own c = inl (
  refl,
  record {
    id = request_id_for fresh (accept_inbound_request_id inbound);
    chosen = chosen-IsRequestId fresh inbound (accept_inbound_request_id inbound) refl;
    ended =
        call_http-ends (request_id_for fresh (accept_inbound_request_id inbound)) app
          (record { scope_type = http; inbound = inbound; request_id = own }) c;
  },
)
handled fresh app websocket inbound own c = inr (λ e. absurd (cc e), passes app _ c)
handled fresh app lifespan inbound own c = inr (λ e. absurd (cc e), passes app _ c)

-- An HTTP request runs in a context with its id, which is the caller's if that is accepted and
-- fresh otherwise: wherever the application logs it finds that context, every response it starts
-- carries the id in a header beside its own, and the context variable is put back however the
-- application ends. Any other connection passes through unchanged.
pub call-IsTraced :
    (fresh : String) (app : Scope → Program) (scope : Scope) (c : Connection)
    → ((scope.scope_type ≡ http) × IsTraced fresh app scope c (call fresh app scope c))
      ⊎ ((scope.scope_type ≢ http) × Passes app scope c (call fresh app scope c))
call-IsTraced fresh app scope c =
    handled fresh app scope.scope_type scope.inbound scope.request_id c
