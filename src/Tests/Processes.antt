-- ===== src/Tests/Processes.antt =====
-- The probe of a process, a request behind the middleware, a log record, and the migrations.
use nexabot.Prelude.{◌≤◌, String, ◌≡◌, ◌≢◌, refl, true, ◌⊎◌, is_space, some, none, [], ◌∷◌}
use nexabot.Prelude.Codes.{codes, contains, is_prefix, fold_case}
use nexabot.Migrations.Schema.{Table}
use nexabot.Migrations.Columns.{pk, fk, plain_index}
use nexabot.Migrations.Matching.{same_schema}
use nexabot.Migrations.Chain.{
  IsReversible, head_from, revisions, application_indexes, revisions-IsReversible,
}
use nexabot.Database.Metadata.{metadata}
use nexabot.Exec.{err}
use nexabot.Database.Readiness.{hangs, default_readiness_timeout}
use nexabot.Bootstrap.Readiness.{serve_ready}
use nexabot.Bootstrap.Readiness.Verdict.{IsVerdict, serve_ready-IsVerdict}
use nexabot.Domain.Errors.{timeout_error}
use nexabot.Interfaces.Middleware.{
  response_start, http, Scope, Program, done, send, in_context, Connection, call,
}
use nexabot.Interfaces.Middleware.Tracing.{IsTraced, Passes, call-IsTraced}
use nexabot.Observability.Logging.{
  Value, dict, text, field, end, redact, is_secret, is_scheme, is_user,
}
use nexabot.Observability.Logging.Secrecy.{
  word, url, same, SameValue, texts, dicts, hidden, shown, ends, redact-same,
}

serve_ready-IsVerdict_example :
    ((serve_ready hangs).0 ≤ default_readiness_timeout) × IsVerdict hangs (serve_ready hangs).1
serve_ready-IsVerdict_example = serve_ready-IsVerdict hangs

abbrev app : Scope → Program
app scope = in_context λ context. send (response_start 200 []) (done (err timeout_error))

abbrev request : Scope
request = record { scope_type = http; inbound = some "abc"; request_id = none }

abbrev idle : Connection
idle = record { trace = none; sent = [] }

call-IsTraced_example :
    ((request.scope_type ≡ http) × IsTraced "f0" app request idle (call "f0" app request idle))
    ⊎ ((request.scope_type ≢ http) × Passes app request idle (call "f0" app request idle))
call-IsTraced_example = call-IsTraced "f0" app request idle

abbrev payload : String → String → Value
payload message token =
    dict (field "message" (text (codes message)) (field "bot_token" (text (codes token)) end))

alike : SameValue (payload "at db://u@h" "a") (payload "at db://p:q@h" "b")
unfolding is_secret is_space is_scheme is_user contains is_prefix fold_case
alike = dicts (
    shown "message"
      (texts (
        word (codes "at") 32 _ _ refl (
          url 100 (codes "b") 117 [] 112 (codes ":q") (codes "h") (codes "h") refl (refl, tt)
            (refl, tt) (refl, (refl, (refl, tt))) (same (codes "h")))))
      (hidden "bot_token" (text (codes "a")) (text (codes "b")) refl ends))

redact-same_example : redact (payload "at db://u@h" "a") ≡ redact (payload "at db://p:q@h" "b")
redact-same_example = redact-same (payload "at db://u@h" "a") (payload "at db://p:q@h" "b") alike

-- A table of another application in the same database.
abbrev other_table : Table
other_table = record {
  name = "other";
  columns = pk ∷ fk "other" "parent_id" "other.id" true none ∷ [];
  primary_key = "id" ∷ [];
  constraints = [];
  indexes = plain_index "ix_other_parent_id" ("parent_id" ∷ []) ∷ [];
}

revisions-IsReversible_example :
    IsReversible (other_table ∷ []) [] revisions
    × (same_schema (head_from [] revisions) metadata ≡ true)
unfolding application_indexes
revisions-IsReversible_example = revisions-IsReversible (other_table ∷ []) refl refl refl
