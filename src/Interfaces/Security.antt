-- ===== src/Interfaces/Security.antt =====
-- interfaces/api/security.py: the caller of a protected route. The authenticator is a parameter:
-- what it answers to the request, or none when no authenticator is installed.
use nexabot.Prelude.{◌≡◌, ap, sym, ◌∙◌, Option, none, some, [], arith}
use nexabot.Domain.Errors.{authorization_error, configuration_error}
use nexabot.Domain.Identity.{User, active, ensure_active}
use nexabot.Exec.{Result, ok, fails, and_then, and_then-eq-ok}

-- `get_authenticator`
unfoldable pub get_authenticator : {A : Type 0} → Option A → Result A
get_authenticator none = fails (
    configuration_error "Authentication is not configured for this deployment."
      "authentication_not_configured" [])
get_authenticator (some authenticator) = ok authenticator

abbrev pub refuse_anonymous : Option User → Result User
refuse_anonymous none = fails (
    authorization_error "Authentication is required for this endpoint." "authentication_required"
      [])
refuse_anonymous (some user) = and_then (ensure_active user) λ _. ok user

-- `require_actor`, behind `Depends(get_authenticator)`: `authenticate` may raise.
unfoldable pub require_actor : Option (Result (Option User)) → Result User
unfolding get_authenticator
require_actor installed =
    and_then (get_authenticator installed) λ authenticated. and_then authenticated refuse_anonymous

refuse_anonymous-eq-ok :
    (found : Option User) (user : User)
    → refuse_anonymous found ≡ ok user
    → (found ≡ some user) × (user.status ≡ active)
unfolding ensure_active
refuse_anonymous-eq-ok none user h = absurd (ground arith)
refuse_anonymous-eq-ok (some u) user h =
    let (done, allowed, last) = and_then-eq-ok (ensure_active u) (λ _. ok u) h in
    let same : u ≡ user = cc last in
    (ap some same, sym (ap (λ (x : User). x.status) same) ∙ (ground arith))

-- A protected route runs only for an active user whom an installed authenticator has named: with
-- no authenticator, an anonymous request, a failing authenticator or a user who is not active,
-- it raises.
pub require_actor_sound :
    (installed : Option (Result (Option User))) (user : User)
    → require_actor installed ≡ ok user
    → (installed ≡ some (ok (some user))) × (user.status ≡ active)
unfolding require_actor get_authenticator
require_actor_sound none user h = absurd (ground arith)
require_actor_sound (some authenticated) user h =
    let (found, first, rest) = and_then-eq-ok authenticated refuse_anonymous h in
    let (same, live) = refuse_anonymous-eq-ok found user rest in
    (ap some (first ∙ ap ok same), live)
