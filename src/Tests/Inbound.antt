-- ===== src/Tests/Inbound.antt =====
-- An inbound request id and an authenticated caller.
use nexabot.Prelude.{◌≡◌, refl, Option, some, none, []}
use nexabot.Domain.Identity.{User, active, ensure_active}
use nexabot.Interfaces.Security.{require_actor, get_authenticator, require_actor_sound}
use nexabot.Exec.{Result, ok}

abbrev caller : User
caller = record {
  id = 2;
  status = active;
  roles = [];
  telegram_identity = none;
  created_at = 0;
  updated_at = 0;
}

abbrev installed : Option (Result (Option User))
installed = some (ok (some caller))

require_actor_sound_example : (installed ≡ some (ok (some caller))) × (caller.status ≡ active)
unfolding require_actor get_authenticator ensure_active
require_actor_sound_example = require_actor_sound installed caller refl
