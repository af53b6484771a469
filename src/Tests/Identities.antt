-- ===== src/Tests/Identities.antt =====
-- A second Telegram user is registered, and the first is banned.
use nexabot.Prelude.{◌≡◌, ◌≢◌, refl, none, some, [], ◌∷◌, ◌++◌}
use nexabot.Prelude.Int.{pos}
use nexabot.Domain.Identity.{
  User, TelegramIdentity, active, banned, make_telegram_identity, ban, attach_telegram_identity,
  ensure_active,
}
use nexabot.Database.World.{World, utc_now, uuid4}
use nexabot.Database.Users
use nexabot.Database.Users.Roles
use nexabot.Application.Identity.{register_or_update, resolve_current_actor, ban_user}
use nexabot.Application.Identity.Registration.{registration_resolves}
use nexabot.Application.Identity.Renewal.{registration_renews}
use nexabot.Application.Identity.Banning.{ban_user_refuses}
use nexabot.Tests.Fixture.{world_with, answer_hi}
use nexabot.Exec.{ok}

abbrev ada : TelegramIdentity
ada = record {
  telegram_user_id = pos 88;
  username = some "ada";
  first_name = none;
  last_name = none;
}

abbrev before : World
before = world_with answer_hi []

-- Ada, as she is returned and as she is stored.
abbrev registered_ada : User
registered_ada = record {
  id = 100;
  status = active;
  roles = [];
  telegram_identity = some ada;
  created_at = 0;
  updated_at = 2;
}

abbrev stored_ada : User
stored_ada = record registered_ada { created_at = 3; updated_at = 4 }

abbrev after : World
after = record before {
  db = record before.db {
    users =
        before.db.users
        ++ record { id = 100; status = active; created_at = 3; updated_at = 4 } ∷ [];
    telegram_identities =
        before.db.telegram_identities
        ++ record {
          id = 101;
          user_id = 100;
          telegram_user_id = pos 88;
          username = some "ada";
          first_name = none;
          last_name = none;
        }
          ∷ [];
  };
  reads = 5;
  drawn = 2;
}

registration_resolves_example :
    (register_or_update ada before ≡ (ok registered_ada, after))
    × (Users.get_by_telegram_identity (pos 88) after ≡ (ok (some stored_ada), after))
    × (resolve_current_actor (pos 88) after ≡ (ok stored_ada, after))
registration_resolves_example = registration_resolves ada before refl refl refl refl refl

abbrev banned_user : User
banned_user = record {
  id = 2;
  status = banned;
  roles = [];
  telegram_identity =
      some (record {
        telegram_user_id = pos 77;
        username = none;
        first_name = none;
        last_name = none;
      });
  created_at = 0;
  updated_at = 5;
}

ban_user_refuses_example : stored_ada.id ≢ banned_user.id
unfolding ban_user resolve_current_actor Users.get Users.get_by_telegram_identity Users.to_domain
    Users.load_roles make_telegram_identity Roles.load_role_rows ban ensure_active Users.save
    Users.update_status Users.sync_roles Roles.assign_all Users.attach_telegram_identity
    Users.update_identity utc_now uuid4
ban_user_refuses_example =
    ban_user_refuses 2 (pos 88) after (ban_user 2 after).1 (ban_user 2 after).1 banned_user
      stored_ada refl refl

abbrev bob : TelegramIdentity
bob = record {
  telegram_user_id = pos 77;
  username = some "bob";
  first_name = none;
  last_name = none;
}

abbrev known_user : User
known_user = record {
  id = 2;
  status = active;
  roles = [];
  telegram_identity =
      some (record {
        telegram_user_id = pos 77;
        username = none;
        first_name = none;
        last_name = none;
      });
  created_at = 0;
  updated_at = 0;
}

abbrev renewed_user : User
renewed_user = record known_user { telegram_identity = some bob }

registration_renews_example :
    (renewed_user.id ≡ known_user.id)
    × (renewed_user.status ≡ known_user.status)
    × (renewed_user.roles ≡ known_user.roles)
    × (renewed_user.telegram_identity ≡ some bob)
    × ((register_or_update bob before).1.db.users ≡ before.db.users)
unfolding register_or_update Users.get_by_telegram_identity Users.to_domain Users.load_roles
    make_telegram_identity Roles.load_role_rows Users.save Users.update_status Users.sync_roles
    Roles.assign_all Users.attach_telegram_identity Users.update_identity utc_now uuid4
    attach_telegram_identity
registration_renews_example =
    registration_renews bob before (register_or_update bob before).1 known_user renewed_user refl
      refl
