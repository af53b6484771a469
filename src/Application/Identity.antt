-- ===== src/Application/Identity.antt =====
-- application/identity/use_cases.py
pub mod Registration
pub mod Renewal
pub mod Banning
use nexabot.Prelude.{ℕ, Option, none, some, []}
use nexabot.Prelude.Int.{ℤ}
use nexabot.Domain.Errors.{authorization_error, not_found_error}
use nexabot.Domain.Identity.{
  TelegramIdentity, User, active, attach_telegram_identity, ban, unban, ensure_active,
}
use nexabot.Database.World.{World, utc_now, uuid4}
use nexabot.Database.Users
use nexabot.Exec.{Exec, pure, lift, or_raise, ◌>>=◌, ◌>>◌}

-- `User(id=new_user_id())`
unfoldable pub new_user : Exec World User
new_user = do
  id ← uuid4
  created ← utc_now
  updated ← utc_now
  pure (record {
    id = id;
    status = active;
    roles = [];
    telegram_identity = none;
    created_at = created;
    updated_at = updated;
  })

abbrev refresh : TelegramIdentity → Option User → Exec World User
refresh identity (some existing) = do
  now ← utc_now
  let user = attach_telegram_identity now identity existing
  Users.save user
  pure user
refresh identity none = do
  fresh ← new_user
  now ← utc_now
  let user = attach_telegram_identity now identity fresh
  Users.add user
  pure user

-- `RegisterOrUpdateTelegramUser.execute`
unfoldable pub register_or_update : TelegramIdentity → Exec World User
register_or_update identity = do
  existing ← Users.get_by_telegram_identity identity.telegram_user_id
  refresh identity existing

-- `ResolveCurrentActor.execute`
unfoldable pub resolve_current_actor : ℤ → Exec World User
resolve_current_actor telegram_user_id = do
  found ← Users.get_by_telegram_identity telegram_user_id
  user ← or_raise found (authorization_error "Unknown Telegram user." "unknown_actor" [])
  lift (ensure_active user)
  pure user

-- `BanUser.execute`
unfoldable pub ban_user : ℕ → Exec World User
ban_user user_id = do
  found ← Users.get user_id
  user ← or_raise found (not_found_error "User not found." "user_not_found" [])
  now ← utc_now
  banned ← lift (ban now user)
  Users.save banned
  pure banned

-- `UnbanUser.execute`
unfoldable pub unban_user : ℕ → Exec World User
unban_user user_id = do
  found ← Users.get user_id
  user ← or_raise found (not_found_error "User not found." "user_not_found" [])
  now ← utc_now
  unbanned ← lift (unban now user)
  Users.save unbanned
  pure unbanned
