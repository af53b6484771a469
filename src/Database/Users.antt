-- ===== src/Database/Users.antt =====
-- infrastructure/database/repositories/identity.py
pub mod Roles
pub mod Aside
pub mod Marking
unfoldable pub use Roles.{load_roles, sync_roles}
use nexabot.Prelude.{
  ℕ, String, Bool, true, false, Option, none, some, List, [], ◌∷◌, ◌++◌, ◌||◌, ◌&&◌, not, ◌==◌, any,
  find, update_where, if◌then◌else◌,
}
use nexabot.Prelude.Int.{ℤ, pos, negsuc}
use nexabot.Domain.Errors.{integrity_error, not_found_error}
use nexabot.Domain.Identity.{
  UserStatus, active, banned, disabled, TelegramIdentity, make_telegram_identity, User, Role,
}
use nexabot.Database.Tables.{UserRow, TelegramIdentityRow, Db, is_user}
use nexabot.Database.World.{World, uuid4, utc_now}
use nexabot.Exec.{
  Exec, Result, ok, err, pure, throw, raise, lift, gets, modify, and_then, ◌>>=◌, ◌>>◌,
}

abbrev pub same_int : ℤ → ℤ → Bool
same_int (pos a) (pos b) = a == b
same_int (negsuc a) (negsuc b) = a == b
same_int _ _ = false

abbrev pub identity_of_user : ℕ → TelegramIdentityRow → Bool
identity_of_user user_id r = r.user_id == user_id

abbrev pub identity_of_telegram : ℤ → TelegramIdentityRow → Bool
identity_of_telegram telegram_user_id r = same_int r.telegram_user_id telegram_user_id

abbrev pub load_identity : Option TelegramIdentityRow → Result (Option TelegramIdentity)
load_identity none = ok none
load_identity (some r) =
    and_then
      (make_telegram_identity (record {
        telegram_user_id = r.telegram_user_id;
        username = r.username;
        first_name = r.first_name;
        last_name = r.last_name;
      }))
      λ identity. ok (some identity)

-- `_to_domain`
unfoldable pub to_domain : UserRow → Db → Result User
to_domain row db = and_then (load_roles row.id db) λ roles.
    and_then (load_identity (find (identity_of_user row.id) db.telegram_identities)) λ identity.
      ok (record {
        id = row.id;
        status = row.status;
        roles = roles;
        telegram_identity = identity;
        created_at = row.created_at;
        updated_at = row.updated_at;
      })

abbrev pub load_user : Option UserRow → Db → Result (Option User)
load_user none db = ok none
load_user (some row) db = and_then (to_domain row db) λ user. ok (some user)

unfoldable pub get : ℕ → Exec World (Option User)
get user_id w = (load_user (find (is_user user_id) w.db.users) w.db, w)

abbrev pub row_of_identity : Option TelegramIdentityRow → Db → Option UserRow
row_of_identity none db = none
row_of_identity (some r) db = find (is_user r.user_id) db.users

unfoldable pub get_by_telegram_identity : ℤ → Exec World (Option User)
get_by_telegram_identity telegram_user_id w = (
  load_user
      (row_of_identity (find (identity_of_telegram telegram_user_id) w.db.telegram_identities) w.db)
      w.db,
  w,
)

abbrev with_identities : List TelegramIdentityRow → World → World
with_identities rows w = record w { db = record w.db { telegram_identities = rows } }

-- The unique column `telegram_user_id`, over the rows of other users.
abbrev pub taken_by_other : ℕ → ℤ → TelegramIdentityRow → Bool
taken_by_other user_id telegram_user_id r =
    same_int r.telegram_user_id telegram_user_id && not (r.user_id == user_id)

-- The primary key of the identities.
abbrev pub has_identity_id : ℕ → TelegramIdentityRow → Bool
has_identity_id id r = r.id == id

abbrev pub renew : TelegramIdentity → TelegramIdentityRow → TelegramIdentityRow
renew t r = record r {
  telegram_user_id = t.telegram_user_id;
  username = t.username;
  first_name = t.first_name;
  last_name = t.last_name;
}

-- The row of the user, changed. The unique column is checked.
unfoldable pub update_identity : ℕ → TelegramIdentity → Exec World Unit
update_identity user_id t w =
    if any (taken_by_other user_id t.telegram_user_id) w.db.telegram_identities
    then (err integrity_error, w)
    else (
      ok tt,
      with_identities (update_where (identity_of_user user_id) (renew t) w.db.telegram_identities)
          w,
    )

-- A row that may be inserted: its primary key, its unique columns and its foreign key.
unfoldable pub identity_accepted : TelegramIdentityRow → Db → Bool
identity_accepted row db =
    not (any (has_identity_id row.id) db.telegram_identities)
    && not (any (identity_of_user row.user_id) db.telegram_identities)
    && not (any (identity_of_telegram row.telegram_user_id) db.telegram_identities)
    && any (is_user row.user_id) db.users

unfoldable pub insert_identity : TelegramIdentityRow → Exec World Unit
insert_identity row w =
    if identity_accepted row w.db
    then (ok tt, with_identities (w.db.telegram_identities ++ row ∷ []) w)
    else (err integrity_error, w)

unfoldable pub attach_telegram_identity : ℕ → TelegramIdentity → Exec World Unit
attach_telegram_identity user_id t = do
  existing ← gets (λ w. find (identity_of_user user_id) w.db.telegram_identities)
  elim existing [
    | some row ↦ update_identity user_id t
    | none ↦ (do
      id ← uuid4
      insert_identity (record {
        id = id;
        user_id = user_id;
        telegram_user_id = t.telegram_user_id;
        username = t.username;
        first_name = t.first_name;
        last_name = t.last_name;
      }))
  ]

abbrev pub attach_if_any : ℕ → Option TelegramIdentity → Exec World Unit
attach_if_any user_id none = pure tt
attach_if_any user_id (some identity) = attach_telegram_identity user_id identity

abbrev insert_user : UserRow → Exec World Unit
insert_user row w =
    if any (is_user row.id) w.db.users
    then (err integrity_error, w)
    else (ok tt, record w { db = record w.db { users = w.db.users ++ row ∷ [] } })

-- The instants of the new row are the defaults of its columns.
unfoldable pub add : User → Exec World Unit
add user = do
  created ← utc_now
  updated ← utc_now
  insert_user
      (record { id = user.id; status = user.status; created_at = created; updated_at = updated })
  sync_roles user.id user.roles
  attach_if_any user.id user.telegram_identity

abbrev pub same_status : UserStatus → UserStatus → Bool
same_status active active = true
same_status banned banned = true
same_status disabled disabled = true
same_status _ _ = false

abbrev set_status : ℕ → ℕ → UserStatus → Exec World Unit
set_status now user_id status = modify λ w. record w {
  db = record w.db {
    users =
        update_where (is_user user_id)
          (λ (r : UserRow). record r { status = status; updated_at = now }) w.db.users;
  };
}

-- The ORM writes a row only if a column changes; `updated_at` is then set too.
unfoldable pub update_status : ℕ → UserStatus → UserStatus → Exec World Unit
update_status user_id old new =
    if same_status old new then pure tt else (do now ← utc_now; set_status now user_id new)

unfoldable pub save : User → Exec World Unit
save user = do
  found ← gets (λ w. find (is_user user.id) w.db.users)
  elim found [
    | none ↦ raise (not_found_error "User not found." "user_not_found" [])
    | some row ↦ (do
      update_status user.id row.status user.status
      sync_roles user.id user.roles
      attach_if_any user.id user.telegram_identity)
  ]
