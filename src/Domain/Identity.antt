-- ===== src/Domain/Identity.antt =====
-- domain/identity/entities.py: users, their roles and permissions, and Telegram identities.
use nexabot.Prelude.{
  ℕ, String, Bool, true, false, not, ◌&&◌, ◌||◌, Option, some, List, [], ◌∷◌, str_eq, is_empty, any,
  if◌then◌else◌,
}
use nexabot.Prelude.Int.{ℤ, not_positive}
use nexabot.Domain.Errors.{Detail, conflict_error, validation_error, default_validation_code}
use nexabot.Exec.{Result, ok, fails}

pub data UserStatus : Type 0 where
  active banned disabled : UserStatus

unfoldable pub status_value : UserStatus → String
status_value active = "active"
status_value banned = "banned"
status_value disabled = "disabled"

pub record Permission : Type 0 where
  pub namespace : String
  pub action : String

-- `Permission(...)`: both parts are required.
unfoldable pub make_permission : String → String → Result Permission
make_permission namespace action =
    if is_empty namespace || is_empty action
    then fails (
        validation_error "Permission namespace and action are required." default_validation_code [])
    else ok (record { namespace = namespace; action = action })

-- Equality of frozen dataclasses compares the fields.
unfoldable pub same_permission : Permission → Permission → Bool
same_permission p q = str_eq p.namespace q.namespace && str_eq p.action q.action

-- A frozen set is a list whose order and repetitions are never looked at.
pub record Role : Type 0 where
  pub name : String
  pub permissions : List Permission

unfoldable pub make_role : String → List Permission → Result Role
make_role name permissions =
    if is_empty name
    then fails (validation_error "Role name is required." default_validation_code [])
    else ok (record { name = name; permissions = permissions })

pub record TelegramIdentity : Type 0 where
  pub telegram_user_id : ℤ
  pub username : Option String
  pub first_name : Option String
  pub last_name : Option String

unfoldable pub make_telegram_identity : TelegramIdentity → Result TelegramIdentity
make_telegram_identity t =
    if not_positive t.telegram_user_id
    then fails (validation_error "Telegram user id must be positive." default_validation_code [])
    else ok t

pub record User : Type 0 where
  pub id : ℕ
  pub status : UserStatus
  pub roles : List Role
  pub telegram_identity : Option TelegramIdentity
  pub created_at : ℕ
  pub updated_at : ℕ

unfoldable pub has_permission : Permission → User → Bool
unfolding same_permission
has_permission permission u =
    any (λ (r : Role). any (same_permission permission) r.permissions) u.roles

unfoldable pub assign_roles : ℕ → List Role → User → User
assign_roles now roles u = record u { roles = roles; updated_at = now }

unfoldable pub attach_telegram_identity : ℕ → TelegramIdentity → User → User
attach_telegram_identity now identity u = record u {
  telegram_identity = some identity;
  updated_at = now;
}

abbrev pub is_banned : UserStatus → Bool
is_banned banned = true
is_banned _ = false

abbrev pub is_active : UserStatus → Bool
is_active active = true
is_active _ = false

unfoldable pub ban : ℕ → User → Result User
ban now u =
    if is_banned u.status
    then fails (conflict_error "User is already banned." "user_already_banned" [])
    else ok (record u { status = banned; updated_at = now })

unfoldable pub unban : ℕ → User → Result User
unban now u =
    if not (is_banned u.status)
    then fails (conflict_error "Only banned users can be unbanned." "user_not_banned" [])
    else ok (record u { status = active; updated_at = now })

unfoldable pub ensure_active : User → Result Unit
unfolding status_value
ensure_active u =
    if is_active u.status
    then ok tt
    else fails (
        conflict_error "User is not active." "user_not_active"
          (("status", Detail.text (status_value u.status)) ∷ []))
