-- ===== src/Database/Users/Aside.antt =====
-- infrastructure/database/repositories/identity.py: roles and identities are written beside the rows
-- of the users.
use nexabot.Prelude.{
  ℕ, ◌≡◌, refl, ◌∙◌, Bool, true, false, Option, none, some, List, [], ◌∷◌, arith, any, select,
  if◌then◌else◌,
}
use nexabot.Domain.Identity.{TelegramIdentity, Permission, Role}
use nexabot.Database.Tables.{Link}
use nexabot.Database.World.{World, uuid4}
use nexabot.Database.Users
use nexabot.Database.Users.Roles
use nexabot.Exec.{Exec, Result, ok, err, continue, ◌>>=◌, ◌>>◌, pure, gets}

-- A step that leaves the rows of the users as they are.
abbrev pub IsAside : {A : Type 0} → Exec World A → Type 0
IsAside m = (w : World) → (m w).1.db.users ≡ w.db.users

pub continue-IsAside :
    {A B : Type 0} (r : Result A) (f : A → Exec World B) (w : World)
    → ((a : A) → IsAside (f a))
    → (continue r f w).1.db.users ≡ w.db.users
continue-IsAside (ok a) f w h = h a w
continue-IsAside (err e) f w h = refl

pub >>=-IsAside :
    {A B : Type 0} (m : Exec World A) (f : A → Exec World B)
    → IsAside m
    → ((a : A) → IsAside (f a))
    → IsAside (m >>= f)
>>=-IsAside m f first rest w = continue-IsAside (m w).0 f (m w).1 rest ∙ first w

get_or_create_permission-IsAside : (p : Permission) → IsAside (Roles.get_or_create_permission p)
unfolding Roles.get_or_create_permission uuid4
get_or_create_permission-IsAside p w = ground arith

role_id_of-IsAside : (role : Role) → IsAside (Roles.role_id_of role)
unfolding Roles.role_id_of uuid4
role_id_of-IsAside role w = ground arith

grant-IsAside : (l : Link) → IsAside (Roles.grant l)
unfolding Roles.grant
grant-IsAside l w = ground arith

assign-IsAside : (l : Link) → IsAside (Roles.assign l)
unfolding Roles.assign
assign-IsAside l w = ground arith

granted-IsAside : (b : Bool) (l : Link) → IsAside (if b then pure tt else Roles.grant l)
granted-IsAside true l w = refl
granted-IsAside false l w = grant-IsAside l w

grant_all-IsAside :
    (role_id : ℕ) (assigned : List Link) (ps : List Permission)
    → IsAside (Roles.grant_all role_id assigned ps)
unfolding Roles.grant_all
grant_all-IsAside role_id assigned [] = λ w. refl
grant_all-IsAside role_id assigned (p ∷ ps) =
    >>=-IsAside (Roles.get_or_create_permission p) _ (get_or_create_permission-IsAside p) λ id.
      >>=-IsAside _ _
        (granted-IsAside (any (Roles.links role_id id) assigned)
          (record { from = role_id; target = id }))
        λ _. grant_all-IsAside role_id assigned ps

get_or_create_role-IsAside : (role : Role) → IsAside (Roles.get_or_create_role role)
unfolding Roles.get_or_create_role
get_or_create_role-IsAside role =
    >>=-IsAside (Roles.role_id_of role)
      (λ id.
        gets (λ (u : World). select (Roles.links_from id) u.db.role_permissions) >>= λ assigned.
        Roles.grant_all id assigned role.permissions >> pure id)
      (role_id_of-IsAside role)
      (λ id u.
        let assigned = select (Roles.links_from id) u.db.role_permissions in
        >>=-IsAside (Roles.grant_all id assigned role.permissions) (λ _. pure id)
          (grant_all-IsAside id assigned role.permissions) (λ _ v. refl) u)

assign_all-IsAside : (user_id : ℕ) (roles : List Role) → IsAside (Roles.assign_all user_id roles)
unfolding Roles.assign_all
assign_all-IsAside user_id [] = λ w. refl
assign_all-IsAside user_id (role ∷ roles) =
    >>=-IsAside (Roles.get_or_create_role role) _ (get_or_create_role-IsAside role) λ role_id.
      >>=-IsAside (Roles.assign (record { from = user_id; target = role_id })) _
        (assign-IsAside (record { from = user_id; target = role_id }))
        λ _. assign_all-IsAside user_id roles

pub sync_roles-IsAside :
    (user_id : ℕ) (roles : List Role) → IsAside (Users.sync_roles user_id roles)
unfolding Users.sync_roles
sync_roles-IsAside user_id roles w = assign_all-IsAside user_id roles _

attach-IsAside :
    (user_id : ℕ) (t : TelegramIdentity) → IsAside (Users.attach_telegram_identity user_id t)
unfolding Users.attach_telegram_identity Users.update_identity Users.insert_identity uuid4
attach-IsAside user_id t w = ground arith

pub attach_if_any-IsAside :
    (user_id : ℕ) (t : Option TelegramIdentity) → IsAside (Users.attach_if_any user_id t)
attach_if_any-IsAside user_id none w = refl
attach_if_any-IsAside user_id (some t) w = attach-IsAside user_id t w
