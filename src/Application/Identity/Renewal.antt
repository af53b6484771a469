-- ===== src/Application/Identity/Renewal.antt =====
-- application/identity/use_cases.py: a Telegram user that is known is not registered a second time.
use nexabot.Prelude.{ℕ, ◌+◌, ◌≡◌, refl, ap, sym, ◌∙◌, true, some, find, arith}
use nexabot.Domain.Identity.{TelegramIdentity, User, UserStatus, attach_telegram_identity}
use nexabot.Database.Tables.{UserRow, is_user}
use nexabot.Database.World.{World, utc_now}
use nexabot.Database.Users
use nexabot.Database.Users.Aside.{>>=-IsAside, sync_roles-IsAside, attach_if_any-IsAside}
use nexabot.Database.Users.Marking.{rest-IsAside, looked_up-same}
use nexabot.Application.Identity.{register_or_update}
use nexabot.Exec.{ok, ◌>>=◌, ◌>>◌, >>=-eq-ok, pure}

same_status_refl : (s : UserStatus) → Users.same_status s s ≡ true
same_status_refl s = ground arith

update_status_same :
    (id : ℕ) (old new : UserStatus) (w : World)
    → old ≡ new
    → (Users.update_status id old new w).1 ≡ w
unfolding Users.update_status
update_status_same id old new w same = rw (same, same_status_refl new) refl

-- A user that is saved with the status that is stored changes no row of a user.
save_same :
    (u : User) (row : UserRow) (w w' : World) (x : Unit)
    → find (is_user u.id) w.db.users ≡ some row
    → row.status ≡ u.status
    → Users.save u w ≡ (ok x, w')
    → w'.db.users ≡ w.db.users
unfolding Users.save
save_same u row w w' x e same h =
    let rest =
      λ (_ : Unit). Users.sync_roles u.id u.roles >> Users.attach_if_any u.id u.telegram_identity in
    let opened : Users.save u w ≡ (Users.update_status u.id row.status u.status >>= rest) w =
      rw (Users.save, e) refl in
    rest-IsAside (Users.update_status u.id row.status u.status) rest w w' x
      (λ _.
        >>=-IsAside (Users.sync_roles u.id u.roles) _ (sync_roles-IsAside u.id u.roles)
          (λ _. attach_if_any-IsAside u.id u.telegram_identity))
      (sym opened ∙ h)
    ∙ ap (λ (v : World). v.db.users) (update_status_same u.id row.status u.status w same)

-- When a Telegram user that is already known is registered again with success, the user that is
-- returned is the known one, with its status and its roles, and bears the new identity; no row of a
-- user is added or changed, so a user who was banned stays banned.
pub registration_renews :
    (t : TelegramIdentity) (w w' : World) (u v : User)
    → Users.get_by_telegram_identity t.telegram_user_id w ≡ (ok (some u), w)
    → register_or_update t w ≡ (ok v, w')
    → (v.id ≡ u.id)
      × (v.status ≡ u.status)
      × (v.roles ≡ u.roles)
      × (v.telegram_identity ≡ some t)
      × (w'.db.users ≡ w.db.users)
unfolding register_or_update utc_now attach_telegram_identity
registration_renews t w w' u v known h =
    let now = w.host.clock w.reads in
    let user = attach_telegram_identity now t u in
    let read = record w { reads = w.reads + 1 } in
    let opened : (Users.save user >> pure user) read ≡ register_or_update t w = rw known refl in
    let (x, first, rest) = >>=-eq-ok (Users.save user) (λ _. pure user) read (opened ∙ h) in
    let same : v ≡ user = cc (ap (λ p. p.0) rest) in
    let (row, at, status) = looked_up-same t.telegram_user_id w u known in
    (
      ap (λ (y : User). y.id) same,
      ap (λ (y : User). y.status) same,
      ap (λ (y : User). y.roles) same,
      ap (λ (y : User). y.telegram_identity) same,
      save_same user row read w' x at status (first ∙ ap (λ p. (ok x, p.1)) rest),
    )
