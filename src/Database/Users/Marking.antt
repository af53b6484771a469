-- ===== src/Database/Users/Marking.antt =====
-- infrastructure/database/repositories/identity.py: the status of a user that is saved and looked up.
use nexabot.Prelude.{
  ℕ, ◌≡◌, refl, ap, sym, ◌∙◌, Bool, true, false, Option, none, some, [], arith, find, find-passes,
}
use nexabot.Prelude.Unique.{find-update_where}
use nexabot.Prelude.Int.{ℤ}
use nexabot.Domain.Errors.{domain_error, not_found_error}
use nexabot.Domain.Identity.{User, UserStatus}
use nexabot.Database.Tables.{UserRow, TelegramIdentityRow, Db, is_user}
use nexabot.Database.World.{World, utc_now}
use nexabot.Database.Users
use nexabot.Database.Users.Aside.{
  IsAside, continue-IsAside, >>=-IsAside, sync_roles-IsAside, attach_if_any-IsAside,
}
use nexabot.Exec.{Exec, ok, err, ◌>>=◌, ◌>>◌, and_then-eq-ok}

-- The stored status of a user.
abbrev pub Marked : ℕ → UserStatus → World → Type 0
Marked id status w =
    (row : UserRow) × (find (is_user id) w.db.users ≡ some row) × (row.status ≡ status)

same_status-eq : (a b : UserStatus) → Users.same_status a b ≡ true → a ≡ b
same_status-eq a b h = ground arith

update_status-Marked :
    (id : ℕ) (row : UserRow) (new : UserStatus) (same : Bool) (w : World)
    → find (is_user id) w.db.users ≡ some row
    → Users.same_status row.status new ≡ same
    → Marked id new (Users.update_status id row.status new w).1
unfolding Users.update_status utc_now
update_status-Marked id row new true w h e = rw e (row, h, same_status-eq row.status new e)
update_status-Marked id row new false w h e =
    let set = λ (r : UserRow). record r { status = new; updated_at = w.host.clock w.reads } in
    rw e (
      set row,
      find-update_where (is_user id) (is_user id) set (λ r. refl) w.db.users
          ∙ rw (h, find-passes (is_user id) w.db.users row h) refl,
      refl,
    )

pub rest-IsAside :
    {A : Type 0} (m : Exec World Unit) (f : Unit → Exec World A) (w w' : World) (x : A)
    → ((a : Unit) → IsAside (f a))
    → (m >>= f) w ≡ (ok x, w')
    → w'.db.users ≡ (m w).1.db.users
rest-IsAside m f w w' x each h =
    sym (ap (λ p. p.1.db.users) h) ∙ continue-IsAside (m w).0 f (m w).1 each

found-Marked :
    (u : User) (found : Option UserRow) (w w' : World) (x : Unit)
    → find (is_user u.id) w.db.users ≡ found
    → Users.save u w ≡ (ok x, w')
    → Marked u.id u.status w'
unfolding Users.save
found-Marked u none w w' x e h =
    let refused : (Users.save u w).0
        ≡ err (domain_error (not_found_error "User not found." "user_not_found" [])) =
      rw e refl in
    absurd (cc (sym refused ∙ ap (λ p. p.0) h))
found-Marked u (some row) w w' x e h =
    let rest =
      λ (_ : Unit). Users.sync_roles u.id u.roles >> Users.attach_if_any u.id u.telegram_identity in
    let opened : Users.save u w ≡ (Users.update_status u.id row.status u.status >>= rest) w =
      rw e refl in
    let same =
      rest-IsAside (Users.update_status u.id row.status u.status) rest w w' x
        (λ _.
          >>=-IsAside (Users.sync_roles u.id u.roles) _ (sync_roles-IsAside u.id u.roles)
            (λ _. attach_if_any-IsAside u.id u.telegram_identity))
        (sym opened ∙ h) in
    let (row', at, status) = update_status-Marked u.id row u.status _ w e refl in
    (row', ap (find (is_user u.id)) same ∙ at, status)

pub save-Marked :
    (u : User) (w w' : World) (x : Unit) → Users.save u w ≡ (ok x, w') → Marked u.id u.status w'
save-Marked u w w' x h = found-Marked u (find (is_user u.id) w.db.users) w w' x refl h

-- What a user that was loaded has of its row.
to_domain-same :
    (row : UserRow) (db : Db) (u : User)
    → Users.to_domain row db ≡ ok u
    → (u.id ≡ row.id) × (u.status ≡ row.status)
unfolding Users.to_domain
to_domain-same row db u h =
    let (roles, _, h1) = and_then-eq-ok (Users.load_roles row.id db) _ h in
    let (identity, _, h2) =
      and_then-eq-ok
        (Users.load_identity (find (Users.identity_of_user row.id) db.telegram_identities)) _ h1 in
    (cc h2, cc h2)

pub load_user-same :
    (found : Option UserRow) (db : Db) (u : User)
    → Users.load_user found db ≡ ok (some u)
    → (row : UserRow) × (found ≡ some row) × (u.id ≡ row.id) × (u.status ≡ row.status)
load_user-same none db u h = absurd (cc h)
load_user-same (some row) db u h =
    let (v, loaded, h1) = and_then-eq-ok (Users.to_domain row db) _ h in
    let same : v ≡ u = cc h1 in
    let (id, status) = to_domain-same row db u (loaded ∙ ap ok same) in (row, refl, id, status)

-- A user that a Telegram identity is looked up to is stored as it is.
row_of_identity-own :
    (found : Option TelegramIdentityRow) (db : Db) (row : UserRow)
    → Users.row_of_identity found db ≡ some row
    → find (is_user row.id) db.users ≡ some row
row_of_identity-own none db row h = absurd (cc h)
row_of_identity-own (some r) db row h =
    let passes = find-passes (is_user r.user_id) db.users row h in
    let same : row.id ≡ r.user_id = ground arith in ap (λ i. find (is_user i) db.users) same ∙ h

pub looked_up-same :
    (k : ℤ) (w : World) (v : User)
    → Users.get_by_telegram_identity k w ≡ (ok (some v), w)
    → Marked v.id v.status w
unfolding Users.get_by_telegram_identity
looked_up-same k w v h =
    let (row, at, id, status) = load_user-same _ w.db v (ap (λ p. p.0) h) in
    (row, ap (λ i. find (is_user i) w.db.users) id ∙ row_of_identity-own _ w.db row at, sym status)
