-- ===== src/Application/Identity/Registration.antt =====
-- application/identity/use_cases.py: a Telegram user that is not known yet is registered.
use nexabot.Prelude.{
  Bool, ℕ, ◌+◌, ◌≡◌, refl, ◌∙◌, true, false, not, none, some, List, [], ◌∷◌, ◌++◌, arith, any, find,
  select, find-append_none,
}
use nexabot.Prelude.Int.{ℤ, pos, negsuc, not_positive}
use nexabot.Domain.Identity.{
  TelegramIdentity, make_telegram_identity, User, active, attach_telegram_identity, ensure_active,
}
use nexabot.Database.Tables.{UserRow, TelegramIdentityRow, RoleRow, Link, is_user}
use nexabot.Database.World.{World, utc_now, uuid4}
use nexabot.Database.Users
use nexabot.Database.Users.{same_int, identity_of_telegram, identity_of_user, has_identity_id}
use nexabot.Database.Users.Roles
use nexabot.Database.Users.Roles.{links, links_from}
use nexabot.Application.Identity.{new_user, register_or_update, resolve_current_actor}
use nexabot.Exec.{ok}

same_int_refl : (k : ℤ) → same_int k k ≡ true
same_int_refl (pos a) = ground arith
same_int_refl (negsuc a) = ground arith

none_passes :
    (p : TelegramIdentityRow → Bool) (rows : List TelegramIdentityRow)
    → find p rows ≡ none
    → any p rows ≡ false
none_passes p [] h = refl
none_passes p (r ∷ rows) h = ground (arith, none_passes p rows)

-- The links that are left after those of a user are deleted give that user no role.
unlinked :
    (user_id role_id : ℕ) (ls : List Link)
    → any (links user_id role_id) (select (λ (l : Link). not (links_from user_id l)) ls) ≡ false
unlinked user_id role_id [] = refl
unlinked user_id role_id (l ∷ ls) = ground (arith, unlinked user_id role_id ls)

no_roles :
    (user_id : ℕ) (ls : List Link) (roles : List RoleRow)
    → select
        (λ (r : RoleRow).
          any (links user_id r.id) (select (λ (l : Link). not (links_from user_id l)) ls))
        roles
      ≡ []
no_roles user_id ls [] = refl
no_roles user_id ls (r ∷ roles) = rw (unlinked user_id r.id ls) (no_roles user_id ls roles)

find-fresh :
    (id : ℕ) (row : UserRow) (rows : List UserRow)
    → any (is_user id) rows ≡ false
    → row.id ≡ id
    → find (is_user id) (rows ++ row ∷ []) ≡ some row
find-fresh id row [] h same = ground arith
find-fresh id row (r ∷ rows) h same = ground (arith, find-fresh id row rows)

any-fresh :
    (id : ℕ) (row : UserRow) (rows : List UserRow)
    → row.id ≡ id
    → any (is_user id) (rows ++ row ∷ []) ≡ true
any-fresh id row [] same = ground arith
any-fresh id row (r ∷ rows) same = ground (arith, any-fresh id row rows)

module _ (t : TelegramIdentity) (w : World) (positive : not_positive t.telegram_user_id ≡ false)
    (unknown : find (identity_of_telegram t.telegram_user_id) w.db.telegram_identities ≡ none)
    (fresh : any (is_user (w.host.uuid w.drawn)) w.db.users ≡ false)
    (unowned : find (identity_of_user (w.host.uuid w.drawn)) w.db.telegram_identities ≡ none)
    (fresh_identity : any (has_identity_id (w.host.uuid (w.drawn + 1))) w.db.telegram_identities
      ≡ false) where
  abbrev id : ℕ
  id = w.host.uuid w.drawn

  abbrev user_row : UserRow
  user_row = record {
    id = id;
    status = active;
    created_at = w.host.clock (w.reads + 1 + 1 + 1);
    updated_at = w.host.clock (w.reads + 1 + 1 + 1 + 1);
  }

  abbrev identity_row : TelegramIdentityRow
  identity_row = record {
    id = w.host.uuid (w.drawn + 1);
    user_id = id;
    telegram_user_id = t.telegram_user_id;
    username = t.username;
    first_name = t.first_name;
    last_name = t.last_name;
  }

  -- The user that is returned.
  abbrev registered : User
  registered = record {
    id = id;
    status = active;
    roles = [];
    telegram_identity = some t;
    created_at = w.host.clock w.reads;
    updated_at = w.host.clock (w.reads + 1 + 1);
  }

  -- The world in which the two rows are stored.
  abbrev later : World
  later = record w {
    db = record w.db {
      users = w.db.users ++ user_row ∷ [];
      telegram_identities = w.db.telegram_identities ++ identity_row ∷ [];
      user_roles = select (λ (l : Link). not (links_from id l)) w.db.user_roles;
    };
    reads = w.reads + 1 + 1 + 1 + 1 + 1;
    drawn = w.drawn + 1 + 1;
  }

  -- The world between the two INSERTs.
  abbrev between : World
  between = record w {
    db = record w.db {
      users = w.db.users ++ user_row ∷ [];
      user_roles = select (λ (l : Link). not (links_from id l)) w.db.user_roles;
    };
    reads = w.reads + 1 + 1 + 1 + 1 + 1;
    drawn = w.drawn + 1 + 1;
  }

  writes : Users.insert_identity identity_row between ≡ (ok tt, later)
  unfolding Users.insert_identity Users.identity_accepted
  writes =
      rw
        (
          fresh_identity,
          none_passes (identity_of_user id) w.db.telegram_identities unowned,
          none_passes (identity_of_telegram t.telegram_user_id) w.db.telegram_identities unknown,
          any-fresh id user_row w.db.users refl,
        )
        refl

  registers : register_or_update t w ≡ (ok registered, later)
  unfolding register_or_update Users.get_by_telegram_identity new_user attach_telegram_identity
      Users.add Users.sync_roles Roles.assign_all Users.attach_telegram_identity uuid4 utc_now
  registers = rw (unknown, fresh, unowned, writes) refl

  has_identity :
      find (identity_of_telegram t.telegram_user_id) later.db.telegram_identities
      ≡ some identity_row
  has_identity =
      find-append_none (identity_of_telegram t.telegram_user_id) w.db.telegram_identities
        (identity_row ∷ []) unknown
      ∙ rw (same_int_refl t.telegram_user_id) refl

  owns_identity : find (identity_of_user id) later.db.telegram_identities ≡ some identity_row
  owns_identity =
      find-append_none (identity_of_user id) w.db.telegram_identities (identity_row ∷ []) unowned
      ∙ ground arith

  -- The user as it is stored.
  abbrev kept : User
  kept = record registered { created_at = user_row.created_at; updated_at = user_row.updated_at }

  finds : Users.get_by_telegram_identity t.telegram_user_id later ≡ (ok (some kept), later)
  unfolding Users.get_by_telegram_identity Users.to_domain Users.load_roles make_telegram_identity
      Roles.load_role_rows
  finds =
      rw
        (
          has_identity,
          find-fresh id user_row w.db.users fresh refl,
          no_roles id w.db.user_roles w.db.roles,
          owns_identity,
          positive,
        )
        refl

  resolves : resolve_current_actor t.telegram_user_id later ≡ (ok kept, later)
  unfolding resolve_current_actor ensure_active
  resolves = rw finds refl

  -- A Telegram user whose identity is not stored is registered as an active user without roles,
  -- under a new identifier, if that identifier belongs to no user and is the user of no identity, the
  -- identifier of the new identity is not in use, and the Telegram user id is positive. From then on that Telegram user id is looked up to that user, who may act.
  pub registration_resolves :
      (register_or_update t w ≡ (ok registered, later))
      × (Users.get_by_telegram_identity t.telegram_user_id later ≡ (ok (some kept), later))
      × (resolve_current_actor t.telegram_user_id later ≡ (ok kept, later))
  registration_resolves = (registers, finds, resolves)
