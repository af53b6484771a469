-- ===== src/Application/Identity/Banning.antt =====
-- application/identity/use_cases.py: a banned user does not act.
use nexabot.Prelude.{
  ℕ, ◌+◌, ◌≡◌, ◌≢◌, refl, ap, sym, ◌∙◌, Option, none, some, arith, find, find-passes,
}
use nexabot.Prelude.Int.{ℤ}
use nexabot.Domain.Errors.{NexaBotError}
use nexabot.Domain.Identity.{User, active, banned, ban}
use nexabot.Database.Tables.{UserRow, is_user}
use nexabot.Database.World.{World, utc_now}
use nexabot.Database.Users
use nexabot.Application.Identity.{ban_user, resolve_current_actor}
use nexabot.Application.AgentTurn.Starting.{resolve-eq-ok}
use nexabot.Database.Users.Marking.{Marked, save-Marked, load_user-same, looked_up-same}
use nexabot.Exec.{ok, ◌>>=◌, ◌>>◌, >>=-eq-ok, pure, lift, or_raise}

ban-banned : (now : ℕ) (u u' : User) → ban now u ≡ ok u' → (u'.status ≡ banned) × (u'.id ≡ u.id)
unfolding ban
ban-banned now u u' h = ground arith

saved_ban :
    (b u : User) (w w' : World) → (Users.save b >> pure b) w ≡ (ok u, w') → Marked b.id b.status w'
saved_ban b u w w' h =
    let (x, first, rest) = >>=-eq-ok (Users.save b) (λ _. pure b) w h in
    save-Marked b w w' x (first ∙ ap (λ p. (ok x, p.1)) rest)

banned_rest :
    (user_id : ℕ) (found : Option User) (e : NexaBotError) (w w' : World) (u : User)
    → ((v : User) → found ≡ some v → v.id ≡ user_id)
    → (or_raise found e >>= λ user.
          utc_now >>= λ now. lift (ban now user) >>= λ b. Users.save b >> pure b)
        w
      ≡ (ok u, w')
    → Marked user_id banned w'
unfolding utc_now
banned_rest user_id none e w w' u own h = absurd (cc (ap (λ p. p.0) h))
banned_rest user_id (some user) e w w' u own h =
    let now = w.host.clock w.reads in
    let (b, first, rest) =
      >>=-eq-ok (lift (ban now user)) (λ b. Users.save b >> pure b)
        (record w { reads = w.reads + 1 }) h in
    let (mark, same) = ban-banned now user b (ap (λ p. p.0) first) in
    let (row, at, status) = saved_ban b u _ w' rest in
    (row, ap (λ i. find (is_user i) w'.db.users) (sym (same ∙ own user refl)) ∙ at, status ∙ mark)

-- A ban that succeeds has marked the row of the user.
ban_user-Marked :
    (user_id : ℕ) (w w' : World) (u : User)
    → ban_user user_id w ≡ (ok u, w')
    → Marked user_id banned w'
unfolding ban_user Users.get
ban_user-Marked user_id w w' u h =
    let (found, first, rest) = >>=-eq-ok (Users.get user_id) _ w h in
    banned_rest user_id found _ w w' u
      (λ v e.
        let (row, at, own, _) =
          load_user-same (find (is_user user_id) w.db.users) w.db v
            (ap (λ p. p.0) first ∙ ap ok e) in
        let passes = find-passes (is_user user_id) w.db.users row at in
        let same : row.id ≡ user_id = ground arith in own ∙ same)
      rest

-- Once a ban of a user has succeeded, no Telegram identity resolves to that user as an actor.
pub ban_user_refuses :
    (user_id : ℕ) (k : ℤ) (w w' w'' : World) (u v : User)
    → ban_user user_id w ≡ (ok u, w')
    → resolve_current_actor k w' ≡ (ok v, w'')
    → v.id ≢ user_id
ban_user_refuses user_id k w w' w'' u v h resolved same =
    let (row, at, mark) = ban_user-Marked user_id w w' u h in
    let (found, live, _) = resolve-eq-ok k w' w'' v resolved in
    let (row', at', status) = looked_up-same k w' v found in
    let one : row' ≡ row = cc (sym at' ∙ ap (λ i. find (is_user i) w'.db.users) same ∙ at) in
    let clash : banned ≡ active =
      sym mark ∙ ap (λ (r : UserRow). r.status) (sym one) ∙ status ∙ live in
    cc clash
