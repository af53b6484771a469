-- ===== src/Database/Conversations/Paging.antt =====
-- infrastructure/database/repositories/conversations.py: what `_load_messages` returns, by the instants
-- and the identifiers of the messages.
use nexabot.Prelude.{
  ℕ, zero, suc, ◌<◌, ◌≤◌, ◌≡◌, refl, sym, ap, subst, ◌∙◌, ◌⊎◌, inl, inr, false, List, [], ◌∷◌, ◌++◌,
  map, reverse, arith, length, length-reverse, take, drop, select, ◌==◌,
}
use mathlib.Core.List.{Perm, reverse-append, reverse-cons, reverse_perm}
use mathlib.Core.List.Perm
use nexabot.Domain.Conversations.{Message}
use nexabot.Database.Tables.{MessageRow}
use nexabot.Database.World.{World}
use nexabot.Database.Conversations.{
  newer, newest_first, in_conversation, message_page, load_messages,
}
use nexabot.Database.Conversations.Ordering.{Descends, newest_first-Descends, newest_first-perm}
use nexabot.Database.Conversations.Loading.{message_of, take-drop, load_messages-eq-ok}
use nexabot.Exec.{ok}

-- The first row was written before the second, by its instant and then by its identifier.
abbrev pub Precedes : MessageRow → MessageRow → Type 0
Precedes a b = (a.created_at < b.created_at) ⊎ ((a.created_at ≡ b.created_at) × (a.id ≤ b.id))

-- From the oldest row to the newest.
abbrev pub Ascends : List MessageRow → Type 0
Ascends [] = Unit {0}
Ascends (x ∷ []) = Unit {0}
Ascends (x ∷ y ∷ ys) = Precedes x y × Ascends (y ∷ ys)

not_newer : (a b : MessageRow) → newer a b ≡ false → Precedes a b
not_newer a b h = ground arith

snoc-Ascends :
    (xs : List MessageRow) (y x : MessageRow)
    → Ascends (xs ++ y ∷ [])
    → Precedes y x
    → Ascends ((xs ++ y ∷ []) ++ x ∷ [])
snoc-Ascends [] y x h last = (last, tt)
snoc-Ascends (z ∷ []) y x h last = (h.0, (last, tt))
snoc-Ascends (z ∷ z' ∷ xs) y x h last = (h.0, snoc-Ascends (z' ∷ xs) y x h.1 last)

reverse-Ascends : (rows : List MessageRow) → Descends rows → Ascends (reverse rows)
reverse-Ascends [] h = tt
reverse-Ascends (x ∷ []) h = tt
reverse-Ascends (x ∷ y ∷ ys) h =
    let earlier = reverse-Ascends (y ∷ ys) h.1 in
    subst Ascends (sym (reverse-cons x (y ∷ ys) ∙ ap (λ l. l ++ x ∷ []) (reverse-cons y ys))) (
      snoc-Ascends (reverse ys) y x (subst Ascends (reverse-cons y ys) earlier) (not_newer y x h.0))

-- The messages `ms` are the newest `limit` of the stored rows of a conversation, the oldest first, or
-- all of them.
pub record IsPage (id limit : ℕ) (stored : List MessageRow) (ms : List Message) : Type 0 where
  pub older : List MessageRow
  pub page : List MessageRow
  pub made : ms ≡ map message_of page
  pub ascends : Ascends (older ++ page)
  pub stored_once :
      Perm (older ++ page) (select (λ (r : MessageRow). r.conversation_id == id) stored)
  pub size : (length page ≡ limit) ⊎ ((older ≡ []) × (length page ≤ limit))

whole :
    (limit : ℕ) (rows : List MessageRow)
    → reverse (drop limit rows) ++ reverse (take limit rows) ≡ reverse rows
whole limit rows =
    sym (reverse-append (take limit rows) (drop limit rows)) ∙ ap reverse (take-drop limit rows)

taken :
    (limit : ℕ) (rows : List MessageRow)
    → (length (take limit rows) ≡ limit)
      ⊎ ((drop limit rows ≡ []) × (length (take limit rows) ≤ limit))
taken zero rows = inl refl
taken (suc n) [] = inr (refl, omega arith)
taken (suc n) (x ∷ rows) = elim (taken n rows) [
  | inl full ↦ inl (omega (arith, full))
  | inr (none_left, short) ↦ inr (none_left, omega (arith, short))
]

sized :
    (limit : ℕ) (rows : List MessageRow)
    → (length (reverse (take limit rows)) ≡ limit)
      ⊎ ((reverse (drop limit rows) ≡ []) × (length (reverse (take limit rows)) ≤ limit))
sized limit rows = elim (taken limit rows) [
  | inl full ↦ inl (length-reverse (take limit rows) ∙ full)
  | inr (none_left, short) ↦
      inr (ap reverse none_left, omega (arith, length-reverse (take limit rows), short))
]

-- The messages that are loaded of a conversation are the newest `limit` of its stored rows, or all of
-- them if there are no more than that, ordered from the oldest to the newest by their instants, and
-- by their identifiers where the instants are equal. Each row is loaded as it is stored, none of the
-- older ones that are left out comes after one that is loaded, and loading changes nothing.
pub load_messages-IsPage :
    (id limit : ℕ) (w w' : World) (ms : List Message)
    → load_messages id limit w ≡ (ok ms, w')
    → IsPage id limit w.db.messages ms × (w' ≡ w)
unfolding message_page
load_messages-IsPage id limit w w' ms h =
    let (made, same) = load_messages-eq-ok id limit w (ap (λ p. p.0) h) in
    let rows = newest_first (select (in_conversation id) w.db.messages) in
    (
      record {
        older = reverse (drop limit rows);
        page = reverse (take limit rows);
        made = made;
        ascends = subst Ascends (sym (whole limit rows)) (
            reverse-Ascends rows
              (newest_first-Descends (select (in_conversation id) w.db.messages)));
        stored_once =
            subst (λ l. Perm l (select (in_conversation id) w.db.messages)) (sym (whole limit rows))
              (Perm.trans (reverse_perm rows)
                (newest_first-perm (select (in_conversation id) w.db.messages)));
        size = sized limit rows;
      },
      sym (ap (λ p. p.1) h) ∙ same,
    )
