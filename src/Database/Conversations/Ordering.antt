-- ===== src/Database/Conversations/Ordering.antt =====
-- infrastructure/database/repositories/conversations.py: the order of the messages of a query.
use nexabot.Prelude.{◌≡◌, true, false, List, [], ◌∷◌, arith, Bool-cases, inl, inr}
use mathlib.Core.List.{Perm}
use mathlib.Core.List.Perm
use nexabot.Database.Tables.{MessageRow}
use nexabot.Database.Conversations.{newer, insert_newest_first, newest_first}

-- Each row is no newer than the one before it.
abbrev pub Descends : List MessageRow → Type 0
Descends [] = Unit {0}
Descends (x ∷ []) = Unit {0}
Descends (x ∷ y ∷ ys) = (newer y x ≡ false) × Descends (y ∷ ys)

newer_asym : (a b : MessageRow) → newer a b ≡ true → newer b a ≡ false
newer_asym a b h = ground arith

insert-Descends :
    (x : MessageRow) (ys : List MessageRow) → Descends ys → Descends (insert_newest_first x ys)
unfolding insert_newest_first
insert-Descends x [] h = tt
insert-Descends x (y ∷ []) h = ground (arith, newer_asym x y)
insert-Descends x (y ∷ z ∷ zs) h =
    ground (arith, newer_asym x y, newer_asym x z, insert-Descends x (z ∷ zs) h.1)

pub newest_first-Descends : (rows : List MessageRow) → Descends (newest_first rows)
unfolding newest_first
newest_first-Descends [] = tt
newest_first-Descends (r ∷ rows) =
    insert-Descends r (newest_first rows) (newest_first-Descends rows)

insert-perm : (x : MessageRow) (ys : List MessageRow) → Perm (insert_newest_first x ys) (x ∷ ys)
unfolding insert_newest_first
insert-perm x [] = Perm.refl (x ∷ [])
insert-perm x (y ∷ ys) = elim (Bool-cases (newer x y)) [
  | inl first ↦ rw first (Perm.refl (x ∷ y ∷ ys))
  | inr later ↦ rw later (Perm.trans (Perm.cons y (insert-perm x ys)) (Perm.swap x y ys))
]

pub newest_first-perm : (rows : List MessageRow) → Perm (newest_first rows) rows
unfolding newest_first
newest_first-perm [] = Perm.refl []
newest_first-perm (r ∷ rows) =
    Perm.trans (insert-perm r (newest_first rows)) (Perm.cons r (newest_first-perm rows))
