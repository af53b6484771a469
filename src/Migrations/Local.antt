-- ===== src/Migrations/Local.antt =====
-- The operations on some tables do the same beside any other tables.
use nexabot.Prelude.{
  String, ◌≡◌, refl, ap, ◌∙◌, sym, inl, inr, Bool, true, false, if◌then◌else◌, Option, none, some,
  List, [], ◌∷◌, ◌++◌, All, any, arith, Bool-cases,
}
use mathlib.Core.List.{append_assoc}
use nexabot.Migrations.Schema.{
  ForeignKey, Column, Change, add_column, create_index, before_dot, key_known, keys_known,
  refers_to, has_index, allowed, Table, Schema, has_name, insert_new, onto, remove_named,
  change_named, change, Op, create_table, drop_table, on_table, table_name, apply, and_run, run,
}

-- A result beside other tables.
abbrev pub beside : Schema → Option Schema → Option Schema
beside s none = none
beside s (some t) = some (s ++ t)

abbrev pub Lacks : String → Schema → Type 0
Lacks n s = any (has_name table_name n) s ≡ false

beside-nil : (r : Option Schema) → beside [] r ≡ r
beside-nil none = refl
beside-nil (some u) = refl

beside-cons :
    (t : Table) (s : Schema) (r : Option Schema) → onto table_name t (beside s r) ≡ beside (t ∷ s) r
beside-cons t s none = refl
beside-cons t s (some u) = refl

head-Lacks :
    (n : String) (t : Table) (s : Schema) → Lacks n (t ∷ s) → has_name table_name n t ≡ false
head-Lacks n t s h = ground arith

tail-Lacks : (n : String) (t : Table) (s : Schema) → Lacks n (t ∷ s) → Lacks n s
tail-Lacks n t s h = ground arith

any-append : (p : Table → Bool) (s u : Schema) → any p s ≡ false → any p (s ++ u) ≡ any p u
any-append p [] u h = refl
any-append p (t ∷ s) u h = ground (arith, any-append p s u)

any-append_later : (p : Table → Bool) (s u : Schema) → any p u ≡ true → any p (s ++ u) ≡ true
any-append_later p [] u h = h
any-append_later p (t ∷ s) u h = ground (arith, any-append_later p s u h)

insert_new-local :
    (t : Table) (s u : Schema)
    → Lacks t.name s
    → insert_new table_name t (s ++ u) ≡ beside s (insert_new table_name t u)
insert_new-local t s u h = elim (Bool-cases (any (has_name table_name t.name) u)) [
  | inl known ↦ rw (any-append (has_name table_name t.name) s u h) (rw known refl)
  | inr fresh ↦
      rw (any-append (has_name table_name t.name) s u h)
        (rw fresh (ap some (append_assoc s u (t ∷ []))))
]

remove_named-local :
    (n : String) (s u : Schema)
    → Lacks n s
    → remove_named table_name n (s ++ u) ≡ beside s (remove_named table_name n u)
remove_named-local n [] u h = sym (beside-nil (remove_named table_name n u))
remove_named-local n (t ∷ s) u h = rw (head-Lacks n t s h) (
    ap (onto table_name t) (remove_named-local n s u (tail-Lacks n t s h))
    ∙ beside-cons t s (remove_named table_name n u))

change_named-local :
    (n : String) (f : Table → Option Table) (s u : Schema)
    → Lacks n s
    → change_named table_name n f (s ++ u) ≡ beside s (change_named table_name n f u)
change_named-local n f [] u h = sym (beside-nil (change_named table_name n f u))
change_named-local n f (t ∷ s) u h = rw (head-Lacks n t s h) (
    ap (onto table_name t) (change_named-local n f s u (tail-Lacks n t s h))
    ∙ beside-cons t s (change_named table_name n f u))

-- The table that an operation names.
abbrev pub touched : Op → String
touched (create_table t) = t.name
touched (drop_table n) = n
touched (on_table n c) = n

-- The index that an operation creates.
abbrev pub indexed : Op → Option String
indexed (on_table n (create_index i)) = some i.name
indexed _ = none

abbrev pub index_taken : Option String → Schema → Bool
index_taken none s = false
index_taken (some i) s = any (has_index i) s

-- The other tables have neither the table of an operation, nor a key that refers to it, nor the
-- index that it creates.
abbrev pub Spares : Schema → Op → Type 0
Spares s op =
    Lacks (touched op) s
    × (any (refers_to (touched op)) s ≡ false)
    × (index_taken (indexed op) s ≡ false)

key_known-later :
    (n : String) (k : Option ForeignKey) (s u : Schema)
    → key_known n k u ≡ true
    → key_known n k (s ++ u) ≡ true
key_known-later n none s u h = refl
key_known-later n (some k) s u h =
    ground (arith, any-append_later (has_name table_name (before_dot k.target)) s u)

keys_known-later :
    (n : String) (cs : List Column) (s u : Schema)
    → keys_known n cs u ≡ true
    → keys_known n cs (s ++ u) ≡ true
keys_known-later n [] s u h = refl
keys_known-later n (c ∷ cs) s u h =
    ground (arith, key_known-later n c.foreign_key s u, keys_known-later n cs s u)

allowed-later :
    (n : String) (c : Change) (s u : Schema)
    → index_taken (indexed (on_table n c)) s ≡ false
    → allowed n c u ≡ true
    → allowed n c (s ++ u) ≡ true
allowed-later n (add_column c) s u free h = key_known-later n c.foreign_key s u h
allowed-later n (create_index i) s u free h = rw (any-append (has_index i.name) s u free) h
allowed-later n _ s u free h = refl

-- The branch of a test that gave a schema.
then_some :
    (b : Bool) (r : Option Schema) (v : Schema)
    → (if b then r else none) ≡ some v
    → (b ≡ true) × (r ≡ some v)
then_some true r v h = (refl, h)
then_some false r v h = absurd (cc h)

else_some :
    (b : Bool) (r : Option Schema) (v : Schema)
    → (if b then none else r) ≡ some v
    → (b ≡ false) × (r ≡ some v)
else_some true r v h = absurd (cc h)
else_some false r v h = (refl, h)

apply-local :
    (op : Op) (s u v : Schema)
    → Spares s op
    → apply op u ≡ some v
    → apply op (s ++ u) ≡ some (s ++ v)
unfolding apply
apply-local (create_table t) s u v (lacks, _, _) h =
    let (known, made) = then_some (keys_known t.name t.columns u) _ v h in
    rw (keys_known-later t.name t.columns s u known)
      (insert_new-local t s u lacks ∙ ap (beside s) made)
apply-local (drop_table n) s u v (lacks, alone, _) h =
    let (free, made) = else_some (any (refers_to n) u) _ v h in
    rw (any-append (refers_to n) s u alone ∙ free)
      (remove_named-local n s u lacks ∙ ap (beside s) made)
apply-local (on_table n c) s u v (lacks, _, fresh) h =
    let (may, made) = then_some (allowed n c u) _ v h in
    rw (allowed-later n c s u fresh may)
      (change_named-local n (change c) s u lacks ∙ ap (beside s) made)

and_run-some :
    (r : Option Schema) (ops : List Op) (v : Schema)
    → and_run r (run ops) ≡ some v
    → (m : Schema) × (r ≡ some m) × (run ops m ≡ some v)
and_run-some none ops v h = absurd (cc h)
and_run-some (some m) ops v h = (m, refl, h)

-- Operations that succeed do the same beside tables that they spare, which stay as they are.
pub run-local :
    (ops : List Op) (s u v : Schema)
    → All (Spares s) ops
    → run ops u ≡ some v
    → run ops (s ++ u) ≡ some (s ++ v)
unfolding run
run-local [] s u v spared h = ap (beside s) h
run-local (op ∷ ops) s u v (first, rest) h =
    let (m, made, more) = and_run-some (apply op u) ops v h in
    ap (λ r. and_run r (run ops)) (apply-local op s u m first made) ∙ run-local ops s m v rest more
