-- ===== src/Migrations/Statements.antt =====
-- A statement that drops what another has just created restores the schema.
use contract_driven_messagin.Common.{
  ◌≡◌, refl, ap, sym, ◌∙◌, inl, inr, String, Bool, true, false, ◌&&◌, not, List, [], ◌∷◌, ◌++◌,
  Option, none, some, any, keep, str_eq, eq_refl, Bool-cases, none-ne-some, true-ne-false, some_inj,
  arith,
}
use contract_driven_messagin.Migrations.{
  Column, TableSchema, Index, Schema, Creation, create_table, add_column, create_index, Removal,
  drop_table, drop_column, drop_index, drop_index_if_exists, find_table, has_column, has_index,
  remove_column, create_unless_found, set_columns, have_columns, is_on_table, is_on_column,
  add_column_to, index_on, create, drop_column_of, remove,
}

abbrev pub Undoes : Creation → Removal → Type 0
Undoes (create_table t) (drop_table n) = n ≡ t.name
Undoes (add_column n c) (drop_column m d) = (m ≡ n) × (d ≡ c.name)
Undoes (create_index i) (drop_index n) = n ≡ i.name
Undoes (create_index i) (drop_index_if_exists n) = n ≡ i.name
Undoes _ _ = ⊥

abbrev pub is_missing : Option TableSchema → Bool
is_missing none = true
is_missing (some t) = false

-- Nothing of the name is there before: no table that `ifNotExists` would keep, and no index on a
-- table or a column that is not there.
abbrev pub is_new : Creation → Schema → Bool
is_new (create_table t) s =
    is_missing (find_table t.name s.tables) && not (any (is_on_table t.name) s.indices)
is_new (add_column n c) s = not (any (is_on_column n c.name) s.indices)
is_new (create_index i) s = true

keep-eq_self :
    (p : Index → Bool) (is : List Index) → any p is ≡ false → keep (λ i. not (p i)) is ≡ is
keep-eq_self p [] h = refl
keep-eq_self p (i ∷ is) h = ground (arith, keep-eq_self p is)

remove_column-append :
    (c : Column) (cs : List Column)
    → has_column c.name cs ≡ false
    → remove_column c.name (cs ++ (c ∷ [])) ≡ cs
remove_column-append c [] h = rw (eq_refl c.name) refl
remove_column-append c (x ∷ cs) h = ground (arith, remove_column-append c cs)

has_column-append : (c : Column) (cs : List Column) → has_column c.name (cs ++ (c ∷ [])) ≡ true
has_column-append c [] = rw (eq_refl c.name) refl
has_column-append c (x ∷ cs) = ground (arith, has_column-append c cs)

find_table-set_columns :
    (n : String) (cs : List Column) (ts : List TableSchema) (t : TableSchema)
    → find_table n ts ≡ some t
    → find_table n (set_columns n cs ts) ≡ some (record t { columns = cs })
find_table-set_columns n cs [] t h = absurd (none-ne-some h)
find_table-set_columns n cs (u ∷ ts) t h = elim (Bool-cases (str_eq u.name n)) [
  | inl e ↦
      rw (e, e) (ap (λ (x : TableSchema). some (record x { columns = cs })) (some_inj (rw e at h)))
  | inr e ↦ rw (e, e) (find_table-set_columns n cs ts t (rw e at h))
]

set_columns-set_columns :
    (n : String) (cs : List Column) (ts : List TableSchema) (t : TableSchema)
    → find_table n ts ≡ some t
    → set_columns n t.columns (set_columns n cs ts) ≡ ts
set_columns-set_columns n cs [] t h = absurd (none-ne-some h)
set_columns-set_columns n cs (u ∷ ts) t h = elim (Bool-cases (str_eq u.name n)) [
  | inl e ↦
      rw (e, e)
        (ap (λ (x : TableSchema). record u { columns = x.columns } ∷ ts)
          (sym (some_inj (rw e at h))))
  | inr e ↦ rw (e, e) (ap (◌∷◌ u) (set_columns-set_columns n cs ts t (rw e at h)))
]

undo_table :
    (t : TableSchema) (s : Schema)
    → any (is_on_table t.name) s.indices ≡ false
    → remove (drop_table t.name) (record s { tables = t ∷ s.tables }) ≡ some s
unfolding remove
undo_table t s h =
    rw (eq_refl t.name, eq_refl t.name)
      (ap (λ is. some (record s { indices = is })) (keep-eq_self (is_on_table t.name) s.indices h))

undo_index :
    (i : Index) (s : Schema)
    → (remove (drop_index i.name) (record s { indices = i ∷ s.indices }) ≡ some s)
      × (remove (drop_index_if_exists i.name) (record s { indices = i ∷ s.indices }) ≡ some s)
unfolding remove
undo_index i s = (rw (eq_refl i.name) refl, rw (eq_refl i.name) refl)

undo_column :
    (n : String) (c : Column) (s : Schema) (t : TableSchema)
    → find_table n s.tables ≡ some t
    → has_column c.name t.columns ≡ false
    → any (is_on_column n c.name) s.indices ≡ false
    → remove
        (drop_column n c.name)
        (record s { tables = set_columns n (t.columns ++ (c ∷ [])) s.tables })
      ≡ some s
unfolding remove
undo_column n c s t found absent h =
    ap (drop_column_of n c.name _) (find_table-set_columns n _ s.tables t found)
    ∙ rw
        (
          has_column-append c t.columns,
          remove_column-append c t.columns absent,
          set_columns-set_columns n (t.columns ++ (c ∷ [])) s.tables t found,
          keep-eq_self (is_on_column n c.name) s.indices h,
        )
        refl

pub and_true : {a b : Bool} → (a && b) ≡ true → (a ≡ true) × (b ≡ true)
and_true {a = true} h = (refl, h)
and_true {a = false} h = absurd (true-ne-false h refl)

not-eq-true : {b : Bool} → not b ≡ true → b ≡ false
not-eq-true {b = true} h = absurd (true-ne-false h refl)
not-eq-true {b = false} h = refl

create_unless_found-eq-some :
    (t : TableSchema) (s : Schema) (o : Option TableSchema) {s' : Schema}
    → is_missing o ≡ true
    → create_unless_found t s o ≡ some s'
    → record s { tables = t ∷ s.tables } ≡ s'
create_unless_found-eq-some t s none m h = some_inj h
create_unless_found-eq-some t s (some u) m h = absurd (true-ne-false m refl)

add_column_to-eq-some :
    (n : String) (c : Column) (s : Schema) (o : Option TableSchema) {s' : Schema}
    → add_column_to n c s o ≡ some s'
    → (t : TableSchema) × (o ≡ some t)
      × (has_column c.name t.columns ≡ false)
      × (record s { tables = set_columns n (t.columns ++ (c ∷ [])) s.tables } ≡ s')
add_column_to-eq-some n c s none h = absurd (none-ne-some h)
add_column_to-eq-some n c s (some t) h = elim (Bool-cases (has_column c.name t.columns)) [
  | inl e ↦ absurd (none-ne-some (rw e at h))
  | inr e ↦ (t, refl, e, some_inj (rw e at h))
]

index_on-eq-some :
    (i : Index) (s : Schema) (o : Option TableSchema) {s' : Schema}
    → index_on i s o ≡ some s'
    → record s { indices = i ∷ s.indices } ≡ s'
index_on-eq-some i s none h = absurd (none-ne-some h)
index_on-eq-some i s (some t) h = elim (Bool-cases (have_columns i.columns t.columns)) [
  | inl e ↦ some_inj (rw e at h)
  | inr e ↦ absurd (none-ne-some (rw e at h))
]

create_index-eq-some :
    (i : Index) (s s' : Schema)
    → create (create_index i) s ≡ some s'
    → record s { indices = i ∷ s.indices } ≡ s'
unfolding create
create_index-eq-some i s s' h = elim (Bool-cases (has_index i.name s.indices)) [
  | inl e ↦ absurd (none-ne-some (rw e at h))
  | inr e ↦ index_on-eq-some i s _ (rw e at h)
]

-- Dropping what a statement has newly created restores the schema.
pub remove-create :
    (c : Creation) (r : Removal) (s s' : Schema)
    → Undoes c r
    → is_new c s ≡ true
    → create c s ≡ some s'
    → remove r s' ≡ some s
unfolding create
remove-create (create_table t) (drop_table n) s s' e new h =
    let (missing, nothing) = and_true new in
    let q = create_unless_found-eq-some t s (find_table t.name s.tables) missing h in
    rw (e, ← q) (undo_table t s (not-eq-true nothing))
remove-create (create_table t) (drop_column m d) s s' e new h = absurd e
remove-create (create_table t) (drop_index n) s s' e new h = absurd e
remove-create (create_table t) (drop_index_if_exists n) s s' e new h = absurd e
remove-create (add_column n c) (drop_table m) s s' e new h = absurd e
remove-create (add_column n c) (drop_column m d) s s' e new h =
    let (t, found, absent, q) = add_column_to-eq-some n c s (find_table n s.tables) h in
    rw (e.0, e.1, ← q) (undo_column n c s t found absent (not-eq-true new))
remove-create (add_column n c) (drop_index m) s s' e new h = absurd e
remove-create (add_column n c) (drop_index_if_exists m) s s' e new h = absurd e
remove-create (create_index i) (drop_table m) s s' e new h = absurd e
remove-create (create_index i) (drop_column m d) s s' e new h = absurd e
remove-create (create_index i) (drop_index n) s s' e new h =
    rw (e, ← (create_index-eq-some i s s' h)) (undo_index i s).0
remove-create (create_index i) (drop_index_if_exists n) s s' e new h =
    rw (e, ← (create_index-eq-some i s s' h)) (undo_index i s).1
