-- ===== src/Migrations/Revert.antt =====
-- Reverting migrations restores the schema that they were run on.
use mathlib.Core.List.{reverse, reverse-cons, reverse-reverse}
use contract_driven_messagin.Common.{
  ℕ, zero, suc, ◌≡◌, refl, ap, sym, ◌∙◌, subst, ◌⊎◌, inl, inr, Bool, true, false, ◌&&◌, List, [],
  ◌∷◌, ◌++◌, Option, none, some, All, true-ne-false, none-ne-some, some_inj,
}
use contract_driven_messagin.Migrations.{
  Schema, Creation, Removal, Migration, create, remove, and_then, create_all, remove_all,
  run_migrations, revert_migrations,
}
use contract_driven_messagin.Migrations.Messaging.{messaging_migrations}
use contract_driven_messagin.Migrations.Gateway.{gateway_migrations}
use contract_driven_messagin.Migrations.Statements.{Undoes, is_new, remove-create, and_true}

abbrev pub Mirrors : List Creation → List Removal → Type 0
Mirrors [] [] = Unit
Mirrors [] (r ∷ rs) = ⊥
Mirrors (c ∷ cs) [] = ⊥
Mirrors (c ∷ cs) (r ∷ rs) = Undoes c r × Mirrors cs rs

-- `down` undoes the statements of `up` one by one, the last one first.
abbrev pub IsMirrored : Migration → Type 0
IsMirrored m = Mirrors m.up (reverse m.down)

abbrev pub holds_after : (Schema → Bool) → Option Schema → Bool
holds_after p none = false
holds_after p (some s) = p s

-- Every statement succeeds, and creates something new.
abbrev pub all_new : List Creation → Schema → Bool
all_new [] s = true
all_new (c ∷ cs) s = is_new c s && holds_after (all_new cs) (create c s)

abbrev pub all_migrations_new : List Migration → Schema → Bool
all_migrations_new [] s = true
all_migrations_new (m ∷ ms) s =
    all_new m.up s && holds_after (all_migrations_new ms) (create_all m.up s)

abbrev pub drop : ℕ → List Migration → List Migration
drop zero ms = ms
drop (suc n) [] = []
drop (suc n) (m ∷ ms) = drop n ms

and_then-eq-some :
    (f : Schema → Option Schema) (o : Option Schema) {t : Schema}
    → and_then f o ≡ some t
    → (u : Schema) × (o ≡ some u) × (f u ≡ some t)
and_then-eq-some f none h = absurd (none-ne-some h)
and_then-eq-some f (some u) h = (u, refl, h)

remove_all-append :
    (xs ys : List Removal) (s t : Schema)
    → remove_all xs s ≡ some t
    → remove_all (xs ++ ys) s ≡ remove_all ys t
unfolding remove_all
remove_all-append [] ys s t h = ap (remove_all ys) (some_inj h)
remove_all-append (x ∷ xs) ys s t h =
    let (u, e, q) = and_then-eq-some (remove_all xs) (remove x s) h in
    ap (and_then (remove_all (xs ++ ys))) e ∙ remove_all-append xs ys u t q

holds_after-eq-true :
    (p : Schema → Bool) (o : Option Schema)
    → holds_after p o ≡ true
    → (s : Schema) × (o ≡ some s) × (p s ≡ true)
holds_after-eq-true p none h = absurd (true-ne-false h refl)
holds_after-eq-true p (some s) h = (s, refl, h)

mirror_restores :
    (cs : List Creation) (rs : List Removal) (s : Schema)
    → Mirrors cs rs
    → all_new cs s ≡ true
    → (s' : Schema) × (create_all cs s ≡ some s') × (remove_all (reverse rs) s' ≡ some s)
unfolding create_all remove_all
mirror_restores [] [] s m h = (s, refl, refl)
mirror_restores [] (r ∷ rs) s m h = absurd m
mirror_restores (c ∷ cs) [] s m h = absurd m
mirror_restores (c ∷ cs) (r ∷ rs) s (undoes, m) h =
    let (new, after) = and_true h in
    let (t, made, rest) = holds_after-eq-true (all_new cs) (create c s) after in
    let (s', ups, downs) = mirror_restores cs rs t m rest in
    (
      s',
      ap (and_then (create_all cs)) made ∙ ups,
      ap (λ l. remove_all l s') (reverse-cons r rs)
          ∙ remove_all-append (reverse rs) (r ∷ []) s' t downs
          ∙ ap (and_then (remove_all [])) (remove-create c r s t undoes new made),
    )

migration_restores :
    (m : Migration) (s : Schema)
    → IsMirrored m
    → all_new m.up s ≡ true
    → (s' : Schema) × (create_all m.up s ≡ some s') × (remove_all m.down s' ≡ some s)
migration_restores m s mirrored h =
    let (s', ups, downs) = mirror_restores m.up (reverse m.down) s mirrored h in
    (s', ups, ap (λ rs. remove_all rs s') (sym (reverse-reverse m.down)) ∙ downs)

revert_pending :
    (ms : List Migration) (s : Schema)
    → All IsMirrored ms
    → all_migrations_new ms s ≡ true
    → (s' : Schema) × (run_migrations ms s ≡ some s') × (revert_migrations ms s' ≡ some s)
unfolding run_migrations revert_migrations
revert_pending [] s mirrored h = (s, refl, refl)
revert_pending (m ∷ ms) s (mirrored, rest) h =
    let (new, after) = and_true h in
    let (t, made, more) = holds_after-eq-true (all_migrations_new ms) (create_all m.up s) after in
    let (t', up, down) = migration_restores m s mirrored new in
    let (s', ups, downs) = revert_pending ms t rest more in
    let same : t' ≡ t = some_inj (sym up ∙ made) in
    (
      s',
      ap (and_then (run_migrations ms)) made ∙ ups,
      ap (and_then (remove_all m.down)) downs ∙ subst (λ x. remove_all m.down x ≡ some s) same down,
    )

All-drop : (n : ℕ) (ms : List Migration) → All IsMirrored ms → All IsMirrored (drop n ms)
All-drop zero ms h = h
All-drop (suc n) [] h = tt
All-drop (suc n) (m ∷ ms) h = All-drop n ms h.1

messaging-IsMirrored : All IsMirrored messaging_migrations
messaging-IsMirrored = (
  (refl, tt),
  (
    ((refl, refl), tt),
    (
      (refl, (refl, (refl, tt))),
      (
        (refl, (refl, (refl, (refl, tt)))),
        (
          ((refl, refl), ((refl, refl), ((refl, refl), ((refl, refl), (refl, (refl, tt)))))),
          (
            (refl, (refl, tt)),
            (((refl, refl), ((refl, refl), (refl, tt))), ((refl, ((refl, refl), tt)), tt)),
          ),
        ),
      ),
    ),
  ),
)

gateway-IsMirrored : All IsMirrored gateway_migrations
gateway-IsMirrored = ((refl, (refl, (refl, (refl, (refl, (refl, (refl, tt))))))), tt)

-- What a database still lacks: the migrations of the messaging service after the first `n`, or that
-- of the gateway.
abbrev pub ArePending : List Migration → Type 0
ArePending ms = ((n : ℕ) × (ms ≡ drop n messaging_migrations)) ⊎ (ms ≡ gateway_migrations)

-- Running the pending migrations of either service and reverting them, the last one first, restores
-- the schema, on any schema on which every statement of theirs succeeds and creates a table, a
-- column or an index that was not there.
pub revert_migrations-run_migrations :
    (ms : List Migration) (s : Schema)
    → ArePending ms
    → all_migrations_new ms s ≡ true
    → (s' : Schema) × (run_migrations ms s ≡ some s') × (revert_migrations ms s' ≡ some s)
revert_migrations-run_migrations ms s (inl (n, e)) h =
    revert_pending ms s
      (subst (All IsMirrored) (sym e) (All-drop n messaging_migrations messaging-IsMirrored)) h
revert_migrations-run_migrations ms s (inr e) h =
    revert_pending ms s (subst (All IsMirrored) (sym e) gateway-IsMirrored) h
