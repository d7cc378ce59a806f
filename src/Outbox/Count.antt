-- ===== src/Outbox/Count.antt =====
-- How many rows a statement touches whose condition is a list of ids.
use contract_driven_messagin.Common.{
  ℕ, suc, ◌+◌, ◌≡◌, refl, sym, ap, ◌≢◌, inl, inr, Bool, true, false, [], ◌∷◌, arith, All, In, ◌==◌,
  ◌||◌, Bool-cases, length, keep, take, leb, zero, ◌∙◌, All-take,
}
use contract_driven_messagin.Outbox.{OutboxRow, Table}
use contract_driven_messagin.Outbox.Identity.{HasUniqueIds, ids, is_in}
use contract_driven_messagin.Outbox.Select.{insert_by, sort_by, select}
use contract_driven_messagin.Outbox.Select.Earliest.{All-insert_by, All-sort_by}
use contract_driven_messagin.Outbox.Update.{updated}

All-keep_of :
    (P : OutboxRow → Type 0) (p : OutboxRow → Bool) (t : Table) → All P t → All P (keep p t)
All-keep_of P p [] h = tt
All-keep_of P p (r ∷ t) h = elim (Bool-cases (p r)) [
  | inl e ↦ rw e (h.0, All-keep_of P p t h.1)
  | inr e ↦ rw e (All-keep_of P p t h.1)
]

keep-HasUniqueIds : (p : OutboxRow → Bool) (t : Table) → HasUniqueIds t → HasUniqueIds (keep p t)
keep-HasUniqueIds p [] h = tt
keep-HasUniqueIds p (r ∷ t) h = elim (Bool-cases (p r)) [
  | inl e ↦ rw e (All-keep_of _ p t h.0, keep-HasUniqueIds p t h.1)
  | inr e ↦ rw e (keep-HasUniqueIds p t h.1)
]

take-HasUniqueIds : (n : ℕ) (t : Table) → HasUniqueIds t → HasUniqueIds (take n t)
take-HasUniqueIds zero t h = tt
take-HasUniqueIds (suc n) [] h = tt
take-HasUniqueIds (suc n) (r ∷ t) h = (All-take _ n t h.0, take-HasUniqueIds n t h.1)

module _ (key : OutboxRow → ℕ) where
  insert_by-HasUniqueIds :
      (r : OutboxRow) (t : Table)
      → All (λ s. s.id ≢ r.id) t
      → HasUniqueIds t
      → HasUniqueIds (insert_by key r t)
  unfolding insert_by
  insert_by-HasUniqueIds r [] a h = (tt, tt)
  insert_by-HasUniqueIds r (s ∷ t) a h = elim (Bool-cases (leb (key r) (key s))) [
    | inl e ↦ rw e (a, h)
    | inr e ↦ rw e (
      All-insert_by key (λ x. x.id ≢ s.id) r t (λ p. a.0 (sym p)) h.0,
      insert_by-HasUniqueIds r t a.1 h.1,
    )
  ]

  sort_by-HasUniqueIds : (t : Table) → HasUniqueIds t → HasUniqueIds (sort_by key t)
  unfolding sort_by
  sort_by-HasUniqueIds [] h = tt
  sort_by-HasUniqueIds (r ∷ t) h =
      insert_by-HasUniqueIds r (sort_by key t) (All-sort_by key _ t h.0)
        (sort_by-HasUniqueIds t h.1)

  pub select-HasUniqueIds :
      (p : OutboxRow → Bool) (n : ℕ) (t : Table) → HasUniqueIds t → HasUniqueIds (select key p n t)
  unfolding select
  select-HasUniqueIds p n t h =
      take-HasUniqueIds n _ (sort_by-HasUniqueIds (keep p t) (keep-HasUniqueIds p t h))

module _ (f : OutboxRow → OutboxRow) where
  abbrev touched : (OutboxRow → Bool) → Table → ℕ
  touched p t = length (updated p f t)

  touched_none : (i : ℕ) (t : Table) → All (λ s. s.id ≢ i) t → touched (λ r. i == r.id) t ≡ 0
  unfolding updated
  touched_none i [] h = refl
  touched_none i (r ∷ t) h = ground (arith, touched_none i t h.1)

  touched_one :
      (x : OutboxRow) (t : Table) → HasUniqueIds t → In x t → touched (λ r. x.id == r.id) t ≡ 1
  unfolding updated
  touched_one x [] u h = absurd h
  touched_one x (r ∷ t) u (inl e) =
      ground (arith, ap (λ (s : OutboxRow). s.id) e, touched_none r.id t u.0)
  touched_one x (r ∷ t) u (inr h) = ground (arith, touched_one x t u.1 h, In-ne t u.0 h)
    where
      In-ne : (s : Table) → All (λ y. y.id ≢ r.id) s → In x s → x.id ≢ r.id
      In-ne [] a k = absurd k
      In-ne (y ∷ s) a (inl e) = rw e a.0
      In-ne (y ∷ s) a (inr k) = In-ne s a.1 k

  touched_disjoint :
      (p q : OutboxRow → Bool) (t : Table)
      → ((r : OutboxRow) → p r ≡ true → q r ≡ false)
      → touched (λ r. p r || q r) t ≡ touched p t + touched q t
  unfolding updated
  touched_disjoint p q [] h = refl
  touched_disjoint p q (r ∷ t) h = ground (arith, h r, touched_disjoint p q t h)

  touched_nowhere : (t : Table) → touched (is_in []) t ≡ 0
  unfolding updated
  touched_nowhere [] = refl
  touched_nowhere (r ∷ t) = touched_nowhere t

  not_is_in :
      (x : OutboxRow) (xs : Table) (r : OutboxRow)
      → All (λ s. s.id ≢ x.id) xs
      → (x.id == r.id) ≡ true
      → is_in (ids xs) r ≡ false
  not_is_in x [] r h e = refl
  not_is_in x (y ∷ xs) r h e = ground (arith, not_is_in x xs r h.1 e)

  -- A condition on the ids of distinct rows of the table touches just as many rows.
  pub length-updated :
      (xs t : Table)
      → HasUniqueIds t
      → HasUniqueIds xs
      → All (λ x. In x t) xs
      → length (updated (is_in (ids xs)) f t) ≡ length xs
  length-updated [] t u v h = touched_nowhere t
  length-updated (x ∷ xs) t u v h =
      touched_disjoint (λ r. x.id == r.id) (is_in (ids xs)) t (λ r. not_is_in x xs r v.0)
      ∙ omega (arith, touched_one x t u h.0, length-updated xs t u v.1 h.1)
