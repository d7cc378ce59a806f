-- ===== src/Outbox/Select/Earliest.antt =====
-- What `SELECT … ORDER BY … LIMIT` selects.
use contract_driven_messagin.Common.{
  ℕ, zero, suc, ◌≤◌, ◌≡◌, refl, ◌⊎◌, inl, inr, Bool, true, List, [], ◌∷◌, arith, keep, leb, take,
  All, Bool-cases, length, length-take_le, In, leb→le, not-leb→lt, subst, sym, ap, All-take,
}
use contract_driven_messagin.Outbox.Select.{insert_by, sort_by, select}

module _ {A : Type 0} (key : A → ℕ) where
  abbrev IsSorted : List A → Type 0
  IsSorted [] = Unit
  IsSorted (x ∷ xs) = All (λ y. key x ≤ key y) xs × IsSorted xs

  pub All-insert_by :
      (P : A → Type 0) (a : A) (xs : List A) → P a → All P xs → All P (insert_by key a xs)
  unfolding insert_by
  All-insert_by P a [] p h = (p, tt)
  All-insert_by P a (x ∷ xs) p h = elim (Bool-cases (leb (key a) (key x))) [
    | inl e ↦ rw e (p, h)
    | inr e ↦ rw e (h.0, All-insert_by P a xs p h.1)
  ]

  pub All-sort_by : (P : A → Type 0) (xs : List A) → All P xs → All P (sort_by key xs)
  unfolding sort_by
  All-sort_by P [] h = tt
  All-sort_by P (x ∷ xs) h = All-insert_by P x (sort_by key xs) h.0 (All-sort_by P xs h.1)

  All-le : (m n : ℕ) (xs : List A) → m ≤ n → All (λ y. n ≤ key y) xs → All (λ y. m ≤ key y) xs
  All-le m n [] le h = tt
  All-le m n (x ∷ xs) le h = (omega arith, All-le m n xs le h.1)

  insert_by-IsSorted : (a : A) (xs : List A) → IsSorted xs → IsSorted (insert_by key a xs)
  unfolding insert_by
  insert_by-IsSorted a [] h = (tt, tt)
  insert_by-IsSorted a (x ∷ xs) h = elim (Bool-cases (leb (key a) (key x))) [
    | inl e ↦ let le = leb→le (key a) (key x) e in rw e ((le, All-le (key a) (key x) xs le h.0), h)
    | inr e ↦
        let gt = not-leb→lt (key a) (key x) e in
        rw e
          (All-insert_by (λ y. key x ≤ key y) a xs (omega arith) h.0, insert_by-IsSorted a xs h.1)
  ]

  sort_by-IsSorted : (xs : List A) → IsSorted (sort_by key xs)
  unfolding sort_by
  sort_by-IsSorted [] = tt
  sort_by-IsSorted (x ∷ xs) = insert_by-IsSorted x (sort_by key xs) (sort_by-IsSorted xs)

  In-insert_by_self : (a : A) (xs : List A) → In a (insert_by key a xs)
  unfolding insert_by
  In-insert_by_self a [] = inl refl
  In-insert_by_self a (x ∷ xs) = elim (Bool-cases (leb (key a) (key x))) [
    | inl e ↦ rw e (inl refl)
    | inr e ↦ rw e (inr (In-insert_by_self a xs))
  ]

  In-insert_by : (b a : A) (xs : List A) → In b xs → In b (insert_by key a xs)
  unfolding insert_by
  In-insert_by b a [] h = absurd h
  In-insert_by b a (x ∷ xs) h = elim (Bool-cases (leb (key a) (key x))) [
    | inl e ↦ rw e (inr h)
    | inr e ↦ rw e (elim h [ inl same ↦ inl same | inr later ↦ inr (In-insert_by b a xs later) ])
  ]

  In-sort_by : (b : A) (xs : List A) → In b xs → In b (sort_by key xs)
  unfolding sort_by
  In-sort_by b [] h = absurd h
  In-sort_by b (x ∷ xs) (inl e) =
      subst (λ a. In a (insert_by key x (sort_by key xs))) (sym e) (In-insert_by_self x _)
  In-sort_by b (x ∷ xs) (inr h) = In-insert_by b x (sort_by key xs) (In-sort_by b xs h)

  In-keep : (p : A → Bool) (b : A) (xs : List A) → In b xs → p b ≡ true → In b (keep p xs)
  In-keep p b [] h e = absurd h
  In-keep p b (x ∷ xs) (inl same) e = rw (← same, e) (inl refl)
  In-keep p b (x ∷ xs) (inr later) e = elim (Bool-cases (p x)) [
    | inl t ↦ rw t (inr (In-keep p b xs later e))
    | inr f ↦ rw f (In-keep p b xs later e)
  ]

  All-keep : (p : A → Bool) (xs : List A) → All (λ y. In y xs × (p y ≡ true)) (keep p xs)
  All-keep p [] = tt
  All-keep p (x ∷ xs) = elim (Bool-cases (p x)) [
    | inl t ↦ rw t ((inl refl, t), All-later (keep p xs) (All-keep p xs))
    | inr f ↦ rw f (All-later (keep p xs) (All-keep p xs))
  ]
    where
      All-later :
          (ys : List A)
          → All (λ y. In y xs × (p y ≡ true)) ys
          → All (λ y. In y (x ∷ xs) × (p y ≡ true)) ys
      All-later [] h = tt
      All-later (y ∷ ys) h = ((inr h.0.0, h.0.1), All-later ys h.1)

  -- An entry of a sorted list is in the prefix, or the prefix is full of entries before it.
  In-take :
      (n : ℕ) (b : A) (xs : List A)
      → IsSorted xs
      → In b xs
      → In b (take n xs) ⊎ ((length (take n xs) ≡ n) × All (λ y. key y ≤ key b) (take n xs))
  In-take zero b xs s h = inr (refl, tt)
  In-take (suc n) b [] s h = absurd h
  In-take (suc n) b (x ∷ xs) s (inl e) = inl (inl e)
  In-take (suc n) b (x ∷ xs) s (inr h) = elim (In-take n b xs s.1 h) [
    | inl here ↦ inl (inr here)
    | inr (full, le) ↦ inr (ap suc full, (key_le xs s.0 h, le))
  ]
    where
      key_le : (ys : List A) → All (λ y. key x ≤ key y) ys → In b ys → key x ≤ key b
      key_le [] a h = absurd h
      key_le (y ∷ ys) a (inl e) = rw e a.0
      key_le (y ∷ ys) a (inr h) = key_le ys a.1 h

  -- The query selects rows of the table that satisfy the condition, at most `n` of them.
  pub select_sound :
      (p : A → Bool) (n : ℕ) (xs : List A)
      → All (λ y. In y xs × (p y ≡ true)) (select key p n xs) × (length (select key p n xs) ≤ n)
  unfolding select
  select_sound p n xs = (
    All-take _ n (sort_by key (keep p xs)) (All-sort_by _ (keep p xs) (All-keep p xs)),
    length-take_le n (sort_by key (keep p xs)),
  )

  -- A row of the table that satisfies it is selected, or `n` rows are that come no later.
  pub select_complete :
      (p : A → Bool) (n : ℕ) (xs : List A) (b : A)
      → In b xs
      → p b ≡ true
      → In b (select key p n xs)
        ⊎ ((length (select key p n xs) ≡ n) × All (λ y. key y ≤ key b) (select key p n xs))
  unfolding select
  select_complete p n xs b h e =
      In-take n b (sort_by key (keep p xs)) (sort_by-IsSorted (keep p xs))
        (In-sort_by b (keep p xs) (In-keep p b xs h e))
