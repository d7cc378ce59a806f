-- ===== src/Outbox/Select.antt =====
-- `SELECT … WHERE … ORDER BY k ASC LIMIT n` on a table. Rows with equal keys keep their order.
pub mod Earliest
use contract_driven_messagin.Common.{
  ℕ, ◌≡◌, refl, ap, Bool, List, [], ◌∷◌, map, arith, keep, leb, if◌then◌else◌, take, take-map,
  Bool-cases, inl, inr,
}

module _ {A : Type 0} (key : A → ℕ) where
  unfoldable pub insert_by : A → List A → List A
  insert_by a [] = a ∷ []
  insert_by a (x ∷ xs) = if leb (key a) (key x) then a ∷ x ∷ xs else x ∷ insert_by a xs

  unfoldable pub sort_by : List A → List A
  sort_by [] = []
  sort_by (x ∷ xs) = insert_by x (sort_by xs)

  unfoldable pub select : (A → Bool) → ℕ → List A → List A
  select p limit rs = take limit (sort_by (keep p rs))

module _ {A : Type 0} (key : A → ℕ) (g : A → A) (same_key : (a : A) → key (g a) ≡ key a) where
  insert_by-map :
      (a : A) (xs : List A) → insert_by key (g a) (map g xs) ≡ map g (insert_by key a xs)
  unfolding insert_by
  insert_by-map a [] = refl
  insert_by-map a (x ∷ xs) =
      rw (same_key a, same_key x)
        (elim (Bool-cases (leb (key a) (key x))) [
          | inl le ↦ rw le
          | inr gt ↦ rw gt (ap (◌∷◌ (g x)) (insert_by-map a xs))
        ])

  sort_by-map : (xs : List A) → sort_by key (map g xs) ≡ map g (sort_by key xs)
  unfolding sort_by
  sort_by-map [] = refl
  sort_by-map (x ∷ xs) = rw (sort_by-map xs) (insert_by-map x (sort_by key xs))

  keep-map :
      (p : A → Bool) (xs : List A)
      → ((a : A) → p (g a) ≡ p a)
      → keep p (map g xs) ≡ map g (keep p xs)
  keep-map p [] h = refl
  keep-map p (x ∷ xs) h = ground (arith, h x, keep-map p xs h)

  -- A change of the rows that the query cannot see does not change which rows it selects.
  pub select-map :
      (p : A → Bool) (n : ℕ) (xs : List A)
      → ((a : A) → p (g a) ≡ p a)
      → select key p n (map g xs) ≡ map g (select key p n xs)
  unfolding select
  select-map p n xs h =
      rw (keep-map p xs h, sort_by-map (keep p xs)) (take-map g n (sort_by key (keep p xs)))
