-- ===== src/Outbox/Identity.antt =====
-- The primary key: no two rows of a table have one id.
use contract_driven_messagin.Common.{
  ℕ, ◌≡◌, refl, sym, ap, ◌≢◌, ◌∙◌, inl, inr, Bool, true, List, [], ◌∷◌, map, arith, All, In, any,
  ◌==◌, ==_iff, Bool-cases,
}
use contract_driven_messagin.Outbox.{OutboxRow, Table}

abbrev pub HasUniqueIds : Table → Type 0
HasUniqueIds [] = Unit
HasUniqueIds (r ∷ rs) = All (λ s. s.id ≢ r.id) rs × HasUniqueIds rs

abbrev pub ids : Table → List ℕ
ids = map (λ r. r.id)

abbrev pub is_in : List ℕ → OutboxRow → Bool
is_in is r = any (λ i. i == r.id) is

ne_of_All : (i : ℕ) (t : Table) (r : OutboxRow) → All (λ s. s.id ≢ i) t → In r t → r.id ≢ i
ne_of_All i [] r a h = absurd h
ne_of_All i (s ∷ t) r a (inl e) = rw e a.0
ne_of_All i (s ∷ t) r a (inr h) = ne_of_All i t r a.1 h

-- Two rows of the table with one id are one row.
pub row_unique :
    (t : Table) (r s : OutboxRow) → HasUniqueIds t → In r t → In s t → r.id ≡ s.id → r ≡ s
row_unique [] r s u h k e = absurd h
row_unique (x ∷ t) r s u (inl p) (inl q) e = p ∙ sym q
row_unique (x ∷ t) r s u (inl p) (inr k) e =
    absurd (ne_of_All x.id t s u.0 k (sym e ∙ (λ i. (p i).id)))
row_unique (x ∷ t) r s u (inr h) (inl q) e = absurd (ne_of_All x.id t r u.0 h (e ∙ (λ i. (q i).id)))
row_unique (x ∷ t) r s u (inr h) (inr k) e = row_unique t r s u.1 h k e

-- A row whose id is among those of the selected rows is one of them.
pub is_in-In :
    (xs : Table) (r : OutboxRow)
    → is_in (ids xs) r ≡ true
    → (s : OutboxRow) × In s xs × (s.id ≡ r.id)
is_in-In [] r h = cc
is_in-In (x ∷ xs) r h = elim (Bool-cases (x.id == r.id)) [
  | inl e ↦ (x, inl refl, (==_iff x.id r.id).0 e)
  | inr e ↦ let (s, k, same) = is_in-In xs r (rw e at h) in (s, inr k, same)
]

pub In-is_in : (xs : Table) (r : OutboxRow) → In r xs → is_in (ids xs) r ≡ true
In-is_in [] r h = absurd h
In-is_in (x ∷ xs) r (inl e) = ground (arith, ap (λ (s : OutboxRow). s.id) e)
In-is_in (x ∷ xs) r (inr h) = ground (arith, In-is_in xs r h)
