-- ===== src/Outbox/Update.antt =====
-- `UPDATE … SET … WHERE … RETURNING …` on a table.
use contract_driven_messagin.Common.{◌≡◌, refl, Bool, List, [], ◌∷◌, map, arith, if◌then◌else◌}

module _ {A : Type 0} where
  -- The table after the statement.
  unfoldable pub update_where : (A → Bool) → (A → A) → List A → List A
  update_where p f [] = []
  update_where p f (r ∷ rs) = (if p r then f r else r) ∷ update_where p f rs

  -- The rows that the statement returns, as they are after it.
  unfoldable pub updated : (A → Bool) → (A → A) → List A → List A
  updated p f [] = []
  updated p f (r ∷ rs) = if p r then f r ∷ updated p f rs else updated p f rs

  -- A statement that matches no row changes nothing.
  pub update_where_none :
      (p : A → Bool) (f : A → A) (rs : List A) → updated p f rs ≡ [] → update_where p f rs ≡ rs
  unfolding update_where updated
  update_where_none p f [] h = refl
  update_where_none p f (r ∷ rs) h = ground (arith, update_where_none p f rs)

  -- What the statement leaves alone in each row, it leaves alone in the table.
  pub map-update_where :
      {B : Type 0} (g : A → B) (p : A → Bool) (f : A → A) (rs : List A)
      → ((r : A) → g (f r) ≡ g r)
      → map g (update_where p f rs) ≡ map g rs
  unfolding update_where
  map-update_where g p f [] h = refl
  map-update_where g p f (r ∷ rs) h = ground (arith, h r, map-update_where g p f rs h)
