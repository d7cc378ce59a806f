-- ===== src/Common/Endings.antt =====
-- What holds at the end of a run: one condition on a return, one on a throw; and how the conditions
-- of a program follow from those of its parts.
use mathlib.Core.Path.{◌≡◌, refl}
use contract_driven_messagin.Common.Effects.{
  Thrown, Run, returned, threw, Prog, ◌>>=◌, try_catch, finally, Reply, gives, fails, await,
}

module _ {S A : Type 0} where
  abbrev pub Ends : (A → S → Type 0) → (Thrown → S → Type 0) → Run S A → Type 0
  Ends P Q (returned a s) = P a s
  Ends P Q (threw e s) = Q e s

  pub Ends-self : (r : Run S A) → Ends (λ a s. r ≡ returned a s) (λ e s. r ≡ threw e s) r
  Ends-self (returned a s) = refl
  Ends-self (threw e s) = refl

  module _ (P P' : A → S → Type 0) (Q Q' : Thrown → S → Type 0) where
    pub Ends-mono :
        (r : Run S A)
        → Ends P Q r
        → ((a : A) (s : S) → P a s → P' a s)
        → ((e : Thrown) (s : S) → Q e s → Q' e s)
        → Ends P' Q' r
    Ends-mono (returned a s) h p q = p a s h
    Ends-mono (threw e s) h p q = q e s h

    pub Ends-both :
        (r : Run S A)
        → Ends P Q r
        → Ends P' Q' r
        → Ends (λ a s. P a s × P' a s) (λ e s. Q e s × Q' e s) r
    Ends-both (returned a s) h k = (h, k)
    Ends-both (threw e s) h k = (h, k)

module _ {S A : Type 0} (P : A → S → Type 0) (Q Q' : Thrown → S → Type 0) where
  pub try_catch-Ends :
      (m : Prog S A) (h : Thrown → Prog S A) (s : S)
      → Ends P Q' (m s)
      → ((e : Thrown) (s' : S) → Q' e s' → Ends P Q (h e s'))
      → Ends P Q (try_catch m h s)
  try_catch-Ends m h s p k = by_run (m s) p
    where
      by_run :
          (r : Run S A)
          → Ends P Q' r
          → Ends P Q (elim r [ returned a s' ↦ returned a s' | threw e s' ↦ h e s' ])
      by_run (returned a s') p = p
      by_run (threw e s') p = k e s' p

module _ {S A B : Type 0} (P : A → S → Type 0) (P' : B → S → Type 0) (Q : Thrown → S → Type 0) where
  pub bind-Ends :
      (m : Prog S A) (k : A → Prog S B) (s : S)
      → Ends P Q (m s)
      → ((a : A) (s' : S) → P a s' → Ends P' Q (k a s'))
      → Ends P' Q ((m >>= k) s)
  bind-Ends m k s p h = by_run (m s) p
    where
      by_run :
          (r : Run S A)
          → Ends P Q r
          → Ends P' Q (elim r [ returned a s' ↦ k a s' | threw e s' ↦ threw e s' ])
      by_run (returned a s') p = h a s' p
      by_run (threw e s') p = p

-- A last step that leaves the state alone may turn a return into a throw.
module _ {S A : Type 0} (P : A → S → Type 0) (Q : Thrown → S → Type 0) where
  pub finally-Ends :
      (m : Prog S A) (r : Reply (Unit {0})) (s : S)
      → Ends P Q (m s)
      → ((a : A) (e : Thrown) (s' : S) → P a s' → Q e s')
      → ((e e' : Thrown) (s' : S) → Q e s' → Q e' s')
      → Ends P Q (finally m (await r) s)
  finally-Ends m r s p h k = by_run (m s) r p
    where
      by_run :
          (x : Run S A) (r : Reply (Unit {0}))
          → Ends P Q x
          → Ends P Q (elim x [
            | returned a s' ↦ elim (await r s') [
              | returned _ s'' ↦ returned a s''
              | threw e s'' ↦ threw e s''
            ]
            | threw e s' ↦ elim (await r s') [
              | returned _ s'' ↦ threw e s''
              | threw e' s'' ↦ threw e' s''
            ]
          ])
      by_run (returned a s') (gives u) p = p
      by_run (returned a s') (fails e) p = h a e s' p
      by_run (threw e s') (gives u) p = p
      by_run (threw e s') (fails e') p = k e e' s' p
