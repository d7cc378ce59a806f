-- ===== src/Lifecycle/Waiters.antt =====
-- What `notifyWaiters` leaves and what it resolves.
use contract_driven_messagin.Common.{
  ℕ, ◌+◌, ◌<◌, ◌≡◌, refl, sym, ◌∙◌, inl, inr, Bool, false, not, ◌||◌, List, [], ◌∷◌, ◌++◌, map, any,
  keep, All, All-append, ◌==◌, if◌then◌else◌, Bool-cases, arith,
}
use contract_driven_messagin.Lifecycle.{
  EventLifecycleRecord, Waiter, Settled, resolved, matches, notify_waiters, is_done, without_call,
}

module _ {ℓ} {A : Type ℓ} (p : A → Bool) where
  pub any-append : (xs ys : List A) → any p (xs ++ ys) ≡ (any p xs || any p ys)
  any-append [] ys = refl
  any-append (x ∷ xs) ys = ground (arith, any-append xs ys)

  pub All-keep {κ} : (P : A → Type κ) (xs : List A) → All P xs → All P (keep p xs)
  All-keep P [] h = tt
  All-keep P (x ∷ xs) h = elim (Bool-cases (p x)) [
    | inl e ↦ rw e (h.0, All-keep P xs h.1)
    | inr e ↦ rw e (All-keep P xs h.1)
  ]

  keep-congr : (q : A → Bool) (xs : List A) → All (λ x. p x ≡ q x) xs → keep p xs ≡ keep q xs
  keep-congr q [] h = refl
  keep-congr q (x ∷ xs) h = ground (arith, keep-congr q xs)

pub All-zip {ℓ κ κ' κ''} :
    {A : Type ℓ} (P : A → Type κ) (Q : A → Type κ') (R : A → Type κ'')
    → ((x : A) → P x → Q x → R x)
    → (xs : List A) → All P xs
    → All Q xs
    → All R xs
All-zip P Q R f [] h k = tt
All-zip P Q R f (x ∷ xs) h k = (f x h.0 k.0, All-zip P Q R f xs h.1 k.1)

abbrev pub HaveDistinctCalls : List Waiter → Type 0
HaveDistinctCalls [] = Unit
HaveDistinctCalls (w ∷ ws) = All (λ v. (w.call == v.call) ≡ false) ws × HaveDistinctCalls ws

pub HaveDistinctCalls-keep :
    (p : Waiter → Bool) (ws : List Waiter) → HaveDistinctCalls ws → HaveDistinctCalls (keep p ws)
HaveDistinctCalls-keep p [] h = tt
HaveDistinctCalls-keep p (w ∷ ws) h = elim (Bool-cases (p w)) [
  | inl e ↦ rw e (All-keep p _ ws h.0, HaveDistinctCalls-keep p ws h.1)
  | inr e ↦ rw e (HaveDistinctCalls-keep p ws h.1)
]

pub HaveDistinctCalls-append :
    (w : Waiter) (ws : List Waiter)
    → HaveDistinctCalls ws
    → All (λ v. v.call < w.call) ws
    → HaveDistinctCalls (ws ++ (w ∷ []))
HaveDistinctCalls-append w [] h b = (tt, tt)
HaveDistinctCalls-append w (v ∷ ws) h b =
    (All-append _ ws (w ∷ []) h.0 (ground (arith, b.0), tt), HaveDistinctCalls-append w ws h.1 b.1)

module _ (r : EventLifecycleRecord) where
  pub left_waiters : (ws : List Waiter) → (notify_waiters r ws).0 ≡ keep (λ w. not (matches w r)) ws
  unfolding notify_waiters
  left_waiters [] = refl
  left_waiters (w ∷ ws) = ground (arith, left_waiters ws)

  -- A waiter whose call differs from all of `ws` is not resolved with them.
  not_done :
      (v : Waiter) (ws : List Waiter)
      → All (λ w. (v.call == w.call) ≡ false) ws
      → is_done (notify_waiters r ws).1 v ≡ false
  unfolding notify_waiters
  not_done v [] h = refl
  not_done v (w ∷ ws) h = ground (
    arith,
    not_done v ws h.1,
    any-append (λ (d : Waiter × Settled). v.call == d.0.call) (notify_waiters r ws).1
        ((w, resolved r) ∷ []),
  )

  -- A timer is cleared exactly when its waiter is resolved.
  done-eq-matches :
      (ws : List Waiter)
      → HaveDistinctCalls ws
      → All (λ v. not (is_done (notify_waiters r ws).1 v) ≡ not (matches v r)) ws
  unfolding notify_waiters
  done-eq-matches [] h = tt
  done-eq-matches (w ∷ ws) h =
      (head_agrees, All-zip _ _ _ tail_agrees ws h.0 (done-eq-matches ws h.1))
    where
      head_agrees : not (is_done (notify_waiters r (w ∷ ws)).1 w) ≡ not (matches w r)
      head_agrees = ground (
        arith,
        not_done w ws h.0,
        any-append (λ (d : Waiter × Settled). w.call == d.0.call) (notify_waiters r ws).1
            ((w, resolved r) ∷ []),
      )

      tail_agrees :
          (v : Waiter)
          → (w.call == v.call) ≡ false
          → not (is_done (notify_waiters r ws).1 v) ≡ not (matches v r)
          → not (is_done (notify_waiters r (w ∷ ws)).1 v) ≡ not (matches v r)
      tail_agrees v d e = ground (
        arith,
        any-append (λ (d : Waiter × Settled). v.call == d.0.call) (notify_waiters r ws).1
            ((w, resolved r) ∷ []),
      )

  pub cleared_timers :
      (ws : List Waiter)
      → HaveDistinctCalls ws
      → keep (λ w. not (is_done (notify_waiters r ws).1 w)) ws ≡ (notify_waiters r ws).0
  cleared_timers ws h =
      keep-congr _ (λ w. not (matches w r)) ws (done-eq-matches ws h) ∙ sym (left_waiters ws)

abbrev pub count : ℕ → List ℕ → ℕ
count c [] = 0
count c (x ∷ xs) = (if x == c then 1 else 0) + count c xs

abbrev pub calls : List Waiter → List ℕ
calls ws = map (λ (w : Waiter). w.call) ws

abbrev pub settled_calls : List (Waiter × Settled) → List ℕ
settled_calls ds = map (λ (d : Waiter × Settled). d.0.call) ds

pub count-append : (c : ℕ) (xs ys : List ℕ) → count c (xs ++ ys) ≡ count c xs + count c ys
count-append c [] ys = omega arith
count-append c (x ∷ xs) ys = omega (arith, count-append c xs ys)

pub count-settled_calls :
    (c : ℕ) (xs ys : List (Waiter × Settled))
    → count c (settled_calls (xs ++ ys)) ≡ count c (settled_calls xs) + count c (settled_calls ys)
count-settled_calls c [] ys = omega arith
count-settled_calls c (x ∷ xs) ys = omega (arith, count-settled_calls c xs ys)

pub count-calls :
    (c : ℕ) (xs ys : List Waiter)
    → count c (calls (xs ++ ys)) ≡ count c (calls xs) + count c (calls ys)
count-calls c [] ys = omega arith
count-calls c (x ∷ xs) ys = omega (arith, count-calls c xs ys)

-- Every call stays where it was or is settled.
pub count-notify_waiters :
    (c : ℕ) (r : EventLifecycleRecord) (ws : List Waiter)
    → count c (calls (notify_waiters r ws).0) + count c (settled_calls (notify_waiters r ws).1)
      ≡ count c (calls ws)
unfolding notify_waiters
count-notify_waiters c r [] = refl
count-notify_waiters c r (w ∷ ws) = ground (
  arith,
  count-notify_waiters c r ws,
  count-settled_calls c (notify_waiters r ws).1 ((w, resolved r) ∷ []),
)

pub count-without_call :
    (c d : ℕ) (ws : List Waiter)
    → count d (calls (without_call c ws)) ≡ (if c == d then 0 else count d (calls ws))
count-without_call c d [] = ground arith
count-without_call c d (w ∷ ws) = ground (arith, count-without_call c d ws)
