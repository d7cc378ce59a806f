-- ===== src/Lifecycle/Answers.antt =====
-- When a wait is answered rightly, and what the searches for a record or a timer find.
use contract_driven_messagin.Common.{
  ℕ, ◌≤◌, ◌≡◌, refl, sym, subst, inl, inr, Bool, true, false, List, [], ◌∷◌, ◌++◌, none, some, any,
  keep, All, All-append, In, ◌==◌, ==_iff, Bool-cases, none-ne-some, some_inj, arith,
}
use contract_driven_messagin.Lifecycle.{
  EventLifecycleRecord, Waiter, Settled, resolved, timed_out, matches, notify_waiters, find_record,
  find_timer,
}
use contract_driven_messagin.Lifecycle.Waiters.{count, calls}

-- A wait was settled with a record that was observed and that it asked for, or by an error that
-- lists records none of which it asked for.
abbrev pub IsRight : List EventLifecycleRecord → Waiter × Settled → Type 0
IsRight rs (w, resolved r) = (matches w r ≡ true) × In r rs
IsRight rs (w, timed_out seen) = any (matches w) seen ≡ false

pub keep_holds : (p : Waiter → Bool) (ws : List Waiter) → All (λ w. p w ≡ true) (keep p ws)
keep_holds p [] = tt
keep_holds p (w ∷ ws) = elim (Bool-cases (p w)) [
  | inl e ↦ rw e (e, keep_holds p ws)
  | inr e ↦ rw e (keep_holds p ws)
]

pub In-append_left :
    (r : EventLifecycleRecord) (rs ss : List EventLifecycleRecord) → In r rs → In r (rs ++ ss)
In-append_left r [] ss h = absurd h
In-append_left r (x ∷ rs) ss (inl e) = inl e
In-append_left r (x ∷ rs) ss (inr h) = inr (In-append_left r rs ss h)

pub In-append_last :
    (r : EventLifecycleRecord) (rs : List EventLifecycleRecord) → In r (rs ++ (r ∷ []))
In-append_last r [] = inl refl
In-append_last r (x ∷ rs) = inr (In-append_last r rs)

pub still-IsRight :
    (rs ss : List EventLifecycleRecord) (ds : List (Waiter × Settled))
    → All (IsRight rs) ds
    → All (IsRight (rs ++ ss)) ds
still-IsRight rs ss [] h = tt
still-IsRight rs ss ((w, resolved r) ∷ ds) h =
    ((h.0.0, In-append_left r rs ss h.0.1), still-IsRight rs ss ds h.1)
still-IsRight rs ss ((w, timed_out seen) ∷ ds) h = (h.0, still-IsRight rs ss ds h.1)

pub notified-IsRight :
    (r : EventLifecycleRecord) (rs : List EventLifecycleRecord) (ws : List Waiter)
    → All (IsRight (rs ++ (r ∷ []))) (notify_waiters r ws).1
unfolding notify_waiters
notified-IsRight r rs [] = tt
notified-IsRight r rs (w ∷ ws) = elim (Bool-cases (matches w r)) [
  | inl e ↦ rw e (
      All-append _ (notify_waiters r ws).1 _ (notified-IsRight r rs ws)
        ((e, In-append_last r rs), tt))
  | inr e ↦ rw e (notified-IsRight r rs ws)
]

pub find_record-eq-some :
    (w : Waiter) (rs : List EventLifecycleRecord) {r : EventLifecycleRecord}
    → find_record w rs ≡ some r
    → (matches w r ≡ true) × In r rs
find_record-eq-some w [] h = absurd (none-ne-some h)
find_record-eq-some w (x ∷ rs) {r = r} h = elim (Bool-cases (matches w x)) [
  | inl e ↦
      let q : x ≡ r = some_inj (rw e at h) in (subst (λ y. matches w y ≡ true) q e, inl (sym q))
  | inr e ↦ let (m, i) = find_record-eq-some w rs (rw e at h) in (m, inr i)
]

pub find_record-eq-none :
    (w : Waiter) (rs : List EventLifecycleRecord)
    → find_record w rs ≡ none
    → any (matches w) rs ≡ false
find_record-eq-none w [] h = refl
find_record-eq-none w (x ∷ rs) h = elim (Bool-cases (matches w x)) [
  | inl e ↦ absurd (none-ne-some (sym (rw e at h)))
  | inr e ↦ rw e (find_record-eq-none w rs (rw e at h))
]

pub find_timer-eq-some :
    (P : Waiter → Type 0) (c : ℕ) (ws : List Waiter) {w : Waiter}
    → find_timer c ws ≡ some w
    → All P ws
    → (w.call ≡ c) × P w × (1 ≤ count c (calls ws))
find_timer-eq-some P c [] h a = absurd (none-ne-some h)
find_timer-eq-some P c (x ∷ ws) {w = w} h a = elim (Bool-cases (x.call == c)) [
  | inl e ↦
      let q : x ≡ w = some_inj (rw e at h) in
      (subst (λ y. y.call ≡ c) q ((==_iff x.call c).0 e), subst P q a.0, rw e (omega arith))
  | inr e ↦ let (m, p, n) = find_timer-eq-some P c ws (rw e at h) a.1 in (m, p, omega (arith, n))
]
