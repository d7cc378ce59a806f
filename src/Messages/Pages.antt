-- ===== src/Messages/Pages.antt =====
-- What a page of messages holds.
use contract_driven_messagin.Common.{
  ℕ, zero, suc, ◌≤◌, ◌≡◌, refl, ap, ◌⊎◌, inl, inr, min, String, Bool, true, false, not, List, [],
  ◌∷◌, Option, none, some, arith, Bool-cases, All, All-take, In, keep, take, length, length-take_le,
  leb, leb→le, not-leb→lt, if◌then◌else◌, ◌==◌, default_to,
}
use contract_driven_messagin.Database.{Message}
use contract_driven_messagin.Messages.{
  FindAllOptions, insert_newest, newest_first, page_limit, is_before_cursor, find_all, find_one,
  remove_message,
}

abbrev pub IsNewestFirst : List Message → Type 0
IsNewestFirst [] = Unit
IsNewestFirst (m ∷ ms) = All (λ x. x.created_at ≤ m.created_at) ms × IsNewestFirst ms

module _ (P : Message → Type 0) where
  All-insert_newest :
      (m : Message) (ms : List Message) → P m → All P ms → All P (insert_newest m ms)
  unfolding insert_newest
  All-insert_newest m [] p h = (p, tt)
  All-insert_newest m (x ∷ ms) p h = elim (Bool-cases (leb x.created_at m.created_at)) [
    | inl e ↦ rw e (p, h)
    | inr e ↦ rw e (h.0, All-insert_newest m ms p h.1)
  ]

  All-newest_first : (ms : List Message) → All P ms → All P (newest_first ms)
  unfolding newest_first
  All-newest_first [] h = tt
  All-newest_first (m ∷ ms) h = All-insert_newest m (newest_first ms) h.0 (All-newest_first ms h.1)

All-older :
    (a b : Message) (ms : List Message)
    → a.created_at ≤ b.created_at
    → All (λ x. x.created_at ≤ a.created_at) ms
    → All (λ x. x.created_at ≤ b.created_at) ms
All-older a b [] le h = tt
All-older a b (m ∷ ms) le h = (omega (arith, h.0), All-older a b ms le h.1)

insert_newest-IsNewestFirst :
    (m : Message) (ms : List Message) → IsNewestFirst ms → IsNewestFirst (insert_newest m ms)
unfolding insert_newest
insert_newest-IsNewestFirst m [] h = (tt, tt)
insert_newest-IsNewestFirst m (x ∷ ms) h = elim (Bool-cases (leb x.created_at m.created_at)) [
  | inl e ↦ let le = leb→le x.created_at m.created_at e in rw e ((le, All-older x m ms le h.0), h)
  | inr e ↦ rw e (
    All-insert_newest (λ y. y.created_at ≤ x.created_at) m ms
        (omega (arith, not-leb→lt x.created_at m.created_at e)) h.0,
    insert_newest-IsNewestFirst m ms h.1,
  )
]

newest_first-IsNewestFirst : (ms : List Message) → IsNewestFirst (newest_first ms)
unfolding newest_first
newest_first-IsNewestFirst [] = tt
newest_first-IsNewestFirst (m ∷ ms) =
    insert_newest-IsNewestFirst m (newest_first ms) (newest_first-IsNewestFirst ms)

take-IsNewestFirst : (n : ℕ) (ms : List Message) → IsNewestFirst ms → IsNewestFirst (take n ms)
take-IsNewestFirst zero ms h = tt
take-IsNewestFirst (suc n) [] h = tt
take-IsNewestFirst (suc n) (m ∷ ms) h = (All-take _ n ms h.0, take-IsNewestFirst n ms h.1)

All-keep_satisfy : (p : Message → Bool) (ms : List Message) → All (λ m. p m ≡ true) (keep p ms)
All-keep_satisfy p [] = tt
All-keep_satisfy p (m ∷ ms) = elim (Bool-cases (p m)) [
  | inl e ↦ rw e (e, All-keep_satisfy p ms)
  | inr e ↦ rw e (All-keep_satisfy p ms)
]

All-keep_of :
    (P : Message → Type 0) (p : Message → Bool) (ms : List Message) → All P ms → All P (keep p ms)
All-keep_of P p [] h = tt
All-keep_of P p (m ∷ ms) h = elim (Bool-cases (p m)) [
  | inl e ↦ rw e (h.0, All-keep_of P p ms h.1)
  | inr e ↦ rw e (All-keep_of P p ms h.1)
]

All-In :
    (whole ms : List Message) → ((m : Message) → In m ms → In m whole) → All (λ m. In m whole) ms
All-In whole [] f = tt
All-In whole (m ∷ ms) f = (f m (inl refl), All-In whole ms (λ x h. f x (inr h)))

-- `findAll` gives at most 200 messages, and at most as many as were asked for; each is in the table
-- and was created before the cursor, if one is given; and they come newest first.
pub find_all-IsNewestFirst :
    (date : String → ℕ) (opts : FindAllOptions) (ms : List Message)
    → (length (find_all date opts ms) ≤ 200)
      × (length (find_all date opts ms) ≤ default_to 50 opts.limit)
      × All (λ m. In m ms × (is_before_cursor date opts.cursor m ≡ true)) (find_all date opts ms)
      × IsNewestFirst (find_all date opts ms)
unfolding find_all
find_all-IsNewestFirst date opts ms =
    let kept = keep (is_before_cursor date opts.cursor) ms in
    let bound = length-take_le (page_limit opts) (newest_first kept) in
    (
      omega (arith, bound, min_right (default_to 50 opts.limit)),
      omega (arith, bound, min_left (default_to 50 opts.limit)),
      All-take _ (page_limit opts) (newest_first kept) (
          All-newest_first _ kept (
            both kept
              (All-keep_of _ (is_before_cursor date opts.cursor) ms (All-In ms ms (λ _ h. h)))
              (All-keep_satisfy (is_before_cursor date opts.cursor) ms))),
      take-IsNewestFirst (page_limit opts) (newest_first kept) (newest_first-IsNewestFirst kept),
    )
  where
    min_right : (n : ℕ) → min n 200 ≤ 200
    min_right n = omega arith

    min_left : (n : ℕ) → min n 200 ≤ n
    min_left n = omega arith

    both :
        (xs : List Message)
        → All (λ m. In m ms) xs
        → All (λ m. is_before_cursor date opts.cursor m ≡ true) xs
        → All (λ m. In m ms × (is_before_cursor date opts.cursor m ≡ true)) xs
    both [] h k = tt
    both (x ∷ xs) h k = ((h.0, k.0), both xs h.1 k.1)

find_one-keep : (id : ℕ) (ms : List Message) → find_one id (keep (λ x. not (x.id == id)) ms) ≡ none
unfolding find_one
find_one-keep id [] = refl
find_one-keep id (m ∷ ms) = ground (arith, find_one-keep id ms)

find_one-keep_other :
    (id other : ℕ) (ms : List Message)
    → (other == id) ≡ false
    → find_one other (keep (λ x. not (x.id == id)) ms) ≡ find_one other ms
unfolding find_one
find_one-keep_other id other [] h = refl
find_one-keep_other id other (m ∷ ms) h = elim (Bool-cases (m.id == id)) [
  | inl e ↦ rw (e, differs e) (find_one-keep_other id other ms h)
  | inr e ↦ rw e (ap (λ x. if m.id == other then some m else x) (find_one-keep_other id other ms h))
]
  where
    differs : (m.id == id) ≡ true → (m.id == other) ≡ false
    differs e = ground (arith, e, h)

-- `remove` reports a missing message exactly when `findOne` does, and then changes nothing;
-- otherwise `findOne` no longer finds it, and finds every other message as before.
pub remove_message-find_one :
    (id : ℕ) (ms : List Message)
    → ((find_one id ms ≡ none) × (remove_message id ms ≡ (false, ms)))
      ⊎ (((remove_message id ms).0 ≡ true)
          × (find_one id (remove_message id ms).1 ≡ none)
          × ((other : ℕ)
              → (other == id) ≡ false
              → find_one other (remove_message id ms).1 ≡ find_one other ms))
unfolding remove_message
remove_message-find_one id ms = by_found (find_one id ms) refl
  where
    by_found :
        (f : Option Message)
        → find_one id ms ≡ f
        → ((find_one id ms ≡ none) × (remove_message id ms ≡ (false, ms)))
          ⊎ (((remove_message id ms).0 ≡ true)
              × (find_one id (remove_message id ms).1 ≡ none)
              × ((other : ℕ)
                  → (other == id) ≡ false
                  → find_one other (remove_message id ms).1 ≡ find_one other ms))
    by_found none e = inl (e, rw (remove_message, e) refl)
    by_found (some m) e = inr (
        rw (remove_message, e)
          (refl, find_one-keep id ms, λ other h. find_one-keep_other id other ms h))
