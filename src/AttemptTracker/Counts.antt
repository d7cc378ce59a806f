-- ===== src/AttemptTracker/Counts.antt =====
-- The attempt counter of each event.
use contract_driven_messagin.Common.{
  ℕ, suc, ◌+◌, ◌≡◌, refl, ◌≢◌, sym, ◌∙◌, ap, String, true, false, not, List, [], ◌∷◌, ◌++◌, any,
  keep, returned, gives, arith, inl, inr, Bool-cases, eq_iff, eq_refl, ◌||◌,
}
use contract_driven_messagin.Outbox.Update.{update_where}
use contract_driven_messagin.Database.{Database, EventAttempt}
use contract_driven_messagin.AttemptTracker.{
  is_of, upsert, attempts_or, record_attempt, get_attempt_count, clear_attempts,
}

abbrev bump : ℕ → EventAttempt → EventAttempt
bump now a = record a { attempts = a.attempts + 1; updated_at = now }

module _ (id : String) (now : ℕ) where
  attempts_or-bump :
      (d : ℕ) (xs : List EventAttempt)
      → any (is_of id) xs ≡ true
      → attempts_or d id (update_where (is_of id) (bump now) xs) ≡ suc (attempts_or 0 id xs)
  unfolding attempts_or update_where
  attempts_or-bump d [] h = cc
  attempts_or-bump d (a ∷ xs) h = ground (arith, attempts_or-bump d xs)

  attempts_or-insert :
      (d : ℕ) (xs : List EventAttempt)
      → any (is_of id) xs ≡ false
      → (attempts_or d id (xs ++ (record { event_id = id; attempts = 1; updated_at = now } ∷ []))
          ≡ 1)
        × (attempts_or 0 id xs ≡ 0)
  unfolding attempts_or
  attempts_or-insert d [] h = rw (eq_refl id) (refl, refl)
  attempts_or-insert d (a ∷ xs) h = elim (Bool-cases (is_of id a)) [
    | inl e ↦ absurd (differ (sym h ∙ ap (λ b. b || any (is_of id) xs) e))
    | inr e ↦ rw e (attempts_or-insert d xs (sym (ap (λ b. b || any (is_of id) xs) e) ∙ h))
  ]
    where
      differ : false ≡ true → ⊥
      differ p = cc

  attempts_or-upsert :
      (d : ℕ) (xs : List EventAttempt)
      → attempts_or d id (upsert id now xs) ≡ suc (attempts_or 0 id xs)
  attempts_or-upsert d xs = elim (Bool-cases (any (is_of id) xs)) [
    | inl e ↦ rw (upsert, e) (attempts_or-bump d xs e)
    | inr e ↦
        let (one, none) = attempts_or-insert d xs e in rw (upsert, e) (one ∙ ap suc (sym none))
  ]

  module _ (other : String) (differs : other ≢ id) where
    not_both : (a : EventAttempt) → is_of id a ≡ true → is_of other a ≡ false
    not_both a h = elim (Bool-cases (is_of other a)) [
      | inl e ↦ absurd (differs (sym ((eq_iff a.event_id other).0 e) ∙ (eq_iff a.event_id id).0 h))
      | inr e ↦ e
    ]

    attempts_or-bump_other :
        (d : ℕ) (xs : List EventAttempt)
        → attempts_or d other (update_where (is_of id) (bump now) xs) ≡ attempts_or d other xs
    unfolding attempts_or update_where
    attempts_or-bump_other d [] = refl
    attempts_or-bump_other d (a ∷ xs) = ground (arith, not_both a, attempts_or-bump_other d xs)

    attempts_or-insert_other :
        (d : ℕ) (xs : List EventAttempt)
        → attempts_or d other
            (xs ++ (record { event_id = id; attempts = 1; updated_at = now } ∷ []))
          ≡ attempts_or d other xs
    unfolding attempts_or
    attempts_or-insert_other d [] =
        rw (not_both (record { event_id = id; attempts = 1; updated_at = now }) (eq_refl id)) refl
    attempts_or-insert_other d (a ∷ xs) = ground (arith, attempts_or-insert_other d xs)

    attempts_or-upsert_other :
        (d : ℕ) (xs : List EventAttempt)
        → attempts_or d other (upsert id now xs) ≡ attempts_or d other xs
    attempts_or-upsert_other d xs = elim (Bool-cases (any (is_of id) xs)) [
      | inl e ↦ rw (upsert, e) (attempts_or-bump_other d xs)
      | inr e ↦ rw (upsert, e) (attempts_or-insert_other d xs)
    ]

    attempts_or-keep_other :
        (d : ℕ) (xs : List EventAttempt)
        → attempts_or d other (keep (λ a. not (is_of id a)) xs) ≡ attempts_or d other xs
    unfolding attempts_or
    attempts_or-keep_other d [] = refl
    attempts_or-keep_other d (a ∷ xs) = ground (arith, not_both a, attempts_or-keep_other d xs)

  attempts_or-keep :
      (d : ℕ) (xs : List EventAttempt) → attempts_or d id (keep (λ a. not (is_of id a)) xs) ≡ d
  unfolding attempts_or
  attempts_or-keep d [] = refl
  attempts_or-keep d (a ∷ xs) = ground (arith, attempts_or-keep d xs)

abbrev pub with_attempts : List EventAttempt → Database → Database
with_attempts xs s = record s { tables = record s.tables { attempts = xs } }

abbrev pub count : String → Database → ℕ
count id s = get_attempt_count id s.tables.attempts

pub record_attempt_run :
    (id : String) (now : ℕ) (s : Database)
    → record_attempt (gives tt) id now s
      ≡ returned (suc (count id s)) (with_attempts (upsert id now s.tables.attempts) s)
unfolding record_attempt get_attempt_count
record_attempt_run id now s =
    ap (λ n. returned n (with_attempts (upsert id now s.tables.attempts) s))
      (attempts_or-upsert id now 1 s.tables.attempts)

pub upsert_counted :
    (id : String) (now : ℕ) (s : Database)
    → count id (with_attempts (upsert id now s.tables.attempts) s) ≡ suc (count id s)
unfolding get_attempt_count
upsert_counted id now s = attempts_or-upsert id now 0 s.tables.attempts

-- Recording an attempt gives the event's count with this attempt, which is then what
-- `getAttemptCount` reads, and leaves every other event's count alone.
record_attempt_counts :
    (id : String) (now : ℕ) (s : Database)
    → (s' : Database) × (record_attempt (gives tt) id now s ≡ returned (suc (count id s)) s')
      × (count id s' ≡ suc (count id s))
      × ((other : String) → other ≢ id → count other s' ≡ count other s)
unfolding record_attempt get_attempt_count
record_attempt_counts id now s = (
  with_attempts (upsert id now s.tables.attempts) s,
  record_attempt_run id now s,
  upsert_counted id now s,
  λ other differs. attempts_or-upsert_other id now other differs 0 s.tables.attempts,
)

-- Clearing an event's attempts makes its count 0, whether or not it had one, and leaves every other
-- event's count alone.
pub clear_attempts_resets :
    (id : String) (s : Database)
    → (s' : Database) × (clear_attempts (gives tt) id s ≡ returned tt s')
      × (count id s' ≡ 0)
      × ((other : String) → other ≢ id → count other s' ≡ count other s)
unfolding clear_attempts get_attempt_count
clear_attempts_resets id s = (
  with_attempts (keep (λ a. not (is_of id a)) s.tables.attempts) s,
  refl,
  attempts_or-keep id 0 0 s.tables.attempts,
  λ other differs. attempts_or-keep_other id 0 other differs 0 s.tables.attempts,
)
