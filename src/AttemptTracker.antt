-- ===== src/AttemptTracker.antt =====
-- apps/messaging/src/reliability/retry-attempt-tracker.service.ts.
pub mod Counts
use contract_driven_messagin.Common.{
  ℕ, ◌+◌, String, Bool, true, false, not, List, [], ◌∷◌, ◌++◌, str_eq, any, keep, Prog, returned,
  threw, Reply, gives, fails, if◌then◌else◌,
}
use contract_driven_messagin.Outbox.Update.{update_where}
use contract_driven_messagin.Database.{Database, EventAttempt}

abbrev pub is_of : String → EventAttempt → Bool
is_of event_id a = str_eq a.event_id event_id

-- `INSERT … ON CONFLICT (event_id) DO UPDATE SET attempts = attempts + 1`.
abbrev pub upsert : String → ℕ → List EventAttempt → List EventAttempt
upsert event_id now attempts = elim (any (is_of event_id) attempts) [
  | true ↦
      update_where (is_of event_id) (λ a. record a { attempts = a.attempts + 1; updated_at = now })
        attempts
  | false ↦ attempts ++ (record { event_id = event_id; attempts = 1; updated_at = now } ∷ [])
]

-- `row?.attempts ?? d`, where `row` is the first of the event.
unfoldable pub attempts_or : ℕ → String → List EventAttempt → ℕ
attempts_or d event_id [] = d
attempts_or d event_id (a ∷ attempts) =
    if is_of event_id a then a.attempts else attempts_or d event_id attempts

unfoldable pub record_attempt : Reply (Unit {0}) → String → ℕ → Prog Database ℕ
unfolding update_where attempts_or
record_attempt (fails e) event_id now s = threw e s
record_attempt (gives _) event_id now s =
    let attempts = upsert event_id now s.tables.attempts in
    returned (attempts_or 1 event_id attempts)
      (record s { tables = record s.tables { attempts = attempts } })

unfoldable pub get_attempt_count : String → List EventAttempt → ℕ
unfolding attempts_or
get_attempt_count event_id attempts = attempts_or 0 event_id attempts

unfoldable pub clear_attempts : Reply (Unit {0}) → String → Prog Database (Unit {0})
clear_attempts (fails e) event_id s = threw e s
clear_attempts (gives _) event_id s = returned tt (record s {
  tables = record s.tables { attempts = keep (λ a. not (is_of event_id a)) s.tables.attempts };
})
