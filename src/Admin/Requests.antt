-- ===== src/Admin/Requests.antt =====
-- apps/messaging/src/outbox/outbox-admin.controller.ts: the operators' routes behind the guard of
-- libs/common/src/security/internal-api-key.guard.ts.
use contract_driven_messagin.Common.{
  ℕ, ◌≡◌, refl, ◌⊎◌, inl, inr, String, Bool, true, false, [], ◌∷◌, Option, none, some, arith,
  Bool-cases, str_eq,
}
use contract_driven_messagin.Contracts.Value.{Fields}
use contract_driven_messagin.InternalApiKey.{
  Node, IsDocumented, Admission, admitted, range_error, unauthorized, can_activate, CarriesKey,
  IsExactly, can_activate-IsExactly,
}
use contract_driven_messagin.Outbox.{OutboxRow, Table, is_failed}
use contract_driven_messagin.Outbox.Update.{update_where}
use contract_driven_messagin.Admin.{
  ReplayResult, replay_row, is_failed_row, replay_by_id, is_failed_of_type, replay_all_failed,
}

-- The answer 200 with its body, and the errors 401, 400, 404 and 500.
pub data Response (A : Type 0) : Type 0 where
  ok : A → Response A
  refused : String → Response A
  bad_request not_found internal_error : Response A

-- `@UseGuards(InternalApiKeyGuard)`: the guard runs before the route's pipes and its handler.
unfoldable pub guarded :
    {A : Type 0} → Admission → (Table → Response A × Table) → Table → Response A × Table
guarded admitted serve t = serve t
guarded range_error serve t = (internal_error, t)
guarded (unauthorized m) serve t = (refused m, t)

abbrev pub found_or : Option ReplayResult × Table → Response ReplayResult × Table
found_or (none, t) = (not_found, t)
found_or (some r, t) = (ok r, t)

-- `replayOne`, after the pipe.
abbrev pub serve_replay_one : Option ℕ → ℕ → Table → Response ReplayResult × Table
serve_replay_one none now t = (bad_request, t)
serve_replay_one (some id) now t = found_or (replay_by_id id now t)

-- `ParseIntPipe` is the argument `parse_int`, for ids that are natural numbers.
unfoldable pub replay_one :
    Node
    → Option String
    → (String → Option ℕ)
    → Fields
    → String
    → ℕ
    → Table
    → Response ReplayResult × Table
unfolding can_activate guarded replay_by_id
replay_one node key parse_int headers id now t =
    guarded (can_activate node key headers) (serve_replay_one (parse_int id) now) t

abbrev pub serve_replay_failed : Option String → ℕ → Table → Response ReplayResult × Table
serve_replay_failed event_type now t =
    let answer = replay_all_failed event_type now t in (ok answer.0, answer.1)

unfoldable pub replay_failed :
    Node → Option String → Fields → Option String → ℕ → Table → Response ReplayResult × Table
unfolding can_activate guarded replay_all_failed
replay_failed node key headers event_type now t =
    guarded (can_activate node key headers) (serve_replay_failed event_type now) t

-- Row for row, the second table has the row of the first, or the replay of a failed one.
abbrev pub AreReplayed : ℕ → Table → Table → Type 0
AreReplayed now [] [] = Unit
AreReplayed now [] (r ∷ t) = ⊥
AreReplayed now (r ∷ t) [] = ⊥
AreReplayed now (r ∷ t) (r' ∷ t') =
    ((r' ≡ r) ⊎ ((is_failed r.status ≡ true) × (r' ≡ replay_row now r))) × AreReplayed now t t'

pub same-AreReplayed : (now : ℕ) (t : Table) → AreReplayed now t t
same-AreReplayed now [] = tt
same-AreReplayed now (r ∷ t) = (inl refl, same-AreReplayed now t)

pub update_where-AreReplayed :
    (p : OutboxRow → Bool) (now : ℕ)
    → ((r : OutboxRow) → p r ≡ true → is_failed r.status ≡ true)
    → (t : Table) → AreReplayed now t (update_where p (replay_row now) t)
unfolding update_where
update_where-AreReplayed p now h [] = tt
update_where-AreReplayed p now h (r ∷ t) = elim (Bool-cases (p r)) [
  | inl e ↦ rw e (inr (h r e, refl), update_where-AreReplayed p now h t)
  | inr e ↦ rw e (inl refl, update_where-AreReplayed p now h t)
]

pub is_failed_row-failed :
    (id : ℕ) (r : OutboxRow) → is_failed_row id r ≡ true → is_failed r.status ≡ true
is_failed_row-failed id r h = ground (arith, h)

pub is_failed_of_type-failed :
    (event_type : Option String) (r : OutboxRow)
    → is_failed_of_type event_type r ≡ true
    → is_failed r.status ≡ true
is_failed_of_type-failed none r h = h
is_failed_of_type-failed (some ty) r h = by_empty (str_eq ty "") refl
  where
    by_empty : (b : Bool) → str_eq ty "" ≡ b → is_failed r.status ≡ true
    by_empty true e = ground (arith, h)
    by_empty false e = ground (arith, h)

-- Only failed rows may change; a request with the key gets what the handler does, and one without
-- it is refused and changes nothing.
abbrev pub IsGuarded :
    {A : Type 0} → Type 0 → ℕ → Table → Response A × Table → Response A × Table → Type 0
IsGuarded HasKey now t served r =
    AreReplayed now t r.1
    × ((HasKey × (r ≡ served)) ⊎ ((HasKey → ⊥) × ((m : String) × (r ≡ (refused m, t)))))

pub guarded-IsGuarded :
    {A : Type 0} (HasKey : Type 0) (now : ℕ) (t : Table) (serve : Table → Response A × Table)
    (a : Admission)
    → IsExactly a HasKey
    → AreReplayed now t (serve t).1
    → IsGuarded HasKey now t (serve t) (guarded a serve t)
unfolding guarded
guarded-IsGuarded HasKey now t serve admitted (_, k) h = (h, inl (k.0 refl, refl))
guarded-IsGuarded HasKey now t serve range_error (never, k) h = absurd (never refl)
guarded-IsGuarded HasKey now t serve (unauthorized m) (_, k) h =
    (same-AreReplayed now t, inr ((λ has. not_admitted (k.1 has)), (m, refl)))
  where
    not_admitted : unauthorized m ≡ admitted → ⊥
    not_admitted e = cc

module _ (node : Node) (documented : IsDocumented node) (key : Option String) (headers : Fields)
    (now : ℕ) (t : Table) where
  found_or-AreReplayed : (id : ℕ) → AreReplayed now t (found_or (replay_by_id id now t)).1
  unfolding replay_by_id
  found_or-AreReplayed id =
      by_answer (replay_by_id id now t)
        (update_where-AreReplayed (is_failed_row id) now (is_failed_row-failed id) t)
    where
      by_answer :
          (r : Option ReplayResult × Table)
          → AreReplayed now t r.1
          → AreReplayed now t (found_or r).1
      by_answer (none, t') h = h
      by_answer (some r, t') h = h

  -- `POST :id/replay` and `POST replay-failed` leave every row as it was but failed ones, which they
  -- may reset. A request with the configured key gets the answer of its handler; one without it gets
  -- 401 and changes no row. `timingSafeEqual` compares buffers of one length byte by byte.
  pub replay_one-IsGuarded :
      (parse_int : String → Option ℕ) (id : String) (event_type : Option String)
      → IsGuarded
          (CarriesKey node key headers)
          now
          t
          (serve_replay_one (parse_int id) now t)
          (replay_one node key parse_int headers id now t)
        × IsGuarded
            (CarriesKey node key headers)
            now
            t
            (serve_replay_failed event_type now t)
            (replay_failed node key headers event_type now t)
  unfolding replay_one replay_failed replay_all_failed
  replay_one-IsGuarded parse_int id event_type = (
    guarded-IsGuarded _ now t _ _ (can_activate-IsExactly node documented key headers)
        (served (parse_int id)),
    guarded-IsGuarded _ now t _ _ (can_activate-IsExactly node documented key headers) (
        update_where-AreReplayed (is_failed_of_type event_type) now
          (is_failed_of_type-failed event_type) t),
  )
    where
      served : (id : Option ℕ) → AreReplayed now t (serve_replay_one id now t).1
      served none = same-AreReplayed now t
      served (some n) = found_or-AreReplayed n
