-- ===== src/Admin.antt =====
-- apps/messaging/src/outbox/outbox-admin.service.ts: an operator's replay of failed rows.
pub mod Replay
pub mod Requests
mod Examples
use contract_driven_messagin.Common.{
  ℕ, String, Bool, true, false, ◌&&◌, List, [], ◌∷◌, Option, none, some, ◌==◌, str_eq, length,
}
use contract_driven_messagin.Outbox.{pending, is_failed, OutboxRow, Table}
use contract_driven_messagin.Outbox.Identity.{ids}
use contract_driven_messagin.Outbox.Update.{update_where, updated}

pub record ReplayResult : Type 0 where
  pub replayed : ℕ
  pub ids : List ℕ

abbrev pub replay_row : ℕ → OutboxRow → OutboxRow
replay_row now r = record r {
  status = pending;
  attempts = 0;
  next_retry_at = now;
  locked_at = none;
  locked_by = none;
}

abbrev pub is_failed_row : ℕ → OutboxRow → Bool
is_failed_row id r = r.id == id && is_failed r.status

-- `NotFoundException` is `none`.
unfoldable pub replay_by_id : ℕ → ℕ → Table → Option ReplayResult × Table
replay_by_id id now t = (
  elim (updated (is_failed_row id) (replay_row now) t) [
    | [] ↦ none
    | r ∷ rs ↦ some (record { replayed = 1; ids = id ∷ [] })
  ],
  update_where (is_failed_row id) (replay_row now) t,
)

-- An empty event type filters nothing, as an absent one.
abbrev pub is_failed_of_type : Option String → OutboxRow → Bool
is_failed_of_type none r = is_failed r.status
is_failed_of_type (some t) r = elim (str_eq t "") [
  | true ↦ is_failed r.status
  | false ↦ is_failed r.status && str_eq r.event_type t
]

unfoldable pub replay_all_failed : Option String → ℕ → Table → ReplayResult × Table
replay_all_failed event_type now t =
    let rows = updated (is_failed_of_type event_type) (replay_row now) t in
    (
      record { replayed = length rows; ids = ids rows },
      update_where (is_failed_of_type event_type) (replay_row now) t,
    )
