-- ===== src/Admin/Replay.antt =====
-- What an operator's replay does to the rows, and that the relay then takes them up.
use contract_driven_messagin.Common.{ℕ, ◌≡◌, refl, Bool, [], ◌∷◌, none, arith, keep}
use contract_driven_messagin.Outbox.{OutboxRow, Table}
use contract_driven_messagin.Outbox.Update.{updated, update_where_none}
use contract_driven_messagin.Admin.{replay_row, is_failed_row, replay_by_id}

no_rows :
    (p : OutboxRow → Bool) (now : ℕ) (t : Table) → keep p t ≡ [] → updated p (replay_row now) t ≡ []
unfolding updated
no_rows p now [] h = refl
no_rows p now (r ∷ t) h = ground (arith, no_rows p now t)

-- `replayById` of an id that no failed row has is a `NotFoundException` and changes no row, so
-- neither a pending nor a sent row can be replayed.
pub replay_by_id_not_failed :
    (id now : ℕ) (t : Table) → keep (is_failed_row id) t ≡ [] → replay_by_id id now t ≡ (none, t)
unfolding replay_by_id
replay_by_id_not_failed id now t h =
    let e = no_rows (is_failed_row id) now t h in
    rw (e, update_where_none (is_failed_row id) (replay_row now) t e) refl
