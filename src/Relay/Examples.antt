-- ===== src/Relay/Examples.antt =====
-- Runs of the relay on a small table, and the relay's theorems at it.
use contract_driven_messagin.Common.{
  ◌+◌, ◌≤◌, ◌<◌, ◌≡◌, refl, ◌⊎◌, inl, inr, true, false, List, [], ◌∷◌, map, Thrown, primitive,
  gives, fails, arith, final_state, All, In, length,
}
use contract_driven_messagin.AmqpClient.{disconnected, get_channel}
use contract_driven_messagin.Outbox.{pending}
use contract_driven_messagin.Outbox.Select.{select, sort_by, insert_by}
use contract_driven_messagin.Outbox.Update.{update_where, updated}
use contract_driven_messagin.Relay.Rows.{
  ClaimedRow, to_claimed, due, is_claimable, lock_row, batch_ids, claim_batch, mark_sent,
  mark_failed_attempt, reap_stale_locks,
}
use contract_driven_messagin.Relay.{RelayState, message_of, publish_one}
use contract_driven_messagin.Relay.Claim.{IsClaimOf, claim_batch-IsClaimOf, claim_batch_complete}
use contract_driven_messagin.Relay.Races.{claim_batch_again}
use contract_driven_messagin.Relay.History.{TableOp, claims, reaps, replays, table_run}
use contract_driven_messagin.Relay.Fencing.{claim_batch_fences}
use contract_driven_messagin.Relay.Publish.{sent_count, publish_one_sent, publish_one_fenced}
use contract_driven_messagin.Relay.Budget.{fail_each, HasAttempts, fail_each-HasAttempts}
use contract_driven_messagin.Relay.Samples.{
  first_row, second_row, two_rows, nothing_held, two_rows_unique, wire, all_well,
}

claims_earliest : map (λ c. c.id) (claim_batch nothing_held "a" 1 50 two_rows).0 ≡ 2 ∷ []
unfolding claim_batch batch_ids select sort_by insert_by updated
claims_earliest = refl

claim_batch-IsClaimOf_example :
    All (IsClaimOf nothing_held "a" 1 50 two_rows) (claim_batch nothing_held "a" 1 50 two_rows).0
    × (length (claim_batch nothing_held "a" 1 50 two_rows).0 ≤ 1)
claim_batch-IsClaimOf_example = claim_batch-IsClaimOf nothing_held "a" 1 50 two_rows two_rows_unique

claim_batch_complete_example :
    In (to_claimed (lock_row "a" 50 first_row)) (claim_batch nothing_held "a" 1 50 two_rows).0
    ⊎ ((length (claim_batch nothing_held "a" 1 50 two_rows).0 ≡ 1)
        × All (λ r. due r ≤ 20) (select due (is_claimable nothing_held 50) 1 two_rows))
claim_batch_complete_example =
    claim_batch_complete nothing_held "a" 1 50 two_rows first_row two_rows_unique (inl refl) refl

claim_batch_again_example :
    (map
        (λ c. c.id)
        (claim_batch nothing_held "b" 25 50 (claim_batch nothing_held "a" 25 50 two_rows).1).0
      ≡ map (λ c. c.id) (claim_batch nothing_held "a" 25 50 two_rows).0)
    × (batch_ids nothing_held 25 50 (reap_stale_locks 60000 50 two_rows)
        ≡ batch_ids nothing_held 25 50 two_rows)
claim_batch_again_example = claim_batch_again nothing_held "a" "b" 25 60000 50 two_rows

abbrev reclaimed : ClaimedRow
reclaimed = to_claimed (lock_row "b" 50 second_row)

abbrev stale_claim : ClaimedRow
stale_claim = to_claimed second_row

claimed_second : In reclaimed (claim_batch nothing_held "b" 25 50 two_rows).0
unfolding claim_batch batch_ids select sort_by insert_by updated
claimed_second = inr (inl refl)

abbrev later_ops : List TableOp
later_ops = reaps 60000 70000 ∷ claims nothing_held "c" 25 70000 ∷ replays 2 70001 ∷ []

claim_batch_fences_example :
    let t' = table_run (claim_batch nothing_held "b" 25 50 two_rows).1 later_ops in
    (mark_sent 2 3 80 t' ≡ (false, t'))
    × (mark_failed_attempt stale_claim (primitive "late") 80 t' ≡ (false, t'))
claim_batch_fences_example =
    claim_batch_fences nothing_held "b" 25 50 80 two_rows later_ops reclaimed stale_claim
      (primitive "late") two_rows_unique claimed_second refl (omega arith)

abbrev one_claimed : RelayState
one_claimed = record {
  table = lock_row "b" 50 second_row ∷ [];
  client = disconnected;
  handed = [];
  fenced = 0;
}

sends_one :
    sent_count one_claimed.table
    < sent_count (final_state (publish_one wire all_well reclaimed one_claimed)).table
unfolding publish_one get_channel mark_sent update_where updated
sends_one = omega arith

publish_one_sent_example :
    (all_well.published ≡ gives true)
    × (all_well.confirmed ≡ gives tt)
    × (all_well.sent_query ≡ gives tt)
    × ((final_state (publish_one wire all_well reclaimed one_claimed)).handed
        ≡ message_of wire reclaimed ∷ [])
publish_one_sent_example = publish_one_sent wire all_well reclaimed one_claimed sends_one

publish_one_fenced_example :
    ((final_state (publish_one wire all_well stale_claim one_claimed)).table ≡ one_claimed.table)
    × (((final_state (publish_one wire all_well stale_claim one_claimed)).fenced ≡ 0 + 1)
        ⊎ ((e : Thrown) × (all_well.failed_query ≡ fails e)))
publish_one_fenced_example =
    publish_one_fenced wire all_well stale_claim one_claimed
      (record { present = refl; ahead = ((λ _. omega arith), tt) })

fail_each-HasAttempts_example :
    HasAttempts 2 5 pending
      (fail_each ((primitive "down", 50) ∷ (primitive "down", 60) ∷ []) (second_row ∷ []))
fail_each-HasAttempts_example =
    fail_each-HasAttempts ((primitive "down", 50) ∷ (primitive "down", 60) ∷ []) second_row refl
      (omega arith) (omega arith)
