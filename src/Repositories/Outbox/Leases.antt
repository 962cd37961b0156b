-- ===== src/Repositories/Outbox/Leases.antt =====
-- What a dispatcher's lease on an outbox row is worth: `claimDueExecutionOutbox` and the marks.
use exec_loom.Base.{
  ℕ, ◌<◌, ◌≡◌, refl, sym, subst, Bool, true, false, none, map, arith, ◌==◌, ==_iff, Bool-cases, inl,
  inr, All, All-map, String, List,
}
use exec_loom.Database.Table.{
  select, select_one_missed, update_missed, All-everywhere, select-All_both, update, returning,
  order_by-All, All-update, take-All,
}
use exec_loom.Database.Schema.{OutboxRecord, Db}
use exec_loom.Repositories.Outbox.{
  OutboxClaim, is_claimable, in_array, lease, due_records, claim_due_execution_outbox, is_held,
  dispatched, postponed, slice_text, mark_execution_outbox_dispatched, mark_execution_outbox_failed,
}

abbrev pub chosen : OutboxClaim → Db → OutboxRecord → Bool
chosen input db o = in_array (map OutboxRecord.id (due_records input db)) o.id

clash : {b : Bool} → b ≡ false → b ≡ true → ⊥
clash h k = cc

-- A leased row is not claimable while the lease runs.
leased :
    (first second : OutboxClaim) (o : OutboxRecord)
    → second.lease_expired_before < first.now
    → is_claimable second (lease first o) ≡ false
leased first second o runs = ground arith

-- After a claim of due outbox rows, a claim for which that lease has not expired takes none of the
-- rows that the first one took.
pub no_double_claim :
    (first second : OutboxClaim) (db : Db)
    → second.lease_expired_before < first.now
    → All
        (λ o. chosen first db o ≡ false)
        (due_records second (claim_due_execution_outbox first db).1)
unfolding due_records claim_due_execution_outbox
no_double_claim first second db runs =
    let after = update (chosen first db) (lease first) db.outbox in
    let P : OutboxRecord → Type 0 = λ o. is_claimable second o ≡ true → chosen first db o ≡ false in
    let Q : OutboxRecord → Type 0 = λ o. chosen first db o ≡ false in
    let all : All P after =
      All-update (λ o. Unit {0}) P (chosen first db) (lease first) db.outbox
        (λ o m hit h claimable. absurd (clash (leased first second o runs) claimable))
        (λ o m miss h claimable. miss) (All-everywhere (λ o. Unit {0}) db.outbox (λ o. tt)) in
    let picked : All Q (select (is_claimable second) after) =
      All-map (λ o. (is_claimable second o ≡ true) × P o) Q (select (is_claimable second) after)
        (λ o h. h.1 h.0) (select-All_both P (is_claimable second) after all) in
    take-All Q second.limit _
      (order_by-All Q OutboxRecord.available_at _ (order_by-All Q OutboxRecord.created_at _ picked))

module _ (claim : OutboxClaim) (outbox_id other : ℕ) (db : Db)
    (leases : in_array (map OutboxRecord.id (due_records claim db)) outbox_id ≡ true)
    (differs : (claim.dispatcher_id == other) ≡ false) where
  abbrev after : List OutboxRecord
  after = update (chosen claim db) (lease claim) db.outbox

  -- No row is held by the other dispatcher under that id.
  missed : All (λ o. is_held outbox_id other o ≡ false) after
  missed =
      All-update (λ o. Unit {0}) (λ o. is_held outbox_id other o ≡ false) (chosen claim db)
        (lease claim) db.outbox (λ o m hit h. rw differs (ground arith))
        (λ o m miss h. elim (Bool-cases (o.id == outbox_id)) [
          | inr e ↦ rw e refl
          | inl e ↦
              let same : o.id ≡ outbox_id = (==_iff _ _).0 e in
              absurd (
                clash miss (
                  subst (λ z. in_array (map OutboxRecord.id (due_records claim db)) z ≡ true)
                    (sym same) leases))
        ])
        (All-everywhere (λ o. Unit {0}) db.outbox (λ o. tt))

  mark_nothing :
      (f : OutboxRecord → OutboxRecord)
      → (returning (is_held outbox_id other) f after ≡ none)
        × (update (is_held outbox_id other) f after ≡ after)
  mark_nothing f = (
    rw (select_one_missed (is_held outbox_id other) after missed) refl,
    update_missed (is_held outbox_id other) f after missed,
  )

-- Right after a dispatcher's claim, a mark of one of its rows by another dispatcher, as dispatched or as
-- failed, finds nothing and changes nothing.
pub mark_by_other :
    (claim : OutboxClaim) (outbox_id other at now available_at : ℕ) (error : String) (db : Db)
    → in_array (map OutboxRecord.id (due_records claim db)) outbox_id ≡ true
    → (claim.dispatcher_id == other) ≡ false
    → (mark_execution_outbox_dispatched outbox_id other at (claim_due_execution_outbox claim db).1
        ≡ (none, (claim_due_execution_outbox claim db).1))
      × (mark_execution_outbox_failed now outbox_id other available_at error
            (claim_due_execution_outbox claim db).1
          ≡ (none, (claim_due_execution_outbox claim db).1))
unfolding claim_due_execution_outbox mark_execution_outbox_dispatched mark_execution_outbox_failed
mark_by_other claim outbox_id other at now available_at error db leases differs =
    let as_dispatched = mark_nothing claim outbox_id other db leases differs (dispatched at) in
    let as_failed =
      mark_nothing claim outbox_id other db leases differs
        (postponed now available_at (slice_text 2000 error)) in
    (rw (as_dispatched.0, as_dispatched.1) refl, rw (as_failed.0, as_failed.1) refl)
