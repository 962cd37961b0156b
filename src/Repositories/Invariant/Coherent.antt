-- ===== src/Repositories/Invariant/Coherent.antt =====
-- Executions and step runs after a change of one of each.
use exec_loom.Base.{
  ℕ, ◌+◌, ◌<◌, ◌≡◌, sym, subst, Bool, true, false, ◌&&◌, some, List, arith, ◌==◌, ==_iff, bit,
  and_true, Bool-cases, inl, inr, All,
}
use exec_loom.StateMachine.{ExecutionStatus}
use exec_loom.Database.Table.{
  select_one, select_one-Row, update, count, count-update, has_key, IsKeyed-Row, IsKeyed-update,
  Row, Row-All, All-update, All-update_same,
}
use exec_loom.Database.Schema.{Execution, StepRun}
use exec_loom.Repositories.Executions.{has_execution_status, is_live, is_active}
use exec_loom.Repositories.Executions.Cancel.{active_of}
use exec_loom.Repositories.Invariant.{running_of, is_settled, IsCoherent, nothing}

-- A step run of a live execution changes its status, and the execution with it: the rows are found by
-- their keys under conditions that they meet.
module _ {n : ℕ} {es : List Execution} {ss : List StepRun} (v : IsCoherent n nothing es ss)
    {e : Execution} {s : StepRun} (found : select_one (has_key Execution.id e.id) es ≡ some e)
    (row : Row s ss) (mine : s.execution_id ≡ e.id) (live : is_live e.status ≡ true)
    (active : is_active s.status ≡ true) (c : StepRun → Bool) (f : StepRun → StepRun)
    (d : Execution → Bool) (g : Execution → Execution) (met : c s ≡ true) (met' : d e ≡ true)
    (f_id : (r : StepRun) → (f r).id ≡ r.id)
    (f_execution : (r : StepRun) → (f r).execution_id ≡ r.execution_id)
    (f_settled : (r : StepRun) → is_settled (f r).status ≡ true)
    (g_id : (r : Execution) → (g r).id ≡ r.id)
    (g_begun : has_execution_status ExecutionStatus.queued (g e) ≡ false) where
  abbrev moved_steps : List StepRun
  moved_steps = update (λ r. has_key StepRun.id s.id r && c r) f ss

  abbrev moved_executions : List Execution
  moved_executions = update (λ r. has_key Execution.id e.id r && d r) g es

  counted : (q : StepRun → Bool) → count q moved_steps + bit (q s) ≡ count q ss + bit (q (f s))
  counted q =
      count-update StepRun.id s.id c f q ss v.steps_keyed
        (IsKeyed-Row StepRun.id ss v.steps_keyed row) met

  the_execution : (r : Execution) → Row r es → Execution.id r ≡ e.id → r ≡ e
  the_execution r m eq = ground (arith, IsKeyed-Row Execution.id es v.executions_keyed m)

  -- What holds of every execution afterwards, if it holds of the changed one and follows at the others.
  module _ (P Q : Execution → Type 0) (at_it : Q (g e))
      (elsewhere : (r : Execution) → (r.id == e.id) ≡ false → P r → Q r) where
    All-moved : All P es → All Q moved_executions
    All-moved =
        All-update P Q (λ r. has_key Execution.id e.id r && d r) g es
          (λ r m hit h.
            subst (λ z. Q (g z)) (sym (the_execution r m ((==_iff _ _).0 (and_true _ _ hit).0)))
              at_it)
          (λ r m miss h. elim (Bool-cases (r.id == e.id)) [
            | inr other ↦ elsewhere r other h
            | inl same ↦
                let eq : r ≡ e = the_execution r m ((==_iff _ _).0 same) in
                let hit : d r ≡ true = rw eq met' in absurd (ground arith)
          ])

  one_before : count (active_of e.id) ss ≡ 1
  one_before =
      let h : count (active_of e.id) ss + 0 ≡ bit (is_live e.status) =
        Row-All
          (λ r. count (active_of (Execution.id r)) ss + 0 ≡ bit (is_live (Execution.status r))) es
          v.one_active (select_one-Row _ es found) in
      ground arith

  active_moved :
      (owed : ℕ → ℕ)
      → bit (is_active (f s).status) + owed e.id ≡ bit (is_live (g e).status)
      → ((x : ℕ) → (x == e.id) ≡ false → owed x ≡ 0)
      → All
          (λ r.
            count (active_of (Execution.id r)) moved_steps + owed (Execution.id r)
            ≡ bit (is_live (Execution.status r)))
          moved_executions
  active_moved owed balance others =
      All-moved (λ r. count (active_of r.id) ss + 0 ≡ bit (is_live r.status))
        (λ r. count (active_of r.id) moved_steps + owed r.id ≡ bit (is_live r.status))
        (rw (g_id e) (ground (arith, one_before, counted (active_of e.id), f_execution s, balance)))
        (λ r other h. ground (arith, others r.id other, counted (active_of r.id), f_execution s))
        v.one_active

  not_begun_moved :
      All
        (λ r.
          has_execution_status ExecutionStatus.queued r ≡ true
          → count (running_of (Execution.id r)) moved_steps ≡ 0)
        moved_executions
  not_begun_moved =
      All-moved
        (λ r. has_execution_status ExecutionStatus.queued r ≡ true → count (running_of r.id) ss ≡ 0)
        (λ r.
          has_execution_status ExecutionStatus.queued r ≡ true
          → count (running_of r.id) moved_steps ≡ 0)
        (λ q. cc) (λ r other h q. ground (arith, h q, counted (running_of r.id), f_execution s))
        v.not_begun

  pub move-IsCoherent :
      (owed : ℕ → ℕ)
      → bit (is_active (f s).status) + owed e.id ≡ bit (is_live (g e).status)
      → ((x : ℕ) → (x == e.id) ≡ false → owed x ≡ 0)
      → IsCoherent n owed moved_executions moved_steps
  move-IsCoherent owed balance others = record {
    executions_keyed = IsKeyed-update Execution.id _ g es g_id v.executions_keyed;
    steps_keyed = IsKeyed-update StepRun.id _ f ss f_id v.steps_keyed;
    executions_below =
        All-update_same (λ r. Execution.id r < n) _ g es (λ r h. rw (g_id r) h) v.executions_below;
    steps_below =
        All-update_same (λ r. (StepRun.id r < n) × (StepRun.execution_id r < n)) _ f ss
          (λ r h. rw (f_id r, f_execution r) h) v.steps_below;
    settled =
        All-update_same (λ r. is_settled (StepRun.status r) ≡ true) _ f ss (λ r h. f_settled r)
          v.settled;
    one_active = active_moved owed balance others;
    not_begun = not_begun_moved;
  }
