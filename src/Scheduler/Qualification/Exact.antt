-- ===== src/Scheduler/Qualification/Exact.antt =====
-- scheduler/qualification.py: what qualifies.
use investing_agents.Prelude.{
  true, false, not, ◌==◌, String, map, any, keep, length, is_empty, Memᴰ, any-Memᴰ, any_of_Memᴰ,
  keep-is_empty, ◌≡◌, arith, ap, sym, ◌∙◌,
}
use mathlib.Core.Logic.{◌↔◌}
use investing_agents.Int.{pos, ltb_ℤ, ◌≤ℤ◌}
use investing_agents.Store.Tables.{ExecutionStore, CommandRow}
use investing_agents.Scheduler.Tables.{
  ScheduleTables, ScheduleRun, MutationCycle, FaultDrill, succeeded,
}
use investing_agents.Scheduler.Config.{SchedulerConfig}
use investing_agents.Scheduler.Qualification.{
  is_clean, count_distinct, is_unresolved, list_commands, missing_drills, failed_drills,
  evaluate_gate_c,
}
use investing_agents.Scheduler.Qualification.Drills.{
  map-is_empty, kept_none, drilled-row, none_missing, unfailed-row, none_failed, keep_all, all_kept,
  kept_of_all,
}

-- A run that succeeded with everything passed.
pub record IsCleanRun (r : ScheduleRun) : Type 0 where
  pub success : r.state ≡ succeeded
  pub finalized : r.finalization_passed ≡ true
  pub nightly : r.nightly_passed ≡ true
  pub single : r.duplicate_orders ≡ pos 0
  pub resolved : r.unresolved_reconciliation ≡ pos 0

pub record IsCleanCycle (k : MutationCycle) : Type 0 where
  pub single : k.duplicate_detected ≡ false
  pub resolved : k.reconciliation_resolved ≡ true
  pub recovered : k.recovery_verified ≡ true

-- What the gate asks for, said of the rows.
pub record IsQualified (t : ScheduleTables) (store : ExecutionStore) (c : SchedulerConfig)
    : Type 0 where
  pub runs : (r : ScheduleRun) → Memᴰ r t.schedule_runs → IsCleanRun r
  pub sessions :
      c.minimum_trading_sessions
      ≤ℤ pos (count_distinct (map (λ (r : ScheduleRun). r.trading_session) t.schedule_runs))
  pub cycles : (k : MutationCycle) → Memᴰ k t.mutation_cycles → IsCleanCycle k
  pub approvals :
      c.minimum_approved_mutation_cycles
      ≤ℤ pos (length (keep (λ (k : MutationCycle). k.manually_approved) t.mutation_cycles))
  pub drilled :
      (name : String)
      → Memᴰ name c.required_fault_drills
      → (d : FaultDrill) × Memᴰ d t.fault_drills × (d.drill_name ≡ name) × (d.passed ≡ true)
  pub unfailed :
      (d : FaultDrill)
      → Memᴰ d t.fault_drills
      → Memᴰ d.drill_name c.required_fault_drills
      → d.passed ≡ true
  pub settled :
      (row : CommandRow) → Memᴰ row store.broker_commands → is_unresolved row.command.state ≡ false

is_clean-IsCleanRun : (r : ScheduleRun) → is_clean r ≡ true → IsCleanRun r
is_clean-IsCleanRun r h = record {
  success = ground (arith, h);
  finalized = ground (arith, h);
  nightly = ground (arith, h);
  single = ground (arith, h);
  resolved = ground (arith, h);
}

IsCleanRun-is_clean : (r : ScheduleRun) → IsCleanRun r → is_clean r ≡ true
IsCleanRun-is_clean r h = ground (arith, h.success, h.finalized, h.nightly, h.single, h.resolved)

-- The nine tests of the gate, each of which blocks.
record Passes (t : ScheduleTables) (store : ExecutionStore) (c : SchedulerConfig) : Type 0 where
  sessions :
      ltb_ℤ
        (pos (
          count_distinct
            (map (λ (r : ScheduleRun). r.trading_session) (keep is_clean t.schedule_runs))))
        c.minimum_trading_sessions
      ≡ false
  clean : (length (keep is_clean t.schedule_runs) == length t.schedule_runs) ≡ true
  approvals :
      ltb_ℤ
        (pos (length (keep (λ (k : MutationCycle). k.manually_approved) t.mutation_cycles)))
        c.minimum_approved_mutation_cycles
      ≡ false
  single : any (λ (k : MutationCycle). k.duplicate_detected) t.mutation_cycles ≡ false
  resolved : any (λ (k : MutationCycle). not k.reconciliation_resolved) t.mutation_cycles ≡ false
  recovered : any (λ (k : MutationCycle). not k.recovery_verified) t.mutation_cycles ≡ false
  drilled : is_empty (missing_drills c.required_fault_drills t.fault_drills) ≡ true
  unfailed : is_empty (failed_drills c.required_fault_drills t.fault_drills) ≡ true
  settled : is_empty (list_commands is_unresolved store) ≡ true

qualified-Passes :
    (t : ScheduleTables) (store : ExecutionStore) (c : SchedulerConfig)
    → (evaluate_gate_c t store c).qualified ≡ true
    → Passes t store c
unfolding evaluate_gate_c
qualified-Passes t store c h = record {
  sessions = ground (arith, h);
  clean = ground (arith, h);
  approvals = ground (arith, h);
  single = ground (arith, h);
  resolved = ground (arith, h);
  recovered = ground (arith, h);
  drilled = ground (arith, h);
  unfailed = ground (arith, h);
  settled = ground (arith, h);
}

Passes-qualified :
    (t : ScheduleTables) (store : ExecutionStore) (c : SchedulerConfig)
    → Passes t store c
    → (evaluate_gate_c t store c).qualified ≡ true
unfolding evaluate_gate_c
Passes-qualified t store c p = ground (
  arith, p.sessions, p.clean, p.approvals, p.single, p.resolved, p.recovered, p.drilled, p.unfailed,
  p.settled,
)

Passes-IsQualified :
    (t : ScheduleTables) (store : ExecutionStore) (c : SchedulerConfig)
    → Passes t store c
    → IsQualified t store c
unfolding list_commands
Passes-IsQualified t store c p =
    let all_clean : length (keep is_clean t.schedule_runs) ≡ length t.schedule_runs =
      ground (arith, p.clean) in
    record {
      runs = λ r m. is_clean-IsCleanRun r (all_kept is_clean r t.schedule_runs all_clean m);
      sessions = ground (arith, p.sessions, keep_all is_clean t.schedule_runs all_clean);
      cycles = λ k m. record {
        single =
            any-Memᴰ (λ (x : MutationCycle). x.duplicate_detected) k t.mutation_cycles p.single m;
        resolved = ground (
          arith,
          any-Memᴰ (λ (x : MutationCycle). not x.reconciliation_resolved) k t.mutation_cycles
              p.resolved m,
        );
        recovered = ground (
          arith,
          any-Memᴰ (λ (x : MutationCycle). not x.recovery_verified) k t.mutation_cycles p.recovered
              m,
        );
      };
      approvals = ground (arith, p.approvals);
      drilled = λ name. drilled-row c.required_fault_drills t.fault_drills name p.drilled;
      unfailed = λ d. unfailed-row c.required_fault_drills t.fault_drills d p.unfailed;
      settled = λ row.
          any-Memᴰ (λ (x : CommandRow). is_unresolved x.command.state) row store.broker_commands
            (kept_none _ store.broker_commands (
              sym (map-is_empty (λ (r : CommandRow). r.command) (keep _ store.broker_commands))
              ∙ p.settled));
    }

IsQualified-Passes :
    (t : ScheduleTables) (store : ExecutionStore) (c : SchedulerConfig)
    → IsQualified t store c
    → Passes t store c
unfolding list_commands
IsQualified-Passes t store c q =
    let all_clean =
      kept_of_all is_clean t.schedule_runs (λ r m. IsCleanRun-is_clean r (q.runs r m)) in
    let unresolved = λ (x : CommandRow). is_unresolved x.command.state in
    record {
      sessions = ground (arith, q.sessions, all_clean);
      clean = ground (arith, all_clean);
      approvals = ground (arith, q.approvals);
      single = any_of_Memᴰ _ t.mutation_cycles (λ k m. (q.cycles k m).single);
      resolved = any_of_Memᴰ _ t.mutation_cycles (λ k m. ap not (q.cycles k m).resolved);
      recovered = any_of_Memᴰ _ t.mutation_cycles (λ k m. ap not (q.cycles k m).recovered);
      drilled = none_missing c.required_fault_drills t.fault_drills q.drilled;
      unfailed = none_failed c.required_fault_drills t.fault_drills q.unfailed;
      settled = ground (
        arith,
        map-is_empty (λ (r : CommandRow). r.command) (keep unresolved store.broker_commands),
        keep-is_empty unresolved store.broker_commands,
        any_of_Memᴰ unresolved store.broker_commands q.settled,
      );
    }

-- The gate qualifies exactly when: each stored run succeeded, with finalization and nightly check
-- passed and no duplicate or unresolved order; the different trading sessions of the runs are at
-- least the configured minimum; each mutation cycle is without duplicate, resolved and verified, and
-- the manually approved ones are at least the minimum; each required fault drill has a row that
-- passed and none that failed; and each stored broker command is reconciled or risk-rejected.
pub evaluate_gate_c_exact :
    (t : ScheduleTables) (store : ExecutionStore) (c : SchedulerConfig)
    → ((evaluate_gate_c t store c).qualified ≡ true) ↔ IsQualified t store c
evaluate_gate_c_exact t store c = (
  λ h. Passes-IsQualified t store c (qualified-Passes t store c h),
  λ q. Passes-qualified t store c (IsQualified-Passes t store c q),
)
