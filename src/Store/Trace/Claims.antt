-- ===== src/Store/Trace/Claims.antt =====
-- execution/store.py: what the send claims of a run of the ledger have in common.
use investing_agents.Prelude.{
  ◌≡◌, refl, inl, inr, true, false, some, ◌==◌, arith, Bool-cases, ==→eq, ==-refl, if◌then◌else◌,
  ◌∙◌, subst, ap,
}
use investing_agents.Result.{ok}
use investing_agents.Table.{find, find-cons}
use investing_agents.Domain.Types.{Uuid, Digest, is_submit_order}
use investing_agents.Domain.Evidence.{OrderIntent, RiskDecision}
use investing_agents.Domain.Command.{BrokerCommand, CommandAttempt, same_command, same_identity}
use investing_agents.Store.Tables.{
  ExecutionStore, CommandRow, Binding, command_key, binding_key, find_command, find_binding,
}
use investing_agents.Store.Checks.{bound_risk}
use investing_agents.Store.Submission.{claim_submission, check_claim, with_claim}
use investing_agents.Store.Shapes.Claim.{claim_submission-Granted}
use investing_agents.Store.Effect.{
  Effect, unchanged, inserted, opened, moved, Moved, Inserted, Bound, is_claimed,
}
use investing_agents.Store.Effect.Operations.{claim_submission-Effect}
use investing_agents.Store.Effect.Rows.{find_changed}
use investing_agents.Store.Trace.Progress.{moved-found, moved-origin}

-- The command has a claimed authorization.
abbrev pub IsClaimed : Uuid → ExecutionStore → Type 0
IsClaimed j s = (b : Binding) × (find_binding s j ≡ some b) × (is_claimed b ≡ true)

-- A command with that intent is stored under `j`.
abbrev pub IsStored : Uuid → Digest → ExecutionStore → Type 0
IsStored j h s = (r : CommandRow) × (find_command s j ≡ some r) × (r.command.intent_hash ≡ h)

Moved-IsClaimed :
    (row : CommandRow) (c' : BrokerCommand) (s s' : ExecutionStore) (j : Uuid)
    → Moved row c' s s'
    → IsClaimed j s
    → IsClaimed j s'
Moved-IsClaimed row c' s s' j m (b, there, claimed) =
    let (b', there', keeps) = m.kept.forth j b there in (b', there', keeps claimed)

Bound-IsClaimed :
    (c : BrokerCommand) (s s' : ExecutionStore) (j : Uuid)
    → Bound c s s'
    → IsClaimed j s
    → IsClaimed j s'
Bound-IsClaimed c s s' j new (b, there, claimed) = elim (Bool-cases (c.command_id == j)) [
  | inl here ↦ absurd (ground (arith, there, new.fresh, ap (find_binding s) (==→eq _ _ here)))
  | inr off ↦ (
    b,
    ground (
      arith,
      there,
      ap (find binding_key j) new.bindings,
      find-cons binding_key j new.binding s.command_authorizations,
      new.binding_command,
    ),
    claimed,
  )
]

pub Effect-IsClaimed :
    (j : Uuid) (s s' : ExecutionStore) → Effect s s' → IsClaimed j s → IsClaimed j s'
Effect-IsClaimed j s s' (unchanged _ _ q) (b, there, claimed) = (b, rw q there, claimed)
Effect-IsClaimed j s s' (inserted c new q) (b, there, claimed) = (b, rw q there, claimed)
Effect-IsClaimed j s s' (moved row c' m) h = Moved-IsClaimed row c' s s' j m h
Effect-IsClaimed j s s' (opened c row c' s1 s2 _ new q bound m) (b, there, claimed) =
    Moved-IsClaimed row c' s2 s' j m (Bound-IsClaimed c s1 s2 j bound (b, rw q there, claimed))

Inserted-IsStored :
    (c : BrokerCommand) (s s' : ExecutionStore) (j : Uuid) (h : Digest)
    → Inserted c s s'
    → IsStored j h s
    → IsStored j h s'
Inserted-IsStored c s s' j h new (r, there, same) = elim (Bool-cases (c.command_id == j)) [
  | inl here ↦ absurd (ground (arith, there, new.fresh, ap (find_command s) (==→eq _ _ here)))
  | inr off ↦ (r, rw (new.commands, find-cons command_key j _ s.broker_commands, off) there, same)
]

Moved-IsStored :
    (row : CommandRow) (c' : BrokerCommand) (s s' : ExecutionStore) (j : Uuid) (h : Digest)
    → Moved row c' s s'
    → IsStored j h s
    → IsStored j h s'
Moved-IsStored row c' s s' j h m (r, there, same) =
    let (r', there') = moved-found row c' s s' m j r there in
    let (r0, origin, (intent, _)) = moved-origin row c' s s' m j r' there' in
    (r', there', ground (arith, intent, same, origin, there))

pub Effect-IsStored :
    (j : Uuid) (h : Digest) (s s' : ExecutionStore) → Effect s s' → IsStored j h s → IsStored j h s'
Effect-IsStored j h s s' (unchanged p _ _) (r, there, same) = (r, rw p there, same)
Effect-IsStored j h s s' (inserted c new _) stored = Inserted-IsStored c s s' j h new stored
Effect-IsStored j h s s' (moved row c' m) stored = Moved-IsStored row c' s s' j h m stored
Effect-IsStored j h s s' (opened c row c' s1 s2 _ new _ bound m) stored =
    let (r, there, same) = Inserted-IsStored c s s1 j h new stored in
    Moved-IsStored row c' s2 s' j h m (r, rw bound.commands there, same)

same_identity-ids :
    (a b : BrokerCommand)
    → same_identity a b ≡ true
    → (a.command_id ≡ b.command_id) × (a.intent_hash ≡ b.intent_hash)
unfolding same_identity
same_identity-ids a b h = ground arith

pub same_command-ids :
    (a b : BrokerCommand)
    → same_command a b ≡ true
    → (a.command_id ≡ b.command_id) × (a.intent_hash ≡ b.intent_hash)
unfolding same_command
same_command-ids a b h = same_identity-ids a b (ground arith)

pub bound_risk-binding :
    (c : BrokerCommand) (s : ExecutionStore) (b : Binding) (d : RiskDecision)
    → bound_risk c s ≡ ok (b, d)
    → find_binding s c.command_id ≡ some b
unfolding bound_risk
bound_risk-binding c s b d h = ground arith

pub check_claim-unclaimed :
    (c : BrokerCommand) (b : Binding) (t : CommandAttempt)
    → check_claim c b t ≡ ok tt
    → (is_claimed b ≡ false) × (is_submit_order c.operation ≡ true)
unfolding check_claim
check_claim-unclaimed c b t h = ground arith

-- No claim is granted on a command that is claimed.
pub claimed-refuses :
    (c : BrokerCommand) (i : OrderIntent) (t : CommandAttempt) (s : ExecutionStore)
    (c' : BrokerCommand)
    → IsClaimed c.command_id s
    → (claim_submission c i t s).0 ≡ ok c'
    → ⊥
claimed-refuses c i t s c' (b, there, claimed) h =
    let g = claim_submission-Granted c i t s c' (claim_submission c i t s).1 (ground arith) in
    let found = bound_risk-binding g.row.command s g.binding g.decision g.bound in
    let ids = same_command-ids g.row.command c g.snapshot in
    let free = (check_claim-unclaimed g.row.command g.binding t g.checked).0 in
    ground (arith, there, claimed, free, found, ap (find_binding s) ids.0)

pub granted-claims :
    (c : BrokerCommand) (i : OrderIntent) (t : CommandAttempt) (s : ExecutionStore)
    (c' : BrokerCommand)
    → (claim_submission c i t s).0 ≡ ok c'
    → IsClaimed c.command_id (claim_submission c i t s).1
      × IsStored c.command_id c.intent_hash (claim_submission c i t s).1
granted-claims c i t s c' h =
    let s' = (claim_submission c i t s).1 in
    let g = claim_submission-Granted c i t s c' s' (ground arith) in
    let ids = same_command-ids g.row.command c g.snapshot in
    let bound = bound_risk-binding g.row.command s g.binding g.decision g.bound in
    let change = with_claim t.attempted_at in
    let changed =
      find_changed g.row change s (λ b. refl) g.row.command.command_id g.binding bound in
    let here = ==-refl g.row.command.command_id in
    let at_row : find_binding s' g.row.command.command_id ≡ some (change g.binding) =
      rw g.advanced.bindings
        (changed ∙ ap (λ x. some (if x then change g.binding else g.binding)) here) in
    (
      (
        change g.binding,
        subst (λ k. find_binding s' k ≡ some (change g.binding)) ids.0 at_row,
        refl,
      ),
      Effect-IsStored c.command_id c.intent_hash s s'
          (claim_submission-Effect c i t s c' s' (ground arith))
          (g.row, subst (λ k. find_command s k ≡ some g.row) ids.0 g.found, ids.1),
    )
