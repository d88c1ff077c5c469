-- ===== src/Store/Trace/Consistency.antt =====
-- execution/store.py: what holds of commands and authorizations in every state of the ledger.
use investing_agents.Prelude.{
  ◌≡◌, inl, inr, true, false, some, ◌==◌, arith, Bool-cases, ==→eq, ==-refl, if◌then◌else◌, any,
  sym, ◌∙◌, subst, ap,
}
use investing_agents.Result.{ok}
use investing_agents.Table.{find, find-cons, any-find}
use investing_agents.Domain.Types.{Uuid, is_submit_order}
use investing_agents.Domain.Command.{BrokerCommand}
use investing_agents.Store.Tables.{
  ExecutionStore, CommandRow, Binding, command_key, binding_key, find_command, find_binding,
  is_submission_of,
}
use investing_agents.Store.Commands.{check_new_command}
use investing_agents.Store.Effect.{
  Effect, unchanged, inserted, opened, moved, Moved, Inserted, Bound, is_claimed,
}
use investing_agents.Store.Trace.Progress.{moved-found, moved-origin}

-- Every authorization is for a stored command; only submission commands are claimed; and of one
-- intent at most one submission command is authorized.
pub record IsConsistent (s : ExecutionStore) : Type 0 where
  pub bound_known :
      (j : Uuid) (b : Binding)
      → find_binding s j ≡ some b
      → (r : CommandRow) × (find_command s j ≡ some r)
  pub claimed_submits :
      (j : Uuid) (b : Binding) (r : CommandRow)
      → find_binding s j ≡ some b
      → find_command s j ≡ some r
      → is_claimed b ≡ true
      → is_submit_order r.command.operation ≡ true
  pub one_submission :
      (i j : Uuid) (a b : Binding) (p q : CommandRow)
      → find_binding s i ≡ some a
      → find_binding s j ≡ some b
      → find_command s i ≡ some p
      → find_command s j ≡ some q
      → is_submit_order p.command.operation ≡ true
      → is_submit_order q.command.operation ≡ true
      → p.command.intent_hash ≡ q.command.intent_hash
      → i ≡ j

unchanged-IsConsistent :
    (s s' : ExecutionStore)
    → s'.broker_commands ≡ s.broker_commands
    → s'.command_authorizations ≡ s.command_authorizations
    → IsConsistent s
    → IsConsistent s'
unchanged-IsConsistent s s' p q h = record {
  bound_known = λ j b e. rw p (h.bound_known j b (rw q at e));
  claimed_submits = λ j b r e f. h.claimed_submits j b r (rw q at e) (rw p at f);
  one_submission = λ i j a b x y e f g k.
      h.one_submission i j a b x y (rw q at e) (rw q at f) (rw p at g) (rw p at k);
}

-- A new command is not authorized yet, so that it changes nothing.
Inserted-IsConsistent :
    (c : BrokerCommand) (s s' : ExecutionStore)
    → Inserted c s s'
    → s'.command_authorizations ≡ s.command_authorizations
    → IsConsistent s
    → IsConsistent s'
Inserted-IsConsistent c s s' new same h = record {
  bound_known = λ j b e. known j b (rw same at e);
  claimed_submits =
      λ j b r e f. h.claimed_submits j b r (rw same at e) (older j b r (rw same at e) f);
  one_submission = λ i j a b p q e f g k.
      h.one_submission i j a b p q (rw same at e) (rw same at f) (older i a p (rw same at e) g)
        (older j b q (rw same at f) k);
}
  where
    at_new :
        (j : Uuid)
        → find_command s' j ≡ (
            if c.command_id == j
            then some (record { command = c; revision = 0 })
            else find_command s j)
    at_new j = rw new.commands (find-cons command_key j _ s.broker_commands)

    apart : (j : Uuid) (b : Binding) → find_binding s j ≡ some b → (c.command_id == j) ≡ false
    apart j b e =
        let (r, known_there) = h.bound_known j b e in
        elim (Bool-cases (c.command_id == j)) [
          | inl here ↦
              let same_id = ==→eq _ _ here in
              absurd (ground (arith, known_there, ap (find_command s) same_id, new.fresh))
          | inr there ↦ there
        ]

    known :
        (j : Uuid) (b : Binding)
        → find_binding s j ≡ some b
        → (r : CommandRow) × (find_command s' j ≡ some r)
    known j b e = let (r, there) = h.bound_known j b e in (r, rw (at_new j, apart j b e) there)

    older :
        (j : Uuid) (b : Binding) (r : CommandRow)
        → find_binding s j ≡ some b
        → find_command s' j ≡ some r
        → find_command s j ≡ some r
    older j b r e f = ground (arith, at_new j, apart j b e)

Moved-IsConsistent :
    (row : CommandRow) (c' : BrokerCommand) (s s' : ExecutionStore)
    → Moved row c' s s'
    → IsConsistent s
    → IsConsistent s'
Moved-IsConsistent row c' s s' m h = record {
  bound_known = λ j b e.
      let (b0, there, _) = m.kept.back j b e in
      let (r, known) = h.bound_known j b0 there in moved-found row c' s s' m j r known;
  claimed_submits = λ j b r e f claimed.
      let (b0, there, claim) = m.kept.back j b e in
      let (r0, re, (_, operation)) = moved-origin row c' s s' m j r f in
      subst (λ o. is_submit_order o ≡ true) (sym operation)
        (elim claim [
          | inl kept ↦ h.claimed_submits j b0 r0 there re (kept claimed)
          | inr (here, submits) ↦
              let same : r0 ≡ row = ground (arith, re, m.found, ap (find_command s) here) in
              subst (λ (r : CommandRow). is_submit_order r.command.operation ≡ true) (sym same)
                submits
        ]);
  one_submission = λ i j a b p q e f g k sp sq same.
      let (a0, ae, _) = m.kept.back i a e in
      let (b0, be, _) = m.kept.back j b f in
      let (p0, pe, (pi, po)) = moved-origin row c' s s' m i p g in
      let (q0, qe, (qi, qo)) = moved-origin row c' s s' m j q k in
      h.one_submission i j a0 b0 p0 q0 ae be pe qe (subst (λ o. is_submit_order o ≡ true) po sp)
        (subst (λ o. is_submit_order o ≡ true) qo sq) (sym pi ∙ same ∙ qi);
}

-- A new authorization is for the intent's only submission command, and it is unclaimed.
Bound-IsConsistent :
    (c : BrokerCommand) (s s' : ExecutionStore)
    → Bound c s s'
    → find_command s c.command_id ≡ some (record { command = c; revision = 0 })
    → ((j : Uuid) (r : CommandRow)
        → (c.command_id == j) ≡ false
        → find_command s j ≡ some r
        → is_submit_order c.operation ≡ true
        → is_submission_of c.intent_hash r ≡ false)
    → IsConsistent s
    → IsConsistent s'
Bound-IsConsistent c s s' new stored alone h = record {
  bound_known = λ j b e. rw new.commands (known j b e);
  claimed_submits = λ j b r e f.
      let f' = rw new.commands at f in
      elim (Bool-cases (c.command_id == j)) [
        | inl here ↦ λ claimed. absurd (ground (arith, at_binding j, new.unclaimed))
        | inr there ↦ h.claimed_submits j b r (older j b e there) f'
      ];
  one_submission = λ i j a b p q e f g k sp sq same.
      let g' = rw new.commands at g in
      let k' = rw new.commands at k in
      elim (Bool-cases (c.command_id == i)) [
        | inl at_i ↦ elim (Bool-cases (c.command_id == j)) [
          | inl at_j ↦ sym (==→eq _ _ at_i) ∙ ==→eq _ _ at_j
          | inr off_j ↦ absurd (clash i j p q at_i off_j g' k' sp sq same)
        ]
        | inr off_i ↦ elim (Bool-cases (c.command_id == j)) [
          | inl at_j ↦ absurd (clash j i q p at_j off_i k' g' sq sp (sym same))
          | inr off_j ↦
              h.one_submission i j a b p q (older i a e off_i) (older j b f off_j) g' k' sp sq same
        ]
      ];
}
  where
    at_binding :
        (j : Uuid)
        → find_binding s' j ≡ (if c.command_id == j then some new.binding else find_binding s j)
    at_binding j = rw new.bindings (
        find-cons binding_key j new.binding s.command_authorizations
        ∙ ap (λ k. if k == j then some new.binding else find_binding s j) new.binding_command)

    older :
        (j : Uuid) (b : Binding)
        → find_binding s' j ≡ some b
        → (c.command_id == j) ≡ false
        → find_binding s j ≡ some b
    older j b e off = ground (arith, at_binding j)

    known :
        (j : Uuid) (b : Binding)
        → find_binding s' j ≡ some b
        → (r : CommandRow) × (find_command s j ≡ some r)
    known j b e = elim (Bool-cases (c.command_id == j)) [
      | inl here ↦ (
        record { command = c; revision = 0 },
        subst (λ k. find_command s k ≡ some (record { command = c; revision = 0 })) (==→eq _ _ here)
            stored,
      )
      | inr off ↦ h.bound_known j b (older j b e off)
    ]

    clash :
        (i j : Uuid) (p q : CommandRow)
        → (c.command_id == i) ≡ true
        → (c.command_id == j) ≡ false
        → find_command s i ≡ some p
        → find_command s j ≡ some q
        → is_submit_order p.command.operation ≡ true
        → is_submit_order q.command.operation ≡ true
        → p.command.intent_hash ≡ q.command.intent_hash
        → ⊥
    clash i j p q at_i off_j g k sp sq same =
        let here : p ≡ record { command = c; revision = 0 } =
          ground (arith, g, stored, ap (find_command s) (==→eq _ _ at_i)) in
        let submits : is_submit_order c.operation ≡ true =
          subst (λ (r : CommandRow). is_submit_order r.command.operation ≡ true) here sp in
        let its_intent : q.command.intent_hash ≡ c.intent_hash =
          sym same ∙ ap (λ (r : CommandRow). r.command.intent_hash) here in
        ground (arith, alone j q off_j k submits)

alone_before :
    (c : BrokerCommand) (s s1 : ExecutionStore)
    → check_new_command c s ≡ ok tt
    → Inserted c s s1
    → (j : Uuid) (r : CommandRow) → (c.command_id == j) ≡ false
    → find_command s1 j ≡ some r
    → is_submit_order c.operation ≡ true
    → is_submission_of c.intent_hash r ≡ false
unfolding check_new_command
alone_before c s s1 checked new j r off there submits =
    let none_stored : any (is_submission_of c.intent_hash) s.broker_commands ≡ false =
      ground arith in
    let at_j = find-cons command_key j (record { command = c; revision = 0 }) s.broker_commands in
    let older : find_command s j ≡ some r =
      ground (arith, at_j, ap (find command_key j) new.commands) in
    any-find command_key (is_submission_of c.intent_hash) j s.broker_commands r older none_stored

stored_after :
    (c : BrokerCommand) (s s1 : ExecutionStore)
    → Inserted c s s1
    → find_command s1 c.command_id ≡ some (record { command = c; revision = 0 })
stored_after c s s1 new =
    rw (new.commands, find-cons command_key c.command_id _ s.broker_commands, ==-refl c.command_id)

pub Effect-IsConsistent : (s s' : ExecutionStore) → Effect s s' → IsConsistent s → IsConsistent s'
Effect-IsConsistent s s' (unchanged p _ q) h = unchanged-IsConsistent s s' p q h
Effect-IsConsistent s s' (inserted c new same) h = Inserted-IsConsistent c s s' new same h
Effect-IsConsistent s s' (moved row c' m) h = Moved-IsConsistent row c' s s' m h
Effect-IsConsistent s s' (opened c row c' s1 s2 checked new same bound m) h =
    Moved-IsConsistent row c' s2 s' m (
      Bound-IsConsistent c s1 s2 bound (stored_after c s s1 new) (alone_before c s s1 checked new)
        (Inserted-IsConsistent c s s1 new same h))
