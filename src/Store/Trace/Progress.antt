-- ===== src/Store/Trace/Progress.antt =====
-- execution/store.py: the commands that are found before and after one command moves.
use investing_agents.Prelude.{
  ◌+◌, ◌≡◌, refl, inl, inr, some, ◌==◌, arith, Bool-cases, ==→eq, if◌then◌else◌, sym, subst,
}
use investing_agents.Table.{find-update}
use investing_agents.Domain.Types.{Uuid}
use investing_agents.Domain.Command.{BrokerCommand}
use investing_agents.Store.Tables.{ExecutionStore, CommandRow, command_key, find_command}
use investing_agents.Store.Commands.{replaced}
use investing_agents.Store.Effect.{Moved}

-- The command of `row`, or the same command further on.
abbrev pub SameOrder : CommandRow → CommandRow → Type 0
SameOrder r r' =
    (r'.command.intent_hash ≡ r.command.intent_hash) × (r'.command.operation ≡ r.command.operation)

module _ (row : CommandRow) (c' : BrokerCommand) (s s' : ExecutionStore)
    (m : Moved row c' s s') where
  pub moved-find :
      (j : Uuid)
      → find_command s' j ≡ (
          if j == row.command.command_id
          then some (record { command = c'; revision = row.revision + 1 })
          else find_command s j)
  moved-find j =
      let updated =
        find-update command_key j row.command.command_id (replaced c' (row.revision + 1))
          m.before.broker_commands (λ r e. m.keeps.0) in
      rw (m.advanced.commands, updated, m.before_commands) (rw m.found refl)

  pub moved-found :
      (j : Uuid) (r : CommandRow)
      → find_command s j ≡ some r
      → (r' : CommandRow) × (find_command s' j ≡ some r')
  moved-found j r h = elim (Bool-cases (j == row.command.command_id)) [
    | inl here ↦ (record { command = c'; revision = row.revision + 1 }, rw (moved-find j, here))
    | inr there ↦ (r, rw (moved-find j, there, h))
  ]

  pub moved-origin :
      (j : Uuid) (r' : CommandRow)
      → find_command s' j ≡ some r'
      → (r : CommandRow) × (find_command s j ≡ some r) × SameOrder r r'
  moved-origin j r' h = elim (Bool-cases (j == row.command.command_id)) [
    | inl here ↦ (
      row,
      subst (λ k. find_command s k ≡ some row) (sym (==→eq _ _ here)) m.found,
      ground (arith, moved-find j, m.keeps),
    )
    | inr there ↦ (r', ground (arith, moved-find j), (refl, refl))
  ]
