-- ===== src/Store/Trace/Audit.antt =====
-- execution/store.py: the event log, and the history of each command.
use investing_agents.Prelude.{
  ℕ, ◌+◌, ◌<◌, ◌≡◌, refl, ◌⊎◌, inl, inr, Bool, true, false, Option, none, some, List, [], ◌∷◌, ◌==◌,
  ==→eq, arith, Bool-cases, ap, ◌∙◌, any, if◌then◌else◌, subst,
}
use investing_agents.Table.{find, find-cons}
use investing_agents.Domain.Types.{Uuid, CommandState, state_in, allowed_transitions}
use investing_agents.Domain.Command.{BrokerCommand}
use investing_agents.Store.Tables.{
  ExecutionStore, CommandRow, CommandEvent, command_key, find_command, is_event, empty_store,
}
use investing_agents.Store.Effect.{Effect, unchanged, inserted, moved, opened, Inserted, Moved}
use investing_agents.Store.Trace.{Call, run, run-preserves}
use investing_agents.Store.Trace.Progress.{moved-find}

-- `SELECT * FROM command_events WHERE command_id = ?`, the newest first.
unfoldable pub events_of : Uuid → List CommandEvent → List CommandEvent
events_of id [] = []
events_of id (e ∷ rest) =
    let others = events_of id rest in if e.command_id == id then e ∷ others else others

-- The events, the newest first, lead to a revision and a state: one event for each revision from 0,
-- each from the state that the one before led to, by an allowed move or none.
pub data Trail : ℕ → CommandState → List CommandEvent → Type 0 where
  born :
      (e : CommandEvent) (state : CommandState)
      → e.revision ≡ 0
      → e.previous_state ≡ none
      → e.new_state ≡ state
      → Trail 0 state (e ∷ [])
  grown :
      (e : CommandEvent) (n : ℕ) (previous state : CommandState) (rest : List CommandEvent)
      → Trail n previous rest
      → e.revision ≡ n + 1
      → e.previous_state ≡ some previous
      → e.new_state ≡ state
      → (state_in state (allowed_transitions previous) ≡ true) ⊎ (state ≡ previous)
      → Trail (n + 1) state (e ∷ rest)

abbrev pub Matches : Option CommandRow → List CommandEvent → Type 0
Matches none events = events ≡ []
Matches (some row) events = Trail row.revision row.command.state events

-- The events of every stored command lead to it, and there are no others.
abbrev pub IsAudited : ExecutionStore → Type 0
IsAudited s = (id : Uuid) → Matches (find_command s id) (events_of id s.command_events)

abbrev has_revision : ℕ → CommandEvent → Bool
has_revision n e = e.revision == n

Trail-below :
    (n m : ℕ) (state : CommandState) (events : List CommandEvent)
    → Trail n state events
    → n < m
    → any (has_revision m) events ≡ false
Trail-below _ m _ _ (born e state r p q) h = ground arith
Trail-below _ m _ _ (grown e k previous state rest t r p q a) h =
    ground (arith, Trail-below k m previous rest t)

events_of-any :
    (id : Uuid) (n : ℕ) (events : List CommandEvent)
    → any (is_event id n) events ≡ any (has_revision n) (events_of id events)
unfolding events_of
events_of-any id n [] = refl
events_of-any id n (e ∷ rest) = ground (arith, events_of-any id n rest)

-- The next event of a stored command is not there yet.
pub IsAudited-next :
    (s : ExecutionStore) (id : Uuid) (row : CommandRow)
    → IsAudited s
    → find_command s id ≡ some row
    → any (is_event id (row.revision + 1)) s.command_events ≡ false
IsAudited-next s id row audited found =
    let trail : Matches (some row) (events_of id s.command_events) =
      subst (λ r. Matches r (events_of id s.command_events)) found (audited id) in
    events_of-any id (row.revision + 1) s.command_events
    ∙ Trail-below row.revision (row.revision + 1) row.command.state (events_of id s.command_events)
        trail (ground arith)

events_of-cons :
    (id : Uuid) (e : CommandEvent) (rest : List CommandEvent)
    → events_of id (e ∷ rest)
      ≡ (if e.command_id == id then e ∷ events_of id rest else events_of id rest)
unfolding events_of
events_of-cons id e rest = refl

Inserted-IsAudited :
    (c : BrokerCommand) (s s' : ExecutionStore) → Inserted c s s' → IsAudited s → IsAudited s'
Inserted-IsAudited c s s' new audited id = elim (Bool-cases (c.command_id == id)) [
  | inl here ↦
      let unknown_before : find_command s id ≡ none =
        subst (λ k. find_command s k ≡ none) (==→eq _ _ here) new.fresh in
      let silent : events_of id s.command_events ≡ [] =
        subst (λ r. Matches r (events_of id s.command_events)) unknown_before (audited id) in
      let own : (new.event.command_id == id) ≡ true = ground (arith, new.event_command) in
      rw
        (
          new.commands,
          find-cons command_key id _ s.broker_commands,
          new.events,
          events_of-cons id new.event s.command_events,
          here,
          own,
          silent,
        )
        (born new.event c.state new.event_revision new.event_previous new.event_state)
  | inr there ↦
      let own : (new.event.command_id == id) ≡ false = ground (arith, new.event_command) in
      rw
        (
          new.commands,
          find-cons command_key id _ s.broker_commands,
          new.events,
          events_of-cons id new.event s.command_events,
          there,
          own,
        )
        (audited id)
]

Moved-IsAudited :
    (row : CommandRow) (c' : BrokerCommand) (s s' : ExecutionStore)
    → Moved row c' s s'
    → IsAudited s
    → IsAudited s'
Moved-IsAudited row c' s s' m audited id =
    let adv = m.advanced in
    let log : s'.command_events ≡ adv.event ∷ s.command_events =
      adv.events ∙ ap (λ es. adv.event ∷ es) m.before_events in
    elim (Bool-cases (id == row.command.command_id)) [
      | inl here ↦
          let own : (adv.event.command_id == id) ≡ true = ground (arith, adv.event_command) in
          let trail : Matches (some row) (events_of row.command.command_id s.command_events) =
            subst (λ r. Matches r (events_of row.command.command_id s.command_events)) m.found
              (audited row.command.command_id) in
          rw
            (
              moved-find row c' s s' m id,
              log,
              events_of-cons id adv.event s.command_events,
              own,
              here,
              ==→eq _ _ here,
            )
            (grown adv.event row.revision row.command.state c'.state _ trail adv.event_revision
              adv.event_previous adv.event_state m.step)
      | inr there ↦
          let own : (adv.event.command_id == id) ≡ false = ground (arith, adv.event_command) in
          rw
            (
              moved-find row c' s s' m id,
              log,
              events_of-cons id adv.event s.command_events,
              own,
              there,
            )
            (audited id)
    ]

pub Effect-IsAudited : (s s' : ExecutionStore) → Effect s s' → IsAudited s → IsAudited s'
Effect-IsAudited s s' (unchanged p q _) audited = λ id. rw (p, q) (audited id)
Effect-IsAudited s s' (inserted c new _) audited = Inserted-IsAudited c s s' new audited
Effect-IsAudited s s' (moved row c' m) audited = Moved-IsAudited row c' s s' m audited
Effect-IsAudited s s' (opened c row c' s1 s2 _ new _ bound m) audited =
    Moved-IsAudited row c' s2 s' m
      (λ id. rw (bound.commands, bound.events) (Inserted-IsAudited c s s1 new audited id))

empty-IsAudited : IsAudited empty_store
unfolding find events_of
empty-IsAudited id = refl

-- Whatever calls were made on the empty ledger, and whether they returned or raised: the event log
-- of every stored command, the newest first, has exactly one event for each revision from the
-- command's down to 0; each event's previous state is the state that the event before it recorded,
-- and the move between them is allowed or keeps the state; the newest records the command's state;
-- and there are no events of commands that are not stored.
pub events_are_the_history : (calls : List Call) → IsAudited (run calls empty_store)
events_are_the_history calls =
    run-preserves IsAudited Effect-IsAudited calls empty_store empty-IsAudited
