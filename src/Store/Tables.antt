-- ===== src/Store/Tables.antt =====
-- execution/store.py: the tables of the schema that the order lifecycle uses. A row keeps the value
-- that its `payload_json` decodes to; persisted_at, updated_at and event_time, which no decision
-- reads, are left out. Decisions and events stand newest first, by their row id.
use investing_agents.Prelude.{ℕ, Bool, false, ◌&&◌, ◌==◌, Option, none, some, List, [], String}
use investing_agents.Domain.Types.{Uuid, Digest, Instant, CommandState, is_submit_order}
use investing_agents.Domain.Evidence.{OrderIntent, RiskDecision, Approval, LimitValue}
use investing_agents.Domain.Command.{BrokerCommand}
use investing_agents.Table.{find}

pub record ApprovalRow : Type 0 where
  pub approval : Approval
  pub consumed_at : Option Instant

pub record CommandRow : Type 0 where
  pub command : BrokerCommand
  pub revision : ℕ

pub record CommandEvent : Type 0 where
  pub command_id : Uuid
  pub revision : ℕ
  pub previous_state : Option CommandState
  pub new_state : CommandState
  pub details : List (String × LimitValue)

pub record Binding : Type 0 where
  pub command_id : Uuid
  pub risk_decision_id : Uuid
  pub approval_id : Option Uuid
  pub authorized_at : Option Instant
  pub valid_until : Option Instant
  pub submission_claimed_at : Option Instant

pub record ExecutionStore : Type 0 where
  pub order_intents : List OrderIntent
  pub risk_decisions : List RiskDecision
  pub approvals : List ApprovalRow
  pub broker_commands : List CommandRow
  pub command_events : List CommandEvent
  pub command_authorizations : List Binding

abbrev pub empty_store : ExecutionStore
empty_store = record {
  order_intents = [];
  risk_decisions = [];
  approvals = [];
  broker_commands = [];
  command_events = [];
  command_authorizations = [];
}

-- The keys by which rows are selected.
abbrev pub intent_key : OrderIntent → Digest
intent_key i = i.intent_hash

abbrev pub intent_id_key : OrderIntent → Uuid
intent_id_key i = i.intent_id

abbrev pub decision_key : RiskDecision → Uuid
decision_key d = d.decision_id

abbrev pub decision_intent_key : RiskDecision → Digest
decision_intent_key d = d.intent_hash

abbrev pub approval_key : ApprovalRow → Uuid
approval_key r = r.approval.approval_id

abbrev pub command_key : CommandRow → Uuid
command_key r = r.command.command_id

abbrev pub request_key : CommandRow → Uuid
request_key r = r.command.logical_request_id

abbrev pub binding_key : Binding → Uuid
binding_key b = b.command_id

abbrev pub binding_decision_key : Binding → Uuid
binding_decision_key b = b.risk_decision_id

abbrev pub find_command : ExecutionStore → Uuid → Option CommandRow
find_command s id = find command_key id s.broker_commands

abbrev pub find_binding : ExecutionStore → Uuid → Option Binding
find_binding s id = find binding_key id s.command_authorizations

abbrev pub find_intent : ExecutionStore → Digest → Option OrderIntent
find_intent s h = find intent_key h s.order_intents

abbrev pub find_decision : ExecutionStore → Uuid → Option RiskDecision
find_decision s id = find decision_key id s.risk_decisions

-- `ORDER BY rowid DESC LIMIT 1`
abbrev pub latest_decision : ExecutionStore → Digest → Option RiskDecision
latest_decision s h = find decision_intent_key h s.risk_decisions

abbrev pub find_approval : ExecutionStore → Uuid → Option ApprovalRow
find_approval s id = find approval_key id s.approvals

-- UNIQUE(command_id, revision) on events
abbrev pub is_event : Uuid → ℕ → CommandEvent → Bool
is_event id revision e = e.command_id == id && e.revision == revision

-- A stored submission command of the intent.
abbrev pub is_submission_of : Digest → CommandRow → Bool
is_submission_of h r = r.command.intent_hash == h && is_submit_order r.command.operation

-- UNIQUE on the nullable approval_id of authorizations
abbrev pub is_bound_to : Uuid → Binding → Bool
is_bound_to id b = elim b.approval_id [ none ↦ false | some a ↦ a == id ]
