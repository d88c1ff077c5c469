-- ===== src/Risk/KillSwitch.antt =====
-- risk/kill_switch.py: the fail-closed switch with its hash-chained audit. The state file and the
-- audit file are values that may be missing; what JSON decoding yields is the record. `digest` is
-- SHA-256 of the canonical JSON of an event without its own hash.
pub mod Audit
pub mod Chain
use investing_agents.Prelude.{
  ℕ, ◌+◌, Bool, true, false, not, ◌&&◌, ◌||◌, String, str_eq, Option, none, some, List, [], ◌∷◌,
  ◌++◌, ◌==◌, if◌then◌else◌, is_some,
}
use investing_agents.Result.{Result, ok, err, Error, kill_switch_error}
use investing_agents.Domain.Types.{Digest, Instant, Environment, demo, same_environment}
use investing_agents.Domain.Evidence.{same_bool}

pub record KillSwitchStatus : Type 0 where
  pub engaged : Bool
  pub integrity_valid : Bool
  pub environment : Environment
  pub revision : ℕ
  pub reason : String
  pub updated_at : Option Instant

abbrev pub writes_allowed : KillSwitchStatus → Bool
writes_allowed k = k.integrity_valid && not k.engaged

-- An audit event without its `event_hash`. The hash of no event, "" in the source, is 0.
pub record Event : Type 0 where
  pub schema_version : String
  pub environment : Environment
  pub revision : ℕ
  pub action : String
  pub operator_id : String
  pub reason : String
  pub timestamp : Instant
  pub resulting_engaged : Bool
  pub previous_hash : Digest

-- The state file.
pub record SwitchState : Type 0 where
  pub schema_version : String
  pub environment : Environment
  pub revision : ℕ
  pub engaged : Bool
  pub reason : String
  pub operator_id : String
  pub updated_at : Instant
  pub audit_head_hash : Digest

-- The two files; an audit line is an event with its recorded hash.
pub record Files : Type 0 where
  pub state : Option SwitchState
  pub audit : Option (List (Event × Digest))

abbrev pub lines_of : Files → List (Event × Digest)
lines_of f = elim f.audit [ none ↦ [] | some lines ↦ lines ]

module _ (digest : Event → Digest) (environment : Environment) where
  -- The loop of `_read_audit` from the hash of the line before: the last event, if there is one,
  -- and the head hash.
  unfoldable pub read_from :
      Option Event → Digest → List (Event × Digest) → Result (Option Event × Digest)
  read_from last previous [] = ok (last, previous)
  read_from last previous ((e, h) ∷ rest) =
      if not (e.previous_hash == previous)
      then err (kill_switch_error "kill-switch audit chain is broken")
      else if not (h == digest e)
      then err (kill_switch_error "kill-switch audit checksum mismatch")
      else read_from (some e) h rest

  abbrev pub read_audit : Option (List (Event × Digest)) → Result (Option Event × Digest)
  read_audit none = ok (none, 0)
  read_audit (some lines) = read_from none 0 lines

  -- `str(exc)`
  abbrev pub message : Error → String
  message (kill_switch_error text) = text
  message e = ""

  abbrev pub failsafe : String → KillSwitchStatus
  failsafe reason = record {
    engaged = true;
    integrity_valid = false;
    environment = environment;
    revision = 0;
    reason = reason;
    updated_at = none;
  }

  -- The tests of `status` on the state file, the last event and the head.
  unfoldable pub check_state : SwitchState → Event → Digest → Result (Unit {0})
  check_state raw last head =
      if not (str_eq raw.schema_version "1.0")
      then err (kill_switch_error "kill-switch schema is unsupported")
      else if not (raw.audit_head_hash == head)
      then err (kill_switch_error "kill-switch state/audit head mismatch")
      else if not (last.revision == raw.revision)
      then err (kill_switch_error "kill-switch state/audit revision mismatch")
      else if not (same_bool last.resulting_engaged raw.engaged)
      then err (kill_switch_error "kill-switch state/audit outcome mismatch")
      else if not (same_environment raw.environment environment)
      then err (kill_switch_error "kill-switch environment mismatch")
      else ok tt

  -- `status`: any failure gives the failsafe.
  unfoldable pub status : Files → KillSwitchStatus
  status f = elim f.state [
    | none ↦ failsafe "kill-switch state is not initialized"
    | some raw ↦ elim f.audit [
      | none ↦ failsafe "kill-switch state is not initialized"
      | some lines ↦ elim (read_from none 0 lines) [
        | err e ↦ failsafe (message e)
        | ok (last, head) ↦ elim last [
          | none ↦ failsafe "kill-switch audit is empty"
          | some event ↦ elim (check_state raw event head) [
            | err e ↦ failsafe (message e)
            | ok x ↦ record {
              engaged = raw.engaged;
              integrity_valid = true;
              environment = raw.environment;
              revision = raw.revision;
              reason = raw.reason;
              updated_at = some raw.updated_at;
            }
          ]
        ]
      ]
    ]
  ]

  -- The audit line and the state that `_change` writes.
  abbrev pub next_event : Bool → String → String → String → Instant → ℕ → Digest → Event
  next_event engaged action operator reason now prior previous = record {
    schema_version = "1.0";
    environment = environment;
    revision = prior + 1;
    action = action;
    operator_id = operator;
    reason = reason;
    timestamp = now;
    resulting_engaged = engaged;
    previous_hash = previous;
  }

  abbrev pub written : Files → Event → Files
  written f e = record {
    state = some (record {
      schema_version = "1.0";
      environment = environment;
      revision = e.revision;
      engaged = e.resulting_engaged;
      reason = e.reason;
      operator_id = e.operator_id;
      updated_at = e.timestamp;
      audit_head_hash = digest e;
    });
    audit = some (lines_of f ++ (e, digest e) ∷ []);
  }

  -- `_change`; texts are stripped already. The files are written before the result is verified.
  unfoldable pub change :
      Bool
      → String
      → String
      → String
      → Instant
      → ℕ
      → Digest
      → Files
      → Result KillSwitchStatus × Files
  change engaged action operator reason now prior previous f =
      if str_eq operator "" || str_eq reason ""
      then (err (kill_switch_error "operator identity and reason are required"), f)
      else let f' = written f (next_event engaged action operator reason now prior previous) in
        if not (status f').integrity_valid
        then (err (kill_switch_error "kill-switch mutation could not be verified"), f')
        else (ok (status f'), f')

  unfoldable pub initialize_engaged :
      String → String → Instant → Files → Result KillSwitchStatus × Files
  initialize_engaged operator reason now f =
      if is_some f.state || is_some f.audit
      then (err (kill_switch_error "kill switch is already initialized"), f)
      else change true "initialize_engaged" operator reason now 0 0 f

  abbrev pub head_of : Files → Digest
  head_of f = elim (read_audit f.audit) [ ok (last, head) ↦ head | err e ↦ 0 ]

  unfoldable pub engage : String → String → Instant → Files → Result KillSwitchStatus × Files
  engage operator reason now f =
      if not (status f).integrity_valid
      then (err (kill_switch_error "kill switch is already fail-closed"), f)
      else change true "engage" operator reason now (status f).revision (head_of f) f

  unfoldable pub reset :
      String → String → String → Instant → Files → Result KillSwitchStatus × Files
  reset operator reason acknowledgement now f =
      if not (str_eq acknowledgement "I UNDERSTAND DEMO WRITES MAY RESUME")
      then (err (kill_switch_error "interactive reset acknowledgement did not match"), f)
      else if not (status f).integrity_valid || not (status f).engaged
      then (err (kill_switch_error "kill switch is corrupt, missing, or already reset"), f)
      else change false "reset" operator reason now (status f).revision (head_of f) f
