-- ===== src/Tests/Switch.antt =====
-- The kill switch, from its initialization over a reset to an engagement. The digest of an event is
-- its revision here.
use investing_agents.Prelude.{◌≡◌, ◌⊎◌, refl, true, false, none, some, List, [], ◌∷◌, ◌++◌, str_eq}
use investing_agents.Result.{ok, err, Error}
use investing_agents.Domain.Types.{Digest, demo, same_environment}
use investing_agents.Risk.KillSwitch.{
  Event, Files, SwitchState, status, check_state, read_from, written, next_event, engage, reset,
  initialize_engaged, writes_allowed,
}
use investing_agents.Risk.KillSwitch.Chain.{
  writes_need_intact_release, engage_blocks_writes, reset_exact, initialize_exact, changed,
  MayReset, MayInitialize,
}
use investing_agents.Risk.KillSwitch.Audit.{IsChain}

abbrev digest : Event → Digest
digest e = e.revision

abbrev nothing : Files
nothing = record { state = none; audit = none }

abbrev engaged_files : Files
engaged_files =
    written digest demo nothing
      (next_event digest demo true "initialize_engaged" "ops" "start" 10 0 0)

abbrev open_files : Files
open_files =
    written digest demo engaged_files (next_event digest demo false "reset" "ops" "go" 20 1 1)

open-writes_allowed : writes_allowed (status digest demo open_files) ≡ true
unfolding status check_state read_from
open-writes_allowed = refl

open-valid : (status digest demo open_files).integrity_valid ≡ true
unfolding status check_state read_from
open-valid = refl

writes_need_intact_release_example :
    (raw : SwitchState) × (start : List (Event × Digest)) × (e : Event) × (open_files.state
      ≡ some raw)
    × (open_files.audit ≡ some (start ++ (e, digest e) ∷ []))
    × IsChain digest 0 (start ++ (e, digest e) ∷ [])
    × (e.resulting_engaged ≡ false)
    × (raw.audit_head_hash ≡ digest e)
    × (e.revision ≡ raw.revision)
    × (raw.engaged ≡ false)
    × (same_environment raw.environment demo ≡ true)
    × (str_eq raw.schema_version "1.0" ≡ true)
writes_need_intact_release_example =
    writes_need_intact_release digest demo open_files open-writes_allowed

engage_blocks_writes_example :
    let (r, f) = engage digest demo "ops" "halt" 30 open_files in
    (r ≡ ok (changed digest demo true "halt" 30 (status digest demo open_files).revision))
    × (status digest demo f
        ≡ changed digest demo true "halt" 30 (status digest demo open_files).revision)
    × (writes_allowed (status digest demo f) ≡ false)
engage_blocks_writes_example =
    engage_blocks_writes digest demo "ops" "halt" 30 open_files open-valid refl refl

reset_exact_example :
    let k = status digest demo engaged_files in
    let (r, f) =
      reset digest demo "ops" "go" "I UNDERSTAND DEMO WRITES MAY RESUME" 20 engaged_files in
    (MayReset digest demo "ops" "go" "I UNDERSTAND DEMO WRITES MAY RESUME" k
      × (r ≡ ok (changed digest demo false "go" 20 k.revision))
      × (status digest demo f ≡ changed digest demo false "go" 20 k.revision)
      × (writes_allowed (status digest demo f) ≡ true))
    ⊎ ((¬ (MayReset digest demo "ops" "go" "I UNDERSTAND DEMO WRITES MAY RESUME" k))
        × (e : Error) × (r ≡ err e)
        × (f ≡ engaged_files))
reset_exact_example =
    reset_exact digest demo "ops" "go" "I UNDERSTAND DEMO WRITES MAY RESUME" 20 engaged_files

initialize_exact_example :
    let (r, f) = initialize_engaged digest demo "ops" "start" 10 nothing in
    (MayInitialize digest demo "ops" "start" nothing
      × (r ≡ ok (changed digest demo true "start" 10 0))
      × (status digest demo f ≡ changed digest demo true "start" 10 0))
    ⊎ ((¬ (MayInitialize digest demo "ops" "start" nothing))
        × (e : Error) × (r ≡ err e)
        × (f ≡ nothing))
initialize_exact_example = initialize_exact digest demo "ops" "start" 10 nothing
