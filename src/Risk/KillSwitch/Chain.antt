-- ===== src/Risk/KillSwitch/Chain.antt =====
-- risk/kill_switch.py: what a change of the switch leaves behind, and what lets writes through.
use investing_agents.Prelude.{
  ℕ, ◌+◌, ◌≡◌, refl, ◌⊎◌, inl, inr, Bool, true, false, ◌&&◌, ◌||◌, String, str_eq, Option, none,
  some, List, [], ◌∷◌, ◌++◌, arith, Option-cases, Bool-cases, ap, sym, ◌∙◌, subst, is_some,
}
use investing_agents.Result.{ok, err, Error, kill_switch_error, Result-cases}
use investing_agents.Domain.Types.{
  Digest, Instant, Environment, same_environment, same_environment_refl,
}
use investing_agents.Risk.KillSwitch.{
  Event, SwitchState, Files, KillSwitchStatus, writes_allowed, read_from, read_audit, check_state,
  status, next_event, written, change, initialize_engaged, engage, reset, lines_of, head_of,
}
use investing_agents.Risk.KillSwitch.Audit.{IsChain, read_from-append, last_line, read_from-IsChain}

module _ (digest : Event → Digest) (environment : Environment) where
  abbrev pub changed : Bool → String → Instant → ℕ → KillSwitchStatus
  changed engaged reason now prior = record {
    engaged = engaged;
    integrity_valid = true;
    environment = environment;
    revision = prior + 1;
    reason = reason;
    updated_at = some now;
  }

  read_audit-lines :
      (audit : Option (List (Event × Digest))) (state : Option SwitchState)
      → read_audit digest environment audit
        ≡ read_from digest environment none 0 (lines_of (record { state = state; audit = audit }))
  unfolding read_from
  read_audit-lines none state = refl
  read_audit-lines (some lines) state = refl

  status-written :
      (engaged : Bool) (action operator reason : String) (now : Instant) (prior : ℕ)
      → (h : Digest) (l : Option Event) (f : Files)
      → read_audit digest environment f.audit ≡ ok (l, h)
      → status digest environment (
          written digest environment f
            (next_event digest environment engaged action operator reason now prior h))
        ≡ changed engaged reason now prior
  unfolding status check_state
  status-written engaged action operator reason now prior h l f r =
      let e = next_event digest environment engaged action operator reason now prior h in
      let read =
        read_from-append digest environment (lines_of f) none l 0 h e
          (sym (read_audit-lines f.audit f.state) ∙ r) refl in
      ground (arith, read, same_environment_refl environment)

  -- A valid status rests on a readable audit.
  status-valid :
      (f : Files)
      → (status digest environment f).integrity_valid ≡ true
      → (raw : SwitchState) × (lines : List (Event × Digest)) × (e : Event) × (h : Digest)
        × (f.state ≡ some raw)
        × (f.audit ≡ some lines)
        × (read_from digest environment none 0 lines ≡ ok (some e, h))
        × (check_state digest environment raw e h ≡ ok tt)
        × ((status digest environment f).engaged ≡ raw.engaged)
        × ((status digest environment f).revision ≡ raw.revision)
  unfolding status
  status-valid f v = elim (Option-cases f.state) [
    | inl missing ↦ absurd (ground arith)
    | inr (raw, p) ↦ elim (Option-cases f.audit) [
      | inl missing ↦ absurd (ground arith)
      | inr (lines, q) ↦ elim (Result-cases (read_from digest environment none 0 lines)) [
        | inr (e, r) ↦ absurd (ground arith)
        | inl ((last, h), r) ↦ elim (Option-cases last) [
          | inl empty ↦ absurd (ground arith)
          | inr (event, t) ↦
              (raw, lines, event, h, p, q, ground arith, ground arith, ground arith, ground arith)
        ]
      ]
    ]
  ]

  -- Writes pass the switch only if both files are there, each line of the audit names the hash of
  -- the line before it (the first the empty hash) and carries the checksum of its own event, the
  -- last line records a change that released the switch, and the state file records a released
  -- switch of this environment and schema 1.0 and names that line's checksum and revision.
  pub writes_need_intact_release :
      (f : Files)
      → writes_allowed (status digest environment f) ≡ true
      → (raw : SwitchState) × (start : List (Event × Digest)) × (e : Event) × (f.state ≡ some raw)
        × (f.audit ≡ some (start ++ (e, digest e) ∷ []))
        × IsChain digest 0 (start ++ (e, digest e) ∷ [])
        × (e.resulting_engaged ≡ false)
        × (raw.audit_head_hash ≡ digest e)
        × (e.revision ≡ raw.revision)
        × (raw.engaged ≡ false)
        × (same_environment raw.environment environment ≡ true)
        × (str_eq raw.schema_version "1.0" ≡ true)
  unfolding check_state
  writes_need_intact_release f w =
      let (raw, lines, e, h, p, q, r, c, d, n) = status-valid f (ground arith) in
      let (start, s, t) = last_line digest environment lines e h r in
      let whole : lines ≡ start ++ (e, digest e) ∷ [] = s ∙ ap (λ k. start ++ (e, k) ∷ []) t in
      (
        raw,
        start,
        e,
        p,
        q ∙ ap some whole,
        subst (IsChain digest 0) whole
            (read_from-IsChain digest environment lines none (some e) 0 h r),
        ground arith,
        ground (arith, t),
        ground arith,
        ground arith,
        ground arith,
        ground arith,
      )

  -- An operator and a reason are given.
  abbrev pub IsSigned : String → String → Type 0
  IsSigned operator reason = (str_eq operator "" ≡ false) × (str_eq reason "" ≡ false)

  change-done :
      (engaged : Bool) (action operator reason : String) (now : Instant) (prior : ℕ)
      → (h : Digest) (l : Option Event) (f : Files)
      → read_audit digest environment f.audit ≡ ok (l, h)
      → IsSigned operator reason
      → (change digest environment engaged action operator reason now prior h f).0
          ≡ ok (changed engaged reason now prior)
        × (status digest environment
              (change digest environment engaged action operator reason now prior h f).1
            ≡ changed engaged reason now prior)
  unfolding change
  change-done engaged action operator reason now prior h l f r (p, q) =
      let done = status-written engaged action operator reason now prior h l f r in
      (ground (arith, done), ground (arith, done))

  head_read :
      (f : Files)
      → (status digest environment f).integrity_valid ≡ true
      → (l : Option Event) × (read_audit digest environment f.audit
          ≡ ok (l, head_of digest environment f))
  head_read f v =
      let (raw, lines, e, h, p, q, r, c, d, n) = status-valid f v in (some e, ground (arith, q, r))

  -- From a valid switch, an engagement that is signed with an operator and a reason succeeds at the
  -- next revision, and the status afterwards is engaged: writes are not allowed.
  pub engage_blocks_writes :
      (operator reason : String) (now : Instant) (f : Files)
      → (status digest environment f).integrity_valid ≡ true
      → str_eq operator "" ≡ false
      → str_eq reason "" ≡ false
      → let (r, f') = engage digest environment operator reason now f in
        (r ≡ ok (changed true reason now (status digest environment f).revision))
        × (status digest environment f'
            ≡ changed true reason now (status digest environment f).revision)
        × (writes_allowed (status digest environment f') ≡ false)
  unfolding engage
  engage_blocks_writes operator reason now f v p q =
      let (l, r) = head_read f v in
      let (done, after) =
        change-done true "engage" operator reason now (status digest environment f).revision
          (head_of digest environment f) l f r (p, q) in
      (ground (arith, done), ground (arith, after), ground (arith, after))

  abbrev is_empty_text : String → Bool
  is_empty_text text = str_eq text ""

  abbrev is_held : KillSwitchStatus → Bool
  is_held k = k.integrity_valid && k.engaged

  change-unsigned :
      (engaged : Bool) (action operator reason : String) (now : Instant) (prior : ℕ)
      → (h : Digest) (f : Files) → (is_empty_text operator || is_empty_text reason) ≡ true
      → change digest environment engaged action operator reason now prior h f
        ≡ (err (kill_switch_error "operator identity and reason are required"), f)
  unfolding change
  change-unsigned engaged action operator reason now prior h f p = ground arith

  -- What the change does that a reset or an initialization ends in, signed or not.
  change-exact :
      (engaged : Bool) (action operator reason : String) (now : Instant) (prior : ℕ)
      → (h : Digest) (l : Option Event) (f : Files)
      → read_audit digest environment f.audit ≡ ok (l, h)
      → let (r, f') = change digest environment engaged action operator reason now prior h f in
        (IsSigned operator reason
          × (r ≡ ok (changed engaged reason now prior))
          × (status digest environment f' ≡ changed engaged reason now prior))
        ⊎ ((¬ (IsSigned operator reason)) × (e : Error) × (r ≡ err e) × (f' ≡ f))
  change-exact engaged action operator reason now prior h l f r =
      elim (Bool-cases (is_empty_text operator || is_empty_text reason)) [
        | inl u ↦
            let raised = change-unsigned engaged action operator reason now prior h f u in
            inr (
              λ signed. ground (arith, signed.0, signed.1),
              kill_switch_error "operator identity and reason are required",
              ap (λ x. x.0) raised,
              ap (λ x. x.1) raised,
            )
        | inr signed ↦
            let (done, after) =
              change-done engaged action operator reason now prior h l f r (ground arith) in
            inl (ground arith, done, after)
      ]

  -- What a reset asks for, in the texts it is given and the status of the switch.
  abbrev pub MayReset : String → String → String → KillSwitchStatus → Type 0
  MayReset operator reason acknowledgement k =
      (str_eq acknowledgement "I UNDERSTAND DEMO WRITES MAY RESUME" ≡ true)
      × (k.integrity_valid ≡ true)
      × (k.engaged ≡ true)
      × IsSigned operator reason

  -- If the switch is valid and engaged and the reset is signed with an operator and a reason and
  -- gives the acknowledgement's exact words, it succeeds at the next revision, and the status
  -- afterwards is that of a valid, released switch, which allows writes. If any of these conditions
  -- fails, the reset raises and both files stay as they were.
  pub reset_exact :
      (operator reason acknowledgement : String) (now : Instant) (f : Files)
      → let k = status digest environment f in
        let (r, f') = reset digest environment operator reason acknowledgement now f in
        (MayReset operator reason acknowledgement k
          × (r ≡ ok (changed false reason now k.revision))
          × (status digest environment f' ≡ changed false reason now k.revision)
          × (writes_allowed (status digest environment f') ≡ true))
        ⊎ ((¬ (MayReset operator reason acknowledgement k)) × (e : Error) × (r ≡ err e) × (f' ≡ f))
  unfolding reset
  reset_exact operator reason acknowledgement now f =
      elim (Bool-cases (str_eq acknowledgement "I UNDERSTAND DEMO WRITES MAY RESUME")) [
        | inr wrong ↦ inr (
          λ may. ground (arith, may.0),
          kill_switch_error "interactive reset acknowledgement did not match",
          ground arith,
          ground arith,
        )
        | inl right ↦ elim (Bool-cases (is_held (status digest environment f))) [
          | inr loose ↦ inr (
            λ may. ground (arith, may.1, may.2),
            kill_switch_error "kill switch is corrupt, missing, or already reset",
            ground arith,
            ground arith,
          )
          | inl held ↦
              let (l, r) = head_read f (ground arith) in
              elim (change-exact false "reset" operator reason now
                (status digest environment f).revision (head_of digest environment f) l f r) [
                  | inl (signed, done, after) ↦ inl (
                    (right, ground arith, ground arith, signed),
                    ground (arith, done),
                    ground (arith, after),
                    ground (arith, after),
                  )
                  | inr (unsigned, e, failed, same) ↦
                      inr (λ may. unsigned may.3, e, ground (arith, failed), ground (arith, same))
                ]
        ]
      ]

  -- What an initialization asks for: neither file is there, and it is signed.
  abbrev pub MayInitialize : String → String → Files → Type 0
  MayInitialize operator reason f = (f.state ≡ none) × (f.audit ≡ none) × IsSigned operator reason

  -- If neither file is there and the initialization is signed with an operator and a reason, it
  -- succeeds with an engaged switch at revision 1, which is also the status afterwards. If either
  -- file is there, or the operator or the reason is missing, it raises and both files stay as they
  -- were.
  pub initialize_exact :
      (operator reason : String) (now : Instant) (f : Files)
      → let (r, f') = initialize_engaged digest environment operator reason now f in
        (MayInitialize operator reason f
          × (r ≡ ok (changed true reason now 0))
          × (status digest environment f' ≡ changed true reason now 0))
        ⊎ ((¬ (MayInitialize operator reason f)) × (e : Error) × (r ≡ err e) × (f' ≡ f))
  unfolding initialize_engaged
  initialize_exact operator reason now f = elim (Bool-cases (is_some f.state || is_some f.audit)) [
    | inl there ↦ inr (
      λ may. ground (arith, may.0, may.1),
      kill_switch_error "kill switch is already initialized",
      ground arith,
      ground arith,
    )
    | inr missing ↦
        elim (change-exact true "initialize_engaged" operator reason now 0 0 none f
          (ground arith)) [
            | inl (signed, done, after) ↦
                inl (
                  (ground arith, ground arith, signed),
                  ground (arith, done),
                  ground (arith, after),
                )
            | inr (unsigned, e, failed, same) ↦
                inr (λ may. unsigned may.2, e, ground (arith, failed), ground (arith, same))
          ]
  ]
