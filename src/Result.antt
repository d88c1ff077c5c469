-- ===== src/Result.antt =====
-- Exceptions as values, and the actions that methods with state are. A `raise` keeps the state
-- reached so far; `transaction` is what undoes it, as `ExecutionStore._transaction` does.
use investing_agents.Prelude.{
  Bool, true, false, String, Option, none, some, ⊤, ◌≡◌, refl, ◌⊎◌, inl, inr, arith,
}

-- One constructor for each exception class that the modelled code raises, with its message.
pub data Error : Type 0 where
  domain_validation store_error approval_replay submission_replay : String → Error
  approval_error submission_blocked execution_disabled intent_import : String → Error
  invalid_transition duplicate_intent duplicate_request integrity_error type_error : Error
  risk_evidence usage_evidence replay_error accounting_evidence : String → Error
  broker_error risk_configuration kill_switch_error : String → Error
  schedule_store_error scheduled_run_error scheduler_configuration schedule_lock_error :
      String → Error
  strategy_validation registry_error fill_ingestion : String → Error
  instrument_collision instrument_mapping : String → Error
  instrument_not_found value_error index_error : Error

pub data Result {ℓ} (A : Type ℓ) : Type ℓ where
  ok : A → Result A
  err : Error → Result A

abbrev pub Action : Type 0 → Type 0 → Type 0
Action S A = S → Result A × S

module _ {S : Type 0} where
  abbrev pub raise : {A : Type 0} → Error → Action S A
  raise e s = (err e, s)

  abbrev pub pure : {A : Type 0} → A → Action S A
  pure a s = (ok a, s)

  -- A read that may raise.
  abbrev pub query : {A : Type 0} → (S → Result A) → Action S A
  query f s = (f s, s)

  abbrev pub gets : {A : Type 0} → (S → A) → Action S A
  gets f s = (ok (f s), s)

  abbrev pub modify : (S → S) → Action S ⊤
  modify f s = (ok tt, f s)

  -- `if test: raise e`
  abbrev pub raise_if : Bool → Error → Action S ⊤
  raise_if true e s = (err e, s)
  raise_if false e s = (ok tt, s)

  abbrev pub lift : {A : Type 0} → Result A → Action S A
  lift r s = (r, s)

  -- `BEGIN IMMEDIATE … COMMIT`, with a rollback on any exception.
  abbrev pub transaction : {A : Type 0} → Action S A → Action S A
  transaction m s = let (r, s') = m s in elim r [ ok a ↦ (ok a, s') | err e ↦ (err e, s) ]

infixl 5 ◌>>=◌ ◌>>◌
abbrev pub ◌>>=◌ : {S A B : Type 0} → Action S A → (A → Action S B) → Action S B
◌>>=◌ m f s = let (r, s') = m s in elim r [ ok a ↦ f a s' | err e ↦ (err e, s') ]

abbrev pub ◌>>◌ : {S A B : Type 0} → Action S A → Action S B → Action S B
m >> k = m >>= λ _. k

abbrev pub or_raise : {A : Type 0} → Option A → Error → Result A
or_raise none e = err e
or_raise (some a) e = ok a

pub Result-cases {ℓ} :
    {A : Type ℓ} (r : Result A) → ((a : A) × (r ≡ ok a)) ⊎ ((e : Error) × (r ≡ err e))
Result-cases (ok a) = inl (a, refl)
Result-cases (err e) = inr (e, refl)

-- A transaction that raised has changed nothing.
pub transaction-raised :
    {S A : Type 0} (m : Action S A) (s : S) (e : Error) (s' : S)
    → transaction m s ≡ (err e, s')
    → s' ≡ s
transaction-raised m s e s' h = ground arith
