-- ===== src/Store/Effect/Rows.antt =====
-- How an update of one authorization shows in every lookup.
use investing_agents.Prelude.{
  ◌≡◌, ◌⊎◌, inl, inr, true, some, ◌==◌, arith, Bool-cases, ==→eq, if◌then◌else◌, Option-cases,
  subst, ◌∙◌,
}
use mathlib.Core.Option
use investing_agents.Table.{find-update}
use investing_agents.Domain.Types.{Uuid, is_submit_order}
use investing_agents.Store.Tables.{ExecutionStore, CommandRow, Binding, binding_key, find_binding}
use investing_agents.Store.Submission.{set_binding}
use investing_agents.Store.Effect.{BindingsKept, is_claimed}

module _ (row : CommandRow) (change : Binding → Binding) (s : ExecutionStore)
    (same_command : (b : Binding) → (change b).command_id ≡ b.command_id) where
  set_binding-find :
      (j : Uuid)
      → find_binding (set_binding row.command.command_id change s) j ≡ (
          if j == row.command.command_id
          then Option.map change (find_binding s row.command.command_id)
          else find_binding s j)
  set_binding-find j =
      find-update binding_key j row.command.command_id change s.command_authorizations
        (λ b e. same_command b ∙ e)

  pub find_changed :
      (j : Uuid) (b : Binding)
      → find_binding s j ≡ some b
      → find_binding (set_binding row.command.command_id change s) j
        ≡ some (if j == row.command.command_id then change b else b)
  find_changed j b e = ground (arith, set_binding-find j)

  pub set_binding-kept :
      ((b : Binding) → is_claimed b ≡ true → is_claimed (change b) ≡ true)
      → ((b : Binding)
          → (is_claimed (change b) ≡ true → is_claimed b ≡ true)
            ⊎ (is_submit_order row.command.operation ≡ true))
      → BindingsKept row s (set_binding row.command.command_id change s)
  set_binding-kept claims only = record {
    forth = λ j b e. (
      if j == row.command.command_id then change b else b,
      find_changed j b e,
      λ c. ground (arith, claims b),
    );
    back = λ j b' e. elim (Option-cases (find_binding s j)) [
      | inl none_there ↦ absurd (ground (arith, set_binding-find j))
      | inr (b, there) ↦ (
        b,
        there,
        elim (Bool-cases (j == row.command.command_id)) [
          | inl here ↦
              let changed : b' ≡ change b = ground (arith, find_changed j b there) in
              elim (only b) [
                | inl kept ↦ inl (λ c. kept (subst (λ x. is_claimed x ≡ true) changed c))
                | inr submits ↦ inr (==→eq _ _ here, submits)
              ]
          | inr elsewhere ↦
              let same : b' ≡ b = ground (arith, find_changed j b there) in
              inl (λ c. subst (λ x. is_claimed x ≡ true) same c)
        ],
      )
    ];
  }

-- Only the table of authorizations matters.
pub BindingsKept-through :
    (row : CommandRow) (s r r' s' : ExecutionStore)
    → r.command_authorizations ≡ s.command_authorizations
    → BindingsKept row r r'
    → s'.command_authorizations ≡ r'.command_authorizations
    → BindingsKept row s s'
BindingsKept-through row s r r' s' p kept q = record {
  forth = λ j b h. rw q (kept.forth j b (rw p h));
  back = λ j b' h. rw (← p) (kept.back j b' (rw q at h));
}

pub BindingsKept-refl : (row : CommandRow) (s : ExecutionStore) → BindingsKept row s s
BindingsKept-refl row s = record {
  forth = λ j b h. (b, h, λ c. c);
  back = λ j b h. (b, h, inl (λ c. c));
}
