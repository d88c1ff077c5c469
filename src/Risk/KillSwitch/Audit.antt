-- ===== src/Risk/KillSwitch/Audit.antt =====
-- risk/kill_switch.py: what reading the audit says of its lines.
use investing_agents.Prelude.{◌≡◌, Option, none, some, List, [], ◌∷◌, ◌++◌, arith, ap, ⊤}
use investing_agents.Result.{ok}
use investing_agents.Domain.Types.{Digest, Environment}
use investing_agents.Risk.KillSwitch.{Event, read_from}

-- Each line names the recorded hash of the line before and records its own event's digest.
abbrev pub IsChain : (Event → Digest) → Digest → List (Event × Digest) → Type 0
IsChain digest previous [] = ⊤
IsChain digest previous ((e, h) ∷ rest) =
    (e.previous_hash ≡ previous) × (h ≡ digest e) × IsChain digest h rest

module _ (digest : Event → Digest) (environment : Environment) where
  pub read_from-append :
      (lines : List (Event × Digest)) (last l : Option Event) (previous h : Digest) (e : Event)
      → read_from digest environment last previous lines ≡ ok (l, h)
      → e.previous_hash ≡ h
      → read_from digest environment last previous (lines ++ (e, digest e) ∷ [])
        ≡ ok (some e, digest e)
  unfolding read_from
  read_from-append [] last l previous h e r p = ground arith
  read_from-append ((x, k) ∷ lines) last l previous h e r p =
      ground (arith, read_from-append lines (some x) l k h e)

  -- The line that was read last, and its checksum.
  read_from-last :
      (x : Event) (k : Digest) (lines : List (Event × Digest)) (last : Option Event) (e : Event)
      → (previous h : Digest)
      → read_from digest environment last previous ((x, k) ∷ lines) ≡ ok (some e, h)
      → (start : List (Event × Digest)) × ((x, k) ∷ lines ≡ start ++ (e, h) ∷ []) × (h ≡ digest e)
  unfolding read_from
  read_from-last x k [] last e previous h r = ([], ground arith, ground arith)
  read_from-last x k ((y, j) ∷ lines) last e previous h r =
      let (start, p, q) = read_from-last y j lines (some x) e k h (ground arith) in
      ((x, k) ∷ start, ap (λ t. (x, k) ∷ t) p, q)

  pub last_line :
      (lines : List (Event × Digest)) (e : Event) (h : Digest)
      → read_from digest environment none 0 lines ≡ ok (some e, h)
      → (start : List (Event × Digest)) × (lines ≡ start ++ (e, h) ∷ []) × (h ≡ digest e)
  last_line [] e h r = absurd (unfold read_from in ground arith)
  last_line ((x, k) ∷ lines) e h r = read_from-last x k lines none e 0 h r

  pub read_from-IsChain :
      (lines : List (Event × Digest)) (last l : Option Event) (previous h : Digest)
      → read_from digest environment last previous lines ≡ ok (l, h)
      → IsChain digest previous lines
  unfolding read_from
  read_from-IsChain [] last l previous h r = tt
  read_from-IsChain ((e, k) ∷ lines) last l previous h r =
      (ground arith, ground arith, read_from-IsChain lines (some e) l k h (ground arith))
