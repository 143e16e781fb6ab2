-- ===== src/Jobs/Recovery.antt =====
-- About `_reconcile` (app/jobs.py).
use mathlib.Core.Path.{subst}
use mathlib.Core.Option.{some-injective}
use bless_forge.Base.{
  ℕ, ◌-◌, ◌*◌, ◌≤◌, ◌≡◌, refl, sym, ◌≢◌, ◌⊎◌, inl, inr, Bool, true, false, not, ◌||◌, Option, none,
  some, arith, Bool-cases, nat_eq, string_eq, Text, text_eq,
}
use bless_forge.Jobs.Registry.{Stored, settled, is_lost, reconcile}

module _ (heartbeat_ttl : ℕ) (alive : Text → Bool) where
  -- Looking at a job again, at any time and whatever became of its owner's heartbeat, changes
  -- nothing once it was declared interrupted: the second `end` frame is never written.
  pub reconcile_once :
      (now : ℕ) (s : Stored)
      → reconcile heartbeat_ttl alive now s ≢ s
      → (later : ℕ) (alive' : Text → Bool)
      → reconcile heartbeat_ttl alive' later (reconcile heartbeat_ttl alive now s)
        ≡ reconcile heartbeat_ttl alive now s
  unfolding reconcile
  reconcile_once now s changed later alive' =
      elim (Bool-cases (
        settled s.snapshot.status
        || not (is_lost heartbeat_ttl alive now s.snapshot.owner s.snapshot.updated))) [
          | inl e ↦ absurd (changed (rw e refl))
          | inr e ↦ rw e refl
        ]

  unmoved :
      (now : ℕ) (s : Stored)
      → (settled s.snapshot.status
          || not (is_lost heartbeat_ttl alive now s.snapshot.owner s.snapshot.updated))
        ≡ true
      → reconcile heartbeat_ttl alive now s ≡ s
  unfolding reconcile
  unmoved now s e = rw e refl

  not_lost :
      (now : ℕ) (owner : Option Text) (updated : ℕ)
      → (owner ≡ none)
        ⊎ (now - updated ≤ heartbeat_ttl * 1000)
        ⊎ ((name : Text) × (owner ≡ some name) × (alive name ≡ true))
      → is_lost heartbeat_ttl alive now owner updated ≡ false
  not_lost now none updated h = refl
  not_lost now (some owner) updated (inl e) = ground arith
  not_lost now (some owner) updated (inr (inl le)) = ground arith
  not_lost now (some owner) updated (inr (inr (name, e, beats))) =
      rw (subst (λ n. alive n ≡ true) (sym (some-injective owner name e)) beats) (ground arith)

  -- A job that is over or waits in the queue, one without an owner, one that was written lately
  -- and one whose owner beats are left as they are.
  pub reconcile_leaves :
      (now : ℕ) (s : Stored)
      → (settled s.snapshot.status ≡ true)
        ⊎ (s.snapshot.owner ≡ none)
        ⊎ (now - s.snapshot.updated ≤ heartbeat_ttl * 1000)
        ⊎ ((owner : Text) × (s.snapshot.owner ≡ some owner) × (alive owner ≡ true))
      → reconcile heartbeat_ttl alive now s ≡ s
  reconcile_leaves now s (inl e) = unmoved now s (ground arith)
  reconcile_leaves now s (inr h) =
      let e = not_lost now s.snapshot.owner s.snapshot.updated h in unmoved now s (ground arith)
