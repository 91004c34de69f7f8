-- ===== src/EventStore/Overflow.antt =====
-- internal/eventstore/store.go:203: a retention of more days than a Duration can hold.
use loqa_core.Base.{
  ℕ, zero, suc, ◌*◌, ◌^◌, ◌≤◌, ◌<◌, ◌≡◌, refl, Bool, true, not, List, [], ◌∷◌, keep_if, All,
  All-map, Time, ltb, arith, Bool-cases, inl, inr, ℤ, pos, wrap64, scale, int_ltb,
}
use loqa_core.Config.{EventStoreConfig}
use loqa_core.EventStore.{
  Tables, delete_sessions, delete_events_before, delete_surplus, expire, prune_surplus, pruned,
  cutoff_at, day,
}
use loqa_core.EventStore.Retention.{is_pruning}

cutoff_at-overflow :
    (now : Time) (d : ℕ) → 2 ^ 63 < day * d → day * d < 2 ^ 64 → now < cutoff_at now (pos d)
unfolding cutoff_at scale wrap64
cutoff_at-overflow now zero h k = absurd (omega (arith, h))
cutoff_at-overflow now (suc n) h k = ground arith

keep_if-none {ℓ} :
    {A : Type ℓ} (p : A → Bool) (xs : List A)
    → All (λ x. p x ≡ true) xs
    → keep_if (λ x. not (p x)) xs ≡ []
keep_if-none p [] h = refl
keep_if-none p (x ∷ xs) h = rw h.0 (keep_if-none p xs h.1)

expire_everything :
    (cutoff now : Time) (t : Tables)
    → now < cutoff
    → All (λ e. e.1.created_at ≤ now) t.sessions
    → All (λ e. e.created_at ≤ now) t.events
    → expire cutoff t ≡ record t { sessions = []; events = [] }
unfolding delete_sessions delete_events_before
expire_everything cutoff now t h s e =
    rw
      (
        keep_if-none (λ x. ltb x.1.created_at cutoff) t.sessions
            (All-map _ _ t.sessions (λ x k. ground arith) s),
        keep_if-none (λ x. ltb x.created_at cutoff) t.events
            (All-map _ _ t.events (λ x k. ground arith) e),
      )
      refl

prune_surplus-empty :
    (limit : ℤ) (t : Tables)
    → prune_surplus limit (record t { sessions = []; events = [] })
      ≡ record t { sessions = []; events = [] }
unfolding delete_surplus delete_sessions
prune_surplus-empty limit t = elim (Bool-cases (int_ltb (pos 0) limit)) [
  | inl e ↦ rw e refl
  | inr e ↦ rw e refl
]

-- In session and persistent mode, a number of days whose nanoseconds lie between 2 ^ 63 and 2 ^ 64,
-- which is 106752 to 213503 days, makes a prune delete every session and every event, though none
-- is older than now: the Duration wraps round and the cutoff lies in the future.
pub pruned-overflow :
    (cfg : EventStoreConfig) (now : Time) (t : Tables) (days : ℕ)
    → is_pruning cfg ≡ true
    → cfg.retention_days ≡ pos days
    → 2 ^ 63 < day * days
    → day * days < 2 ^ 64
    → All (λ e. e.1.created_at ≤ now) t.sessions
    → All (λ e. e.created_at ≤ now) t.events
    → pruned cfg now t ≡ record t { sessions = []; events = [] }
unfolding pruned
pruned-overflow cfg now t days mode d big small s e =
    let runs : int_ltb (pos 0) (pos days) ≡ true = ground arith in
    rw (mode, d, runs, expire_everything _ now t (cutoff_at-overflow now days big small) s e)
      (prune_surplus-empty cfg.max_sessions t)
