-- ===== src/Stt/Throttle.antt =====
-- internal/stt/service.go: how often partial transcripts are asked for.
use loqa_core.Base.{
  ℕ, ◌+◌, ◌-◌, ◌*◌, ◌^◌, ◌≤◌, ◌<◌, ◌≡◌, ◌⊎◌, ◌↔◌, inl, inr, String, true, false, some, lookup,
  lookup-insert_self, Time, zero_time, time_sub_past, scale_fits, millisecond, pos, arith, refl,
  Bool-cases, sym, ◌∙◌,
}
use loqa_core.Config.{SttConfig}
use loqa_core.Stt.{SessionState, Sessions, is_partial_due, should_schedule_partial}

-- A partial transcript may be asked for: none is being made, and it is the session's first or the
-- configured interval, which must be positive, has passed since the last.
abbrev pub IsDue : ℕ → Time → SessionState → Type 0
IsDue every_ms now state =
    (state.inflight ≡ false)
    × ((state.last_partial ≡ zero_time)
        ⊎ ((0 < every_ms) × (state.last_partial + millisecond * every_ms ≤ now)))

is_partial_due_iff :
    (cfg : SttConfig) (every_ms : ℕ) (now : Time) (state : SessionState)
    → cfg.partial_every_ms ≡ pos every_ms
    → millisecond * every_ms < 2 ^ 63
    → state.last_partial ≤ now
    → now - state.last_partial < 2 ^ 63
    → (is_partial_due cfg now state ≡ true) ↔ IsDue every_ms now state
is_partial_due_iff cfg every_ms now state e fits past recent =
    rw (e, scale_fits millisecond every_ms fits, time_sub_past now state.last_partial past recent)
      (ground arith)

-- For a session that is there, with an interval and a time since the last partial transcript that
-- fit a time.Duration: a partial transcript is granted exactly if it is due, the time of a grant is
-- noted in the session, and a refusal changes nothing.
pub should_schedule_partial_iff :
    (cfg : SttConfig) (every_ms : ℕ) (now stamp : Time) (k : String) (m : Sessions)
    (state : SessionState)
    → lookup k m ≡ some state
    → cfg.partial_every_ms ≡ pos every_ms
    → millisecond * every_ms < 2 ^ 63
    → state.last_partial ≤ now
    → now - state.last_partial < 2 ^ 63
    → let r = should_schedule_partial cfg now stamp k m in
      ((r.1 ≡ true) ↔ IsDue every_ms now state)
      × (r.1 ≡ true → lookup k r.0 ≡ some (record state { last_partial = stamp }))
      × (r.1 ≡ false → r.0 ≡ m)
unfolding should_schedule_partial
should_schedule_partial_iff cfg every_ms now stamp k m state e interval fits past recent =
    elim (Bool-cases (is_partial_due cfg now state)) [
      | inl due ↦
          rw (e, should_schedule_partial)
            (rw due (
              (λ _. iff.0 due, λ _. refl),
              λ _. lookup-insert_self k (record state { last_partial = stamp }) m,
              λ h. cc,
            ))
      | inr early ↦
          rw (e, should_schedule_partial)
            (rw early ((λ h. cc, λ h. sym early ∙ iff.1 h), λ h. cc, λ _. refl))
    ]
  where
    iff : (is_partial_due cfg now state ≡ true) ↔ IsDue every_ms now state
    iff = is_partial_due_iff cfg every_ms now state interval fits past recent
