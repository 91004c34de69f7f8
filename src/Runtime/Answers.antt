-- ===== src/Runtime/Answers.antt =====
-- internal/runtime/runtime.go: what Start needs from outside.
use loqa_core.Base.{◌≡◌, ◌≢◌, refl, Bool, true, false, none, some, arith, String, List, ◌∷◌}
use loqa_core.Runtime.{Outcome, gives, fails, panics, ◌>>=◌, Outside, where_enabled}

abbrev pub IsOk {ℓ} : {A : Type ℓ} → Outcome A → Type ℓ
IsOk {A = A} m = (a : A) × (m ≡ gives a)

pub bind-IsOk {ℓ κ} :
    {A : Type ℓ} {B : Type κ} (m : Outcome A) (f : A → Outcome B)
    → IsOk m
    → ((a : A) → IsOk (f a))
    → IsOk (m >>= f)
bind-IsOk (gives a) f h k = k a
bind-IsOk (fails message) f (a, e) k = absurd (ground (arith, e))
bind-IsOk panics f (a, e) k = absurd (ground (arith, e))

pub where_enabled-IsOk {ℓ} :
    {A : Type ℓ} (enabled : Bool) (made : Outcome A)
    → (enabled ≡ true → IsOk made)
    → IsOk (where_enabled enabled made)
where_enabled-IsOk false made h = (none, refl)
where_enabled-IsOk true made h = bind-IsOk made _ (h refl) λ a. (some a, refl)

-- The libraries work: the exporters can be made, and NATS connects.
abbrev pub IsReachable : Outside → Type 0
IsReachable o =
    (o.library.resource_error ≡ none)
    × (o.library.otlp_error ≡ none)
    × (o.library.stdout_error ≡ none)
    × (o.nats.connect_error ≡ none)
    × (o.nats.jetstream_error ≡ none)

-- The bus takes each subscription.
abbrev pub IsOpenBus : Outside → Type 0
IsOpenBus o =
    (o.takes_announces ≡ true)
    × (o.takes_heartbeats ≡ true)
    × ((subject : String) → o.takes_skill subject ≡ true)
    × (o.takes_frames ≡ true)
    × (o.takes_requests ≡ true)
    × (o.takes_speech ≡ true)
    × (o.takes_transcripts ≡ true)
    × (o.takes_responses ≡ true)
    × (o.takes_status ≡ true)

abbrev pub IsGoodDisk : Outside → Type 0
IsGoodDisk o =
    (o.disk.made ≡ true)
    × (o.disk.opened ≡ true)
    × (o.disk.pinged ≡ true)
    × (o.disk.schema ≡ true)
    × (o.walk ≢ none)

-- A command that a mode runs has a first word.
abbrev pub HasWords : Outside → String → String → Type 0
HasWords o mode text =
    mode ≡ "exec" → (word : String) × (words : List String) × (o.words text ≡ gives (word ∷ words))
