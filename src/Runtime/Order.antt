-- ===== src/Runtime/Order.antt =====
-- internal/runtime/runtime.go:198-238: the order of the closes.
use loqa_core.Base.{
  ℕ, ◌≡◌, refl, ap, sym, ◌∙◌, Bool, true, false, not, List, [], ◌∷◌, ◌++◌, eqb, keep_if, count_if,
  if◌then◌else◌, arith, ◌≤◌, ◌+◌,
}
use loqa_core.Bus.Client.{
  ConnectionEvent, connected, drained, closed, is_connected, close as close_client,
  healthy as client_healthy,
}
use loqa_core.Runtime.{Runtime, handle_ready}
use loqa_core.Runtime.Shutdown.{
  Part, http_api, metrics_api, node_registry, speech_input, language_model, speech_output,
  voice_router, skill_host, event_database, bus_connection, exporters, Action, closes, waits,
  shutdown_order, has_part, is_due, stop_actions, stop,
}

abbrev pub index : Part → ℕ
index http_api = 0
index metrics_api = 1
index node_registry = 2
index speech_input = 3
index language_model = 4
index speech_output = 5
index voice_router = 6
index skill_host = 7
index event_database = 8
index bus_connection = 9
index exporters = 10

abbrev pub is_closing : Part → Action → Bool
is_closing part (closes other) = eqb (index part) (index other)
is_closing part waits = false

-- The actions after the close of a part.
abbrev pub after_close : Part → List Action → List Action
after_close part [] = []
after_close part (action ∷ actions) =
    if is_closing part action then actions else after_close part actions

-- Which part uses which: the services and the registry use the bus, the skills also the store; and all
-- else is traced.
abbrev pub uses : Part → Part → Bool
uses node_registry bus_connection = true
uses speech_input bus_connection = true
uses language_model bus_connection = true
uses speech_output bus_connection = true
uses voice_router bus_connection = true
uses skill_host bus_connection = true
uses skill_host event_database = true
uses part exporters = not (eqb (index part) 10)
uses part other = false

count_if-keep_if-le :
    (p h : Action → Bool) (xs : List Action) → count_if p (keep_if h xs) ≤ count_if p xs
count_if-keep_if-le p h [] = omega arith
count_if-keep_if-le p h (x ∷ xs) = ground (arith, count_if-keep_if-le p h xs)

count_if-after_close-le :
    (p : Action → Bool) (part : Part) (xs : List Action)
    → count_if p (after_close part xs) ≤ count_if p xs
count_if-after_close-le p part [] = omega arith
count_if-after_close-le p part (x ∷ xs) = ground (arith, count_if-after_close-le p part xs)

-- What is not there is left out of the order, and nothing else moves.
after_close-keep_if :
    (p h : Action → Bool) (part : Part) (xs : List Action)
    → count_if p (after_close part (keep_if h xs)) ≤ count_if p (after_close part xs)
after_close-keep_if p h part [] = omega arith
after_close-keep_if p h part (x ∷ xs) = ground (
  arith,
  after_close-keep_if p h part xs,
  count_if-after_close-le p part (keep_if h xs),
  count_if-keep_if-le p h xs,
)

used_after :
    (user used : Part)
    → uses user used ≡ true
    → count_if (is_closing user) (after_close used shutdown_order) ≡ 0
used_after http_api exporters h = refl
used_after metrics_api exporters h = refl
used_after node_registry bus_connection h = refl
used_after node_registry exporters h = refl
used_after speech_input bus_connection h = refl
used_after speech_input exporters h = refl
used_after language_model bus_connection h = refl
used_after language_model exporters h = refl
used_after speech_output bus_connection h = refl
used_after speech_output exporters h = refl
used_after voice_router bus_connection h = refl
used_after voice_router exporters h = refl
used_after skill_host event_database h = refl
used_after skill_host bus_connection h = refl
used_after skill_host exporters h = refl
used_after event_database exporters h = refl
used_after bus_connection exporters h = refl
used_after exporters http_api h = absurd (ground (arith, h))
used_after exporters metrics_api h = absurd (ground (arith, h))
used_after exporters node_registry h = absurd (ground (arith, h))
used_after exporters speech_input h = absurd (ground (arith, h))
used_after exporters language_model h = absurd (ground (arith, h))
used_after exporters speech_output h = absurd (ground (arith, h))
used_after exporters voice_router h = absurd (ground (arith, h))
used_after exporters skill_host h = absurd (ground (arith, h))
used_after exporters event_database h = absurd (ground (arith, h))
used_after exporters bus_connection h = absurd (ground (arith, h))
used_after exporters exporters h = absurd (ground (arith, h))
used_after user used h = absurd (ground (arith, h))

closed_once : (part : Part) → count_if (is_closing part) shutdown_order ≡ 1
closed_once http_api = refl
closed_once metrics_api = refl
closed_once node_registry = refl
closed_once speech_input = refl
closed_once language_model = refl
closed_once speech_output = refl
closed_once voice_router = refl
closed_once skill_host = refl
closed_once event_database = refl
closed_once bus_connection = refl
closed_once exporters = refl

same_part : (part other : Part) → is_closing part (closes other) ≡ true → part ≡ other
same_part http_api http_api h = refl
same_part metrics_api metrics_api h = refl
same_part node_registry node_registry h = refl
same_part speech_input speech_input h = refl
same_part language_model language_model h = refl
same_part speech_output speech_output h = refl
same_part voice_router voice_router h = refl
same_part skill_host skill_host h = refl
same_part event_database event_database h = refl
same_part bus_connection bus_connection h = refl
same_part exporters exporters h = refl
same_part part other h = absurd (ground (arith, h))

count_if-if :
    (p : Action → Bool) (due : Bool) (x : Action) (xs : List Action)
    → count_if p (if due then x ∷ xs else xs)
      ≡ (if due then (if p x then 1 else 0) else 0) + count_if p xs
count_if-if p true x xs = refl
count_if-if p false x xs = omega arith

add_due :
    (hit due wanted : Bool) (n : ℕ)
    → (hit ≡ true → wanted ≡ due)
    → (if due then (if hit then 1 else 0) else 0) + (if wanted then n else 0)
      ≡ (if wanted then (if hit then 1 else 0) + n else 0)
add_due true due wanted n h = rw (h refl) (ground arith)
add_due false due wanted n h = ground arith

zero_plus : (n : ℕ) → 0 + n ≡ n
zero_plus n = omega arith

-- A part that is there keeps its close, and one that is not has none.
count_if-keep_if-due :
    (r : Runtime) (part : Part) (xs : List Action)
    → count_if (is_closing part) (keep_if (is_due r) xs)
      ≡ (if has_part r part then count_if (is_closing part) xs else 0)
count_if-keep_if-due r part [] = ground arith
count_if-keep_if-due r part (waits ∷ xs) =
    zero_plus _
    ∙ count_if-keep_if-due r part xs
    ∙ ap (λ n. if has_part r part then n else 0) (sym (zero_plus (count_if (is_closing part) xs)))
count_if-keep_if-due r part (closes other ∷ xs) =
    count_if-if (is_closing part) (has_part r other) (closes other) (keep_if (is_due r) xs)
    ∙ ap
        (λ n.
          (if has_part r other then (if is_closing part (closes other) then 1 else 0) else 0) + n)
        (count_if-keep_if-due r part xs)
    ∙ add_due (is_closing part (closes other)) (has_part r other) (has_part r part) _
        (λ h. ap (has_part r) (same_part part other h))

-- The shutdown closes each part that the runtime has once, and none that it has not; and after the close
-- of a part, none that uses it is closed: the services and the registry go before the bus, the skills
-- before the store, and all before the exporters of the telemetry.
pub stop_actions-order :
    (r : Runtime) (part used : Part)
    → (count_if (is_closing part) (stop_actions r) ≡ (if has_part r part then 1 else 0))
      × (uses part used ≡ true → count_if (is_closing part) (after_close used (stop_actions r)) ≡ 0)
unfolding stop_actions
stop_actions-order r part used = (
  rw (count_if-keep_if-due r part shutdown_order, closed_once part) refl,
  λ h. omega (
    arith,
    used_after part used h,
    after_close-keep_if (is_closing part) (is_due r) used shutdown_order,
  ),
)

still_closed :
    (status : Bool) (events : List ConnectionEvent)
    → is_connected status (events ++ drained ∷ closed ∷ []) ≡ false
still_closed status [] = refl
still_closed status (connected url options ∷ events) = still_closed true events
still_closed status (drained ∷ events) = still_closed false events
still_closed status (closed ∷ events) = still_closed false events

-- A runtime that has stopped is not ready, although its flag stays set: its connection is closed.
pub handle_ready-stop : (r : Runtime) → handle_ready (stop r) ≡ (503, "not ready")
unfolding handle_ready stop close_client client_healthy
handle_ready-stop r = rw (still_closed false r.bus_client.events) (ground arith)
