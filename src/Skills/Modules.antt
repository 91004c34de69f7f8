-- ===== src/Skills/Modules.antt =====
-- internal/skills/runtime/runtime.go, New, Load, Close and Invoke: what wazero is asked to open and to
-- close. What it answers is an argument.
use loqa_core.Base.{
  ℕ, ◌≡◌, refl, String, ◌==◌, Bool, true, false, not, ◌&&◌, Option, none, some, List, [], ◌∷◌, ◌++◌,
  count_if, if◌then◌else◌, if_all, arith, eq_iff,
}
use loqa_core.Skills.Package.{Manifest}

pub data Resource : Type 0 where
  wasm_runtime compiled_module instance_module : Resource

pub data Event : Type 0 where
  opens : Resource → Event
  closes : Resource → Event

-- What works: the host module and WASI; the file, its compilation, its instantiation, and the entrypoint; the
-- two closes; and the run.
pub record Wazero : Type 0 where
  pub takes_host : Bool
  pub takes_wasi : Bool
  pub reads : Bool
  pub compiles : Bool
  pub instantiates : Bool
  pub has_entry : Bool
  pub closes_module : Bool
  pub closes_compiled : Bool
  pub completes : Bool

-- The events, and whether there was no error.
unfoldable pub new_runtime : Wazero → List Event × Bool
new_runtime w = (opens wasm_runtime ∷ [], w.takes_host && w.takes_wasi)

unfoldable pub load_skill : Wazero → Manifest → List Event × Bool
load_skill w m =
    if not (m.runtime.mode == "wasm")
    then ([], false)
    else if not w.reads
    then ([], false)
    else if not w.compiles
    then ([], false)
    else if not w.instantiates
    then (opens compiled_module ∷ closes compiled_module ∷ [], false)
    else if not w.has_entry
    then (
      opens compiled_module
          ∷ opens instance_module
          ∷ closes instance_module
          ∷ closes compiled_module
          ∷ [],
      false,
    )
    else (opens compiled_module ∷ opens instance_module ∷ [], true)

-- The compiled module is left as it is when the close of the instance fails.
unfoldable pub close_skill : Wazero → List Event × Bool
close_skill w =
    if not w.closes_module
    then (closes instance_module ∷ [], false)
    else (closes instance_module ∷ closes compiled_module ∷ [], w.closes_compiled)

-- Publishing without the host's functions is refused.
pub record HostBindings : Type 0 where
  pub allow_publish : Option (String → Option String)
  pub publish : Option (String → List ℕ → Option String)

abbrev pub or_default {ℓ} : {A : Type ℓ} → A → Option A → Option A
or_default fallback none = some fallback
or_default fallback (some value) = some value

unfoldable pub ensure_bindings : HostBindings → HostBindings
ensure_bindings h = record {
  allow_publish = or_default (λ subject. some "publish disallowed") h.allow_publish;
  publish = or_default (λ subject payload. some "publish unsupported") h.publish;
}

abbrev pub is_open_of : Resource → Event → Bool
is_open_of compiled_module (opens compiled_module) = true
is_open_of instance_module (opens instance_module) = true
is_open_of wasm_runtime (opens wasm_runtime) = true
is_open_of resource event = false

abbrev pub is_close_of : Resource → Event → Bool
is_close_of compiled_module (closes compiled_module) = true
is_close_of instance_module (closes instance_module) = true
is_close_of wasm_runtime (closes wasm_runtime) = true
is_close_of resource event = false

-- Each resource that the events open is closed by them.
abbrev pub IsBalanced : List Event → Type 0
IsBalanced events =
    (resource : Resource)
    → count_if (is_open_of resource) events ≡ count_if (is_close_of resource) events

-- A failed load is balanced, and one that works is with the close of the skill.
abbrev IsLoad : Wazero → Manifest → List Event × Bool → Type 0
IsLoad w m (events, loaded) =
    (loaded ≡ false → IsBalanced events)
    × (loaded ≡ true
        → (m.runtime.mode ≡ "wasm")
          × (w.closes_module ≡ true → IsBalanced (events ++ (close_skill w).0)))

failed-IsLoad :
    (w : Wazero) (m : Manifest) (events : List Event)
    → IsBalanced events
    → IsLoad w m (events, false)
failed-IsLoad w m events h = (λ e. h, λ e. absurd (ground (arith, e)))

each_resource :
    (events : List Event)
    → count_if (is_open_of wasm_runtime) events ≡ count_if (is_close_of wasm_runtime) events
    → count_if (is_open_of compiled_module) events ≡ count_if (is_close_of compiled_module) events
    → count_if (is_open_of instance_module) events ≡ count_if (is_close_of instance_module) events
    → IsBalanced events
each_resource events h k l wasm_runtime = h
each_resource events h k l compiled_module = k
each_resource events h k l instance_module = l

abbrev compiled_only : List Event
compiled_only = opens compiled_module ∷ closes compiled_module ∷ []

abbrev both_closed : List Event
both_closed =
    opens compiled_module
    ∷ opens instance_module
    ∷ closes instance_module
    ∷ closes compiled_module
    ∷ []

closed-IsBalanced :
    (w : Wazero)
    → w.closes_module ≡ true
    → IsBalanced (opens compiled_module ∷ opens instance_module ∷ (close_skill w).0)
unfolding close_skill
closed-IsBalanced w e = rw e (each_resource both_closed refl refl refl)

-- A load that fails closes what it has opened. One that succeeds has a WebAssembly manifest, and the close of
-- its skill, if the instance's close works, closes the rest.
pub load_skill-IsBalanced :
    (w : Wazero) (m : Manifest)
    → let (events, loaded) = load_skill w m in
      (loaded ≡ false → IsBalanced events)
      × (loaded ≡ true
          → (m.runtime.mode ≡ "wasm")
            × (w.closes_module ≡ true → IsBalanced (events ++ (close_skill w).0)))
unfolding load_skill
load_skill-IsBalanced w m =
    if_all (IsLoad w m) (not (m.runtime.mode == "wasm"))
      (λ other. failed-IsLoad w m [] (each_resource [] refl refl refl))
      λ wasm.
        if_all (IsLoad w m) (not w.reads)
          (λ f. failed-IsLoad w m [] (each_resource [] refl refl refl))
          λ reads.
            if_all (IsLoad w m) (not w.compiles)
              (λ f. failed-IsLoad w m [] (each_resource [] refl refl refl))
              λ compiles.
                if_all (IsLoad w m) (not w.instantiates)
                  (λ f.
                    failed-IsLoad w m compiled_only (each_resource compiled_only refl refl refl))
                  λ instantiates.
                    if_all (IsLoad w m) (not w.has_entry)
                      (λ f.
                        failed-IsLoad w m both_closed (each_resource both_closed refl refl refl))
                      λ has_entry. (
                        λ e. absurd (ground (arith, e)),
                        λ e. (
                          ground (arith, wasm, eq_iff m.runtime.mode "wasm"),
                          closed-IsBalanced w,
                        ),
                      )
