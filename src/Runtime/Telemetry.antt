-- ===== src/Runtime/Telemetry.antt =====
-- internal/runtime/telemetry.go. The OpenTelemetry and Prometheus libraries answer with their errors.
use loqa_core.Base.{
  String, ◌==◌, Bool, true, false, Option, none, some, List, [], ◌∷◌, if◌then◌else◌,
}
use loqa_core.Config.{Config}
use loqa_core.Config.Values.{trim_space}

pub data Exporter : Type 0 where
  otlp : String → Bool → Exporter
  standard_output : Exporter

-- A trace.TracerProvider with its batcher's exporter, and a metric.MeterProvider with its reader, if
-- it has one.
pub data Provider : Type 0 where
  tracer : Exporter → Provider
  meter : Bool → Provider

-- The errors of resource.New, otlptracegrpc.New, stdouttrace.New, prometheus.New and the two Shutdowns.
pub record Library : Type 0 where
  pub resource_error : Option String
  pub otlp_error : Option String
  pub stdout_error : Option String
  pub prometheus_error : Option String
  pub meter_shutdown_error : Option String
  pub trace_shutdown_error : Option String

-- A value, an error, or a panic.
pub data Outcome {ℓ} (A : Type ℓ) : Type ℓ where
  gives : A → Outcome A
  fails : String → Outcome A
  panics : Outcome A

abbrev pub or_error {ℓ} : {A : Type ℓ} → Option String → A → Outcome A
or_error none value = gives value
or_error (some message) value = fails message

infixl 5 ◌>>=◌
abbrev pub ◌>>=◌ {ℓ κ} : {A : Type ℓ} {B : Type κ} → Outcome A → (A → Outcome B) → Outcome B
gives value >>= f = f value
fails message >>= f = fails message
panics >>= f = panics

unfoldable pub init_tracer : Config → Library → Outcome Provider
init_tracer cfg library =
    let endpoint = trim_space cfg.telemetry.otlp_endpoint in
    if endpoint == ""
    then or_error library.stdout_error (tracer standard_output)
    else or_error library.otlp_error (tracer (otlp endpoint cfg.telemetry.otlp_insecure))

-- The meter, and whether there is a handler of the metrics. It gives no error.
unfoldable pub init_metrics : Library → Outcome (Provider × Bool)
init_metrics library = elim library.prometheus_error [
  | none ↦ gives (meter true, true)
  | some message ↦ gives (meter false, false)
]

-- The two providers, and whether there is a handler of the metrics.
pub record Providers : Type 0 where
  pub trace_provider : Provider
  pub meter_provider : Provider
  pub has_handler : Bool

unfoldable pub setup_telemetry : Config → Library → Outcome Providers
setup_telemetry cfg library = do
  resource ← or_error library.resource_error cfg.runtime_name
  provider ← init_tracer cfg library
  made ← init_metrics library
  gives (record { trace_provider = provider; meter_provider = made.0; has_handler = made.1 })

abbrev pub add_error : Option String → List String → List String
add_error none errors = errors
add_error (some message) errors = message ∷ errors

-- The shutdown function: what it shuts down, in order, and the errors that it joins.
unfoldable pub shutdown : Library → Providers → List Provider × List String
shutdown library telemetry = (
  telemetry.meter_provider ∷ telemetry.trace_provider ∷ [],
  add_error library.meter_shutdown_error (add_error library.trace_shutdown_error []),
)
