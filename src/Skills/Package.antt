-- ===== src/Skills/Package.antt =====
-- internal/skills/manifest/manifest.go: the manifest and its checks.
use loqa_core.Base.{String, ◌==◌, Bool, not, ◌&&◌, Option, none, List, is_empty}
use loqa_core.Config.Validate.{refuse}

pub record Metadata : Type 0 where
  pub name : String
  pub version : String
  pub description : String
  pub author : String
  pub tags : List String

pub record RuntimeSpec : Type 0 where
  pub mode : String
  pub entry_module : String
  pub entrypoint : String
  pub host_version : String

pub record BusSpec : Type 0 where
  pub publish : List String
  pub subscribe : List String

pub record StorageSpec : Type 0 where
  pub kv : Bool

pub record Capabilities : Type 0 where
  pub bus : BusSpec
  pub storage : StorageSpec
  pub timers : Bool

pub record Surfaces : Type 0 where
  pub voice : Bool
  pub display : Bool
  pub automations : Bool

pub record Manifest : Type 0 where
  pub metadata : Metadata
  pub runtime : RuntimeSpec
  pub capabilities : Capabilities
  pub permissions : List String
  pub surfaces : Surfaces

-- The error without its arguments, if there is one. A mode other than "wasm" is an error whatever the module is.
unfoldable pub validate : Manifest → Option String
validate m = refuse (m.metadata.name == "") "metadata.name is required" (
    refuse (m.metadata.version == "") "metadata.version is required" (
      refuse (m.runtime.mode == "") "runtime.mode is required" (
        refuse (not (m.runtime.mode == "wasm")) "runtime.mode not supported" (
          refuse (m.runtime.entry_module == "") "runtime.module is required for wasm" (
            refuse (m.runtime.entrypoint == "") "runtime.entrypoint is required for wasm" (
              refuse (is_empty m.capabilities.bus.publish && is_empty m.capabilities.bus.subscribe)
                "capabilities.bus must declare publish or subscribe subjects"
                (refuse (is_empty m.permissions) "permissions must include at least one entry"
                  none)))))))
