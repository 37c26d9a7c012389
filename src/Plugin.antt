-- ===== src/Plugin.antt =====
-- plugin/about.go, the RPCs of plugin/driver.go that answer with it, and main.go.
use nomad_driver_systemd.Prelude.{String, Bool, true, false, List, [], ◌∷◌, Option, none, some}
use nomad_driver_systemd.Prelude.Map.{Map}
use nomad_driver_systemd.Errors.{Result, ok}
use nomad_driver_systemd.Host.{Host}
use nomad_driver_systemd.Driver.{Driver}
use nomad_driver_systemd.Driver.Shutdown.{Progress, shutdown}

-- The constants of Nomad's packages that the plugin names, and hclspec's NewAttr, with the name, the
-- type and whether it is required, and NewObject.
pub record Nomad : Type 1 where
  pub PluginType : Type 0
  pub FsIsolation : Type 0
  pub NetIsolationMode : Type 0
  pub MountConfigSupport : Type 0
  pub Spec : Type 0
  pub plugin_type_driver : PluginType
  pub api_version_010 : String
  pub fs_isolation_none : FsIsolation
  pub net_isolation_mode_host : NetIsolationMode
  pub mount_config_support_none : MountConfigSupport
  pub new_attr : String → String → Bool → Spec
  pub new_object : Map Spec → Spec

abbrev pub plugin_name : String
plugin_name = "systemd"

abbrev pub plugin_version : String
plugin_version = "v0.1.0"

module _ (n : Nomad) where
  -- The fields that the plugin sets of base.PluginInfoResponse and drivers.Capabilities.
  pub record PluginInfo : Type 0 where
    pub plugin_type : n.PluginType
    pub api_versions : List String
    pub version : String
    pub name : String

  pub record Capabilities : Type 0 where
    pub send_signals : Bool
    pub exec : Bool
    pub fs_isolation : n.FsIsolation
    pub net_isolation_modes : List n.NetIsolationMode
    pub must_initiate_network : Bool
    pub mount_configs : n.MountConfigSupport

  abbrev pub plugin_info : PluginInfo
  plugin_info = record {
    plugin_type = n.plugin_type_driver;
    api_versions = n.api_version_010 ∷ [];
    version = plugin_version;
    name = plugin_name;
  }

  abbrev pub capabilities : Capabilities
  capabilities = record {
    send_signals = false;
    exec = false;
    fs_isolation = n.fs_isolation_none;
    net_isolation_modes = n.net_isolation_mode_host ∷ [];
    must_initiate_network = false;
    mount_configs = n.mount_config_support_none;
  }

  abbrev pub config_spec : n.Spec
  config_spec = n.new_object (
      ("allowed_units", n.new_attr "allowed_units" "list(string)" false)
      ∷ ("denied_units", n.new_attr "denied_units" "list(string)" false)
      ∷ ("pprof_addr", n.new_attr "pprof_addr" "string" false)
      ∷ [])

  abbrev pub task_config_spec : n.Spec
  task_config_spec = n.new_object (("unit", n.new_attr "unit" "string" true) ∷ [])

  -- The RPCs PluginInfo, ConfigSchema, TaskConfigSchema and Capabilities, which never fail.
  abbrev pub answer_plugin_info : Driver → Result PluginInfo
  answer_plugin_info d = ok plugin_info

  abbrev pub answer_config_schema : Driver → Result n.Spec
  answer_config_schema d = ok config_spec

  abbrev pub answer_task_config_schema : Driver → Result n.Spec
  answer_task_config_schema d = ok task_config_spec

  abbrev pub answer_capabilities : Driver → Result Capabilities
  answer_capabilities d = ok capabilities

module _ ⦃h : Host⦄ where
  open h use {World}

  -- main once Serve has returned: `served` is the Driver that the factory made, if it was called, in
  -- the state to which Nomad's calls have brought it.
  abbrev pub main : Option Driver → Progress → World → Option Driver × World
  main none progress w = (none, w)
  main (some d) progress w = let (d', w') = shutdown progress d w in (some d', w')
