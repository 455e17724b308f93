-- ===== src/Bootstrap.antt =====
-- src/mergemate/bootstrap.py: the loading of workflow plugins. A plugin is an action on any state; its
-- import and its registration are parameters.
use merge_mate.Base.{
  String, true, Option, none, some, List, [], ◌∷◌, ◌≡◌, refl, if◌then◌else◌, str_eq, select, not,
  All,
}
use merge_mate.World.Effects.{
  Exec, Outcome, ok, raised, pure, handle, try_except, ◌>>=◌, ◌>>◌, is_exception,
}

module _ {S : Type 0} where
  -- `try: …` and `except Exception:` with a warning.
  unfoldable pub contained : Exec S (Unit {0}) → Exec S (Unit {0})
  contained plugin = try_except is_exception plugin (λ e. pure tt)

  -- `discover_workflow_plugins`, for what `entry_points` gives: the load and the registration.
  unfoldable pub load_plugins : List (Exec S (Unit {0})) → Exec S (Unit {0})
  unfolding contained
  load_plugins [] = pure tt
  load_plugins (p ∷ ps) = contained p >> load_plugins ps

  -- The states in which one plugin after the other leaves the program, whether it raises or not.
  pub after_all : List (Exec S (Unit {0})) → S → S
  after_all [] s = s
  after_all (p ∷ ps) s = after_all ps (p s).1

  -- A plugin that raises nothing but an Exception.
  abbrev pub IsTame : Outcome (Unit {0}) × S → Type 0
  IsTame (ok a, s) = Unit
  IsTame (raised e, s) = is_exception e.kind ≡ true

  handle-tame :
      (r : Outcome (Unit {0})) (s : S)
      → IsTame (r, s)
      → handle is_exception (λ e. pure tt) r s ≡ (ok tt, s)
  handle-tame (ok a) s h = refl
  handle-tame (raised e) s h = rw h refl

  -- Every plugin is loaded, in the order of the list, and none stops those behind it.
  pub load_plugins-IsContained :
      (ps : List (Exec S (Unit {0}))) (s : S)
      → All (λ p. (t : S) → IsTame (p t)) ps
      → load_plugins ps s ≡ (ok tt, after_all ps s)
  unfolding load_plugins contained after_all
  load_plugins-IsContained [] s h = refl
  load_plugins-IsContained (p ∷ ps) s h =
      rw (handle-tame (p s).0 (p s).1 (h.0 s)) (load_plugins-IsContained ps (p s).1 h.1)

-- An entry of `workflow_plugins`: the module's path, and the other keys of a dictionary.
pub record PluginEntry : Type 0 where
  pub module_path : String
  pub plugin_config : List (String × String)

abbrev pub of_text : String → PluginEntry
of_text path = record { module_path = path; plugin_config = [] }

-- The first value of the key `module`, or an empty text.
unfoldable pub module_of : List (String × String) → String
module_of [] = ""
module_of ((k, v) ∷ rest) = if str_eq k "module" then v else module_of rest

unfoldable pub of_dictionary : List (String × String) → PluginEntry
unfolding module_of
of_dictionary entries = record {
  module_path = module_of entries;
  plugin_config = select (λ (e : String × String). not (str_eq e.0 "module")) entries;
}

module _ {S : Type 0}
    (import_module : String
      → Exec S (Option (Option (List (String × String)) → Exec S (Unit {0})))) where
  -- `register(config)` where there is a configuration, and `register()` otherwise; a module without
  -- it is passed over.
  abbrev pub config_or_none : List (String × String) → Option (List (String × String))
  config_or_none [] = none
  config_or_none (e ∷ es) = some (e ∷ es)

  abbrev pub registered :
      PluginEntry → Option (Option (List (String × String)) → Exec S (Unit {0})) → Exec S (Unit {0})
  registered entry none = pure tt
  registered entry (some register) = register (config_or_none entry.plugin_config)

  unfoldable pub config_plugin : PluginEntry → Exec S (Unit {0})
  config_plugin entry = import_module entry.module_path >>= registered entry

  unfoldable pub config_plugins : List PluginEntry → List (Exec S (Unit {0}))
  unfolding config_plugin
  config_plugins [] = []
  config_plugins (e ∷ es) = config_plugin e ∷ config_plugins es

  -- `_load_workflow_config_plugins`
  unfoldable pub load_workflow_config_plugins : List PluginEntry → Exec S (Unit {0})
  unfolding config_plugins load_plugins
  load_workflow_config_plugins entries = load_plugins (config_plugins entries)
