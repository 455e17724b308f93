-- ===== src/Tooling/Installer.antt =====
-- src/mergemate/infrastructure/tools/builtin/package_installer.py. The name is the one of the payload,
-- stripped.
use merge_mate.Base.{
  String, Bool, true, false, not, ◌&&◌, List, [], ◌∷◌, ◌++◌, ◌≡◌, inl, inr, refl, str_eq, elem,
  if◌then◌else◌, text_append, Bool-cases,
}
use merge_mate.Base.Texts.{join}
use merge_mate.Tooling.Processes.{
  ToolReply, reply, Completed, not_found, timed_out, exited, Machine, Runner, run_command, or_text,
}

pub record PackageInstaller : Type 0 where
  pub allow_package_install : Bool
  pub allowed_packages : List String
  pub pip_executable : String
  pub timeout_text : String

-- `self._allowed_packages and package_name not in self._allowed_packages`
abbrev pub is_listed : String → List String → Bool
is_listed name [] = true
is_listed name (p ∷ ps) = elem name (p ∷ ps)

module _ (t : PackageInstaller) where
  abbrev pub installed : String → Completed → ToolReply
  installed name not_found =
      reply "error" (join "" ("Executable " ∷ t.pip_executable ∷ " was not found." ∷ []))
  installed name timed_out =
      reply "error" (join "" ("pip install timed out after " ∷ t.timeout_text ∷ "s." ∷ []))
  installed name (exited true out err) =
      reply "installed" (or_text out (text_append "Installed " name))
  installed name (exited false out err) =
      reply "error" (or_text err (or_text out "pip install failed"))

  abbrev pub pip_command : String → List String
  pip_command name = t.pip_executable ∷ "-m" ∷ "pip" ∷ "install" ∷ name ∷ []

  module _ {W : Type 0} (run : Runner W) where
    unfoldable pub install : String → Machine W → ToolReply × Machine W
    unfolding run_command
    install name m =
        let (completed, m') = run_command run (pip_command name) m in (installed name completed, m')

    -- `PackageInstallerTool.invoke`
    unfoldable pub invoke_installer : String → Machine W → ToolReply × Machine W
    unfolding install
    invoke_installer name m =
        let refused = join "" ("Package " ∷ name ∷ " is not in the allowed_packages list." ∷ []) in
        if not t.allow_package_install
        then (reply "blocked" "Package installation is disabled by configuration.", m)
        else if str_eq name ""
        then (reply "error" "package_name is required.", m)
        else if not (is_listed name t.allowed_packages)
        then (reply "blocked" refused, m)
        else install name m

    -- The conditions under which a package may be installed.
    abbrev pub may_install : String → Bool
    may_install name =
        t.allow_package_install && (not (str_eq name "") && is_listed name t.allowed_packages)

    -- The package installer starts a program exactly if installation is allowed, the package has a
    -- name, and the list of allowed packages is empty or has it; the program is then pip for this
    -- package, and it is started once.
    pub invoke_installer-commands :
        (name : String) (m : Machine W)
        → (invoke_installer name m).1.commands
          ≡ (if may_install name then m.commands ++ pip_command name ∷ [] else m.commands)
    unfolding invoke_installer install run_command
    invoke_installer-commands name m = elim (Bool-cases t.allow_package_install) [
      | inr a ↦ rw a refl
      | inl a ↦ elim (Bool-cases (str_eq name "")) [
        | inl b ↦ rw (a, b) refl
        | inr b ↦ elim (Bool-cases (is_listed name t.allowed_packages)) [
          | inr c ↦ rw (a, b, c) refl
          | inl c ↦ rw (a, b, c) refl
        ]
      ]
    ]
