-- ===== src/Tooling/Registry.antt =====
-- src/mergemate/infrastructure/tools/registry.py, and what src/mergemate/application/services/tool_service.py
-- asks the registry for: a package's installation, the context of the repository and the state of a
-- platform's login. The tools that are no command-line tools are parameters.
use merge_mate.Base.{
  String, Bool, true, false, ◌&&◌, Option, none, some, List, [], ◌∷◌, ◌++◌, ◌≡◌, refl, map, find,
  by_key, str_eq, if◌then◌else◌,
}
use merge_mate.Base.Texts.{join, sorted}
use merge_mate.Config.{get_entry}
use merge_mate.Tooling.Processes.{ToolReply, reply, Machine, Runner, run_command}
use merge_mate.Tooling.SourceControl.{CliTool, invoke, run_args, git_tool, github_tool, gitlab_tool}

-- A tool with its metadata; it is called for an action or the name of a package.
pub record Tool (W : Type 0) : Type 0 where
  pub name : String
  pub runtime_mode : String
  pub default_action : Option String
  pub read_only : Bool
  pub context_key : Option String
  pub auth_action : Option String
  pub platform : Option String
  pub call : String → Machine W → ToolReply × Machine W

-- The settings that the builder and the services read.
pub record ToolSettings : Type 0 where
  pub enable_git : Bool
  pub enable_github : Bool
  pub enable_gitlab : Bool
  pub git_executable : String
  pub github_executable : String
  pub gitlab_executable : String
  pub timeout_text : String
  pub default_platform : String

-- The test of a tool's platform.
abbrev pub of_platform : String → Option String → Bool
of_platform platform none = true
of_platform platform (some p) = str_eq p platform

abbrev pub has_action : Option String → Bool
has_action none = false
has_action (some a) = true

abbrev pub Context : Type 0
Context = List (String × ToolReply)

-- `platform or default_platform`
abbrev pub platform_or : ToolSettings → Option String → String
platform_or s none = s.default_platform
platform_or s (some p) = if str_eq p "" then s.default_platform else p

-- What `get_platform_auth_status` says where it calls no tool.
abbrev pub no_login : String → Bool → ToolReply
no_login platform true =
    reply "blocked" (join "" ("Platform tool for " ∷ platform ∷ " is not enabled." ∷ []))
no_login platform false = reply "error" (join "" ("Unsupported platform: " ∷ platform ∷ []))

abbrev pub is_for : String → Option String → Bool
is_for platform none = false
is_for platform (some p) = str_eq p platform

module _ {W : Type 0} where
  abbrev pub tool_name : Tool W → String
  tool_name t = t.name

  -- `list_tools`, `get_tool`
  unfoldable pub list_tools : List (Tool W) → List String
  list_tools tools = sorted (map tool_name tools)

  unfoldable pub get_tool : List (Tool W) → String → Option (Tool W)
  get_tool tools name = find (by_key tool_name name) tools

  abbrev pub manual_tool : String → Bool → (String → Machine W → ToolReply × Machine W) → Tool W
  manual_tool name read_only call = record {
    name = name;
    runtime_mode = "manual";
    default_action = none;
    read_only = read_only;
    context_key = none;
    auth_action = none;
    platform = none;
    call = call;
  }

  abbrev pub cli_tool :
      String → String → Option String → Option String → Runner W → CliTool → Tool W
  cli_tool name key auth platform run t = record {
    name = name;
    runtime_mode = "context";
    default_action = some t.default_action;
    read_only = true;
    context_key = some key;
    auth_action = auth;
    platform = platform;
    call = λ action. invoke t run (some action);
  }

  abbrev pub with_tool : Bool → Tool W → List (Tool W) → List (Tool W)
  with_tool enabled t tools = if enabled then tools ++ t ∷ [] else tools

  -- `ToolRegistryBuilder`, as `bootstrap` uses it.
  unfoldable pub build :
      ToolSettings
      → Runner W
      → (String → String → Machine W → ToolReply × Machine W)
      → List (Tool W)
  unfolding git_tool github_tool gitlab_tool
  build s run manual =
      with_tool s.enable_gitlab
        (cli_tool "gitlab_cli" "gitlab" (some "auth_status") (some "gitlab") run
          (gitlab_tool s.gitlab_executable s.timeout_text))
        (with_tool s.enable_github
          (cli_tool "github_cli" "github" (some "auth_status") (some "github") run
            (github_tool s.github_executable s.timeout_text))
          (with_tool s.enable_git
            (cli_tool "git_repository" "git" none none run
              (git_tool s.git_executable s.timeout_text))
            (manual_tool "code_formatter" true (manual "code_formatter")
              ∷ manual_tool "package_installer" false (manual "package_installer")
              ∷ manual_tool "syntax_checker" true (manual "syntax_checker")
              ∷ [])))

  -- `install_package`
  abbrev pub installed_by : Option (Tool W) → String → Machine W → ToolReply × Machine W
  installed_by none wanted m = (reply "blocked" "Package installer tool is not available.", m)
  installed_by (some t) wanted m = t.call wanted m

  unfoldable pub install_package : List (Tool W) → String → Machine W → ToolReply × Machine W
  unfolding get_tool
  install_package tools wanted = installed_by (get_tool tools "package_installer") wanted

  -- `_is_runtime_context_metadata`, and the test of the platform.
  abbrev pub is_context : String → Tool W → Bool
  is_context platform t =
      str_eq t.runtime_mode "context"
      && (has_action t.default_action && (t.read_only && of_platform platform t.platform))

  abbrev pub keep : Context → String → ToolReply × Machine W → Context × Machine W
  keep context key (r, m) = (context ++ (key, r) ∷ [], m)

  -- The call of one tool, if it has a key and an action.
  abbrev pub add_context :
      Tool W → Option String → Option String → Context × Machine W → Context × Machine W
  add_context t (some key) (some action) (context, m) = keep context key (t.call action m)
  add_context t _ _ s = s

  abbrev pub context_step : String → Option (Tool W) → Context × Machine W → Context × Machine W
  context_step platform none s = s
  context_step platform (some t) s =
      if is_context platform t then add_context t t.context_key t.default_action s else s

  unfoldable pub contexts :
      List (Tool W) → String → List String → Context × Machine W → Context × Machine W
  contexts tools platform [] s = s
  contexts tools platform (name ∷ names) s =
      contexts tools platform names (context_step platform (get_tool tools name) s)

  -- `get_repository_context`
  unfoldable pub get_repository_context :
      ToolSettings → List (Tool W) → Option String → Machine W → Context × Machine W
  unfolding contexts list_tools get_tool
  get_repository_context s tools platform m =
      contexts tools (platform_or s platform) (list_tools tools) ([], m)

  abbrev pub login_of :
      String → Option (Tool W) → Machine W → ToolReply × Machine W → ToolReply × Machine W
  login_of platform none m later = later
  login_of platform (some t) m later = elim t.auth_action [
    | none ↦ if is_for platform t.platform then (no_login platform true, m) else later
    | some action ↦ if is_for platform t.platform then t.call action m else later
  ]

  unfoldable pub logins : List (Tool W) → String → List String → Machine W → ToolReply × Machine W
  logins tools platform [] m = (no_login platform false, m)
  logins tools platform (name ∷ names) m =
      login_of platform (get_tool tools name) m (logins tools platform names m)

  -- `get_platform_auth_status`
  unfoldable pub get_platform_auth_status :
      List (Tool W) → String → Machine W → ToolReply × Machine W
  unfolding logins list_tools get_tool
  get_platform_auth_status tools platform m = logins tools platform (list_tools tools) m

-- The command behind the ones before, if a tool is enabled.
abbrev pub with_command : Bool → List String → List (List String) → List (List String)
with_command enabled command commands = if enabled then commands ++ command ∷ [] else commands

every_setting :
    {W : Type 0} (git github gitlab : Bool) (s : ToolSettings) (run : Runner W)
    (manual : String → String → Machine W → ToolReply × Machine W) (m : Machine W)
    → let s' : ToolSettings = record s {
      enable_git = git;
      enable_github = github;
      enable_gitlab = gitlab;
    } in
      (get_repository_context s' (build s' run manual) (some "github") m).1.commands
      ≡ with_command github
          (s.github_executable ∷ "repo" ∷ "view" ∷ [])
          (with_command git (s.git_executable ∷ "status" ∷ "--short" ∷ "--branch" ∷ []) m.commands)
unfolding get_repository_context build invoke run_args run_command sorted find get_entry
every_setting true true true s run manual m = refl
every_setting true true false s run manual m = refl
every_setting true false true s run manual m = refl
every_setting true false false s run manual m = refl
every_setting false true true s run manual m = refl
every_setting false true false s run manual m = refl
every_setting false false true s run manual m = refl
every_setting false false false s run manual m = refl

-- The context of GitHub comes from git and gh, and no other program is started.
pub get_repository_context-commands :
    {W : Type 0} (s : ToolSettings) (run : Runner W)
    (manual : String → String → Machine W → ToolReply × Machine W) (m : Machine W)
    → (get_repository_context s (build s run manual) (some "github") m).1.commands
      ≡ with_command s.enable_github (s.github_executable ∷ "repo" ∷ "view" ∷ []) (
          with_command s.enable_git
            (s.git_executable ∷ "status" ∷ "--short" ∷ "--branch" ∷ [])
            m.commands)
get_repository_context-commands s run manual m =
    every_setting s.enable_git s.enable_github s.enable_gitlab s run manual m
