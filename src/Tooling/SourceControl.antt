-- ===== src/Tooling/SourceControl.antt =====
-- src/mergemate/infrastructure/tools/builtin/source_control.py: the tools for git, gh and glab.
use merge_mate.Base.{
  String, true, false, Option, none, some, List, [], ◌∷◌, ◌++◌, ◌≡◌, ◌⊎◌, inl, inr, refl,
  Option-cases,
}
use merge_mate.Base.Texts.{join}
use merge_mate.Config.{get_entry}
use merge_mate.Tooling.Processes.{
  ToolReply, reply, Completed, not_found, timed_out, exited, Machine, Runner, run_command, or_text,
}

-- `_BaseCliTool`, with what a class of tools fixes.
pub record CliTool : Type 0 where
  pub executable : String
  pub default_action : String
  pub command_map : List (String × List String)
  pub action_label : String
  pub timeout_text : String

abbrev pub action_of : CliTool → Option String → String
action_of t none = t.default_action
action_of t (some action) = action

module _ (t : CliTool) where
  abbrev pub answered : Completed → ToolReply
  answered not_found =
      reply "error" (join "" ("Executable " ∷ t.executable ∷ " was not found." ∷ []))
  answered timed_out =
      reply "error"
        (join "" (t.executable ∷ " command timed out after " ∷ t.timeout_text ∷ "s." ∷ []))
  answered (exited true out err) = reply "ok" (or_text out err)
  answered (exited false out err) =
      reply "error" (or_text (or_text out err) (join "" (t.executable ∷ " command failed" ∷ [])))

  module _ {W : Type 0} (run : Runner W) where
    -- `_run`
    unfoldable pub run_args : List String → Machine W → ToolReply × Machine W
    unfolding run_command
    run_args args m =
        let (completed, m') = run_command run (t.executable ∷ args) m in (answered completed, m')

    abbrev pub invoked : String → Option (List String) → Machine W → ToolReply × Machine W
    invoked action none m =
        (reply "error" (join "" ("Unsupported " ∷ t.action_label ∷ " action: " ∷ action ∷ [])), m)
    invoked action (some args) m = run_args args m

    -- `invoke`
    unfoldable pub invoke : Option String → Machine W → ToolReply × Machine W
    unfolding run_args
    invoke action m = invoked (action_of t action) (get_entry (action_of t action) t.command_map) m

unfoldable pub git_tool : String → String → CliTool
git_tool executable timeout = record {
  executable = executable;
  default_action = "status";
  command_map =
      ("status", "status" ∷ "--short" ∷ "--branch" ∷ [])
      ∷ ("branch", "branch" ∷ "--show-current" ∷ [])
      ∷ ("remotes", "remote" ∷ "-v" ∷ [])
      ∷ ("diff_summary", "diff" ∷ "--stat" ∷ [])
      ∷ [];
  action_label = "git";
  timeout_text = timeout;
}

unfoldable pub github_tool : String → String → CliTool
github_tool executable timeout = record {
  executable = executable;
  default_action = "repo_view";
  command_map =
      ("auth_status", "auth" ∷ "status" ∷ [])
      ∷ ("repo_view", "repo" ∷ "view" ∷ [])
      ∷ ("pr_status", "pr" ∷ "status" ∷ [])
      ∷ [];
  action_label = "GitHub";
  timeout_text = timeout;
}

unfoldable pub gitlab_tool : String → String → CliTool
gitlab_tool executable timeout = record {
  executable = executable;
  default_action = "repo_view";
  command_map =
      ("auth_status", "auth" ∷ "status" ∷ [])
      ∷ ("repo_view", "repo" ∷ "view" ∷ [])
      ∷ ("mr_status", "mr" ∷ "status" ∷ [])
      ∷ [];
  action_label = "GitLab";
  timeout_text = timeout;
}

-- A program is only started with arguments of the tool's own map, for the action that is asked.
pub invoke-commands :
    {W : Type 0} (t : CliTool) (run : Runner W) (action : Option String) (m : Machine W)
    → ((invoke t run action m).1.commands ≡ m.commands)
      ⊎ ((args : List String) × (get_entry (action_of t action) t.command_map ≡ some args)
          × ((invoke t run action m).1.commands ≡ m.commands ++ (t.executable ∷ args) ∷ []))
unfolding invoke run_args run_command
invoke-commands t run action m =
    elim (Option-cases (get_entry (action_of t action) t.command_map)) [
      | inl absent ↦ inl (rw absent refl)
      | inr (args, found) ↦ rw found (inr (args, refl, refl))
    ]
