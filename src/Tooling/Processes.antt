-- ===== src/Tooling/Processes.antt =====
-- How the tools of src/mergemate/infrastructure/tools/builtin start a program: `subprocess.run`. The machine
-- keeps the commands that were started.
use merge_mate.Base.{String, Bool, List, [], ◌∷◌, ◌++◌, str_eq, if◌then◌else◌}

-- What a tool returns: the status and the detail.
pub record ToolReply : Type 0 where
  pub status : String
  pub detail : String

abbrev pub reply : String → String → ToolReply
reply status detail = record { status = status; detail = detail }

-- FileNotFoundError, TimeoutExpired, or the end of the program: whether its code is 0, and its two
-- outputs, stripped.
pub data Completed : Type 0 where
  not_found timed_out : Completed
  exited : Bool → String → String → Completed

pub record Machine (W : Type 0) : Type 0 where
  pub commands : List (List String)
  pub outside : W

-- A program's run.
abbrev pub Runner : Type 0 → Type 0
Runner W = List String → W → Completed × W

unfoldable pub run_command :
    {W : Type 0} → Runner W → List String → Machine W → Completed × Machine W
run_command run command m =
    let (completed, w) = run command m.outside in
    (completed, record { commands = m.commands ++ command ∷ []; outside = w })

abbrev pub or_text : String → String → String
or_text text fallback = if str_eq text "" then fallback else text
