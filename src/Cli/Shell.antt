-- ===== src/Cli/Shell.antt =====
-- src/mergemate/cli.py: the process of a command: what it prints, its settings and its monotonic clock,
-- over the state that the use cases share. A command returns, exits with a code, or an exception ends
-- it; a loop on fuel may also still run.
use merge_mate.Base.{ℕ, String, Bool, false, List, [], ◌∷◌, ◌++◌}
use merge_mate.World.{World, Action, Outcome, ok, raised, Error}

-- A line, and whether it goes to the error stream.
pub record Line : Type 0 where
  pub err : Bool
  pub text : String

pub record Shell : Type 0 where
  pub world : World
  pub require_confirmation : Bool
  pub monotonic : ℕ
  pub lines : List Line

pub data Result (A : Type 0) : Type 0 where
  returned : A → Result A
  exits : ℕ → Result A
  failed_with : Error → Result A
  running : Result A

abbrev pub Command : Type 0 → Type 0
Command A = Shell → Result A × Shell

module _ {A : Type 0} where
  abbrev pub pure : A → Command A
  pure a s = (returned a, s)

  -- `raise typer.Exit(code=…)`
  abbrev pub exit : ℕ → Command A
  exit code s = (exits code, s)

  abbrev pub gets : (Shell → A) → Command A
  gets f s = (returned (f s), s)

  abbrev pub result_of : Outcome A → Result A
  result_of (ok a) = returned a
  result_of (raised e) = failed_with e

  -- A call of the use cases.
  abbrev pub call : Action A → Command A
  call m s = let (r, w) = m s.world in (result_of r, record s { world = w })

module _ {A B : Type 0} where
  abbrev pub continue : Result A → (A → Command B) → Command B
  continue (returned a) f s = f a s
  continue (exits n) f s = (exits n, s)
  continue (failed_with e) f s = (failed_with e, s)
  continue running f s = (running, s)

  infixl 5 ◌>>=◌ ◌>>◌
  abbrev pub ◌>>=◌ : Command A → (A → Command B) → Command B
  ◌>>=◌ m f s = let (r, s') = m s in continue r f s'

  abbrev pub ◌>>◌ : Command A → Command B → Command B
  m >> n = m >>= λ _. n

-- `typer.echo`
unfoldable pub echo_to : Bool → String → Command (Unit {0})
echo_to err text s =
    (returned tt, record s { lines = s.lines ++ record { err = err; text = text } ∷ [] })

abbrev pub echo : String → Command (Unit {0})
echo = echo_to false
