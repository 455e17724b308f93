-- ===== src/Telegram/Commands.antt =====
-- src/mergemate/interfaces/telegram/handlers.py: the arguments of /tools, and the replies of /status and
-- /tools. `isdigit` and `int` are parameters, and so are the texts of the presenter.
use mathlib.Core.Path.{subst}
use merge_mate.Base.{
  ℕ, ◌≤◌, String, Bool, not, Option, none, some, List, [], ◌∷◌, ◌≡◌, refl, ◌⊎◌, sym, if◌then◌else◌,
  leb, ltb, Bool-cases, inl, inr, arith,
}
use merge_mate.Domain.Runs.{ChatId}
use merge_mate.Persistence.RunRepository.{Table}
use merge_mate.Persistence.ToolEvents.{ToolEvent}
use merge_mate.World.Effects.{Outcome, ok, raised}
use merge_mate.Application.RunStatus.{
  RunStatusSnapshot, execute, IsOf, execute-ok, execute-IsPrivate,
}
use merge_mate.Telegram.Messages.{Text, split_telegram_message}
use merge_mate.Telegram.Messages.Chunks.{IsDivided, split_telegram_message_lem}

-- Python's `str.isdigit` and `int`.
pub record Digits : Type 0 where
  pub is_digit : String → Bool
  pub to_int : String → ℕ

abbrev limit_error : String
limit_error = "Usage: /tools [run_id] [limit]. Limit must be a positive integer up to 50."

abbrev pub ToolsArgs : Type 0
ToolsArgs = Option String × ℕ × Option String

module _ (d : Digits) where
  -- `_parse_limit`
  unfoldable pub parse_limit : String → Option ℕ
  parse_limit raw =
      if not (d.is_digit raw)
      then none
      else let n = d.to_int raw in if leb n 0 then none else if ltb 50 n then none else some n

  abbrev pub one_argument : String → Option ℕ → ToolsArgs
  one_argument arg (some limit) = (none, limit, none)
  one_argument arg none =
      if d.is_digit arg then (none, 10, some limit_error) else (some arg, 10, none)

  abbrev pub two_arguments : String → Option ℕ → ToolsArgs
  two_arguments run (some limit) = (some run, limit, none)
  two_arguments run none = (none, 10, some limit_error)

  -- `_parse_tools_command_args`
  unfoldable pub parse_tools_command_args : List String → ToolsArgs
  unfolding parse_limit
  parse_tools_command_args [] = (none, 10, none)
  parse_tools_command_args (a ∷ []) = one_argument a (parse_limit a)
  parse_tools_command_args (a ∷ b ∷ []) = two_arguments a (parse_limit b)
  parse_tools_command_args (a ∷ b ∷ c ∷ rest) = (none, 10, some "Usage: /tools [run_id] [limit].")

  abbrev IsSome : Option ℕ → Type 0
  IsSome none = Unit
  IsSome (some n) = (1 ≤ n) × (n ≤ 50)

  -- A limit from 1 to 50.
  abbrev IsWithin : ToolsArgs → Type 0
  IsWithin args = (1 ≤ args.1) × (args.1 ≤ 50)

  parse_limit-IsSome : (raw : String) → IsSome (parse_limit raw)
  unfolding parse_limit
  parse_limit-IsSome raw = elim (Bool-cases (d.is_digit raw)) [
    | inr e ↦ rw e tt
    | inl e ↦ elim (Bool-cases (leb (d.to_int raw) 0)) [
      | inl f ↦ rw (e, f) tt
      | inr f ↦ elim (Bool-cases (ltb 50 (d.to_int raw))) [
        | inl g ↦ rw (e, f, g) tt
        | inr g ↦ rw (e, f, g) (ground arith, ground arith)
      ]
    ]
  ]

  one_argument-bounds : (arg : String) (o : Option ℕ) → IsSome o → IsWithin (one_argument arg o)
  one_argument-bounds arg (some n) h = h
  one_argument-bounds arg none h = elim (Bool-cases (d.is_digit arg)) [
    | inl e ↦ rw e (omega arith, omega arith)
    | inr e ↦ rw e (omega arith, omega arith)
  ]

  two_arguments-bounds : (run : String) (o : Option ℕ) → IsSome o → IsWithin (two_arguments run o)
  two_arguments-bounds run (some n) h = h
  two_arguments-bounds run none h = (omega arith, omega arith)

  -- The number of tool events that /tools asks for is from 1 to 50, whatever its arguments.
  pub parse_tools_command_args-bounds :
      (args : List String)
      → (1 ≤ (parse_tools_command_args args).1) × ((parse_tools_command_args args).1 ≤ 50)
  unfolding parse_tools_command_args
  parse_tools_command_args-bounds [] = (omega arith, omega arith)
  parse_tools_command_args-bounds (a ∷ []) =
      one_argument-bounds a (parse_limit a) (parse_limit-IsSome a)
  parse_tools_command_args-bounds (a ∷ b ∷ []) =
      two_arguments-bounds a (parse_limit b) (parse_limit-IsSome b)
  parse_tools_command_args-bounds (a ∷ b ∷ c ∷ rest) = (omega arith, omega arith)

-- The chat that a command came from, the texts of the presenter, and the tables.
pub record Chat : Type 0 where
  pub chat_id : ChatId
  pub format_detailed_status : RunStatusSnapshot → Text
  pub format_tool_history : RunStatusSnapshot → Text
  pub no_runs : Text
  pub text_of : String → Text
  pub digits : Digits
  pub runs : Table
  pub events : Option (List ToolEvent)

abbrev pub first_argument : List String → Option String
first_argument [] = none
first_argument (a ∷ rest) = some a

module _ (c : Chat) where
  -- The replies for what the query of the run's status gives; none if it raises.
  abbrev pub replies :
      (RunStatusSnapshot → Text) → Outcome (Option RunStatusSnapshot) → Option (List Text)
  replies format (raised e) = none
  replies format (ok none) = some (c.no_runs ∷ [])
  replies format (ok (some s)) = split_telegram_message 4000 (format s)

  unfoldable pub status_command : List String → Option (List Text)
  status_command args =
      replies c.format_detailed_status
        (execute c.events 5 (first_argument args) (some c.chat_id) c.runs)

  abbrev pub tools_reply : ToolsArgs → Option (List Text)
  tools_reply (run, limit, some error) = some (c.text_of error ∷ [])
  tools_reply (run, limit, none) =
      replies c.format_tool_history (execute c.events limit run (some c.chat_id) c.runs)

  unfoldable pub tools_command : List String → Option (List Text)
  tools_command args = tools_reply (parse_tools_command_args c.digits args)

  -- The text of a run of this chat, with so many tool events at most, in parts that can be sent.
  abbrev pub IsReport : ℕ → (RunStatusSnapshot → Text) → List Text → Type 0
  IsReport limit format out =
      (s : RunStatusSnapshot) × IsOf c.events limit c.chat_id c.runs s
      × IsDivided 4000 (format s) out

  abbrev pub IsReply : ℕ → (RunStatusSnapshot → Text) → Option (List Text) → Type 0
  IsReply limit format r =
      (out : List Text) × (r ≡ some out) × ((out ≡ c.no_runs ∷ []) ⊎ IsReport limit format out)

  answered :
      (format : RunStatusSnapshot → Text) (limit : ℕ) (id : Option String)
      (o : Option RunStatusSnapshot)
      → execute c.events limit id (some c.chat_id) c.runs ≡ ok o
      → IsReply limit format (replies format (ok o))
  answered format limit id none e = (c.no_runs ∷ [], refl, inl refl)
  answered format limit id (some s) e =
      let (out, found, divided) = split_telegram_message_lem 4000 (format s) (omega arith) in
      let own = execute-IsPrivate c.events limit id c.chat_id c.runs s e in
      (out, found, inr (s, own, divided))

  replies-IsReply :
      (format : RunStatusSnapshot → Text) (limit : ℕ) (id : Option String)
      → IsReply limit format (replies format (execute c.events limit id (some c.chat_id) c.runs))
  replies-IsReply format limit id =
      let (o, e) = execute-ok c.events limit id c.chat_id c.runs in
      subst (λ r. IsReply limit format (replies format r)) (sym e) (answered format limit id o e)

  -- The command /status always replies, either that there are no runs or with the parts of a text
  -- on a run of the table that is of the chat itself, with at most five tool events, all of that
  -- run; every part fits the limit of 4000.
  pub status_command-IsReply :
      (args : List String) → IsReply 5 c.format_detailed_status (status_command args)
  unfolding status_command
  status_command-IsReply args = replies-IsReply c.format_detailed_status 5 (first_argument args)
