-- ===== src/Cli/Sessions.antt =====
-- src/mergemate/cli.py: the chat of a session, the workflow of an agent, and the settings while a prompt
-- is submitted. `blake2s` and the random bits are parameters.
use merge_mate.Base.{
  ℕ, zero, suc, ◌+◌, ◌-◌, ◌%◌, ◌≤◌, ◌<◌, String, false, Option, none, some, List, [], ◌∷◌, ◌≡◌,
  refl, ◌⊎◌, inl, inr, arith,
}
use merge_mate.Base.Texts.{join, sorted, unique}
use merge_mate.Config.{AppConfig, get_entry, workflows_of}
use merge_mate.Domain.Runs.{ChatId, positive, negative}
use merge_mate.Cli.Shell.{Command}

-- `-abs(random.getrandbits(31))`
abbrev pub minus : ℕ → ChatId
minus zero = positive 0
minus (suc n) = negative n

-- `_resolve_session_chat_id`, for the digest of `cli:` and the name read as a number, and the bits.
unfoldable pub resolve_session_chat_id : (String → ℕ) → ℕ → Option String → ChatId
resolve_session_chat_id digest bits none = minus bits
resolve_session_chat_id digest bits (some name) = positive (1 + digest name % (2147483648 - 2))

-- `_resolve_workflow`; the text is that of its ConfigWorkflowNotFoundError.
abbrev pub available_text : List String → String
available_text [] = "none configured"
available_text (w ∷ ws) = join ", " (w ∷ ws)

unfoldable pub resolve_workflow : AppConfig → String → Option String → String ⊎ String
resolve_workflow c agent (some workflow) = inl workflow
resolve_workflow c agent none = elim (get_entry agent c.agents) [
  | some a ↦ inl a.workflow
  | none ↦ inr (
      join "" (
        "Agent '"
        ∷ agent
        ∷ "' has no default workflow. Use --workflow to specify one. Available workflows: "
        ∷ available_text (sorted (unique (workflows_of c.agents)))
        ∷ []))
]

-- `_temporary_auto_approve`: the confirmation is off in the block, and is as it was behind it, however
-- the block ends.
unfoldable pub with_auto_approve : {A : Type 0} → Command A → Command A
with_auto_approve body s =
    let (r, t) = body (record s { require_confirmation = false }) in
    (r, record t { require_confirmation = s.require_confirmation })

-- The chats of sessions with a name, and of others.
abbrev pub IsNamedChat : ChatId → Type 0
IsNamedChat (positive n) = (1 ≤ n) × (n ≤ 2147483646)
IsNamedChat (negative n) = ⊥

abbrev pub IsAnonymousChat : ChatId → Type 0
IsAnonymousChat (positive n) = n ≡ 0
IsAnonymousChat (negative n) = n < 2147483647

minus-IsAnonymousChat : (bits : ℕ) → bits < 2147483648 → IsAnonymousChat (minus bits)
minus-IsAnonymousChat zero h = refl
minus-IsAnonymousChat (suc n) h = omega arith

pub resolve_session_chat_id-bounds :
    (digest : String → ℕ) (bits : ℕ) (name : String)
    → bits < 2147483648
    → IsNamedChat (resolve_session_chat_id digest bits (some name))
      × IsAnonymousChat (resolve_session_chat_id digest bits none)
unfolding resolve_session_chat_id
resolve_session_chat_id-bounds digest bits name h =
    ((omega arith, omega arith), minus-IsAnonymousChat bits h)
