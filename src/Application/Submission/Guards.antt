-- ===== src/Application/Submission/Guards.antt =====
-- Which calls of `approve` and `cancel` change nothing.
use merge_mate.Base.{
  String, ◌≡◌, ◌≢◌, ◌⊎◌, inl, inr, refl, Bool, false, Option, none, some, arith, Option-cases,
  Bool-cases,
}
use merge_mate.Domain.Status.{same, is_terminal, awaiting_confirmation}
use merge_mate.Domain.Runs.{AgentRun, ChatId}
use merge_mate.Persistence.RunRepository.{get}
use merge_mate.World.{World, Outcome, ok}
use merge_mate.Application.Submission.{Setup, ApproveRunResult}
use merge_mate.Application.Submission.Confirmation.{
  approve, approve_of, approve_planned, foreign, waits, refused, cancel, CancelRunResult,
}

-- The runs that `approve` writes.
pub record IsReady (chat : Option ChatId) (r : AgentRun) : Type 0 where
  pub ours : foreign chat r ≡ false
  pub waiting : r.status ≡ awaiting_confirmation
  pub unapproved : r.approved ≡ false
  pub has_plan : r.plan_text ≢ none

abbrev pub says_dispatched : Outcome (Option ApproveRunResult) → Bool
says_dispatched (ok (some a)) = a.dispatched
says_dispatched _ = false

abbrev pub says_cancelled : Outcome (Option CancelRunResult) → Bool
says_cancelled (ok (some a)) = a.cancelled
says_cancelled _ = false

-- Nothing is written, and nothing is said to be dispatched.
abbrev pub IsRefusal : World → Outcome (Option ApproveRunResult) × World → Type 0
IsRefusal w out = (out.1 ≡ w) × (says_dispatched out.0 ≡ false)

refusal : (w : World) (r : AgentRun) (e : Option String) → IsRefusal w (ok (some (refused r e)), w)
refusal w r e = (refl, refl)

module _ (s : Setup) (id : String) (w : World) (r : AgentRun) where
  approve_planned-guard :
      (o : Option String)
      → ((r.status ≡ awaiting_confirmation) × (r.approved ≡ false) × (o ≢ none))
        ⊎ IsRefusal w (approve_planned s id r o w)
  unfolding approve
  approve_planned-guard none = inr (refl, refl)
  approve_planned-guard (some plan) = elim (Bool-cases (waits s r)) [
    | inl v ↦ inl (ground arith, ground arith, λ n. cc)
    | inr v ↦ inr (rw v (refusal w r none))
  ]

  approve_of-guard :
      (chat : Option ChatId) → IsReady chat r ⊎ IsRefusal w (approve_of s id chat (some r) w)
  unfolding approve
  approve_of-guard chat = elim (Bool-cases (foreign chat r)) [
    | inl f ↦ inr (rw f (refl, refl))
    | inr f ↦ elim (Bool-cases (is_terminal r.status)) [
      | inl e ↦ inr (rw (f, e) (refusal w r none))
      | inr e ↦ elim (approve_planned-guard r.plan_text) [
        | inl (a, b, c) ↦ inl (record { ours = f; waiting = a; unapproved = b; has_plan = c })
        | inr still ↦ inr (rw (f, e) still)
      ]
    ]
  ]

-- Either the run exists, is of the chat, waits for its confirmation, is not approved and has a
-- plan, or approve changes nothing and says that nothing was dispatched.
pub approve_guard :
    (s : Setup) (id : String) (chat : Option ChatId) (w : World)
    → ((r : AgentRun) × (get id w.runs ≡ some r) × IsReady chat r)
      ⊎ IsRefusal w (approve s id chat w)
unfolding approve
approve_guard s id chat w = elim (Option-cases (get id w.runs)) [
  | inl e ↦ inr (rw e (refl, refl))
  | inr (r, e) ↦ elim (approve_of-guard s id w r chat) [
    | inl ready ↦ inl (r, e, ready)
    | inr still ↦ inr (rw e still)
  ]
]

-- If the run does not wait for its confirmation, cancel changes nothing and does not say that it
-- cancelled.
pub cancel_guard :
    (id : String) (chat : Option ChatId) (w : World) (r : AgentRun)
    → get id w.runs ≡ some r
    → same r.status awaiting_confirmation ≡ false
    → let (out, w') = cancel (some id) chat w in (w' ≡ w) × (says_cancelled out ≡ false)
unfolding cancel
cancel_guard id chat w r found over = elim (Bool-cases (foreign chat r)) [
  | inl f ↦ rw found (rw f (refl, refl))
  | inr f ↦ rw found (rw f (rw over (refl, refl)))
]
