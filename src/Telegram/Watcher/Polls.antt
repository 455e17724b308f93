-- ===== src/Telegram/Watcher/Polls.antt =====
-- When the watcher's loop ends.
use mathlib.Core.Path.{subst}
use merge_mate.Base.{
  ℕ, zero, suc, ◌+◌, ◌≤◌, String, Bool, true, false, ◌&&◌, Option, none, some, List, [], ◌∷◌, ◌++◌,
  ◌≡◌, ◌≢◌, refl, inl, inr, eq_refl, if◌then◌else◌, Bool-cases, elem, arith,
}
use merge_mate.Domain.Status.{is_terminal}
use merge_mate.World.Effects.{
  Kind, Exec, Outcome, ok, raised, Error, pure, try_else, is_exception, Ensures, bind-Ensures,
  after-Ensures,
}
use merge_mate.Telegram.Watcher.{
  Snapshot, Reading, same_snapshot, Verdict, stop, poll_again, Chatroom, Watch, delivered,
  notify_terminal_update, limited, after_delivery, report, seen, poll, go_on, watch_run_progress,
  format_terminal_update,
}

-- A handler and the rest behind a body, of which nothing is known.
module _ {S A B : Type 0} (Q : B → S → Type 0) (caught : Kind → Bool) (handler : Error → Exec S B)
    (rest : A → Exec S B) (h : (e : Error) (s : S) → Ensures Q (handler e s))
    (k : (a : A) (s : S) → Ensures Q (rest a s)) where
  settled-Ensures :
      (o : Outcome A) (t : S)
      → Ensures Q (elim o as (λ _. Outcome B × S) [
        | ok a ↦ rest a t
        | raised e ↦ if caught e.kind then handler e t else (raised e, t)
      ])
  settled-Ensures (ok a) t = k a t
  settled-Ensures (raised e) t = elim (Bool-cases (caught e.kind)) [
    | inl c ↦ rw c (h e t)
    | inr c ↦ rw c tt
  ]

  try_else-Ensures : (body : Exec S A) (s : S) → Ensures Q (try_else caught body handler rest s)
  try_else-Ensures body s = settled-Ensures (body s).0 (body s).1

module _ {W : Type 0} (watch : Watch W) where
  limited-stop :
      (most count : ℕ) (last : Option Snapshot)
      → watch.max_poll_iterations ≡ some most
      → most ≤ count
      → limited watch count last ≡ stop
  limited-stop most count last limit reached = rw limit (ground arith)

  abbrev IsStop : Verdict → Chatroom W → Type 0
  IsStop v w = v ≡ stop

  module _ (most count : ℕ) (limit : watch.max_poll_iterations ≡ some most)
      (reached : most ≤ count) where
    after_delivery-stop :
        (last : Option Snapshot) (sent : Bool) → after_delivery watch count last sent ≡ stop
    after_delivery-stop last true = refl
    after_delivery-stop last false = limited-stop most count last limit reached

    report-IsStop :
        (last : Option Snapshot) (r : Reading) (w : Chatroom W)
        → Ensures IsStop (report watch count last r w)
    unfolding report
    report-IsStop last r w = elim (Bool-cases (is_terminal r.snapshot.status)) [
      | inl e ↦ rw e (
          after-Ensures IsStop (λ sent. pure (after_delivery watch count last sent))
            (λ sent s. after_delivery-stop last sent) (notify_terminal_update watch r) w)
      | inr e ↦ rw e (
          try_else-Ensures IsStop is_exception (λ x. pure (limited watch count last))
            (λ _. pure (limited watch count (some r.snapshot)))
            (λ x s. limited-stop most count last limit reached)
            (λ a s. limited-stop most count (some r.snapshot) limit reached)
            (watch.send_text_chunks (watch.format_progress_update r)) w)
    ]

    seen-IsStop :
        (last : Option Snapshot) (o : Option Reading) (w : Chatroom W)
        → Ensures IsStop (seen watch count last o w)
    unfolding seen
    seen-IsStop last none w = refl
    seen-IsStop last (some r) w =
        elim (Bool-cases (is_terminal r.snapshot.status && elem r.run_id w.deliveries)) [
          | inl e ↦ rw e refl
          | inr e ↦ elim (Bool-cases (same_snapshot last r.snapshot)) [
            | inl f ↦ rw (e, f) (limited-stop most count last limit reached)
            | inr f ↦ rw (e, f) (report-IsStop last r w)
          ]
        ]

    poll-IsStop :
        (last : Option Snapshot) (w : Chatroom W) → Ensures IsStop (poll watch count last w)
    unfolding poll
    poll-IsStop last w =
        after-Ensures IsStop (seen watch count last) (seen-IsStop last) watch.read w

  abbrev IsReturned : Bool → Chatroom W → Type 0
  IsReturned b w = b ≡ true

  go_on-IsReturned :
      (next : Option Snapshot → Exec (Chatroom W) Bool)
      → ((last : Option Snapshot) (w : Chatroom W) → Ensures IsReturned (next last w))
      → (v : Verdict) (w : Chatroom W) → Ensures IsReturned (go_on watch next v w)
  go_on-IsReturned next h stop w = refl
  go_on-IsReturned next h (poll_again last) w = h last w

  stopped-IsReturned :
      (next : Option Snapshot → Exec (Chatroom W) Bool) (v : Verdict) (w : Chatroom W)
      → IsStop v w
      → Ensures IsReturned (go_on watch next v w)
  stopped-IsReturned next v w stopped = rw stopped refl

  watch_run_progress-IsReturned :
      (most fuel count : ℕ) (last : Option Snapshot) (w : Chatroom W)
      → watch.max_poll_iterations ≡ some most
      → most ≤ count + suc fuel
      → Ensures IsReturned (watch_run_progress watch (suc fuel) count last w)
  unfolding watch_run_progress
  watch_run_progress-IsReturned most zero count last w limit enough =
      bind-Ensures IsStop IsReturned (go_on watch (watch_run_progress watch zero (count + 1)))
        (stopped-IsReturned (watch_run_progress watch zero (count + 1)))
        (poll watch (count + 1) last) w (poll-IsStop most (count + 1) limit (omega arith) last w)
  watch_run_progress-IsReturned most (suc fuel) count last w limit enough =
      after-Ensures IsReturned (go_on watch (watch_run_progress watch (suc fuel) (count + 1)))
        (go_on-IsReturned (watch_run_progress watch (suc fuel) (count + 1)) (λ last' w'.
          watch_run_progress-IsReturned most fuel (count + 1) last' w' limit (omega arith)))
        (poll watch (count + 1) last) w

  returned-not_polling :
      (out : Outcome Bool × Chatroom W) → Ensures IsReturned out → out.0 ≢ ok false
  returned-not_polling (ok b, w) h polling = cc (h, polling)
  returned-not_polling (raised e, w) h polling = cc

  -- With a limit on the polls, watch_run_progress does not still poll after one poll or more that
  -- together with those before reach the limit, whatever the run does and whatever sending does:
  -- it has returned, or an exception has ended it.
  pub watch_run_progress_ends :
      (most fuel count : ℕ) (last : Option Snapshot) (w : Chatroom W)
      → watch.max_poll_iterations ≡ some most
      → most ≤ count + suc fuel
      → (watch_run_progress watch (suc fuel) count last w).0 ≢ ok false
  watch_run_progress_ends most fuel count last w limit enough =
      returned-not_polling (watch_run_progress watch (suc fuel) count last w)
        (watch_run_progress-IsReturned most fuel count last w limit enough)

  -- The run has ended, and its end was delivered.
  abbrev pub IsDelivered : Reading → Chatroom W → Type 0
  IsDelivered r w = (is_terminal r.snapshot.status ≡ true) × (elem r.run_id w.deliveries ≡ true)

  abbrev IsDone : Reading → Verdict → Chatroom W → Type 0
  IsDone r v w = v ≡ stop → IsDelivered r w

  module _ (unlimited : watch.max_poll_iterations ≡ none) (count : ℕ) where
    limited-goes_on : (last : Option Snapshot) → limited watch count last ≡ poll_again last
    limited-goes_on last = rw unlimited refl

    limited-IsDone :
        (r : Reading) (last : Option Snapshot) (w : Chatroom W)
        → IsDone r (limited watch count last) w
    limited-IsDone r last w stopped = let goes_on = limited-goes_on last in cc (goes_on, stopped)

    -- A delivery that was sent is recorded.
    abbrev IsRecorded : Reading → Bool → Chatroom W → Type 0
    IsRecorded r sent w = sent ≡ true → elem r.run_id w.deliveries ≡ true

    elem-last : (id : String) (ids : List String) → elem id (ids ++ id ∷ []) ≡ true
    unfolding elem
    elem-last id [] = rw (eq_refl id) refl
    elem-last id (x ∷ xs) = ground (arith, elem-last id xs)

    notify-IsRecorded :
        (r : Reading) (w : Chatroom W) → Ensures (IsRecorded r) (notify_terminal_update watch r w)
    unfolding notify_terminal_update
    notify-IsRecorded r w =
        try_else-Ensures (IsRecorded r) is_exception (λ e. pure false) (λ _. delivered watch r)
          (λ e s sent. ground (arith, sent)) (λ a s sent. elem-last r.run_id s.deliveries)
          (watch.send_text_chunks (format_terminal_update watch r)) w

    after_delivery-IsDone :
        (r : Reading) (last : Option Snapshot)
        → is_terminal r.snapshot.status ≡ true
        → (sent : Bool) (w : Chatroom W) → IsRecorded r sent w
        → IsDone r (after_delivery watch count last sent) w
    after_delivery-IsDone r last ended true w recorded stopped = (ended, recorded refl)
    after_delivery-IsDone r last ended false w recorded stopped = limited-IsDone r last w stopped

    report-IsDone :
        (last : Option Snapshot) (r : Reading) (w : Chatroom W)
        → Ensures (IsDone r) (report watch count last r w)
    unfolding report
    report-IsDone last r w = elim (Bool-cases (is_terminal r.snapshot.status)) [
      | inl e ↦ rw e (
          bind-Ensures (IsRecorded r) (IsDone r)
            (λ sent. pure (after_delivery watch count last sent))
            (λ sent s h. after_delivery-IsDone r last e sent s h) (notify_terminal_update watch r) w
            (notify-IsRecorded r w))
      | inr e ↦ rw e (
          try_else-Ensures (IsDone r) is_exception (λ x. pure (limited watch count last))
            (λ _. pure (limited watch count (some r.snapshot))) (λ x s. limited-IsDone r last s)
            (λ a s. limited-IsDone r (some r.snapshot) s)
            (watch.send_text_chunks (watch.format_progress_update r)) w)
    ]

    seen-IsDone :
        (last : Option Snapshot) (r : Reading) (w : Chatroom W)
        → Ensures (IsDone r) (seen watch count last (some r) w)
    unfolding seen
    seen-IsDone last r w =
        elim (Bool-cases (is_terminal r.snapshot.status && elem r.run_id w.deliveries)) [
          | inl e ↦ rw e (λ stopped. (ground (arith, e), ground (arith, e)))
          | inr e ↦ elim (Bool-cases (same_snapshot last r.snapshot)) [
            | inl f ↦ rw (e, f) (limited-IsDone r last w)
            | inr f ↦ rw (e, f) (report-IsDone last r w)
          ]
        ]

    -- Without a limit on the polls, a poll that finds the run ends the loop only if the run's
    -- status is terminal and its end is among the deliveries.
    pub seen-IsDelivered :
        (last : Option Snapshot) (r : Reading) (w w' : Chatroom W)
        → seen watch count last (some r) w ≡ (ok stop, w')
        → IsDelivered r w'
    seen-IsDelivered last r w w' ended =
        let done : Ensures (IsDone r) (ok stop, w') =
          subst (λ (out : Outcome Verdict × Chatroom W). Ensures (IsDone r) out) ended
            (seen-IsDone last r w) in
        done refl
