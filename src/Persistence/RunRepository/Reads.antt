-- ===== src/Persistence/RunRepository/Reads.antt =====
-- What the reads of the run repository return: the newest run of a chat that is not over.
use mathlib.Core.List.{Memᴰ}
use mathlib.Core.Path.{subst}
use mathlib.Core.Option.{some-injective}
use merge_mate.Base.{
  ◌≤◌, ◌≡◌, refl, Bool, true, false, ◌&&◌, not, none, some, List, [], ◌∷◌, arith, leb, find,
  find_holds, select, All, select-All, All-find, find-absent, All-self, select-holds, All-mp,
  All-select, Bool-cases, inl, inr, leb→le,
}
use merge_mate.Domain.Status.{is_terminal}
use merge_mate.Domain.Runs.{AgentRun, ChatId, chat_eq}
use merge_mate.Persistence.RunRepository.{
  Table, insert_newest, newest_first, list_for_chat, get_latest_non_terminal_for_chat,
}

abbrev IsNewer : AgentRun → AgentRun → Type 0
IsNewer r x = x.created_at ≤ r.created_at

-- The newest row first.
abbrev pub IsDescending : Table → Type 0
IsDescending [] = Unit
IsDescending (r ∷ t) = All (IsNewer r) t × IsDescending t

module _ (P : AgentRun → Type 0) where
  All-insert_newest : (r : AgentRun) (t : Table) → P r → All P t → All P (insert_newest r t)
  unfolding insert_newest
  All-insert_newest r [] p h = (p, tt)
  All-insert_newest r (x ∷ t) p h = elim (Bool-cases (leb x.created_at r.created_at)) [
    | inl e ↦ rw e (p, h)
    | inr e ↦ rw e (h.0, All-insert_newest r t p h.1)
  ]

  insert_newest-All : (r : AgentRun) (t : Table) → All P (insert_newest r t) → P r × All P t
  unfolding insert_newest
  insert_newest-All r [] h = h
  insert_newest-All r (x ∷ t) h = elim (Bool-cases (leb x.created_at r.created_at)) [
    | inl e ↦ rw e at h
    | inr e ↦
        let h' : P x × All P (insert_newest r t) = rw e at h in
        let rest = insert_newest-All r t h'.1 in (rest.0, (h'.0, rest.1))
  ]

  All-newest_first : (t : Table) → All P t → All P (newest_first t)
  unfolding newest_first
  All-newest_first [] h = tt
  All-newest_first (r ∷ t) h = All-insert_newest r (newest_first t) h.0 (All-newest_first t h.1)

  newest_first-All : (t : Table) → All P (newest_first t) → All P t
  unfolding newest_first
  newest_first-All [] h = tt
  newest_first-All (r ∷ t) h =
      let rest = insert_newest-All r (newest_first t) h in (rest.0, newest_first-All t rest.1)

insert_newest-IsDescending :
    (r : AgentRun) (t : Table) → IsDescending t → IsDescending (insert_newest r t)
unfolding insert_newest
insert_newest-IsDescending r [] d = (tt, tt)
insert_newest-IsDescending r (x ∷ t) d = elim (Bool-cases (leb x.created_at r.created_at)) [
  | inl e ↦
      let first = leb→le x.created_at r.created_at e in
      rw e ((first, All-mp (IsNewer x) (IsNewer r) (λ y h. omega arith) t d.0), d)
  | inr e ↦
      rw e
        (All-insert_newest (IsNewer x) r t (ground arith) d.0, insert_newest-IsDescending r t d.1)
]

newest_first-IsDescending : (t : Table) → IsDescending (newest_first t)
unfolding newest_first
newest_first-IsDescending [] = tt
newest_first-IsDescending (r ∷ t) =
    insert_newest-IsDescending r (newest_first t) (newest_first-IsDescending t)

find-newest :
    (p : AgentRun → Bool) (t : Table) (r : AgentRun)
    → IsDescending t
    → find p t ≡ some r
    → All (λ x. p x ≡ true → x.created_at ≤ r.created_at) t
unfolding find
find-newest p [] r d e = tt
find-newest p (x ∷ t) r d e = elim (Bool-cases (p x)) [
  | inl b ↦
      let same : x ≡ r = some-injective x r (rw b at e) in
      subst (λ (y : AgentRun). All (λ z. p z ≡ true → z.created_at ≤ y.created_at) (x ∷ t)) same
        ((λ _. omega arith), All-mp (IsNewer x) _ (λ y h _. h) t d.0)
  | inr b ↦ ((λ h. cc (b, h)), find-newest p t r d.1 (rw b at e))
]

-- The runs that `get_latest_non_terminal_for_chat` chooses from.
abbrev pub IsLive : ChatId → AgentRun → Type 0
IsLive chat r = (chat_eq r.chat_id chat ≡ true) × (is_terminal r.status ≡ false)

abbrev pub is_live : ChatId → AgentRun → Bool
is_live chat r = chat_eq r.chat_id chat && not (is_terminal r.status)

All-guarded :
    {A : Type 0} (P : A → Type 0) (p : A → Bool) (t : List A)
    → All (λ x. p x ≡ true → P x) t
    → All P (select p t)
unfolding select
All-guarded P p [] h = tt
All-guarded P p (x ∷ t) h = elim (Bool-cases (p x)) [
  | inl e ↦ rw e (h.0 e, All-guarded P p t h.1)
  | inr e ↦ rw e (All-guarded P p t h.1)
]

never : (p : AgentRun → Bool) (t : Table) → All (λ x. p x ≡ false) t → select p t ≡ []
unfolding select
never p [] h = refl
never p (x ∷ t) h = rw (h.0) (never p t h.1)

-- A run that get_latest_non_terminal_for_chat returns is a row of the chat with no terminal
-- status, and none of the chat's runs with no terminal status was created after it.
pub latest_is_newest :
    (chat : ChatId) (t : Table) (r : AgentRun)
    → get_latest_non_terminal_for_chat chat t ≡ some r
    → Memᴰ r t × IsLive chat r × All (λ x. x.created_at ≤ r.created_at) (select (is_live chat) t)
unfolding get_latest_non_terminal_for_chat list_for_chat
latest_is_newest chat t r e =
    let ours : AgentRun → Bool = λ x. chat_eq x.chat_id chat in
    let p : AgentRun → Bool = λ x. not (is_terminal x.status) in
    let rows = newest_first (select ours t) in
    let whole = λ (P : AgentRun → Type 0) (h : All P (select ours t)).
      All-find P p rows r (All-newest_first P (select ours t) h) e in
    (
      whole (λ x. Memᴰ x t) (All-select (λ x. Memᴰ x t) ours t (All-self t)),
      (whole (λ x. ours x ≡ true) (select-holds ours t), ground (arith, find_holds p rows r e)),
      All-guarded (λ x. x.created_at ≤ r.created_at) (is_live chat) t
          (All-mp _ _ (λ x h alive. h (ground arith) (ground arith)) t
            (select-All (λ x. p x ≡ true → x.created_at ≤ r.created_at) ours t
              (newest_first-All _ (select ours t)
                (find-newest p rows r (newest_first-IsDescending (select ours t)) e)))),
    )

-- If get_latest_non_terminal_for_chat returns nothing, every run of the chat has a terminal
-- status.
pub latest-none :
    (chat : ChatId) (t : Table)
    → get_latest_non_terminal_for_chat chat t ≡ none
    → select (is_live chat) t ≡ []
unfolding get_latest_non_terminal_for_chat list_for_chat
latest-none chat t e =
    let ours : AgentRun → Bool = λ x. chat_eq x.chat_id chat in
    never (is_live chat) t (
      All-mp _ _ (λ x h. ground arith) t
        (select-All (λ x. is_terminal x.status ≡ true) ours t
          (All-mp _ _ (λ x h. ground arith) (select ours t)
            (newest_first-All _ (select ours t) (find-absent _ (newest_first (select ours t)) e)))))
