-- ===== src/Application/Learning.antt =====
-- src/mergemate/application/services/learning_service.py, over the tables of learning entries and of
-- knowledge of repositories. The model's call and `json` are parameters.
use merge_mate.Base.{
  ℕ, suc, String, Bool, true, false, not, ◌||◌, Option, none, some, List, [], ◌∷◌, ◌≡◌,
  if◌then◌else◌, Bool-cases, inl, inr, arith,
}
use merge_mate.Domain.Runs.{ChatId, chat_eq_refl}
use merge_mate.World.Effects.{
  Exec, Outcome, ok, raised, Error, pure, handle, try_except, continue, ◌>>=◌, is_exception,
}
use merge_mate.Persistence.Recent.{recent-append, IsEarlier}
use merge_mate.Persistence.Learnings.{
  LearningEntry, entry_in, entry_time, record_entry, list_recent, list_grouped_by_workflow,
}
use merge_mate.Persistence.Knowledge.{KnowledgeEntry, record_knowledge, list_knowledge}

-- The tables that the service writes and reads, and the clock.
pub record Memory : Type 0 where
  pub learnings : List LearningEntry
  pub knowledge : List KnowledgeEntry
  pub clock : ℕ

-- What the service is given. `excerpt` is `result_text.strip()[: max_result_chars]`, `generate` the
-- call of the model, none if there is no gateway; `completed` is `json.loads`, the keys that are
-- added, and `json.dumps`: none for a text that is JSON but no object, and an error for no JSON.
pub record LearningService : Type 0 where
  pub enabled : Bool
  pub max_context_items : ℕ
  pub max_result_chars : ℕ
  pub excerpt : ℕ → String → String
  pub generate : Option (String → Exec Memory String)
  pub completed : String → Outcome (Option String)
  pub has_knowledge : Bool

abbrev pub or_braces : Option String → String
or_braces none = "{}"
or_braces (some t) = t

module _ (s : LearningService) where
  abbrev parse : String → Exec Memory String
  parse raw m = continue (s.completed raw) (λ o. pure (or_braces o)) m

  abbrev ask : Option (String → Exec Memory String) → String → Exec Memory String
  ask none result = pure "{}"
  ask (some generate) result = try_except is_exception (generate result >>= parse) (λ e. pure "{}")

  -- `_extract_lessons`
  unfoldable pub extract_lessons : String → Exec Memory String
  extract_lessons result = ask s.generate result

  unfoldable pub store : ChatId → String → String → String → String → Exec Memory (Unit {0})
  store chat workflow prompt result lessons m = (
    ok tt,
    record m {
      learnings =
          record_entry chat workflow prompt (s.excerpt s.max_result_chars result) (some lessons)
            m.clock m.learnings;
    },
  )

  unfoldable pub remember_success : ChatId → String → String → String → Exec Memory (Unit {0})
  unfolding extract_lessons store
  remember_success chat workflow prompt result =
      if not s.enabled
      then pure tt
      else extract_lessons result >>= store chat workflow prompt result

  unfoldable pub load_recent_learnings : ChatId → Memory → List LearningEntry
  load_recent_learnings chat m =
      if not s.enabled then [] else list_recent chat s.max_context_items m.learnings

  unfoldable pub remember_repo_knowledge :
      ChatId → String → String → String → Exec Memory (Unit {0})
  remember_repo_knowledge chat repo topic summary m =
      if not s.enabled || not s.has_knowledge then (ok tt, m) else (
        ok tt,
        record m { knowledge = record_knowledge chat repo topic summary m.clock m.knowledge },
      )

  unfoldable pub load_repo_knowledge : ChatId → Option String → Memory → List KnowledgeEntry
  load_repo_knowledge chat repo m =
      if not s.enabled || not s.has_knowledge
      then []
      else list_knowledge chat repo s.max_context_items m.knowledge

  unfoldable pub load_grouped_learnings : ChatId → String → Memory → List LearningEntry
  load_grouped_learnings chat current m =
      if not s.enabled
      then []
      else list_grouped_by_workflow chat current s.max_context_items 1 m.learnings

module _ (s : LearningService) where
  -- What an exception that gets past `except Exception` is.
  handled-errors :
      (r : Outcome String) (m : Memory) (e : Error) (m' : Memory)
      → handle is_exception (λ x. pure "{}") r m ≡ (raised e, m')
      → is_exception e.kind ≡ false
  handled-errors (ok t) m e m' h = ground (arith, h)
  handled-errors (raised x) m e m' h = elim (Bool-cases (is_exception x.kind)) [
    | inl c ↦ let h' : (ok "{}", m) ≡ (raised e, m') = rw c at h in ground (arith, h')
    | inr c ↦ let h' : (raised x, m) ≡ (raised e, m') = rw c at h in ground (arith, h', c)
  ]

  ask-errors :
      (g : Option (String → Exec Memory String)) (result : String) (m : Memory) (e : Error)
      (m' : Memory)
      → ask s g result m ≡ (raised e, m')
      → is_exception e.kind ≡ false
  ask-errors none result m e m' h = ground (arith, h)
  ask-errors (some generate) result m e m' h =
      handled-errors ((generate result >>= parse s) m).0 ((generate result >>= parse s) m).1 e m' h

  -- The extraction of lessons raises nothing that is an Exception.
  pub extract_lessons-errors :
      (result : String) (m : Memory) (e : Error) (m' : Memory)
      → extract_lessons s result m ≡ (raised e, m')
      → is_exception e.kind ≡ false
  unfolding extract_lessons
  extract_lessons-errors result m e m' h = ask-errors s.generate result m e m' h

  abbrev pub entry_of : ChatId → String → String → String → String → ℕ → LearningEntry
  entry_of chat workflow prompt result lessons now = record {
    chat_id = chat;
    workflow = workflow;
    prompt = prompt;
    result_excerpt = s.excerpt s.max_result_chars result;
    learning_lessons = some lessons;
    created_at = now;
  }

  -- With the service enabled and room for an entry, after a remember_success whose lessons were
  -- extracted, and no entry of the time of the record or later, load_recent_learnings gives the
  -- new entry first and then the recent ones of before.
  pub remember_success-recalled :
      (chat : ChatId) (workflow prompt result lessons : String) (limit : ℕ) (m m' : Memory)
      → s.enabled ≡ true
      → s.max_context_items ≡ suc limit
      → extract_lessons s result m ≡ (ok lessons, m')
      → IsEarlier entry_time (entry_of chat workflow prompt result lessons m'.clock) m'.learnings
      → load_recent_learnings s chat (remember_success s chat workflow prompt result m).1
        ≡ entry_of chat workflow prompt result lessons m'.clock
          ∷ list_recent chat limit m'.learnings
  unfolding load_recent_learnings remember_success store list_recent record_entry
  remember_success-recalled chat workflow prompt result lessons limit m m' on size extracted
        earlier =
      rw (on, size, extracted)
        (recent-append entry_time (entry_in chat) limit m'.learnings
          (entry_of chat workflow prompt result lessons m'.clock) earlier (chat_eq_refl chat))
