-- ===== src/Samples/Memories.antt =====
-- The theorems on the conversation, the learnings and the full-text query.
use mathlib.Core.List.{reverse}
use merge_mate.Base.{ℕ, suc, String, true, false, none, some, List, [], ◌∷◌, ◌≡◌, refl, map, arith}
use merge_mate.World.Effects.{ok}
use merge_mate.Persistence.Recent.{IsNewest}
use merge_mate.Persistence.Conversations.{
  Message, in_chat, message_time, said, list_messages, list_messages_lem,
}
use merge_mate.Persistence.Learnings.{LearningEntry, list_recent}
use merge_mate.Persistence.Fts.{fts_quote, join_and, read_terms, read_terms-query}
use merge_mate.Application.Learning.{
  Memory, LearningService, extract_lessons, load_recent_learnings, remember_success, entry_of,
  remember_success-recalled,
}
use merge_mate.Samples.{chat}

abbrev message : String → ℕ → Message
message content at = record { chat_id = chat; role = "user"; content = content; created_at = at }

abbrev messages : List Message
messages = message "one" 1 ∷ message "three" 3 ∷ message "two" 2 ∷ []

list_messages_lem_example :
    (out : List Message) × (list_messages chat 2 messages ≡ map said (reverse out))
    × IsNewest message_time (in_chat chat) 2 messages out
list_messages_lem_example = list_messages_lem chat 2 messages

abbrev entry : String → ℕ → LearningEntry
entry workflow at = record {
  chat_id = chat;
  workflow = workflow;
  prompt = "prompt";
  result_excerpt = "result";
  learning_lessons = none;
  created_at = at;
}

abbrev entries : List LearningEntry
entries = entry "debug_code" 1 ∷ entry "generate_code" 2 ∷ entry "debug_code" 3 ∷ []

abbrev service : LearningService
service = record {
  enabled = true;
  max_context_items = 3;
  max_result_chars = 1200;
  excerpt = λ n t. t;
  generate = none;
  completed = λ t. ok none;
  has_knowledge = false;
}

abbrev memory : Memory
memory = record { learnings = entries; knowledge = []; clock = 9 }

extracted : extract_lessons service "done" memory ≡ (ok "{}", memory)
unfolding extract_lessons
extracted = refl

remember_success-recalled_example :
    load_recent_learnings service chat
      (remember_success service chat "generate_code" "add a test" "done" memory).1
    ≡ entry_of service chat "generate_code" "add a test" "done" "{}" 9 ∷ list_recent chat 2 entries
remember_success-recalled_example =
    remember_success-recalled service chat "generate_code" "add a test" "done" "{}" 2 memory memory
      refl refl extracted (omega arith, (omega arith, (omega arith, tt)))

-- The words `a"` and `b`.
read_terms-query_example :
    read_terms (suc 1) (join_and (map fts_quote ((97 ∷ 34 ∷ []) ∷ (98 ∷ []) ∷ [])))
    ≡ some ((97 ∷ 34 ∷ []) ∷ (98 ∷ []) ∷ [])
read_terms-query_example = read_terms-query (97 ∷ 34 ∷ []) ((98 ∷ []) ∷ [])
