-- ===== src/Persistence/Knowledge.antt =====
-- src/mergemate/infrastructure/persistence/sqlite_repositories.py, `SQLiteRepoKnowledgeRepository`.
use merge_mate.Base.{ℕ, String, Bool, true, ◌&&◌, Option, none, some, List, [], ◌∷◌, ◌++◌, str_eq}
use merge_mate.Domain.Runs.{ChatId, chat_eq}
use merge_mate.Persistence.Recent.{recent}

-- A row of `repo_knowledge`.
pub record KnowledgeEntry : Type 0 where
  pub chat_id : ChatId
  pub repo_name : String
  pub topic : String
  pub summary : String
  pub created_at : ℕ

-- `AND repo_name = ?` is there for a name only.
abbrev pub of_repo : Option String → String → Bool
of_repo none name = true
of_repo (some repo) name = str_eq name repo

abbrev pub knowledge_of : ChatId → Option String → KnowledgeEntry → Bool
knowledge_of chat repo e = chat_eq e.chat_id chat && of_repo repo e.repo_name

abbrev pub knowledge_time : KnowledgeEntry → ℕ
knowledge_time e = e.created_at

-- `record`
unfoldable pub record_knowledge :
    ChatId → String → String → String → ℕ → List KnowledgeEntry → List KnowledgeEntry
record_knowledge chat repo topic summary now rows =
    rows
    ++ record {
      chat_id = chat;
      repo_name = repo;
      topic = topic;
      summary = summary;
      created_at = now;
    }
      ∷ []

unfoldable pub list_knowledge :
    ChatId → Option String → ℕ → List KnowledgeEntry → List KnowledgeEntry
list_knowledge chat repo limit rows = recent knowledge_time (knowledge_of chat repo) limit rows
