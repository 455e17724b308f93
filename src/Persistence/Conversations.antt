-- ===== src/Persistence/Conversations.antt =====
-- src/mergemate/infrastructure/persistence/sqlite_repositories.py, `SQLiteConversationRepository`.
use mathlib.Core.List.{reverse, reverse-cons, map-append}
use merge_mate.Base.{ℕ, suc, String, ◌≡◌, refl, ap, ◌∙◌, List, [], ◌∷◌, ◌++◌, map, Bool}
use merge_mate.Domain.Runs.{ChatId, chat_eq, chat_eq_refl}
use merge_mate.Persistence.Recent.{recent, recent-append, recent-IsNewest, IsNewest, IsEarlier}

-- A row of `conversation_messages`.
pub record Message : Type 0 where
  pub chat_id : ChatId
  pub role : String
  pub content : String
  pub created_at : ℕ

abbrev pub in_chat : ChatId → Message → Bool
in_chat chat m = chat_eq m.chat_id chat

abbrev pub message_time : Message → ℕ
message_time m = m.created_at

abbrev pub said : Message → String × String
said m = (m.role, m.content)

-- `append_message`
unfoldable pub append_row : ChatId → String → String → ℕ → List Message → List Message
append_row chat role content now rows =
    rows ++ record { chat_id = chat; role = role; content = content; created_at = now } ∷ []

unfoldable pub list_messages : ChatId → ℕ → List Message → List (String × String)
list_messages chat limit rows = map said (reverse (recent message_time (in_chat chat) limit rows))

-- list_messages gives, the oldest first, as many of the chat's messages as the limit lets it, and
-- none that it leaves out is newer than one that it gives.
pub list_messages_lem :
    (chat : ChatId) (limit : ℕ) (rows : List Message)
    → (out : List Message) × (list_messages chat limit rows ≡ map said (reverse out))
      × IsNewest message_time (in_chat chat) limit rows out
unfolding list_messages
list_messages_lem chat limit rows = (
  recent message_time (in_chat chat) limit rows,
  refl,
  recent-IsNewest message_time (in_chat chat) limit rows,
)

-- With room for one more, a message that is later than all others is listed behind those that were
-- listed before.
pub list_messages-append_row :
    (chat : ChatId) (role content : String) (now limit : ℕ) (rows : List Message)
    → IsEarlier message_time
        (record { chat_id = chat; role = role; content = content; created_at = now })
        rows
    → list_messages chat (suc limit) (append_row chat role content now rows)
      ≡ list_messages chat limit rows ++ (role, content) ∷ []
unfolding list_messages append_row
list_messages-append_row chat role content now limit rows h =
    let m : Message = record { chat_id = chat; role = role; content = content; created_at = now } in
    let newest = recent message_time (in_chat chat) limit rows in
    ap (λ (l : List Message). map said (reverse l))
      (recent-append message_time (in_chat chat) limit rows m h (chat_eq_refl chat))
    ∙ ap (map said) (reverse-cons m newest)
    ∙ map-append said (reverse newest) (m ∷ [])
