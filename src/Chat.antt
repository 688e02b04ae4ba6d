-- ===== src/Chat.antt =====
-- ron/chat.py: the bounded conversation history and one chat turn.
pub mod History
pub mod Turn
