-- ===== src/Telegram.antt =====
-- kh_common/telegram: the bot's listener.
pub mod Split
pub mod Send
pub mod Commands
pub mod Queue
