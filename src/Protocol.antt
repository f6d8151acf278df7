-- ===== src/Protocol.antt =====
-- internal/protocol: transaction status, framing and relaying, message codecs.
pub mod TxStatus
pub mod Wire
pub mod Message
