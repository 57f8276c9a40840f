-- ===== src/Nntp.antt =====
-- backend/lorex/nntp: the yEnc decoder, the protocol client, the group scanner.
pub mod Stream
pub mod Crc
pub mod Yenc
pub mod Models
pub mod Scanner
pub mod Client
