-- ===== src/ChanUtils.antt =====
-- lightning/src/ln/chan_utils.rs, by topic.
pub mod Keys
pub mod Secrets
pub mod Htlc
