-- ===== src/Channel.antt =====
-- lightning/src/ln/channel.rs: the state machine of a channel and its commitment transactions.
pub mod Types
pub mod State
pub mod Outcomes
pub mod Commitment
pub mod Transaction
pub mod Add
pub mod Safe
pub mod Funds
pub mod Remove
pub mod Closing
pub mod Commit
pub mod HoldingCell
pub mod Revoke
pub mod Signed
pub mod Fee
pub mod Locked
pub mod Pause
pub mod Shutdown
pub mod Reestablish
pub mod Open
pub mod Calls
