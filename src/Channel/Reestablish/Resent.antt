-- ===== src/Channel/Reestablish/Resent.antt =====
-- A revoke_and_ack that the peer has lost is sent once more.
use rust_lightning.Channel.State.{Channel}
