-- ===== src/Lib.antt =====
-- A verification library for rust-lightning: the payment channel of lightning/src/ln/channel.rs, from
-- its opening to its end, the helpers of lightning/src/ln/chan_utils.rs that it builds its transactions
-- and secrets with, the output order of lightning/src/util/transaction_utils.rs, and the messages of a
-- channel as bytes (lightning/src/ln/wire.rs, msgs.rs, util/ser.rs and util/byte_utils.rs).
--
-- A channel holds a balance and two lists of HTLCs, each with a state that says which commitment
-- transactions contain it. The peer's messages (update_add_htlc, update_fulfill_htlc,
-- update_fail_htlc, update_fail_malformed_htlc, commitment_signed, revoke_and_ack, update_fee) and our
-- own calls (send_htlc, get_update_fulfill_htlc, get_update_fail_htlc, send_commitment) move the
-- HTLCs from state to state; what may not be sent yet waits in the holding cell. The invariant IsSafe
-- of Channel/Safe says that neither side has promised more than it owns, counted for the HTLCs of
-- every transaction that may be built next; IsSound of Channel/Funds adds that our balance also covers
-- what waits. A disconnection and a monitor that is late hold messages back, and channel_reestablish
-- finds out which of them go out again. shutdown and closing_signed end the channel. Channel/Calls
-- puts all of these together as the steps of a channel's life, in any order.
--
-- Files, and the code that they model:
--   Prelude          library names, Boolean tests, lists, and the u64 and i64 arithmetic of the code:
--                    a word is a number below 2 ^ 64, an i64 its two's complement.
--   Config           lightning/src/util/config.rs.
--   Bitcoin          the types and functions of the crates bitcoin, bitcoin_hashes and secp256k1 that
--                    the code uses; the functions are the fields of the record Extern, a parameter.
--   Msgs             the messages, lightning/src/ln/msgs.rs.
--   TransactionUtils sort_outputs.
--   Ser              Codec: streams, integers and byte strings; BigSize and Dropped: the two integers
--                    of variable length; Keys: keys and signatures, whose formats are the record Secp,
--                    a parameter with the laws IsSecp for
--                    the numbers that stand for them; Updates, Messages: the messages, field after
--                    field; Back: that they are read back; Wire: the enum Message with the types.
--   ChanUtils        Keys: TxCreationKeys and the derivation of public keys; Secrets: the
--                    per-commitment secrets and CounterpartyCommitmentSecrets; Htlc: the scripts and
--                    the HTLC transactions.
--   Channel/Types    the HTLCs and their states, also those of lightning/src/ln/channelmanager.rs.
--   Channel/State    the struct Channel, its flags, its errors, and Method, the form of its methods: a
--                    method ends with a result, an error or a panic, the first two with the channel
--                    that they leave behind. The signer and the fee estimator are the fields of the
--                    record Services, a parameter.
--   Channel/Outcomes what the parts of a method say of the method.
--   Channel/Commitment, Channel/Transaction   build_commitment_transaction.
--   Channel/Add      update_add_htlc, send_htlc and the statistics that they check.
--   Channel/Remove   the removals, the peer's and our own.
--   Channel/Commit   send_commitment and its parts.
--   Channel/Signed   commitment_signed.
--   Channel/HoldingCell, Channel/Revoke   free_holding_cell_htlcs and revoke_and_ack.
--   Channel/Fee      update_fee and send_update_fee.
--   Channel/Open     new_outbound, new_from_req, accept_channel and the messages open_channel and
--                    accept_channel; what is asked of the trait KeysInterface is the record
--                    KeysProvider, a parameter. Checks: their checks, in order.
--   Channel/Locked   funding_locked.
--   Channel/Pause    remove_uncommitted_htlcs_and_mark_paused, monitor_update_failed,
--                    monitor_updating_restored and the messages that are sent again.
--   Channel/Reestablish   channel_reestablish.
--   Channel/Shutdown shutdown, get_shutdown and force_shutdown.
--   Channel/Closing  the closing transaction, its first proposal, and closing_signed.
--   Channel/Funds    what each method promises of our balance.
--   Channel/Calls    the calls of a channel that are made in channelmanager.rs, as steps.
--   Tests            sample channels, messages and bytes, and runs on them.
--
-- Loops over lists are recursions on the list, the loops over 48 bits recursions on the bits left, and
-- a read recurs on the bytes announced, so nothing needs fuel. "Leaves a safe channel safe" speaks of
-- the channel after a result or an error; a panic leaves none. A debug_assert has no effect and
-- additions wrap, as in a release build. An array of 32 bytes that is only compared, copied and
-- written is the number that its bytes spell, the highest first.
--
-- Not modelled: the funding transaction (get_outbound_funding_created, funding_created,
-- funding_signed), which is no step of Channel/Calls, so that its runs start at any sound channel,
-- also at one that is funded; the channel's copy on the disk; the blocks and the announcements;
-- logging. Of the serialization, TLV streams, Option<T> and FixedLengthReader, the messages of the
-- opening and the gossip, errors of the stream itself (DecodeError::Io, since a stream is a list
-- here) and the assertion that a number of 48 bits fits. force_shutdown ends a channel, no other
-- method may follow it, so it is no step of Channel/Calls. The other modules of the crate
-- (channelmanager, channelmonitor, onchaintx, router, peer handling and the cryptography). The
-- channel's copy of its monitor is the list of the steps that it was given, since the channel reads
-- nothing from it here.
pub mod Prelude
pub mod Config
pub mod Bitcoin
pub mod Msgs
pub mod TransactionUtils
pub mod Ser
pub mod ChanUtils
pub mod Channel
pub mod Tests
