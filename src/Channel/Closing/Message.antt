-- ===== src/Channel/Closing/Message.antt =====
-- lightning/src/ln/channel.rs: `closing_signed`, which handles the peer's proposal of a closing fee,
-- and `build_signed_closing_transaction`.
use rust_lightning.Prelude.{
  ℕ, ◌+◌, ◌*◌, ◌/◌, ◌%◌, ◌^◌, Bool, true, false, not, ◌&&◌, ◌||◌, Option, none, some, List, [], ◌∷◌,
  ◌++◌, if◌then◌else◌, ltb, leb, ◌==◌, length, is_empty, mul64, bytes_ltb,
}
use rust_lightning.Bitcoin.{Extern, Transaction}
use rust_lightning.Msgs.{ClosingSigned}
use rust_lightning.ChanUtils.Keys.{ChannelPublicKeys}
use rust_lightning.ChanUtils.Htlc.{make_funding_redeemscript}
use rust_lightning.Channel.State.{
  Channel, Services, background, normal, ChannelError, close, done, failed, Method, ◌>>=◌, ◌>>◌,
  raise_if, panic_if, unwrap, needs_channel_reestablish, not_both_shut_down, still_pending_htlcs,
  absurd_closing_fee, unaffordable_closing_fee, invalid_closing_signature, no_closing_signature,
  no_consensus,
}
use rust_lightning.Channel.Commit.{ok_or_close}
use rust_lightning.Channel.Closing.{
  get_closing_scriptpubkey, get_closing_transaction_weight, build_closing_transaction,
}
use rust_lightning.Channel.Pause.{only_shutdown_complete}

-- The channel has agreed on its closing transaction.
abbrev pub shut_down : Channel → Channel
shut_down c = record c {
  channel_state = only_shutdown_complete;
  update_time_counter = (c.update_time_counter + 1) % 2 ^ 32;
}

-- Our signature of the transaction with this fee, if it is the one that we proposed last.
abbrev pub agreed_signature : Channel → ℕ → Option ℕ
agreed_signature c fee_satoshis = elim c.last_sent_closing_fee [
  | none ↦ none
  | some (_, last_fee, our_sig) ↦ if last_fee == fee_satoshis then some our_sig else none
]

-- The last feerate that we proposed passes a test.
abbrev pub last_feerate_is : Channel → (ℕ → Bool) → Bool
last_feerate_is c test = elim c.last_sent_closing_fee [
  | none ↦ false
  | some (last_feerate, _, _) ↦ test last_feerate
]

-- The witness of the funding output: the bytes of both signatures, in the order of the keys.
unfoldable pub closing_witness : Extern → Channel → ChannelPublicKeys → ℕ → ℕ → List (List ℕ)
closing_witness x c theirs their_sig our_sig =
    let our_funding_key = x.serialize c.our_pubkeys.funding_pubkey in
    let their_funding_key = x.serialize theirs.funding_pubkey in
    let sighash_type_all = 1 ∷ [] in
    let ours = x.serialize_der our_sig ++ sighash_type_all in
    let others = x.serialize_der their_sig ++ sighash_type_all in
    let script =
      x.into_bytes
        (make_funding_redeemscript x c.our_pubkeys.funding_pubkey theirs.funding_pubkey) in
    if bytes_ltb our_funding_key their_funding_key
    then [] ∷ ours ∷ others ∷ script ∷ []
    else [] ∷ others ∷ ours ∷ script ∷ []

module _ (x : Extern) where
  open x use {sighash_all, verify, get_weight}

  -- `none` where it panics.
  unfoldable pub build_signed_closing_transaction :
      Channel → Transaction → ℕ → ℕ → Option Transaction
  unfolding closing_witness
  build_signed_closing_transaction c tx their_sig our_sig = elim tx.input [
    | [] ↦ none
    | input ∷ _ ∷ _ ↦ none
    | input ∷ [] ↦
        if not (is_empty input.witness) || ltb 2 (length tx.output)
        then none
        else elim c.their_pubkeys [
          | none ↦ none
          | some theirs ↦ some (record tx {
            input = record input { witness = closing_witness x c theirs their_sig our_sig } ∷ [];
          })
        ]
  ]

  abbrev pub is_signed : Channel → ChannelPublicKeys → Transaction → ℕ → Bool
  is_signed c theirs tx signature =
      let funding_redeemscript =
        make_funding_redeemscript x c.our_pubkeys.funding_pubkey theirs.funding_pubkey in
      verify (sighash_all tx funding_redeemscript c.channel_value_satoshis) signature
        theirs.funding_pubkey

  -- The transaction that the peer has signed, with its output or without.
  unfoldable pub check_closing_signed : ClosingSigned → Method ChannelError Transaction
  unfolding build_closing_transaction
  check_closing_signed msg c =
      (do
        let s = c.channel_state
        raise_if (not (s.local_shutdown_sent && s.remote_shutdown_sent)) (close not_both_shut_down)
        raise_if s.peer_disconnected (close needs_channel_reestablish)
        raise_if (not (is_empty c.pending_inbound_htlcs) || not (is_empty c.pending_outbound_htlcs))
            (close still_pending_htlcs)
        raise_if (ltb (21000000 * 10000000) msg.fee_satoshis) (close absurd_closing_fee)
        theirs ← unwrap c.their_pubkeys
        (closing_tx, used_total_fee) ← unwrap (build_closing_transaction x c msg.fee_satoshis false)
        raise_if (not (used_total_fee == msg.fee_satoshis)) (close unaffordable_closing_fee)
        (other_tx, _) ← unwrap (
            if is_signed c theirs closing_tx msg.signature
            then some (closing_tx, used_total_fee)
            else build_closing_transaction x c msg.fee_satoshis true)
        raise_if (not (is_signed c theirs other_tx msg.signature)) (close invalid_closing_signature)
        done other_tx)
        c

  module _ (services : Services) where
    open services use {sign_closing_transaction, get_est_sat_per_1000_weight}

    -- The feerate to propose instead of the peer's, if that is too high for us who pay, or too low for
    -- us who do not.
    unfoldable pub counter_feerate : ℕ → Method ChannelError (Option ℕ)
    counter_feerate proposed_sat_per_kw c =
        let our_max_feerate = get_est_sat_per_1000_weight normal in
        let our_min_feerate = get_est_sat_per_1000_weight background in
        if c.channel_outbound
        then (if ltb our_max_feerate proposed_sat_per_kw
            then (if last_feerate_is c (leb our_max_feerate)
                then failed (close no_consensus) c
                else done (some our_max_feerate) c)
            else done none c)
        else (if ltb proposed_sat_per_kw our_min_feerate
            then (if last_feerate_is c (λ last_feerate. leb last_feerate our_min_feerate)
                then failed (close no_consensus) c
                else done (some our_min_feerate) c)
            else done none c)

    unfoldable pub propose_new_feerate :
        ℕ → Method ChannelError (Option ClosingSigned × Option Transaction)
    unfolding get_closing_scriptpubkey get_closing_transaction_weight build_closing_transaction
    propose_new_feerate new_feerate c =
        (do
          their_script ← unwrap c.their_shutdown_scriptpubkey
          let closing_tx_max_weight =
              get_closing_transaction_weight x (get_closing_scriptpubkey x c) their_script
          (closing_tx, used_total_fee) ←
              unwrap (
                build_closing_transaction x c (mul64 new_feerate closing_tx_max_weight / 1000)
                  false)
          our_sig ← ok_or_close no_closing_signature (sign_closing_transaction closing_tx)
          λ _.
              done
                (
                  some (record {
                    channel_id = c.channel_id;
                    fee_satoshis = used_total_fee;
                    signature = our_sig;
                  }),
                  none,
                )
                (record c { last_sent_closing_fee = some (new_feerate, used_total_fee, our_sig) }))
          c

    -- We agree: the transaction goes out, with both signatures, and our answer where the peer needs it.
    abbrev pub close_with :
        Transaction
        → ClosingSigned
        → ℕ
        → Bool
        → Method ChannelError (Option ClosingSigned × Option Transaction)
    close_with closing_tx msg our_sig answers c =
        (do
          tx ← unwrap (build_signed_closing_transaction c closing_tx msg.signature our_sig)
          λ _.
              done
                (
                  if answers
                      then some (record {
                        channel_id = c.channel_id;
                        fee_satoshis = msg.fee_satoshis;
                        signature = our_sig;
                      })
                      else none,
                  some tx,
                )
                (shut_down c))
          c

    -- All that follows the checks.
    unfoldable pub answer_closing :
        Transaction
        → ClosingSigned
        → Method ChannelError (Option ClosingSigned × Option Transaction)
    unfolding counter_feerate propose_new_feerate
    answer_closing closing_tx msg c = elim (agreed_signature c msg.fee_satoshis) [
      | some our_sig ↦ close_with closing_tx msg our_sig false c
      | none ↦
          (do
            panic_if (get_weight closing_tx == 0)
            counter ← counter_feerate (mul64 msg.fee_satoshis 1000 / get_weight closing_tx)
            λ c1. elim counter [
              | some feerate ↦ propose_new_feerate feerate c1
              | none ↦
                  (do
                    our_sig ← ok_or_close no_closing_signature (sign_closing_transaction closing_tx)
                    close_with closing_tx msg our_sig true)
                    c1
            ])
            c
    ]

    unfoldable pub closing_signed :
        ClosingSigned → Method ChannelError (Option ClosingSigned × Option Transaction)
    unfolding check_closing_signed answer_closing
    closing_signed msg c =
        (do closing_tx ← check_closing_signed msg; answer_closing closing_tx msg) c
