-- ===== src/Channel/Remove/Balance.antt =====
-- Removing an HTLC keeps the invariant of the balances.
use rust_lightning.Prelude.{
  ℕ, zero, suc, ◌+◌, ◌≡◌, refl, ◌⊎◌, inl, inr, Bool, true, Option, none, some, List, [], ◌∷◌, arith,
  ◌==◌, get_elem?, Bool-cases, Option-cases,
}
use rust_lightning.Bitcoin.{Extern}
use rust_lightning.Msgs.{
  OnionErrorPacket, UpdateFulfillHtlc, UpdateFailHtlc, UpdateFailMalformedHtlc,
}
use rust_lightning.Channel.Types.{
  HtlcSource, HtlcFailReason, fulfill, fail_relay, InboundHtlcState, InboundHtlcOutput,
  OutboundHtlcState, OutboundHtlcOutput, InboundHtlcRemovalReason,
}
use rust_lightning.Channel.State.{Channel, ChannelError, Leaves}
use rust_lightning.Channel.Commitment.Balance.{inbound_sum, outbound_sum}
use rust_lightning.Channel.Safe.{
  IsSafeChannel, IsSafe, every_inbound, every_outbound, is_locked, is_paid,
}
use rust_lightning.Channel.Add.{is_removed_fulfilled}
use rust_lightning.Channel.Remove.{
  mark_removed, mark_outbound_htlc_removed, update_fulfill_htlc, update_fail_htlc,
  update_fail_malformed_htlc, set_state, find_inbound, find_to_fail, FailSearch, at_index,
  removed_before, not_committed, is_committed, fulfill_found, get_update_fulfill_htlc,
  get_update_fail_htlc,
}

-- The HTLCs that marking leaves behind.
abbrev pub marked :
    List OutboundHtlcOutput
    → ChannelError ⊎ HtlcSource × List OutboundHtlcOutput
    → List OutboundHtlcOutput
marked htlcs (inl e) = htlcs
marked htlcs (inr (source, htlcs')) = htlcs'

-- Marking does not change a sum that treats both states of the marked HTLC alike.
pub mark_removed-sum :
    (test : OutboundHtlcState → Bool) (id : ℕ) (hash : Option ℕ) (r : Option HtlcFailReason)
    (htlcs : List OutboundHtlcOutput)
    → test (OutboundHtlcState.remote_removed r) ≡ test OutboundHtlcState.committed
    → outbound_sum test (marked htlcs (mark_removed id hash r htlcs)) ≡ outbound_sum test htlcs
unfolding mark_removed
mark_removed-sum test id hash r [] same = refl
mark_removed-sum test id hash r (htlc ∷ htlcs) same =
    ground (arith, mark_removed-sum test id hash r htlcs same)

mark_outbound_htlc_removed-IsSafe :
    (id : ℕ) (hash : Option ℕ) (r : Option HtlcFailReason) (c : Channel)
    → IsSafeChannel c
    → Leaves IsSafeChannel (mark_outbound_htlc_removed id hash r c)
unfolding mark_outbound_htlc_removed
mark_outbound_htlc_removed-IsSafe id hash r c s = ground (
  arith,
  mark_removed-sum every_outbound id hash r c.pending_outbound_htlcs refl,
  mark_removed-sum is_removed_fulfilled id hash r c.pending_outbound_htlcs refl,
  mark_removed-sum is_paid id hash r c.pending_outbound_htlcs refl,
)

-- The peer's update_fulfill_htlc leaves a safe channel safe, whether it is accepted or refused.
pub update_fulfill_htlc-IsSafe :
    (x : Extern) (msg : UpdateFulfillHtlc) (c : Channel)
    → IsSafeChannel c
    → Leaves IsSafeChannel (update_fulfill_htlc x msg c)
unfolding update_fulfill_htlc
update_fulfill_htlc-IsSafe x msg c s = ground (
  arith,
  mark_outbound_htlc_removed-IsSafe msg.htlc_id
      (some (x.hash_number (x.sha256 msg.payment_preimage))) none c s,
)

-- The peer's update_fail_htlc leaves a safe channel safe, whether it is accepted or refused.
pub update_fail_htlc-IsSafe :
    (msg : UpdateFailHtlc) (r : HtlcFailReason) (c : Channel)
    → IsSafeChannel c
    → Leaves IsSafeChannel (update_fail_htlc msg r c)
unfolding update_fail_htlc
update_fail_htlc-IsSafe msg r c s =
    ground (arith, mark_outbound_htlc_removed-IsSafe msg.htlc_id none (some r) c s)

-- The peer's update_fail_malformed_htlc leaves a safe channel safe, whether it is accepted or refused.
pub update_fail_malformed_htlc-IsSafe :
    (msg : UpdateFailMalformedHtlc) (r : HtlcFailReason) (c : Channel)
    → IsSafeChannel c
    → Leaves IsSafeChannel (update_fail_malformed_htlc msg r c)
unfolding update_fail_malformed_htlc
update_fail_malformed_htlc-IsSafe msg r c s =
    ground (arith, mark_outbound_htlc_removed-IsSafe msg.htlc_id none (some r) c s)

set_state-sum :
    (test : InboundHtlcState → Bool) (idx : ℕ) (state : InboundHtlcState)
    (htlcs : List InboundHtlcOutput) (htlc : InboundHtlcOutput)
    → get_elem? htlcs idx ≡ some htlc
    → test state ≡ test htlc.state
    → inbound_sum test (set_state idx state htlcs) ≡ inbound_sum test htlcs
unfolding set_state
set_state-sum test idx state [] htlc e same = refl
set_state-sum test zero state (first ∷ htlcs) htlc e same = ground arith
set_state-sum test (suc idx) state (first ∷ htlcs) htlc e same =
    omega (arith, set_state-sum test idx state htlcs htlc e same)

-- The position that a search returns is that of a committed HTLC.
abbrev IsFound : ℕ → List InboundHtlcOutput → ℕ → Type 0
IsFound start htlcs i =
    (j : ℕ) × (i ≡ start + j)
    × (htlc : InboundHtlcOutput) × (get_elem? htlcs j ≡ some htlc)
    × (is_committed htlc.state ≡ true)

IsFound-next :
    (start : ℕ) (first : InboundHtlcOutput) (htlcs : List InboundHtlcOutput) (i : ℕ)
    → IsFound (start + 1) htlcs i
    → IsFound start (first ∷ htlcs) i
IsFound-next start first htlcs i (j, e, htlc, at, is) = (suc j, omega arith, htlc, at, is)

find_inbound-IsFound :
    (id start : ℕ) (htlcs : List InboundHtlcOutput) (i : ℕ) (htlc : InboundHtlcOutput)
    → find_inbound id start htlcs ≡ some (i, htlc)
    → is_committed htlc.state ≡ true
    → IsFound start htlcs i
unfolding find_inbound
find_inbound-IsFound id start [] i htlc e is = cc
find_inbound-IsFound id start (first ∷ htlcs) i htlc e is =
    elim (Bool-cases (first.htlc_id == id)) [
      | inl here ↦ (zero, ground arith, first, refl, ground arith)
      | inr there ↦
          IsFound-next start first htlcs i
            (find_inbound-IsFound id (start + 1) htlcs i htlc (ground arith) is)
    ]

-- A committed HTLC may become a removed one.
remove_found-IsSafe :
    (c : Channel) (i : ℕ) (r : InboundHtlcRemovalReason)
    → IsSafeChannel c
    → IsFound 0 c.pending_inbound_htlcs i
    → IsSafe c.channel_value_satoshis c.value_to_self_msat
        (set_state i (InboundHtlcState.local_removed r) c.pending_inbound_htlcs)
        c.pending_outbound_htlcs
remove_found-IsSafe c i r s (j, e, htlc, at, is) =
    let same : i ≡ j = omega arith in
    let state : InboundHtlcState = InboundHtlcState.local_removed r in
    rw same (
      ground (
        arith,
        set_state-sum every_inbound j state c.pending_inbound_htlcs htlc at refl,
        set_state-sum is_locked j state c.pending_inbound_htlcs htlc at (ground arith),
      ))

fulfill_found-IsSafe :
    (x : Extern) (id : ℕ) (preimage : List ℕ) (i : ℕ) (htlc : InboundHtlcOutput) (c : Channel)
    → IsSafeChannel c
    → find_inbound id 0 c.pending_inbound_htlcs ≡ some (i, htlc)
    → Leaves IsSafeChannel (fulfill_found x id preimage i htlc c)
unfolding fulfill_found
fulfill_found-IsSafe x id preimage i htlc c s e = elim (Bool-cases (is_committed htlc.state)) [
  | inl is ↦ ground (
    arith,
    remove_found-IsSafe c i (fulfill preimage) s
        (find_inbound-IsFound id 0 c.pending_inbound_htlcs i htlc e is),
  )
  | inr other ↦ ground arith
]

-- Our own claims keep a safe channel safe, also where the claim waits in the holding cell.
pub get_update_fulfill_htlc-IsSafe :
    (x : Extern) (id : ℕ) (preimage : List ℕ) (c : Channel)
    → IsSafeChannel c
    → Leaves IsSafeChannel (get_update_fulfill_htlc x id preimage c)
unfolding get_update_fulfill_htlc
get_update_fulfill_htlc-IsSafe x id preimage c s =
    elim (Option-cases (find_inbound id 0 c.pending_inbound_htlcs)) [
      | inl e ↦ ground arith
      | inr ((i, htlc), e) ↦ ground (arith, fulfill_found-IsSafe x id preimage i htlc c s e)
    ]

find_to_fail-IsFound :
    (id start : ℕ) (found : Option ℕ) (htlcs : List InboundHtlcOutput) (i : ℕ)
    → find_to_fail id start found htlcs ≡ at_index (some i)
    → (found ≡ some i) ⊎ IsFound start htlcs i
unfolding find_to_fail
find_to_fail-IsFound id start found [] i e = inl (ground arith)
find_to_fail-IsFound id start found (first ∷ htlcs) i e = elim (Bool-cases (first.htlc_id == id)) [
  | inl here ↦ elim (find_to_fail-IsFound id (start + 1) (some start) htlcs i (ground arith)) [
    | inl at ↦ inr (zero, ground arith, first, refl, ground arith)
    | inr later ↦ inr (IsFound-next start first htlcs i later)
  ]
  | inr there ↦ elim (find_to_fail-IsFound id (start + 1) found htlcs i (ground arith)) [
    | inl before ↦ inl before
    | inr later ↦ inr (IsFound-next start first htlcs i later)
  ]
]

-- Our own failures keep a safe channel safe.
pub get_update_fail_htlc-IsSafe :
    (id : ℕ) (err_packet : OnionErrorPacket) (c : Channel)
    → IsSafeChannel c
    → Leaves IsSafeChannel (get_update_fail_htlc id err_packet c)
unfolding get_update_fail_htlc
get_update_fail_htlc-IsSafe id err_packet c s =
    go (find_to_fail id 0 none c.pending_inbound_htlcs) refl
  where
    go :
        (found : FailSearch)
        → find_to_fail id 0 none c.pending_inbound_htlcs ≡ found
        → Leaves IsSafeChannel (get_update_fail_htlc id err_packet c)
    go removed_before e = ground arith
    go not_committed e = ground arith
    go (at_index none) e = ground arith
    go (at_index (some i)) e = elim (find_to_fail-IsFound id 0 none c.pending_inbound_htlcs i e) [
      | inl impossible ↦ cc
      | inr at ↦ ground (arith, remove_found-IsSafe c i (fail_relay err_packet) s at)
    ]
