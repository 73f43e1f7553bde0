-- ===== src/Channel/Open/Agreed.antt =====
-- The two sides of a channel after its opening.
use rust_lightning.Prelude.{
  ℕ, ◌+◌, ◌*◌, ◌%◌, ◌^◌, ◌≤◌, ◌<◌, ◌≡◌, refl, ap, ◌∙◌, not, Option, some, List, inl, inr, mul64,
  arith, subst, Option-cases, Sum-cases,
}
use Prim.Native.Nat.{min}
use rust_lightning.Config.{UserConfig}
use rust_lightning.Bitcoin.{Extern}
use rust_lightning.Msgs.{OpenChannel, AcceptChannel}
use rust_lightning.ChanUtils.Secrets.{build_commitment_secret}
use rust_lightning.Channel.State.{
  Channel, initial_commitment_number, our_max_htlcs, Services, background, normal, ChannelError,
  done,
}
use rust_lightning.Channel.Add.{
  get_our_max_htlc_value_in_flight_msat, get_our_channel_reserve_satoshis,
}
use rust_lightning.Channel.Commit.{build_local_commitment_secret}
use rust_lightning.Channel.Open.{
  KeysProvider, both_init, outbound_channel, new_outbound, inbound_channel, new_from_req, accepted,
  accept_channel,
}
use rust_lightning.Channel.Open.Messages.{
  open_message, accept_message, get_open_channel, get_accept_channel,
}
use rust_lightning.Channel.Open.Checks.{
  first_failure, own_checks, request_checks, accept_checks, upfront_script,
}
use rust_lightning.Channel.Open.Sound.{first_failure-none}

-- What the second channel holds of its peer is what the first one holds of itself.
pub record Knows (x : Extern) (c c' : Channel) : Type 0 where
  pub dust_limit : c'.their_dust_limit_satoshis ≡ c.our_dust_limit_satoshis
  pub delay : c'.their_to_self_delay ≡ c.our_to_self_delay
  pub minimum : c'.their_htlc_minimum_msat ≡ c.our_htlc_minimum_msat
  pub reserve :
      c'.their_channel_reserve_satoshis ≡ get_our_channel_reserve_satoshis c.channel_value_satoshis
  pub in_flight :
      c'.their_max_htlc_value_in_flight_msat
      ≡ get_our_max_htlc_value_in_flight_msat c.channel_value_satoshis
  pub accepted_htlcs : c'.their_max_accepted_htlcs ≡ our_max_htlcs
  pub pubkeys : c'.their_pubkeys ≡ some c.our_pubkeys
  pub point :
      c'.their_cur_commitment_point
      ≡ some (
          x.public_key
            (build_commitment_secret x.sha256 c.commitment_seed initial_commitment_number))

-- The two channels are the two sides of one, and the balances are the whole of it.
pub record AreSides (x : Extern) (c c' : Channel) : Type 0 where
  pub id : c'.channel_id ≡ c.channel_id
  pub directions : c'.channel_outbound ≡ not c.channel_outbound
  pub value : c'.channel_value_satoshis ≡ c.channel_value_satoshis
  pub whole : c.value_to_self_msat + c'.value_to_self_msat ≡ c.channel_value_satoshis * 1000
  pub depth : c'.minimum_depth ≡ c.minimum_depth
  pub state : c.channel_state ≡ both_init
  pub state' : c'.channel_state ≡ both_init
  pub first : Knows x c c'
  pub second : Knows x c' c

abbrev first_secret : Extern → Channel → List ℕ
first_secret x c =
    build_commitment_secret x.sha256 c.commitment_seed c.cur_local_commitment_transaction_number

-- The limit that is proposed is not cut by the channel's value.
in_flight-min :
    (value : ℕ)
    → min (get_our_max_htlc_value_in_flight_msat value) (mul64 value 1000)
      ≡ get_our_max_htlc_value_in_flight_msat value
unfolding get_our_max_htlc_value_in_flight_msat
in_flight-min value = ground arith

module _ (services : Services) (provider : KeysProvider) (config : UserConfig) where
  new_outbound-is :
      (value push : ℕ) (c : Channel)
      → new_outbound services provider config value push ≡ inr c
      → (outbound_channel services provider config value push ≡ c)
        × (value < 2 ^ 24)
        × (push ≤ value * 1000)
  unfolding new_outbound own_checks
  new_outbound-is value push c e =
      elim (Option-cases (first_failure (own_checks config value push))) [
        | inl passed ↦
            let fits = first_failure-none (own_checks config value push) passed in
            let small : value < 2 ^ 24 = ground (arith, fits.0) in
            let pushed : push ≤ mul64 value 1000 = ground (arith, fits.1.0) in
            (ground (arith, passed), small, omega arith)
        | inr (reason, failed) ↦ ground (arith, failed)
      ]

  new_from_req-is :
      (x : Extern) (features : List ℕ) (msg : OpenChannel) (c : Channel)
      → new_from_req services provider config x features msg ≡ inr c
      → (script : Option (List ℕ)) × (inbound_channel services provider config msg script ≡ c)
  unfolding new_from_req
  new_from_req-is x features msg c e =
      elim (Option-cases (first_failure (request_checks config services msg))) [
        | inl passed ↦ elim (Sum-cases (upfront_script x features msg.shutdown_scriptpubkey)) [
          | inl (reason, refused) ↦ ground (arith, passed, refused)
          | inr (script, named) ↦ (script, ground (arith, passed, named))
        ]
        | inr (reason, failed) ↦ ground (arith, failed)
      ]

module _ (x : Extern) where
  accept_channel-is :
      (config : UserConfig) (features : List ℕ) (msg : AcceptChannel) (c c' : Channel)
      → accept_channel x config features msg c ≡ done tt c'
      → (script : Option (List ℕ)) × (accepted x msg script c ≡ c')
  unfolding accept_channel
  accept_channel-is config features msg c c' e =
      elim (Option-cases (first_failure (accept_checks config msg c))) [
        | inl passed ↦ elim (Sum-cases (upfront_script x features msg.shutdown_scriptpubkey)) [
          | inl (reason, refused) ↦ ground (arith, passed, refused)
          | inr (script, named) ↦ (script, ground (arith, passed, named))
        ]
        | inr (reason, failed) ↦ ground (arith, failed)
      ]

  get_open_channel-is :
      (services : Services) (chain_hash : ℕ) (msg : OpenChannel) (c c' : Channel)
      → get_open_channel x {E = ChannelError} services chain_hash c ≡ done msg c'
      → open_message x services chain_hash (first_secret x c) c ≡ msg
  unfolding get_open_channel build_local_commitment_secret
  get_open_channel-is services chain_hash msg c c' e = ground arith

  get_accept_channel-is :
      (msg : AcceptChannel) (c c' : Channel)
      → get_accept_channel x {E = ChannelError} c ≡ done msg c'
      → accept_message x (first_secret x c) c ≡ msg
  unfolding get_accept_channel build_local_commitment_secret
  get_accept_channel-is msg c c' e = ground arith

-- The two sides, and the feerates that they start with.
abbrev pub AreOpened : Extern → Services → Channel → Channel → Type 0
AreOpened x services c c' =
    AreSides x c c'
    × (c.feerate_per_kw ≡ services.get_est_sat_per_1000_weight normal)
    × (c'.feerate_per_kw ≡ services.get_est_sat_per_1000_weight background % 2 ^ 32)

module _ (x : Extern) (services services' : Services) (provider provider' : KeysProvider)
    (config config' : UserConfig) (chain_hash : ℕ) (script script' : Option (List ℕ)) where
  -- What the peer makes of our channel, and what we make of its answer.
  abbrev peer_of : Channel → Channel
  peer_of c =
      inbound_channel services' provider' config'
        (open_message x services chain_hash (first_secret x c) c) script'

  abbrev answered : Channel → Channel → Channel
  answered c b = accepted x (accept_message x (first_secret x b) b) script c

  built-AreOpened :
      (value push : ℕ)
      → value < 2 ^ 24
      → push ≤ value * 1000
      → let c = outbound_channel services provider config value push in
        AreOpened x services (answered c (peer_of c)) (peer_of c)
  built-AreOpened value push small pushed = (
    record {
      id = refl;
      directions = refl;
      value = refl;
      whole = omega arith;
      depth = refl;
      state = refl;
      state' = refl;
      first = record {
        dust_limit = refl;
        delay = refl;
        minimum = refl;
        reserve = refl;
        in_flight = in_flight-min value;
        accepted_htlcs = refl;
        pubkeys = refl;
        point = refl;
      };
      second = record {
        dust_limit = refl;
        delay = refl;
        minimum = refl;
        reserve = refl;
        in_flight = in_flight-min value;
        accepted_htlcs = refl;
        pubkeys = refl;
        point = refl;
      };
    },
    refl,
    refl,
  )

module _ (x : Extern) (services services' : Services) (provider provider' : KeysProvider)
    (config config' : UserConfig) where
  -- When we have opened a channel, the peer has agreed, and its answer has been accepted, then the two
  -- sides hold one channel: its name and value are the same, the balances add up to all of it, and
  -- each side knows of the other the dust limit, the delay, the reserve, the limits on the HTLCs (the
  -- least value, the number and the value in flight), the keys and the first commitment point. Both
  -- ask for the same depth of the funding transaction, and have seen both messages. Only the feerates
  -- need not agree: ours is our normal estimate, and the peer's is our background estimate, which the
  -- message gives.
  pub accept_channel-AreOpened :
      (value push chain_hash : ℕ) (features features' : List ℕ) (msg : OpenChannel)
      (answer : AcceptChannel) (c c1 c2 b b1 : Channel)
      → new_outbound services provider config value push ≡ inr c
      → get_open_channel x {E = ChannelError} services chain_hash c ≡ done msg c1
      → new_from_req services' provider' config' x features msg ≡ inr b
      → get_accept_channel x {E = ChannelError} b ≡ done answer b1
      → accept_channel x config features' answer c ≡ done tt c2
      → AreOpened x services c2 b
  accept_channel-AreOpened value push chain_hash features features' msg answer c c1 c2 b b1 ours
        sent theirs answers accepts =
      let (is_c, small, pushed) = new_outbound-is services provider config value push c ours in
      let is_msg = get_open_channel-is x services chain_hash msg c c1 sent in
      let (script', is_b) = new_from_req-is services' provider' config' x features msg b theirs in
      let is_answer = get_accept_channel-is x answer b b1 answers in
      let (script, is_c2) = accept_channel-is x config features' answer c c2 accepts in
      let peer =
        peer_of x services services' provider provider' config config' chain_hash script script' in
      let built =
        built-AreOpened x services services' provider provider' config config' chain_hash script
          script' value push small pushed in
      let with_c : AreOpened x services
          (accepted x (accept_message x (first_secret x (peer c)) (peer c)) script c) (peer c) =
        subst
          (λ c.
            AreOpened x services
              (accepted x (accept_message x (first_secret x (peer c)) (peer c)) script c) (peer c))
          is_c built in
      let is_peer : peer c ≡ b =
        ap (λ msg. inbound_channel services' provider' config' msg script') is_msg ∙ is_b in
      let with_b : AreOpened x services
          (accepted x (accept_message x (first_secret x b) b) script c) b =
        subst
          (λ b.
            AreOpened x services (accepted x (accept_message x (first_secret x b) b) script c) b)
          is_peer with_c in
      let with_answer : AreOpened x services (accepted x answer script c) b =
        subst (λ answer. AreOpened x services (accepted x answer script c) b) is_answer with_b in
      subst (λ c2. AreOpened x services c2 b) is_c2 with_answer
