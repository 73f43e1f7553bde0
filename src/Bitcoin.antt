-- ===== src/Bitcoin.antt =====
-- What the channel uses of the crates bitcoin, bitcoin_hashes and secp256k1, which are not part of
-- the repository: the shape of scripts and transactions, and the operations, as the fields of `Extern`.
use rust_lightning.Prelude.{ℕ, List, Option, Bool}

pub data Opcode : Type 0 where
  op_if op_notif op_else op_endif op_csv op_cltv op_drop op_dup op_swap op_size : Opcode
  op_equal op_equalverify op_hash160 op_checksig op_checkmultisig op_pushnum_2 : Opcode

-- The calls of script::Builder. A script is the list of them.
pub data Instruction : Type 0 where
  op : Opcode → Instruction
  push_slice : List ℕ → Instruction
  push_int : ℕ → Instruction

pub record OutPoint : Type 0 where
  pub txid : ℕ
  pub vout : ℕ

pub record TxIn : Type 0 where
  pub previous_output : OutPoint
  pub sequence : ℕ
  pub witness : List (List ℕ)

pub record TxOut : Type 0 where
  pub value : ℕ
  pub script_pubkey : List ℕ

pub record Transaction : Type 0 where
  pub version : ℕ
  pub lock_time : ℕ
  pub input : List TxIn
  pub output : List TxOut

-- A public key is a number, and a secret key its 32 bytes.
pub record Extern : Type 0 where
  -- Sha256::hash and Ripemd160::hash on bytes
  pub sha256 : List ℕ → List ℕ
  pub ripemd160 : List ℕ → List ℕ
  -- the 32 bytes of a hash as a number, and back
  pub hash_number : List ℕ → ℕ
  pub hash_bytes : ℕ → List ℕ
  -- SecretKey::from_slice succeeds
  pub is_secret_key : List ℕ → Bool
  -- PublicKey::from_secret_key
  pub public_key : List ℕ → ℕ
  -- PublicKey::serialize
  pub serialize : ℕ → List ℕ
  -- PublicKey::combine
  pub combine : ℕ → ℕ → Option ℕ
  -- PublicKey::mul_assign
  pub mul_assign : ℕ → List ℕ → Option ℕ
  -- SighashComponents::sighash_all of a transaction's first input, and Secp256k1::verify
  pub sighash_all : Transaction → List Instruction → ℕ → List ℕ
  pub verify : List ℕ → ℕ → ℕ → Bool
  -- Transaction::txid
  pub tx_id : Transaction → ℕ
  -- Script::to_v0_p2wsh
  pub to_v0_p2wsh : List Instruction → List ℕ
  -- the script OP_0 <hash160 of the serialized key>
  pub p2wpkh : ℕ → List ℕ
  -- Transaction::get_weight, Script::into_bytes and Signature::serialize_der
  pub get_weight : Transaction → ℕ
  pub into_bytes : List Instruction → List ℕ
  pub serialize_der : ℕ → List ℕ
  -- Script::is_p2pkh, is_p2sh, is_v0_p2wpkh and is_v0_p2wsh
  pub is_p2pkh : List ℕ → Bool
  pub is_p2sh : List ℕ → Bool
  pub is_v0_p2wpkh : List ℕ → Bool
  pub is_v0_p2wsh : List ℕ → Bool
