-- ===== src/TransactionUtils.antt =====
-- lightning/src/util/transaction_utils.rs: the order of a transaction's outputs. The standard
-- library's unstable sort may do anything with equal elements; this one inserts each before its equals.
pub mod Sorted
use Prim.Native.Nat.{compare, Ordering}
use rust_lightning.Prelude.{ℕ, Bool, true, false, List, [], ◌∷◌, if◌then◌else◌}
use rust_lightning.Bitcoin.{TxOut}

-- `Ordering::then_with`
abbrev pub then_with : Ordering → Ordering → Ordering
then_with Ordering.eq o = o
then_with Ordering.lt _ = Ordering.lt
then_with Ordering.gt _ = Ordering.gt

-- `Ord::cmp` of two byte slices
unfoldable pub cmp_bytes : List ℕ → List ℕ → Ordering
cmp_bytes [] [] = Ordering.eq
cmp_bytes [] (y ∷ ys) = Ordering.lt
cmp_bytes (x ∷ xs) [] = Ordering.gt
cmp_bytes (x ∷ xs) (y ∷ ys) = then_with (compare x y) (cmp_bytes xs ys)

module _ {ℓ} {A : Type ℓ} (tie_breaker : A → A → Ordering) where
  unfoldable pub cmp_outputs : TxOut × A → TxOut × A → Ordering
  cmp_outputs (a, x) (b, y) =
      then_with (compare a.value b.value)
        (then_with (cmp_bytes a.script_pubkey b.script_pubkey) (tie_breaker x y))

  abbrev pub not_after : TxOut × A → TxOut × A → Bool
  not_after a b = elim (cmp_outputs a b) [ Ordering.gt ↦ false | _ ↦ true ]

  unfoldable pub insert_output : TxOut × A → List (TxOut × A) → List (TxOut × A)
  insert_output a [] = a ∷ []
  insert_output a (b ∷ outputs) =
      if not_after a b then a ∷ b ∷ outputs else b ∷ insert_output a outputs

  unfoldable pub sort_outputs : List (TxOut × A) → List (TxOut × A)
  sort_outputs [] = []
  sort_outputs (a ∷ outputs) = insert_output a (sort_outputs outputs)
