-- ===== src/TransactionUtils/Sorted.antt =====
-- The sort keeps every sum over the outputs, and their values ascend.
use Prim.Native.Nat.{Ordering}
use rust_lightning.Prelude.{
  ℕ, ◌+◌, ◌≤◌, ◌≡◌, refl, true, false, List, [], ◌∷◌, arith, Bool-cases, inl, inr,
}
use rust_lightning.Bitcoin.{TxOut}
use rust_lightning.TransactionUtils.{cmp_outputs, not_after, insert_output, sort_outputs}

-- No output is followed by one of a smaller value.
abbrev pub AtLeast {ℓ} : {A : Type ℓ} → ℕ → List (TxOut × A) → Type 0
AtLeast v [] = Unit
AtLeast v ((b, y) ∷ outputs) = v ≤ b.value

abbrev pub IsSorted {ℓ} : {A : Type ℓ} → List (TxOut × A) → Type 0
IsSorted [] = Unit
IsSorted ((a, x) ∷ outputs) = AtLeast a.value outputs × IsSorted outputs

module _ {ℓ} {A : Type ℓ} (tie_breaker : A → A → Ordering) where
  not_after-true : (a b : TxOut × A) → not_after tie_breaker a b ≡ true → a.0.value ≤ b.0.value
  unfolding cmp_outputs
  not_after-true (a, x) (b, y) h = ground arith

  not_after-false : (a b : TxOut × A) → not_after tie_breaker a b ≡ false → b.0.value ≤ a.0.value
  unfolding cmp_outputs
  not_after-false (a, x) (b, y) h = ground arith

  AtLeast-insert_output :
      (v : ℕ) (a : TxOut × A) (outputs : List (TxOut × A))
      → v ≤ a.0.value
      → AtLeast v outputs
      → AtLeast v (insert_output tie_breaker a outputs)
  unfolding insert_output
  AtLeast-insert_output v a [] ha h = ha
  AtLeast-insert_output v a (b ∷ outputs) ha h = elim (Bool-cases (not_after tie_breaker a b)) [
    | inl e ↦ rw e ha
    | inr e ↦ rw e h
  ]

  AtLeast-lower :
      (v w : ℕ) (outputs : List (TxOut × A)) → v ≤ w → AtLeast w outputs → AtLeast v outputs
  AtLeast-lower v w [] hv h = tt
  AtLeast-lower v w (b ∷ outputs) hv h = omega arith

  insert_output-IsSorted :
      (a : TxOut × A) (outputs : List (TxOut × A))
      → IsSorted outputs
      → IsSorted (insert_output tie_breaker a outputs)
  unfolding insert_output
  insert_output-IsSorted a [] h = (tt, tt)
  insert_output-IsSorted a (b ∷ outputs) h = elim (Bool-cases (not_after tie_breaker a b)) [
    | inl e ↦ rw e (not_after-true a b e, h)
    | inr e ↦ rw e (
      AtLeast-insert_output b.0.value a outputs (not_after-false a b e) h.0,
      insert_output-IsSorted a outputs h.1,
    )
  ]

  -- The values of the sorted outputs ascend.
  pub sort_outputs-IsSorted :
      (outputs : List (TxOut × A)) → IsSorted (sort_outputs tie_breaker outputs)
  unfolding sort_outputs
  sort_outputs-IsSorted [] = tt
  sort_outputs-IsSorted (a ∷ outputs) = insert_output-IsSorted a _ (sort_outputs-IsSorted outputs)

  -- A quantity summed over the outputs does not change.
  module _ (weight : TxOut × A → ℕ) where
    abbrev pub sum_outputs : List (TxOut × A) → ℕ
    sum_outputs [] = 0
    sum_outputs (a ∷ outputs) = weight a + sum_outputs outputs

    sum-insert_output :
        (a : TxOut × A) (outputs : List (TxOut × A))
        → sum_outputs (insert_output tie_breaker a outputs) ≡ weight a + sum_outputs outputs
    unfolding insert_output
    sum-insert_output a [] = refl
    sum-insert_output a (b ∷ outputs) = elim (Bool-cases (not_after tie_breaker a b)) [
      | inl e ↦ rw e
      | inr e ↦ rw e (omega (arith, sum-insert_output a outputs))
    ]

    pub sum-sort_outputs :
        (outputs : List (TxOut × A))
        → sum_outputs (sort_outputs tie_breaker outputs) ≡ sum_outputs outputs
    unfolding sort_outputs
    sum-sort_outputs [] = refl
    sum-sort_outputs (a ∷ outputs) =
        omega
          (arith, sum-insert_output a (sort_outputs tie_breaker outputs), sum-sort_outputs outputs)
