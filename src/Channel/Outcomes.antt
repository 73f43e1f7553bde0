-- ===== src/Channel/Outcomes.antt =====
-- How the results of a method's parts become the result of the method.
use rust_lightning.Prelude.{◌≡◌, refl, ap, subst, sym, Bool, true, false, if◌then◌else◌}
use rust_lightning.Channel.State.{Channel, Outcome, done, failed, panicked, Method, ◌>>=◌, Leaves}

-- What a call that succeeds gives, and the channel that it leaves, are related.
abbrev pub Gives {ℓ κ μ} : {E : Type ℓ} {A : Type κ} → (A → Channel → Type μ) → Outcome E A → Type μ
Gives P (done a c) = P a c
Gives P (failed e c) = Unit
Gives P panicked = Unit

module _ {ℓ κ μ} {E : Type ℓ} {A : Type κ} {B : Type μ} where
  -- A sequence succeeds where its first part does, and then the rest.
  pub bind-done :
      (m : Method E A) (f : A → Method E B) (c c' : Channel) (b : B)
      → (m >>= f) c ≡ done b c'
      → (a : A) × (c1 : Channel) × (m c ≡ done a c1) × (f a c1 ≡ done b c')
  bind-done m f c c' b e = go (m c) refl e
    where
      go :
          (o : Outcome E A)
          → m c ≡ o
          → elim o [ done a c1 ↦ f a c1 | failed r c1 ↦ failed r c1 | panicked ↦ panicked ]
            ≡ done b c'
          → (a : A) × (c1 : Channel) × (m c ≡ done a c1) × (f a c1 ≡ done b c')
      go (done a c1) is e1 = (a, c1, is, e1)
      go (failed r c1) is e1 = cc
      go panicked is e1 = cc

  -- What each part leaves, the sequence leaves.
  pub bind-Leaves {ν} :
      (P : Channel → Type ν) (m : Method E A) (f : A → Method E B) (c : Channel)
      → Leaves P (m c)
      → ((a : A) (c1 : Channel) → P c1 → Leaves P (f a c1))
      → Leaves P ((m >>= f) c)
  bind-Leaves P m f c first rest = go (m c) first
    where
      go :
          (o : Outcome E A)
          → Leaves P o
          → Leaves P
              (elim o [ done a c1 ↦ f a c1 | failed r c1 ↦ failed r c1 | panicked ↦ panicked ])
      go (done a c1) h = rest a c1 h
      go (failed r c1) h = h
      go panicked h = tt

-- Both branches of a conditional leave it.
pub if-Leaves {ℓ κ ν} :
    {E : Type ℓ} {A : Type κ} (P : Channel → Type ν) (b : Bool) (o o' : Outcome E A)
    → Leaves P o
    → Leaves P o'
    → Leaves P (if b then o else o')
if-Leaves P true o o' h h' = h
if-Leaves P false o o' h h' = h'

-- The call succeeds, and what it gives and leaves are related.
abbrev pub Succeeds {ℓ κ} :
    {E : Type ℓ} {A : Type κ} → (A → Channel → Type 0) → Outcome E A → Type 0
Succeeds P (done a c) = P a c
Succeeds P (failed e c) = ⊥
Succeeds P panicked = ⊥

-- A sequence whose first part succeeds goes on with the rest.
pub bind-Succeeds {ℓ κ μ} :
    {E : Type ℓ} {A : Type κ} {B : Type μ} (P : B → Channel → Type 0) (m : Method E A)
    (f : A → Method E B) (a : A) (c c1 : Channel)
    → m c ≡ done a c1
    → Succeeds P (f a c1)
    → Succeeds P ((m >>= f) c)
bind-Succeeds P m f a c c1 e h =
    subst
      (λ o.
        Succeeds P
          (elim o [ done a c1 ↦ f a c1 | failed r c1 ↦ failed r c1 | panicked ↦ panicked ]))
      (sym e) h

pub Succeeds-same {ℓ κ} :
    {E : Type ℓ} {A : Type κ} (c : Channel) (o : Outcome E A)
    → Succeeds (λ _ c'. c' ≡ c) o
    → (a : A) × (o ≡ done a c)
Succeeds-same c (done a c') h = (a, ap (done a) h)
Succeeds-same c (failed e c') h = absurd h
Succeeds-same c panicked h = absurd h
