-- ===== src/Prelude/State.antt =====
-- Functions that read and write a state.
use mathlib.Core.Bool.{Bool}
use com_webos_service_pdm.Prelude.Tests.{if◌then◌else◌}

abbrev pub St {ℓ κ} : Type ℓ → Type κ → Type (ℓ ⊔ κ)
St S A = S → A × S

module _ {ℓ κ} {S : Type ℓ} {A : Type κ} where
  abbrev pub pure : A → St S A
  pure a s = (a, s)

module _ {ℓ κ μ} {S : Type ℓ} {A : Type κ} {B : Type μ} where
  infixl 5 ◌>>=◌
  abbrev pub ◌>>=◌ : St S A → (A → St S B) → St S B
  ◌>>=◌ m f s = let (a, s') = m s in f a s'

module _ {ℓ μ} {S : Type ℓ} {B : Type μ} where
  infixl 5 ◌>>◌
  abbrev pub ◌>>◌ : St S (Unit {0}) → St S B → St S B
  ◌>>◌ m n s = let (u, s') = m s in n s'

module _ {ℓ κ} {S : Type ℓ} {A : Type κ} where
  -- An `if` between actions, which waits for the state.
  abbrev pub branch : Bool → St S A → St S A → St S A
  branch b m n s = if b then m s else n s
