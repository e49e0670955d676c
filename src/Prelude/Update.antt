-- ===== src/Prelude/Update.antt =====
-- A function that is changed at one argument.
use mathlib.Core.Logic.{ite, ◌≢◌}
use mathlib.Core.Path.{◌≡◌}
use native.Mathlib.Omega.{arith}

module _ {ℓ κ} {A : Type ℓ} {B : Type κ} (same : Discrete A) where
  abbrev pub update : (A → B) → A → B → A → B
  update f a b x = ite (same a x) b (f x)

  pub update-same : (f : A → B) (a : A) (b : B) → update f a b a ≡ b
  update-same f a b = ground arith

  pub update-other : (f : A → B) (a : A) (b : B) (x : A) → a ≢ x → update f a b x ≡ f x
  update-other f a b x h = ground arith
