-- ===== src/Base/Keys.antt =====
-- Keys that Python compares by `==`: an interface, and its instances for numbers and texts.
use Prim.Native.Nat.{ℕ}
use Prim.Native.String.{String}
use mathlib.Core.Path.{◌≡◌, refl}
use mathlib.Core.Logic.{◌↔◌}
use mathlib.Core.Bool.{Bool, true}
use text.Mathlib.Text.{◌==◌ as str_eq}
use text.Mathlib.TextEquality.{eq_iff}
use estate_flow.Base.Tests.{nat_eq, nat_eq_iff}

pub record Eq {ℓ} (A : Type ℓ) : Type ℓ where
  -- the test, and that it decides equality
  pub same : A → A → Bool
  pub agrees : (x y : A) → (same x y ≡ true) ↔ (x ≡ y)

-- `a == b`
module _ {ℓ} {A : Type ℓ} ⦃key : Eq A⦄ where
  infix 50 ◌==◌
  abbrev pub ◌==◌ : A → A → Bool
  x == y = key.same x y

instance abbrev pub ℕ_eq : Eq ℕ
ℕ_eq = record { same = nat_eq; agrees = nat_eq_iff }

instance abbrev pub String_eq : Eq String
String_eq = record { same = str_eq; agrees = eq_iff }

pub beq_refl {ℓ} : {A : Type ℓ} ⦃e : Eq A⦄ (a : A) → e.same a a ≡ true
beq_refl ⦃e⦄ a = (e.agrees a a).1 refl

pub str_eq_iff : (s t : String) → ((s == t) ≡ true) ↔ (s ≡ t)
str_eq_iff s t = eq_iff s t
