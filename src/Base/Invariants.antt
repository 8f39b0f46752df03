-- ===== src/Base/Invariants.antt =====
-- Invariants of methods, whether they return or raise: a rule for each way to build a method.
use mathlib.Core.Bool.{Bool, true, false}
use mathlib.Core.Option.{Option, none, some}
use estate_flow.Base.Tests.{if◌then◌else◌, on_option}
use estate_flow.Base.Effects.{
  Error, Result, ok, err, Exec, pure, raise, gets, modify, raise_if, after, ◌>>=◌,
}

pub record Preserves {ℓ κ} {S A : Type ℓ} (P : S → Type κ) (m : Exec S A) : Type (ℓ ⊔ κ) where
  pub holds : (s : S) → P s → P (m s).1

module _ {ℓ κ} {S A : Type ℓ} {P : S → Type κ} where
  pub Preserves-pure : (a : A) → Preserves P (pure a)
  Preserves-pure a = record { holds = λ s p. p }

  pub Preserves-raise : (e : Error) → Preserves P (raise {A = A} e)
  Preserves-raise e = record { holds = λ s p. p }

  pub Preserves-gets : (f : S → A) → Preserves P (gets f)
  Preserves-gets f = record { holds = λ s p. p }

  pub Preserves-if :
      (b : Bool) (m n : Exec S A) → Preserves P m → Preserves P n → Preserves P (if b then m else n)
  Preserves-if true m n km kn = km
  Preserves-if false m n km kn = kn

module _ {ℓ κ μ} {S A : Type ℓ} {B : Type μ} {P : S → Type κ} where
  pub Preserves-on_option :
      (o : Option B) (m : Exec S A) (f : B → Exec S A)
      → Preserves P m
      → ((b : B) → Preserves P (f b))
      → Preserves P (on_option o m f)
  Preserves-on_option none m f km kf = km
  Preserves-on_option (some b) m f km kf = kf b

module _ {ℓ κ} {S : Type ℓ} {P : S → Type κ} where
  pub Preserves-modify : (f : S → S) → ((s : S) → P s → P (f s)) → Preserves P (modify f)
  Preserves-modify f h = record { holds = h }

  pub Preserves-raise_if : (b : Bool) (e : Error) → Preserves P (raise_if b e)
  Preserves-raise_if true e = record { holds = λ s p. p }
  Preserves-raise_if false e = record { holds = λ s p. p }

module _ {ℓ κ} {S A B : Type ℓ} {P : S → Type κ} where
  after-keeps :
      (r : Result A) (s : S) (f : A → Exec S B)
      → P s
      → ((a : A) → Preserves P (f a))
      → P (after r s f).1
  after-keeps (ok a) s f p kf = (kf a).holds s p
  after-keeps (err e) s f p kf = p

  pub Preserves-bind :
      (m : Exec S A) (f : A → Exec S B)
      → Preserves P m
      → ((a : A) → Preserves P (f a))
      → Preserves P (m >>= f)
  Preserves-bind m f km kf = record {
    holds = λ s p. after-keeps (m s).0 (m s).1 f (km.holds s p) kf;
  }

pub ruleset preserves_rules = (
  Preserves-pure, Preserves-raise, Preserves-gets, Preserves-if, Preserves-raise_if, Preserves-bind,
  Preserves-on_option,
)
