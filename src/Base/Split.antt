-- ===== src/Base/Split.antt =====
-- `str.split(sep, maxsplit)` by one character, and the text that its parts spell.
use Prim.Native.Nat.{ℕ, zero, suc}
use Prim.Native.Char.{Char, code}
use Prim.Native.String.{String, ◌∷◌ as cons, [] as empty, ◌++◌ as join}
use Prim.Native.String.append
use mathlib.Core.Path.{◌≡◌, refl, sym, ap}
use mathlib.Core.Logic.{inl, inr}
use mathlib.Core.Bool.{Bool, true, false, not, ◌&&◌}
use mathlib.Core.List.{List, [], ◌∷◌}
use native.Mathlib.Omega.{arith}
use text.Mathlib.TextLemmas.{append-nil, append_assoc}
use text.Mathlib.TextEquality.{codes_equal}
use estate_flow.Base.Tests.{nat_eq, nat_eq_iff, if◌then◌else◌, Bool-cases}

module _ (sep : Char) where
  -- the parts of `s` behind the part read so far; at most `n` more cuts
  unfoldable pub split : ℕ → String → String → List String
  split n part empty = part ∷ []
  split zero part s = join part s ∷ []
  split (suc n) part (cons c s) =
      if nat_eq (code c) (code sep)
      then part ∷ split n "" s
      else split (suc n) (join part (cons c empty)) s

  same_char : (c : Char) → nat_eq (code c) (code sep) ≡ true → c ≡ sep
  same_char c e = codes_equal c sep (ground (arith, e))

  -- every part behind a separator
  abbrev pub glued : List String → String
  glued [] = ""
  glued (p ∷ ps) = cons sep (join p (glued ps))

  pub glued-split : (n : ℕ) (part s : String) → glued (split n part s) ≡ cons sep (join part s)
  unfolding split
  glued-split n part empty = refl
  glued-split zero part (cons c s) = ap (cons sep) (append-nil _)
  glued-split (suc n) part (cons c s) = elim (Bool-cases (nat_eq (code c) (code sep))) [
    | inl e ↦
        rw (e, glued-split n "" s, append.nil s)
          (ap (λ d. cons sep (join part (cons d s))) (sym (same_char c e)))
    | inr e ↦
        rw (e, glued-split (suc n) _ s)
          (rw (append_assoc part (cons c empty) s, append.cons c empty s, append.nil s) refl)
  ]

  abbrev pub lacks : String → Bool
  lacks empty = true
  lacks (cons c s) = not (nat_eq (code c) (code sep)) && lacks s

  nothing_left : (n : ℕ) (part : String) → split n part "" ≡ part ∷ []
  unfolding split
  nothing_left n part = refl

  -- The next part ends at the next separator.
  pub split-part :
      (n : ℕ) (part p s : String)
      → lacks p ≡ true
      → split (suc n) part (join p (cons sep s)) ≡ join part p ∷ split n "" s
  unfolding split
  split-part n part empty s h =
      rw (append.nil (cons sep s), append-nil part, (nat_eq_iff (code sep) (code sep)).1 refl) refl
  split-part n part (cons c p) s h =
      let other : nat_eq (code c) (code sep) ≡ false = ground (arith, h) in
      rw
        (
          append.cons c p (cons sep s),
          other,
          split-part n (join part (cons c empty)) p s (ground (arith, h)),
          append_assoc part (cons c empty) p,
          append.cons c empty p,
          append.nil p,
        )
        refl

  pub split-last : (part s : String) → split zero part s ≡ join part s ∷ []
  unfolding split
  split-last part empty = rw append-nil refl
  split-last part (cons c s) = refl
