-- ===== src/Base/Members.antt =====
-- Members of a list as data: what dicts, sorts and comprehensions keep.
use mathlib.Core.Path.{◌≡◌, refl, sym, ap, ◌∙◌}
use mathlib.Core.Logic.{◌⊎◌, inl, inr}
use mathlib.Core.Bool.{Bool, true, false, ◌&&◌, ◌||◌}
use mathlib.Core.Option.{some, some_inj}
use mathlib.Core.List.{List, [], ◌∷◌, ◌++◌, Memᴰ}
use mathlib.Core.List.Memᴰ
use native.Mathlib.Omega.{arith}
use estate_flow.Base.Tests.{Bool-cases, is_some}
use estate_flow.Base.Lists.{keep_if, any_of, All}
use estate_flow.Base.Keys.{Eq, ◌==◌, beq_refl}
use estate_flow.Base.Dict.{Dict, get, put, values, get-put}
use estate_flow.Base.Sort.{insert, sort_by}

-- `{key(x): x for x in xs}` on top of the dict `d`: a later element replaces an earlier one.
unfoldable pub index_by {ℓ κ} :
    {K : Type ℓ} {A : Type κ} ⦃e : Eq K⦄ → (A → K) → List A → Dict K A → Dict K A
index_by key [] d = d
index_by key (x ∷ xs) d = index_by key xs (put (key x) x d)

-- No two elements have the same key.
abbrev pub IsDistinct {ℓ κ} : {K : Type ℓ} {A : Type κ} ⦃e : Eq K⦄ → (A → K) → List A → Type 0
IsDistinct key [] = Unit
IsDistinct key (x ∷ xs) = (any_of (λ y. key y == key x) xs ≡ false) × IsDistinct key xs

module _ {ℓ} {A : Type ℓ} where
  pub any_of-member :
      (p : A → Bool) (xs : List A) → any_of p xs ≡ true → (x : A) × Memᴰ x xs × (p x ≡ true)
  any_of-member p (x ∷ xs) h = elim (Bool-cases (p x)) [
    | inl e ↦ (x, Memᴰ.head refl, e)
    | inr e ↦ let (y, m, q) = any_of-member p xs (rw e at h) in (y, Memᴰ.tail m, q)
  ]
  any_of-member p [] h = cc

  pub member-any_of :
      (p : A → Bool) (x : A) (xs : List A) → Memᴰ x xs → p x ≡ true → any_of p xs ≡ true
  member-any_of p x (y ∷ xs) (Memᴰ.head e) h = rw (← e, h) refl
  member-any_of p x (y ∷ xs) (Memᴰ.tail m) h = ground (arith, member-any_of p x xs m h)
  member-any_of p x [] m h = absurd (Memᴰ.not-nil m)

  -- an element that passes no test of `any_of`
  pub none_of-member :
      (p : A → Bool) (x : A) (xs : List A) → any_of p xs ≡ false → Memᴰ x xs → p x ≡ false
  none_of-member p x (y ∷ xs) h (Memᴰ.head e) = rw e (ground (arith, h))
  none_of-member p x (y ∷ xs) h (Memᴰ.tail m) = none_of-member p x xs (ground (arith, h)) m
  none_of-member p x [] h m = absurd (Memᴰ.not-nil m)

  pub none_of :
      (p : A → Bool) (xs : List A) → ((x : A) → Memᴰ x xs → p x ≡ false) → any_of p xs ≡ false
  none_of p [] h = refl
  none_of p (x ∷ xs) h =
      ground (arith, h x (Memᴰ.head refl), none_of p xs (λ y m. h y (Memᴰ.tail m)))

  pub keep_if-member :
      (p : A → Bool) (x : A) (xs : List A) → Memᴰ x (keep_if p xs) → Memᴰ x xs × (p x ≡ true)
  keep_if-member p x (y ∷ xs) m = elim (Bool-cases (p y)) [
    | inl e ↦ elim (Memᴰ.cases_cons (rw e at m)) [
      | inl f ↦ (Memᴰ.head f, rw f e)
      | inr n ↦ let (i, q) = keep_if-member p x xs n in (Memᴰ.tail i, q)
    ]
    | inr e ↦ let (i, q) = keep_if-member p x xs (rw e at m) in (Memᴰ.tail i, q)
  ]
  keep_if-member p x [] m = absurd (Memᴰ.not-nil m)

  pub member-keep_if :
      (p : A → Bool) (x : A) (xs : List A) → Memᴰ x xs → p x ≡ true → Memᴰ x (keep_if p xs)
  member-keep_if p x (y ∷ xs) (Memᴰ.head e) h = rw (← e, h) (Memᴰ.head refl)
  member-keep_if p x (y ∷ xs) (Memᴰ.tail m) h = elim (Bool-cases (p y)) [
    | inl e ↦ rw e (Memᴰ.tail (member-keep_if p x xs m h))
    | inr e ↦ rw e (member-keep_if p x xs m h)
  ]
  member-keep_if p x [] m h = absurd (Memᴰ.not-nil m)

module _ {ℓ κ} {A : Type ℓ} (P : A → Type κ) where
  pub All-of : (xs : List A) → ((x : A) → Memᴰ x xs → P x) → All P xs
  All-of [] h = tt
  All-of (x ∷ xs) h = (h x (Memᴰ.head refl), All-of xs (λ y m. h y (Memᴰ.tail m)))

module _ {ℓ} {A : Type ℓ} (le : A → A → Bool) where
  insert-member : (x y : A) (ys : List A) → Memᴰ x (insert le y ys) → Memᴰ x (y ∷ ys)
  unfolding insert
  insert-member x y [] m = m
  insert-member x y (z ∷ ys) m = elim (Bool-cases (le y z)) [
    | inl e ↦ rw e at m
    | inr e ↦ elim (Memᴰ.cases_cons (rw e at m)) [
      | inl f ↦ Memᴰ.tail (Memᴰ.head f)
      | inr n ↦ elim (Memᴰ.cases_cons (insert-member x y ys n)) [
        | inl f ↦ Memᴰ.head f
        | inr k ↦ Memᴰ.tail (Memᴰ.tail k)
      ]
    ]
  ]

  member-insert : (x y : A) (ys : List A) → Memᴰ x (y ∷ ys) → Memᴰ x (insert le y ys)
  unfolding insert
  member-insert x y [] m = m
  member-insert x y (z ∷ ys) m = elim (Bool-cases (le y z)) [
    | inl e ↦ rw e m
    | inr e ↦ elim (Memᴰ.cases_cons m) [
      | inl f ↦ rw e (Memᴰ.tail (member-insert x y ys (Memᴰ.head f)))
      | inr n ↦ elim (Memᴰ.cases_cons n) [
        | inl f ↦ rw e (Memᴰ.head f)
        | inr k ↦ rw e (Memᴰ.tail (member-insert x y ys (Memᴰ.tail k)))
      ]
    ]
  ]

  pub sort_by-member : (x : A) (xs : List A) → Memᴰ x (sort_by le xs) → Memᴰ x xs
  unfolding sort_by
  sort_by-member x [] m = m
  sort_by-member x (y ∷ xs) m = elim (Memᴰ.cases_cons (insert-member x y (sort_by le xs) m)) [
    | inl e ↦ Memᴰ.head e
    | inr n ↦ Memᴰ.tail (sort_by-member x xs n)
  ]

  pub member-sort_by : (x : A) (xs : List A) → Memᴰ x xs → Memᴰ x (sort_by le xs)
  unfolding sort_by
  member-sort_by x (y ∷ xs) (Memᴰ.head e) = member-insert x y (sort_by le xs) (Memᴰ.head e)
  member-sort_by x (y ∷ xs) (Memᴰ.tail m) =
      member-insert x y (sort_by le xs) (Memᴰ.tail (member-sort_by x xs m))
  member-sort_by x [] m = absurd (Memᴰ.not-nil m)

module _ {ℓ κ} {K : Type ℓ} {V : Type κ} ⦃e : Eq K⦄ where
  pub get-member : (k : K) (v : V) (d : Dict K V) → get k d ≡ some v → Memᴰ (k, v) d
  unfolding get
  get-member k v [] h = cc
  get-member k v ((j, w) ∷ d) h = elim (Bool-cases (j == k)) [
    | inl s ↦
        let w_is_v : some w ≡ some v = rw s at h in
        Memᴰ.head (sym λ i. ((e.agrees j k).0 s i, some_inj.0 w_is_v i))
    | inr s ↦ Memᴰ.tail (get-member k v d (rw s at h))
  ]

  pub put-member :
      (k : K) (v : V) (x : K × V) (d : Dict K V) → Memᴰ x (put k v d) → Memᴰ x d ⊎ (x ≡ (k, v))
  unfolding put
  put-member k v x [] m = elim (Memᴰ.cases_cons m) [ inl f ↦ inr f | inr n ↦ inl n ]
  put-member k v x ((j, w) ∷ d) m = elim (Bool-cases (j == k)) [
    | inl s ↦ elim (Memᴰ.cases_cons (rw s at m)) [
      | inl f ↦ inr (f ∙ λ i. ((e.agrees j k).0 s i, v))
      | inr n ↦ inl (Memᴰ.tail n)
    ]
    | inr s ↦ elim (Memᴰ.cases_cons (rw s at m)) [
      | inl f ↦ inl (Memᴰ.head f)
      | inr n ↦ elim (put-member k v x d n) [ inl i ↦ inl (Memᴰ.tail i) | inr f ↦ inr f ]
    ]
  ]

  put-keys :
      (k j : K) (v : V) (d : Dict K V)
      → any_of (λ x. x.0 == j) (put k v d) ≡ (k == j || any_of (λ x. x.0 == j) d)
  unfolding put
  put-keys k j v [] = refl
  put-keys k j v ((i, w) ∷ d) =
      ground (arith, e.agrees i k, e.agrees i j, e.agrees k j, put-keys k j v d)

  pub put-IsDistinct :
      (k : K) (v : V) (d : Dict K V) → IsDistinct (λ x. x.0) d → IsDistinct (λ x. x.0) (put k v d)
  unfolding put
  put-IsDistinct k v [] h = (refl, tt)
  put-IsDistinct k v ((j, w) ∷ d) h = elim (Bool-cases (j == k)) [
    | inl s ↦ rw s h
    | inr s ↦ rw s (
      put-keys k j v d ∙ ground (arith, s, h.0, e.agrees k j, e.agrees j k),
      put-IsDistinct k v d h.1,
    )
  ]

module _ {ℓ κ} {K : Type ℓ} {V : Type κ} ⦃e : Eq K⦄ where
  -- an entry of a dict is found, since its keys differ
  pub member-get :
      (k : K) (v : V) (d : Dict K V) → IsDistinct (λ x. x.0) d → Memᴰ (k, v) d → get k d ≡ some v
  unfolding get
  member-get k v [] h m = absurd (Memᴰ.not-nil m)
  member-get k v ((j, w) ∷ d) h (Memᴰ.head f) =
      rw ((e.agrees j k).1 (sym (ap (λ p. p.0) f)), sym (ap (λ p. p.1) f)) refl
  member-get k v ((j, w) ∷ d) h (Memᴰ.tail m) = elim (Bool-cases (j == k)) [
    | inl s ↦
        let used : (k == j) ≡ false = none_of-member (λ x. x.0 == j) (k, v) d h.0 m in
        absurd (ground (arith, s, used, e.agrees j k, e.agrees k j))
    | inr s ↦ rw s (member-get k v d h.1 m)
  ]

module _ {ℓ κ} {K : Type ℓ} {A : Type κ} ⦃e : Eq K⦄ (key : A → K) where
  index_by-other :
      (k : K) (xs : List A) (d : Dict K A)
      → any_of (λ y. key y == k) xs ≡ false
      → get k (index_by key xs d) ≡ get k d
  unfolding index_by
  index_by-other k [] d h = refl
  index_by-other k (x ∷ xs) d h =
      rw (index_by-other k xs (put (key x) x d) (ground (arith, h)), get-put) (ground (arith, h))

  pub get-index_by :
      (x : A) (xs : List A) (d : Dict K A)
      → IsDistinct key xs
      → Memᴰ x xs
      → get (key x) (index_by key xs d) ≡ some x
  unfolding index_by
  get-index_by x [] d h m = absurd (Memᴰ.not-nil m)
  get-index_by x (y ∷ xs) d h (Memᴰ.head f) =
      rw (f, index_by-other (key y) xs (put (key y) y d) h.0, get-put, beq_refl (key y)) refl
  get-index_by x (y ∷ xs) d h (Memᴰ.tail m) = get-index_by x xs (put (key y) y d) h.1 m

  -- the keys of the dict
  pub is_some-index_by :
      (k : K) (xs : List A) (d : Dict K A)
      → is_some (get k (index_by key xs d)) ≡ (any_of (λ x. key x == k) xs || is_some (get k d))
  unfolding index_by
  is_some-index_by k [] d = refl
  is_some-index_by k (x ∷ xs) d =
      rw (is_some-index_by k xs (put (key x) x d), get-put) (ground arith)

  pub index_by-IsDistinct :
      (xs : List A) (d : Dict K A)
      → IsDistinct (λ x. x.0) d
      → IsDistinct (λ x. x.0) (index_by key xs d)
  unfolding index_by
  index_by-IsDistinct [] d h = h
  index_by-IsDistinct (x ∷ xs) d h =
      index_by-IsDistinct xs (put (key x) x d) (put-IsDistinct (key x) x d h)

  -- an entry is one of `d`, or an element under its own key
  index_by-member :
      (x : K × A) (xs : List A) (d : Dict K A)
      → Memᴰ x (index_by key xs d)
      → Memᴰ x d ⊎ (Memᴰ x.1 xs × (x.0 ≡ key x.1))
  unfolding index_by
  index_by-member x [] d m = inl m
  index_by-member x (y ∷ xs) d m = elim (index_by-member x xs (put (key y) y d) m) [
    | inl n ↦ elim (put-member (key y) y x d n) [
      | inl i ↦ inl i
      | inr f ↦ inr (Memᴰ.head (ap (λ p. p.1) f), ap (λ p. p.0) f ∙ sym (ap (λ p. key p.1) f))
    ]
    | inr (n, f) ↦ inr (Memᴰ.tail n, f)
  ]

module _ {ℓ κ} {K : Type ℓ} {A : Type κ} ⦃e : Eq K⦄ (key : A → K) where
  pub indexed-member :
      (x : K × A) (xs : List A) → Memᴰ x (index_by key xs []) → Memᴰ x.1 xs × (x.0 ≡ key x.1)
  indexed-member x xs m = elim (index_by-member key x xs [] m) [
    | inl n ↦ absurd (Memᴰ.not-nil n)
    | inr n ↦ n
  ]

  pub index_by-keyed : (xs : List A) → All (λ x. x.0 ≡ key x.1) (index_by key xs [])
  index_by-keyed xs = All-of _ (index_by key xs []) λ x m. (indexed-member x xs m).1

module _ {ℓ} {A : Type ℓ} (le : A → A → Bool) (p : A → Bool) where
  any_of-insert : (x : A) (xs : List A) → any_of p (insert le x xs) ≡ (p x || any_of p xs)
  unfolding insert
  any_of-insert x [] = refl
  any_of-insert x (y ∷ ys) = ground (arith, any_of-insert x ys)

  pub any_of-sort_by : (xs : List A) → any_of p (sort_by le xs) ≡ any_of p xs
  unfolding sort_by
  any_of-sort_by [] = refl
  any_of-sort_by (x ∷ xs) = rw (any_of-insert x (sort_by le xs), any_of-sort_by xs) refl

module _ {ℓ κ} {K : Type ℓ} {A : Type κ} ⦃e : Eq K⦄ (key : A → K) (le : A → A → Bool) where
  insert-IsDistinct :
      (x : A) (xs : List A)
      → any_of (λ y. key y == key x) xs ≡ false
      → IsDistinct key xs
      → IsDistinct key (insert le x xs)
  unfolding insert
  insert-IsDistinct x [] f h = (refl, tt)
  insert-IsDistinct x (y ∷ ys) f h = elim (Bool-cases (le x y)) [
    | inl s ↦ rw s (f, h)
    | inr s ↦ rw s (
      any_of-insert le (λ z. key z == key y) x ys
          ∙ ground (arith, f, h.0, e.agrees (key x) (key y), e.agrees (key y) (key x)),
      insert-IsDistinct x ys (ground (arith, f)) h.1,
    )
  ]

  pub sort_by-IsDistinct : (xs : List A) → IsDistinct key xs → IsDistinct key (sort_by le xs)
  unfolding sort_by
  sort_by-IsDistinct [] h = tt
  sort_by-IsDistinct (x ∷ xs) h =
      insert-IsDistinct x (sort_by le xs) (any_of-sort_by le (λ y. key y == key x) xs ∙ h.0)
        (sort_by-IsDistinct xs h.1)

module _ {ℓ} {A : Type ℓ} where
  pub any_of-append :
      (p : A → Bool) (xs ys : List A) → any_of p (xs ++ ys) ≡ (any_of p xs || any_of p ys)
  any_of-append p [] ys = refl
  any_of-append p (x ∷ xs) ys = ground (arith, any_of-append p xs ys)

  pub any_of-keep_if :
      (p q : A → Bool) (xs : List A) → any_of p (keep_if q xs) ≡ any_of (λ x. p x && q x) xs
  any_of-keep_if p q [] = refl
  any_of-keep_if p q (x ∷ xs) = ground (arith, any_of-keep_if p q xs)

  pub keep_if-append :
      (p : A → Bool) (xs ys : List A) → keep_if p (xs ++ ys) ≡ keep_if p xs ++ keep_if p ys
  keep_if-append p [] ys = refl
  keep_if-append p (x ∷ xs) ys = ground (arith, keep_if-append p xs ys)

module _ {ℓ κ} {K : Type ℓ} {A : Type κ} ⦃e : Eq K⦄ where
  pub append-IsDistinct :
      (key : A → K) (xs : List A) (y : A)
      → IsDistinct key xs
      → any_of (λ x. key x == key y) xs ≡ false
      → IsDistinct key (xs ++ y ∷ [])
  append-IsDistinct key [] y h f = (refl, tt)
  append-IsDistinct key (x ∷ xs) y h f = (
    any_of-append (λ z. key z == key x) xs (y ∷ [])
        ∙ ground (arith, h.0, f, e.agrees (key x) (key y), e.agrees (key y) (key x)),
    append-IsDistinct key xs y h.1 (ground (arith, f)),
  )

  pub values-member : (v : A) (d : Dict K A) → Memᴰ v (values d) → (k : K) × Memᴰ (k, v) d
  values-member v ((k, w) ∷ d) (Memᴰ.head f) = (k, Memᴰ.head (ap (λ u. (k, u)) f))
  values-member v ((k, w) ∷ d) (Memᴰ.tail m) = let (j, n) = values-member v d m in (j, Memᴰ.tail n)
  values-member v [] m = absurd (Memᴰ.not-nil m)

  pub member-values : (k : K) (v : A) (d : Dict K A) → Memᴰ (k, v) d → Memᴰ v (values d)
  member-values k v (x ∷ d) (Memᴰ.head f) = Memᴰ.head (ap (λ p. p.1) f)
  member-values k v (x ∷ d) (Memᴰ.tail m) = Memᴰ.tail (member-values k v d m)
  member-values k v [] m = absurd (Memᴰ.not-nil m)

  values-keys :
      (key : A → K) (k : K) (d : Dict K A)
      → All (λ x. x.0 ≡ key x.1) d
      → any_of (λ v. key v == k) (values d) ≡ any_of (λ x. x.0 == k) d
  values-keys key k [] h = refl
  values-keys key k ((j, v) ∷ d) h = rw (h.0, values-keys key k d h.1) refl

  pub values-IsDistinct :
      (key : A → K) (d : Dict K A)
      → All (λ x. x.0 ≡ key x.1) d
      → IsDistinct (λ x. x.0) d
      → IsDistinct key (values d)
  values-IsDistinct key [] h u = tt
  values-IsDistinct key ((j, v) ∷ d) h u =
      (values-keys key (key v) d h.1 ∙ (rw (← h.0) u.0), values-IsDistinct key d h.1 u.1)
