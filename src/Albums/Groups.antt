-- ===== src/Albums/Groups.antt =====
-- src/estateflow/services/media_buffer.py: what the steps of a buffer do to its groups and flights.
use mathlib.Core.Path.{subst}
use mathlib.Core.Option.{some_inj}
use estate_flow.Base.{
  ℕ, zero, suc, ◌+◌, String, Bool, false, ◌≡◌, refl, sym, ap, inl, inr, List, [], ◌∷◌, ◌++◌, Option,
  none, some, ◌==◌, String_eq, Bool-cases, any_of, All, count_if, arith,
}
use estate_flow.Base.Dict.{Dict, get, put}
use estate_flow.Base.Members.{IsDistinct}
use estate_flow.Albums.Canonical.{RawTelegramEvent}
use estate_flow.Albums.Whole.{IsInGroup}
use estate_flow.Albums.Buffer.{
  AlbumBufferKey, AlbumBufferKey_eq, Flight, Sent, without_key, or_empty, album_key, event_key,
  nth_flight, without_nth,
}

abbrev pub Groups : Type 0
Groups = Dict AlbumBufferKey (List RawTelegramEvent)

module _ (p : RawTelegramEvent → Bool) where
  abbrev pub in_groups : Groups → ℕ
  in_groups [] = 0
  in_groups ((k, events) ∷ d) = count_if p events + in_groups d

  abbrev pub in_flights : List Flight → ℕ
  in_flights [] = 0
  in_flights (f ∷ fs) = count_if p f.events + in_flights fs

  abbrev pub in_sent : List Sent → ℕ
  in_sent [] = 0
  in_sent (x ∷ xs) = count_if p x.events + in_sent xs

  pub in_groups-put :
      (k : AlbumBufferKey) (v : List RawTelegramEvent) (d : Groups)
      → in_groups (put k v d) + count_if p (or_empty (get k d)) ≡ in_groups d + count_if p v
  unfolding get put
  in_groups-put k v [] = omega arith
  in_groups-put k v ((j, w) ∷ d) = elim (Bool-cases (j == k)) [
    | inl s ↦ rw s (omega arith)
    | inr s ↦ rw s (omega (arith, in_groups-put k v d))
  ]

  pub in_groups-without_key :
      (k : AlbumBufferKey) (d : Groups)
      → in_groups (without_key k d) + count_if p (or_empty (get k d)) ≡ in_groups d
  unfolding get without_key
  in_groups-without_key k [] = refl
  in_groups-without_key k ((j, w) ∷ d) = elim (Bool-cases (j == k)) [
    | inl s ↦ rw s (omega arith)
    | inr s ↦ rw s (omega (arith, in_groups-without_key k d))
  ]

  pub in_flights-append :
      (fs : List Flight) (f : Flight)
      → in_flights (fs ++ f ∷ []) ≡ in_flights fs + count_if p f.events
  in_flights-append [] f = omega arith
  in_flights-append (g ∷ fs) f = omega (arith, in_flights-append fs f)

  pub in_sent-append :
      (xs : List Sent) (x : Sent) → in_sent (xs ++ x ∷ []) ≡ in_sent xs + count_if p x.events
  in_sent-append [] x = omega arith
  in_sent-append (y ∷ xs) x = omega (arith, in_sent-append xs x)

  pub in_flights-without_nth :
      (n : ℕ) (f : Flight) (fs : List Flight)
      → nth_flight n fs ≡ some f
      → in_flights fs ≡ count_if p f.events + in_flights (without_nth n fs)
  unfolding nth_flight without_nth
  in_flights-without_nth n f [] h = cc
  in_flights-without_nth zero f (g ∷ fs) h = rw (some_inj.0 h) refl
  in_flights-without_nth (suc n) f (g ∷ fs) h = omega (arith, in_flights-without_nth n f fs h)

module _ (k : AlbumBufferKey) where
  any_of-without_key :
      (q : AlbumBufferKey × List RawTelegramEvent → Bool) (d : Groups)
      → any_of q d ≡ false
      → any_of q (without_key k d) ≡ false
  unfolding without_key
  any_of-without_key q [] h = refl
  any_of-without_key q ((j, w) ∷ d) h = elim (Bool-cases (j == k)) [
    | inl s ↦ rw s (ground (arith, h))
    | inr s ↦ rw s (ground (arith, h, any_of-without_key q d))
  ]

  pub without_key-IsDistinct :
      (d : Groups) → IsDistinct (λ x. x.0) d → IsDistinct (λ x. x.0) (without_key k d)
  unfolding without_key
  without_key-IsDistinct [] h = tt
  without_key-IsDistinct ((j, w) ∷ d) h = elim (Bool-cases (j == k)) [
    | inl s ↦ rw s h.1
    | inr s ↦ rw s (any_of-without_key (λ x. x.0 == j) d h.0, without_key-IsDistinct d h.1)
  ]

  get-absent : (d : Groups) → any_of (λ x. x.0 == k) d ≡ false → get k d ≡ none
  unfolding get
  get-absent [] h = refl
  get-absent ((j, w) ∷ d) h = ground (arith, h, get-absent d)

  pub get-without_key : (d : Groups) → IsDistinct (λ x. x.0) d → get k (without_key k d) ≡ none
  unfolding get without_key
  get-without_key [] h = refl
  get-without_key ((j, w) ∷ d) h = elim (Bool-cases (j == k)) [
    | inl s ↦ rw s (get-absent d (rw ((AlbumBufferKey_eq.agrees j k).0 s) at h.0))
    | inr s ↦ rw (s, s) (get-without_key d h.1)
  ]

module _ {ℓ} (Q : AlbumBufferKey → List RawTelegramEvent → Type ℓ) (k : AlbumBufferKey) where
  pub without_key-All :
      (d : Groups) → All (λ x. Q x.0 x.1) d → All (λ x. Q x.0 x.1) (without_key k d)
  unfolding without_key
  without_key-All [] h = tt
  without_key-All ((j, w) ∷ d) h = elim (Bool-cases (j == k)) [
    | inl s ↦ rw s h.1
    | inr s ↦ rw s (h.0, without_key-All d h.1)
  ]

  pub put-All :
      (v : List RawTelegramEvent) (d : Groups)
      → Q k v
      → All (λ x. Q x.0 x.1) d
      → All (λ x. Q x.0 x.1) (put k v d)
  unfolding put
  put-All v [] q h = (q, tt)
  put-All v ((j, w) ∷ d) q h = elim (Bool-cases (j == k)) [
    | inl s ↦ rw s (subst (λ i. Q i v) (sym ((AlbumBufferKey_eq.agrees j k).0 s)) q, h.1)
    | inr s ↦ rw s (h.0, put-All v d q h.1)
  ]

  pub get-All :
      (v : List RawTelegramEvent) (d : Groups) → All (λ x. Q x.0 x.1) d → get k d ≡ some v → Q k v
  unfolding get
  get-All v [] h f = cc
  get-All v ((j, w) ∷ d) h f = elim (Bool-cases (j == k)) [
    | inl s ↦
        let same : some w ≡ some v = rw s at f in
        rw (← (AlbumBufferKey_eq.agrees j k).0 s, ← some_inj.0 same) h.0
    | inr s ↦ get-All v d h.1 (rw s at f)
  ]

album_key-fields :
    (channel type : String) (group : Option String) (key : AlbumBufferKey)
    → album_key channel type group ≡ some key
    → (channel ≡ key.source_channel_id)
      × (group ≡ some key.media_group_id)
      × (type ≡ key.event_type)
album_key-fields channel type none key h = cc
album_key-fields channel type (some group) key h = elim (Bool-cases (type == "created")) [
  | inl s ↦
      let same = some_inj.0 (rw s at h) in
      (
        ap (λ k. k.source_channel_id) same,
        ap (λ k. some k.media_group_id) same,
        ap (λ k. k.event_type) same,
      )
  | inr s ↦ let absent : none ≡ some key = rw s at h in cc
]

pub event_key-IsInGroup :
    (event : RawTelegramEvent) (key : AlbumBufferKey)
    → event_key event ≡ some key
    → IsInGroup key event
event_key-IsInGroup event key h =
    let (channel, group, type) =
      album_key-fields event.source_channel_id event.event_type event.media_group_id key h in
    record { channel = channel; group = group; type = type }
