-- ===== src/Albums/Sound.antt =====
-- src/estateflow/services/media_buffer.py: what stays true of a buffer in each step.
use mathlib.Core.Path.{subst}
use mathlib.Core.Option.{some_inj}
use estate_flow.Base.{
  ℕ, zero, suc, String, Bool, ◌≡◌, refl, ◌⊎◌, inl, inr, List, [], ◌∷◌, ◌++◌, Option, some,
  Bool-cases, Option-cases, All, All-append,
}
use estate_flow.Base.Dict.{get}
use estate_flow.Base.Members.{IsDistinct, put-IsDistinct}
use estate_flow.Albums.Canonical.{RawTelegramEvent}
use estate_flow.Albums.Whole.{IsInGroup, IsAlbumOf, canonical_album_event-IsAlbumOf}
use estate_flow.Albums.Groups.{
  without_key-IsDistinct, without_key-All, put-All, get-All, event_key-IsInGroup,
}
use estate_flow.Albums.Buffer.{
  AlbumBufferKey, AlbumBufferKey_eq, Flight, Sent, AlbumBuffer, without_key, or_empty, event_key,
  nth_flight, without_nth, publish, begin_flush, end_flush, Step, publishes, begins, ends, cancels,
  step,
}

abbrev pub AreOf : AlbumBufferKey → List RawTelegramEvent → Type 0
AreOf key = All (IsInGroup key)

-- a flush publishes the album of the events that it took
abbrev pub IsMade : Flight → Type 0
IsMade f = AreOf f.key f.events × IsAlbumOf f.key f.events f.canonical

-- an event is published as it is, or as the album of the events that it stands for
abbrev pub IsTold : Sent → Type 0
IsTold x = (x.events ≡ x.event ∷ []) ⊎ ((key : AlbumBufferKey) × IsAlbumOf key x.events x.event)

-- No group is stored twice, the events of a group or a flush belong to its key, and what a flush
-- publishes or has published is the album of its events.
pub record IsSound (s : AlbumBuffer) : Type 0 where
  pub apart : IsDistinct (λ x. x.0) s.groups
  pub own : All (λ x. AreOf x.0 x.1) s.groups
  pub flying : All IsMade s.flights
  pub told : All IsTold s.sent

pub got-AreOf :
    (key : AlbumBufferKey) (s : AlbumBuffer) → IsSound s → AreOf key (or_empty (get key s.groups))
got-AreOf key s h = elim (Option-cases (get key s.groups)) [
  | inl g ↦ rw g tt
  | inr (events, g) ↦ rw g (get-All AreOf key events s.groups h.own g)
]

pub publish-IsSound :
    (event : RawTelegramEvent) (ok : Bool) (s : AlbumBuffer)
    → IsSound s
    → IsSound (publish event ok s)
unfolding publish
publish-IsSound event ok s h = elim (Option-cases (event_key event)) [
  | inl k ↦ elim (Bool-cases ok) [
    | inl o ↦
        rw (k, o)
          (record {
            apart = h.apart;
            own = h.own;
            flying = h.flying;
            told =
                All-append IsTold s.sent (record { events = event ∷ []; event = event } ∷ []) h.told
                  (inl refl, tt);
          })
    | inr o ↦ rw (k, o) h
  ]
  | inr (key, k) ↦
      let grown = or_empty (get key s.groups) ++ event ∷ [] in
      let fits : AreOf key grown =
        All-append (IsInGroup key) (or_empty (get key s.groups)) (event ∷ []) (got-AreOf key s h)
          (event_key-IsInGroup event key k, tt) in
      rw k (record {
        apart = put-IsDistinct key grown s.groups h.apart;
        own = put-All AreOf key grown s.groups fits h.own;
        flying = h.flying;
        told = h.told;
      })
]

module _ (as_int : String → Option ℕ) where
  pub begin_flush-IsSound :
      (key : AlbumBufferKey) (correlation : String) (s : AlbumBuffer)
      → IsSound s
      → IsSound (begin_flush as_int key correlation s)
  unfolding begin_flush
  begin_flush-IsSound key correlation s h = elim (Option-cases (get key s.groups)) [
    | inl g ↦ rw g h
    | inr ([], g) ↦ rw g (record { apart = apart; own = own; flying = h.flying; told = h.told })
    | inr (e ∷ events, g) ↦
        let of_key : AreOf key (e ∷ events) = get-All AreOf key (e ∷ events) s.groups h.own g in
        let (album, made, rest) =
          canonical_album_event-IsAlbumOf as_int correlation key e events of_key in
        rw (g, made)
          (record {
            apart = apart;
            own = own;
            flying =
                All-append IsMade s.flights
                  (record { key = key; events = e ∷ events; canonical = album } ∷ []) h.flying
                  ((of_key, rest), tt);
            told = h.told;
          })
  ]
    where
      apart : IsDistinct (λ x. x.0) (without_key key s.groups)
      apart = without_key-IsDistinct key s.groups h.apart

      own : All (λ x. AreOf x.0 x.1) (without_key key s.groups)
      own = without_key-All AreOf key s.groups h.own

nth_flight-All {ℓ} :
    (P : Flight → Type ℓ) (n : ℕ) (f : Flight) (fs : List Flight)
    → nth_flight n fs ≡ some f
    → All P fs
    → P f × All P (without_nth n fs)
unfolding nth_flight without_nth
nth_flight-All P n f [] q h = cc
nth_flight-All P zero f (g ∷ fs) q h = (subst P (some_inj.0 q) h.0, h.1)
nth_flight-All P (suc n) f (g ∷ fs) q h =
    let (x, xs) = nth_flight-All P n f fs q h.1 in (x, (h.0, xs))

pub end_flush-IsSound :
    (n : ℕ) (ok : Bool) (s : AlbumBuffer) → IsSound s → IsSound (end_flush n ok s)
unfolding end_flush
end_flush-IsSound n ok s h = elim (Option-cases (nth_flight n s.flights)) [
  | inl q ↦ rw q h
  | inr (f, q) ↦
      let ((of_key, album), flying) = nth_flight-All IsMade n f s.flights q h.flying in
      elim (Bool-cases ok) [
        | inl o ↦
            rw (q, o)
              (record {
                apart = h.apart;
                own = h.own;
                flying = flying;
                told =
                    All-append IsTold s.sent
                      (record { events = f.events; event = f.canonical } ∷ []) h.told
                      (inr (f.key, album), tt);
              })
        | inr o ↦
            let both = f.events ++ or_empty (get f.key s.groups) in
            let left = without_key f.key s.groups in
            rw (q, o)
              (record {
                apart =
                    put-IsDistinct f.key both left (without_key-IsDistinct f.key s.groups h.apart);
                own =
                    put-All AreOf f.key both left
                      (All-append (IsInGroup f.key) f.events (or_empty (get f.key s.groups)) of_key
                        (got-AreOf f.key s h))
                      (without_key-All AreOf f.key s.groups h.own);
                flying = flying;
                told = h.told;
              })
      ]
]

module _ (as_int : String → Option ℕ) where
  pub step-IsSound : (s : AlbumBuffer) (x : Step) → IsSound s → IsSound (step as_int s x)
  unfolding step
  step-IsSound s (publishes event ok) h = publish-IsSound event ok s h
  step-IsSound s (begins key correlation) h = begin_flush-IsSound as_int key correlation s h
  step-IsSound s (ends n ok) h = end_flush-IsSound n ok s h
  step-IsSound s cancels h = record {
    apart = h.apart;
    own = h.own;
    flying = h.flying;
    told = h.told;
  }
