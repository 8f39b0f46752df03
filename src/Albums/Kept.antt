-- ===== src/Albums/Kept.antt =====
-- src/estateflow/services/media_buffer.py: `TelegramAlbumBuffer` keeps each event that it accepts.
use estate_flow.Base.{
  ℕ, ◌+◌, String, Bool, ◌≡◌, refl, inl, inr, List, [], ◌∷◌, ◌++◌, Option, if◌then◌else◌, Bool-cases,
  Option-cases, on_option, count_if-append, arith,
}
use estate_flow.Base.Dict.{get}
use estate_flow.Albums.Canonical.{RawTelegramEvent}
use estate_flow.Albums.Whole.{canonical_album_event-IsAlbumOf}
use estate_flow.Albums.Groups.{
  in_groups, in_flights, in_sent, in_groups-put, in_groups-without_key, in_flights-append,
  in_sent-append, in_flights-without_nth, get-without_key, get-All,
}
use estate_flow.Albums.Sound.{AreOf, IsSound, step-IsSound}
use estate_flow.Albums.Buffer.{
  AlbumBufferKey, AlbumBufferKey_eq, AlbumBuffer, without_key, or_empty, event_key, nth_flight,
  publish, begin_flush, end_flush, Step, publishes, begins, ends, cancels, step, run,
}

-- the events of a buffer that pass a test: those that wait, those in a flush, and those published
abbrev pub held : (RawTelegramEvent → Bool) → AlbumBuffer → ℕ
held p s = in_groups p s.groups + in_flights p s.flights + in_sent p s.sent

-- the events that pass a test among those that `publish` took without raising
abbrev pub accepted : (RawTelegramEvent → Bool) → Step → ℕ
accepted p (publishes event ok) =
    if p event then on_option (event_key event) (if ok then 1 else 0) (λ key. 1) else 0
accepted p (begins key correlation) = 0
accepted p (ends n ok) = 0
accepted p cancels = 0

abbrev pub all_accepted : (RawTelegramEvent → Bool) → List Step → ℕ
all_accepted p [] = 0
all_accepted p (x ∷ xs) = accepted p x + all_accepted p xs

publish-held :
    (p : RawTelegramEvent → Bool) (event : RawTelegramEvent) (ok : Bool) (s : AlbumBuffer)
    → held p (publish event ok s) ≡ held p s + accepted p (publishes event ok)
unfolding publish
publish-held p event ok s = elim (Option-cases (event_key event)) [
  | inl k ↦ elim (Bool-cases ok) [
    | inl o ↦
        rw (k, o)
          (ground (arith, in_sent-append p s.sent (record { events = event ∷ []; event = event })))
    | inr o ↦ rw (k, o) (ground arith)
  ]
  | inr (key, k) ↦ rw k (
      ground (
        arith,
        in_groups-put p key (or_empty (get key s.groups) ++ event ∷ []) s.groups,
        count_if-append p (or_empty (get key s.groups)) (event ∷ []),
      ))
]

module _ (as_int : String → Option ℕ) where
  begin_flush-held :
      (p : RawTelegramEvent → Bool) (key : AlbumBufferKey) (correlation : String) (s : AlbumBuffer)
      → IsSound s
      → held p (begin_flush as_int key correlation s) ≡ held p s
  unfolding begin_flush
  begin_flush-held p key correlation s h = elim (Option-cases (get key s.groups)) [
    | inl g ↦ rw g refl
    | inr ([], g) ↦ rw g (ground (arith, in_groups-without_key p key s.groups, g))
    | inr (e ∷ events, g) ↦
        let of_key : AreOf key (e ∷ events) = get-All AreOf key (e ∷ events) s.groups h.own g in
        let (album, made, rest) =
          canonical_album_event-IsAlbumOf as_int correlation key e events of_key in
        rw (g, made)
          (ground (
            arith,
            in_groups-without_key p key s.groups,
            g,
            in_flights-append p s.flights
                (record { key = key; events = e ∷ events; canonical = album }),
          ))
  ]

end_flush-held :
    (p : RawTelegramEvent → Bool) (n : ℕ) (ok : Bool) (s : AlbumBuffer)
    → IsSound s
    → held p (end_flush n ok s) ≡ held p s
unfolding end_flush
end_flush-held p n ok s h = elim (Option-cases (nth_flight n s.flights)) [
  | inl q ↦ rw q refl
  | inr (f, q) ↦ elim (Bool-cases ok) [
    | inl o ↦
        rw (q, o)
          (ground (
            arith,
            in_flights-without_nth p n f s.flights q,
            in_sent-append p s.sent (record { events = f.events; event = f.canonical }),
          ))
    | inr o ↦
        let both = f.events ++ or_empty (get f.key s.groups) in
        let left = without_key f.key s.groups in
        rw (q, o)
          (ground (
            arith,
            in_flights-without_nth p n f s.flights q,
            in_groups-put p f.key both left,
            get-without_key f.key s.groups h.apart,
            in_groups-without_key p f.key s.groups,
            count_if-append p f.events (or_empty (get f.key s.groups)),
          ))
  ]
]

module _ (as_int : String → Option ℕ) where
  step-held :
      (p : RawTelegramEvent → Bool) (s : AlbumBuffer) (x : Step)
      → IsSound s
      → held p (step as_int s x) ≡ held p s + accepted p x
  unfolding step
  step-held p s (publishes event ok) h = publish-held p event ok s
  step-held p s (begins key correlation) h =
      omega (arith, begin_flush-held as_int p key correlation s h)
  step-held p s (ends n ok) h = omega (arith, end_flush-held p n ok s h)
  step-held p s cancels h = omega arith

  -- In a sound buffer, whatever the order of publications, of flushes that begin and end, well or not,
  -- and of cancelled timers, no event that was taken is lost and none is published twice: for every
  -- test, the events that pass it and wait, are in a flush or are published are as many as before and
  -- those that were taken since together. The buffer stays sound: what is published is an event as it
  -- came, or the album of the events that it stands for.
  pub run-held :
      (p : RawTelegramEvent → Bool) (xs : List Step) (s : AlbumBuffer)
      → IsSound s
      → (held p (run as_int s xs) ≡ held p s + all_accepted p xs) × IsSound (run as_int s xs)
  unfolding run
  run-held p [] s h = (omega arith, h)
  run-held p (x ∷ xs) s h =
      let (kept, sound) = run-held p xs (step as_int s x) (step-IsSound as_int s x h) in
      (omega (arith, kept, step-held p s x h), sound)
