-- ===== src/Albums/Whole.antt =====
-- src/estateflow/services/media_buffer.py: the event of an album and the events that it stands for.
use mathlib.Core.Path.{subst}
use mathlib.Core.List.Memᴰ
use mathlib.Core.List.{Memᴰ}
use estate_flow.Base.{
  ℕ, ◌≤◌, String, Bool, not, ◌&&◌, ◌≡◌, refl, sym, ap, ◌∙◌, inl, inr, List, [], ◌∷◌, ◌++◌, Option,
  some, ltb, if◌then◌else◌, ◌==◌, Eq, String_eq, beq_refl, Bool-cases, any_of, All, arith,
}
use estate_flow.Base.Sort.{insert, sort_by, All-sort_by}
use estate_flow.Base.Members.{
  IsDistinct, any_of-append, any_of-sort_by, sort_by-IsDistinct, All-of, member-sort_by,
}
use estate_flow.Albums.Canonical.{
  build_telegram_album_idempotency_key, RawTelegramEvent, TelegramMediaReference, MediaKey,
  MediaKey_eq, media_key, firsts, ids_of, all_ids, all_media, earliest, message_leb, event_leb,
  ordered_events, album_event, of_ordered, canonical_album_event,
}
use estate_flow.Albums.Buffer.{AlbumBufferKey}

module _ {ℓ κ} {K : Type ℓ} {A : Type κ} ⦃e : Eq K⦄ (key : A → K) where
  firsts-keys :
      (k : K) (seen : List K) (xs : List A)
      → any_of (λ y. key y == k) (firsts key seen xs)
        ≡ (any_of (λ y. key y == k) xs && not (any_of (λ j. j == k) seen))
  unfolding firsts
  firsts-keys k seen [] = refl
  firsts-keys k seen (x ∷ xs) = elim (Bool-cases (key x == k)) [
    | inl same ↦ elim (Bool-cases (any_of (λ j. j == key x) seen)) [
      | inl s ↦ rw (← (e.agrees (key x) k).0 same, s, firsts-keys (key x) seen xs, s) (ground arith)
      | inr s ↦ rw (← (e.agrees (key x) k).0 same, s, beq_refl (key x)) refl
    ]
    | inr other ↦ ground (
      arith,
      other,
      firsts-keys k seen xs,
      firsts-keys k (seen ++ key x ∷ []) xs,
      any_of-append (λ j. j == k) seen (key x ∷ []),
    )
  ]

  firsts-IsDistinct : (seen : List K) (xs : List A) → IsDistinct key (firsts key seen xs)
  unfolding firsts
  firsts-IsDistinct seen [] = tt
  firsts-IsDistinct seen (x ∷ xs) = elim (Bool-cases (any_of (λ j. j == key x) seen)) [
    | inl s ↦ rw s (firsts-IsDistinct seen xs)
    | inr s ↦ rw s (
      firsts-keys (key x) (seen ++ key x ∷ []) xs
          ∙ ground (arith, any_of-append (λ j. j == key x) seen (key x ∷ []), beq_refl (key x)),
      firsts-IsDistinct (seen ++ key x ∷ []) xs,
    )
  ]

  firsts_of_nothing :
      (k : K) (xs : List A)
      → any_of (λ y. key y == k) (firsts key [] xs) ≡ any_of (λ y. key y == k) xs
  firsts_of_nothing k xs = firsts-keys k [] xs ∙ ground arith

abbrev has_id : String → List String → Bool
has_id id = any_of λ y. y == id

any_of-all_ids :
    (id : String) (events : List RawTelegramEvent)
    → has_id id (all_ids events) ≡ any_of (λ e. has_id id (ids_of e)) events
unfolding all_ids
any_of-all_ids id [] = refl
any_of-all_ids id (e ∷ events) =
    any_of-append (λ y. y == id) (ids_of e) (all_ids events) ∙ (rw (any_of-all_ids id events) refl)

abbrev has_media : MediaKey → List TelegramMediaReference → Bool
has_media k = any_of λ m. media_key m == k

any_of-all_media :
    (k : MediaKey) (events : List RawTelegramEvent)
    → has_media k (all_media events) ≡ any_of (λ e. has_media k e.media) events
unfolding all_media
any_of-all_media k [] = refl
any_of-all_media k (e ∷ events) =
    any_of-append (λ m. media_key m == k) e.media (all_media events)
    ∙ (rw (any_of-all_media k events) refl)

earliest-le : (time : ℕ) (events : List RawTelegramEvent) → earliest time events ≤ time
unfolding earliest
earliest-le time [] = omega arith
earliest-le time (e ∷ events) =
    ground (arith, earliest-le (if ltb e.occurred_at time then e.occurred_at else time) events)

earliest-All :
    (time : ℕ) (events : List RawTelegramEvent)
    → All (λ e. earliest time events ≤ e.occurred_at) events
unfolding earliest
earliest-All time [] = tt
earliest-All time (e ∷ events) =
    let t = if ltb e.occurred_at time then e.occurred_at else time in
    (ground (arith, earliest-le t events), earliest-All t events)

member-All {ℓ κ} : {A : Type ℓ} (P : A → Type κ) (x : A) (xs : List A) → All P xs → Memᴰ x xs → P x
member-All P x (y ∷ xs) h (Memᴰ.head f) = rw f h.0
member-All P x (y ∷ xs) h (Memᴰ.tail m) = member-All P x xs h.1 m
member-All P x [] h m = absurd (Memᴰ.not-nil m)

insert-cons {ℓ} :
    {A : Type ℓ} (le : A → A → Bool) (x : A) (xs : List A)
    → (y : A) × (ys : List A) × (insert le x xs ≡ y ∷ ys)
unfolding insert
insert-cons le x [] = (x, [], refl)
insert-cons le x (y ∷ ys) = elim (Bool-cases (le x y)) [
  | inl s ↦ (x, y ∷ ys, rw s refl)
  | inr s ↦ (y, insert le x ys, rw s refl)
]

-- The event belongs to the group.
pub record IsInGroup (key : AlbumBufferKey) (event : RawTelegramEvent) : Type 0 where
  pub channel : event.source_channel_id ≡ key.source_channel_id
  pub group : event.media_group_id ≡ some key.media_group_id
  pub type : event.event_type ≡ key.event_type

-- The event has the messages and the media of the events, each once, and nothing else.
pub record IsAlbumOf (key : AlbumBufferKey) (events : List RawTelegramEvent)
    (album : RawTelegramEvent) : Type 0 where
  pub in_group : IsInGroup key album
  pub own_key :
      album.idempotency_key
      ≡ build_telegram_album_idempotency_key key.event_type key.source_channel_id key.media_group_id
  pub ids :
      (id : String) → has_id id album.source_message_ids ≡ any_of (λ e. has_id id (ids_of e)) events
  pub each_id_once : IsDistinct (λ id. id) album.source_message_ids
  pub media : (k : MediaKey) → has_media k album.media ≡ any_of (λ e. has_media k e.media) events
  pub each_medium_once : IsDistinct media_key album.media
  pub not_later : All (λ e. album.occurred_at ≤ e.occurred_at) events

module _ (as_int : String → Option ℕ) where
  album_event-IsAlbumOf :
      (correlation : String) (key : AlbumBufferKey) (events : List RawTelegramEvent)
      (first : RawTelegramEvent) (rest : List RawTelegramEvent)
      → ordered_events as_int events ≡ first ∷ rest
      → IsInGroup key first
      → IsAlbumOf key events
          (album_event as_int correlation key.media_group_id first (first ∷ rest))
  album_event-IsAlbumOf correlation key events first rest q h = record {
    in_group = record { channel = h.channel; group = h.group; type = h.type };
    own_key = rw (h.channel, h.type) refl;
    ids = λ id.
        any_of-sort_by (message_leb as_int) (λ y. y == id)
          (firsts (λ t. t) [] (all_ids (first ∷ rest)))
        ∙ firsts_of_nothing (λ t. t) id (all_ids (first ∷ rest))
        ∙ any_of-all_ids id (first ∷ rest)
        ∙ same_as_ordered (λ e. has_id id (ids_of e));
    each_id_once =
        sort_by-IsDistinct (λ t. t) (message_leb as_int)
          (firsts (λ t. t) [] (all_ids (first ∷ rest)))
          (firsts-IsDistinct (λ t. t) [] (all_ids (first ∷ rest)));
    media = λ k.
        firsts_of_nothing media_key k (all_media (first ∷ rest))
        ∙ any_of-all_media k (first ∷ rest)
        ∙ same_as_ordered (λ e. has_media k e.media);
    each_medium_once = firsts-IsDistinct media_key [] (all_media (first ∷ rest));
    not_later = All-of _ events λ e m.
        member-All (λ e. earliest first.occurred_at (first ∷ rest) ≤ e.occurred_at) e (first ∷ rest)
          (earliest-All first.occurred_at (first ∷ rest))
          (rw (← q) (member-sort_by (event_leb as_int) e events m));
  }
    where
      same_as_ordered : (p : RawTelegramEvent → Bool) → any_of p (first ∷ rest) ≡ any_of p events
      same_as_ordered p = ap (any_of p) (sym q) ∙ any_of-sort_by (event_leb as_int) p events

  -- From a nonempty list of events of one group an event of that group is made. Its idempotency key is
  -- the one of the group, it names the messages of the events, each once, and has their media, each
  -- once, and no other message or medium, and it is not later than any of the events.
  pub canonical_album_event-IsAlbumOf :
      (correlation : String) (key : AlbumBufferKey) (e : RawTelegramEvent)
      (events : List RawTelegramEvent)
      → All (IsInGroup key) (e ∷ events)
      → (album : RawTelegramEvent) × (canonical_album_event as_int correlation (e ∷ events)
          ≡ some album)
        × IsAlbumOf key (e ∷ events) album
  unfolding of_ordered sort_by
  canonical_album_event-IsAlbumOf correlation key e events h =
      let (first, rest, q) = insert-cons (event_leb as_int) e (ordered_events as_int events) in
      let sorted : All (IsInGroup key) (first ∷ rest) =
        subst (All (IsInGroup key)) q
          (All-sort_by (event_leb as_int) (IsInGroup key) (e ∷ events) h) in
      (
        album_event as_int correlation key.media_group_id first (first ∷ rest),
        rw (q, sorted.0.group) refl,
        album_event-IsAlbumOf correlation key (e ∷ events) first rest q sorted.0,
      )
