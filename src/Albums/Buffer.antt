-- ===== src/Albums/Buffer.antt =====
-- src/estateflow/services/media_buffer.py: `TelegramAlbumBuffer`. A flush is two steps, for it awaits the
-- publisher without the lock: it takes a group, and it ends well or puts the group back. The publisher's
-- answer is part of the step. `flush_all` cancels the timers and then flushes each group.
use estate_flow.Base.{
  ℕ, zero, suc, String, Bool, true, not, ◌&&◌, ◌≡◌, ◌↔◌, List, [], ◌∷◌, ◌++◌, Option, none, some,
  if◌then◌else◌, on_option, ◌==◌, Eq, String_eq, str_eq_iff, keep_if, arith,
}
use estate_flow.Base.Dict.{Dict, get, put}
use estate_flow.Albums.Canonical.{RawTelegramEvent, canonical_album_event}

pub record AlbumBufferKey : Type 0 where
  pub source_channel_id : String
  pub media_group_id : String
  pub event_type : String

abbrev same_key : AlbumBufferKey → AlbumBufferKey → Bool
same_key a b =
    a.source_channel_id == b.source_channel_id
    && a.media_group_id == b.media_group_id
    && a.event_type == b.event_type

pub same_key_iff : (a b : AlbumBufferKey) → (same_key a b ≡ true) ↔ (a ≡ b)
same_key_iff a b = ground (
  arith,
  str_eq_iff a.source_channel_id b.source_channel_id,
  str_eq_iff a.media_group_id b.media_group_id,
  str_eq_iff a.event_type b.event_type,
)

instance abbrev pub AlbumBufferKey_eq : Eq AlbumBufferKey
AlbumBufferKey_eq = record { same = same_key; agrees = same_key_iff }

-- a flush that has taken its events and awaits the publisher
pub record Flight : Type 0 where
  pub key : AlbumBufferKey
  pub events : List RawTelegramEvent
  pub canonical : RawTelegramEvent

-- what the publisher accepted, with the events that it stands for
pub record Sent : Type 0 where
  pub events : List RawTelegramEvent
  pub event : RawTelegramEvent

pub record AlbumBuffer : Type 0 where
  pub groups : Dict AlbumBufferKey (List RawTelegramEvent)
  pub flush_tasks : List AlbumBufferKey
  pub flights : List Flight
  pub sent : List Sent

-- `d.pop(key, None)`
unfoldable pub without_key {ℓ} :
    {V : Type ℓ} → AlbumBufferKey → Dict AlbumBufferKey V → Dict AlbumBufferKey V
without_key k [] = []
without_key k ((j, v) ∷ d) = if j == k then d else (j, v) ∷ without_key k d

abbrev pub or_empty : Option (List RawTelegramEvent) → List RawTelegramEvent
or_empty none = []
or_empty (some events) = events

-- `event.media_group_id is None or event.event_type != "created"`, or the key of its album
abbrev pub album_key : String → String → Option String → Option AlbumBufferKey
album_key channel type none = none
album_key channel type (some group) =
    if type == "created"
    then some (record { source_channel_id = channel; media_group_id = group; event_type = type })
    else none

abbrev pub event_key : RawTelegramEvent → Option AlbumBufferKey
event_key event = album_key event.source_channel_id event.event_type event.media_group_id

abbrev pub without_task : AlbumBufferKey → List AlbumBufferKey → List AlbumBufferKey
without_task key = keep_if λ k. not (k == key)

abbrev pub buffered : RawTelegramEvent → AlbumBufferKey → AlbumBuffer → AlbumBuffer
buffered event key s = record s {
  groups = put key (or_empty (get key s.groups) ++ event ∷ []) s.groups;
  flush_tasks = without_task key s.flush_tasks ++ key ∷ [];
}

-- `publish`; `ok` is whether the publisher accepts an event that is no part of an album
unfoldable pub publish : RawTelegramEvent → Bool → AlbumBuffer → AlbumBuffer
publish event ok s =
    on_option (event_key event)
      (if ok
        then record s { sent = s.sent ++ record { events = event ∷ []; event = event } ∷ [] }
        else s)
      λ key. buffered event key s

module _ (as_int : String → Option ℕ) where
  abbrev pub taken :
      AlbumBufferKey → List RawTelegramEvent → Option RawTelegramEvent → AlbumBuffer → AlbumBuffer
  taken key events none s = record s {
    groups = without_key key s.groups;
    flush_tasks = without_task key s.flush_tasks;
  }
  taken key events (some canonical) s = record {
    groups = without_key key s.groups;
    flush_tasks = without_task key s.flush_tasks;
    flights = s.flights ++ record { key = key; events = events; canonical = canonical } ∷ [];
    sent = s.sent;
  }

  abbrev pub take_group :
      AlbumBufferKey → String → Option (List RawTelegramEvent) → AlbumBuffer → AlbumBuffer
  take_group key correlation none s = s
  take_group key correlation (some []) s = record s { groups = without_key key s.groups }
  take_group key correlation (some (e ∷ events)) s =
      taken key (e ∷ events) (canonical_album_event as_int correlation (e ∷ events)) s

  -- the first part of `flush`, under the lock
  unfoldable pub begin_flush : AlbumBufferKey → String → AlbumBuffer → AlbumBuffer
  begin_flush key correlation s = take_group key correlation (get key s.groups) s

abbrev pub put_back : Flight → AlbumBuffer → AlbumBuffer
put_back f s = record s {
  groups = put f.key (f.events ++ or_empty (get f.key s.groups)) (without_key f.key s.groups);
}

-- the flight at a position, and the others
unfoldable pub nth_flight : ℕ → List Flight → Option Flight
nth_flight n [] = none
nth_flight zero (f ∷ fs) = some f
nth_flight (suc n) (f ∷ fs) = nth_flight n fs

unfoldable pub without_nth : ℕ → List Flight → List Flight
without_nth n [] = []
without_nth zero (f ∷ fs) = fs
without_nth (suc n) (f ∷ fs) = f ∷ without_nth n fs

-- the second part of `flush`: the publisher has accepted the event, or raised
unfoldable pub end_flush : ℕ → Bool → AlbumBuffer → AlbumBuffer
end_flush n ok s = on_option (nth_flight n s.flights) s λ f.
    let rest = record s { flights = without_nth n s.flights } in
    if ok
    then record rest { sent = s.sent ++ record { events = f.events; event = f.canonical } ∷ [] }
    else put_back f rest

-- the first part of `flush_all`
abbrev pub cancel_timers : AlbumBuffer → AlbumBuffer
cancel_timers s = record s { flush_tasks = [] }

pub data Step : Type 0 where
  publishes : RawTelegramEvent → Bool → Step
  begins : AlbumBufferKey → String → Step
  ends : ℕ → Bool → Step
  cancels : Step

module _ (as_int : String → Option ℕ) where
  unfoldable pub step : AlbumBuffer → Step → AlbumBuffer
  step s (publishes event ok) = publish event ok s
  step s (begins key correlation) = begin_flush as_int key correlation s
  step s (ends n ok) = end_flush n ok s
  step s cancels = cancel_timers s

  unfoldable pub run : AlbumBuffer → List Step → AlbumBuffer
  unfolding step
  run s [] = s
  run s (x ∷ xs) = run (step s x) xs
