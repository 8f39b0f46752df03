-- ===== src/Lib.antt =====
-- A verification library for the core services of EstateFlow, which collects announcements of flats
-- from Telegram channels, extracts listings from them, removes duplicates, and notifies users whose
-- saved filters match.
--
-- The parts, and the files that model them (paths from the repository's root):
--
-- - Base: what the modules share. A method of an object is a function from the object's state to a
--   result, which is a value or an exception, and the new state (Base/Effects); what was written
--   before an exception stays written. A dict is an association list in insertion order (Base/Dict),
--   `sorted` is a stable sort by a Boolean test (Base/Sort), and Base/Invariants has a rule for
--   each way to build a method that keeps an invariant.
-- - Flags: src/estateflow/services/release_controls.py. `FeatureFlagStore` is
--   `InMemoryFeatureFlagStore` with `init_store` and `store_set_flag`; `set_flag` is that of
--   `ReleaseControlService`; Flags/Policy is `BetaCohortPolicy`, and Flags/Gates are the wrappers
--   that read the flags before they call a provider, a publisher or Telegram.
-- - Referrals: src/estateflow/services/referrals.py (Referrals/Service: `register_start`,
--   `record_qualifying_action`, the rate limiter) over the in-memory repository of
--   src/estateflow/repositories/users.py (Referrals/Users).
-- - Announcements: the listings, announcements and search criteria that the services exchange, and
--   `announcement_matches` of src/estateflow/services/search.py.
-- - Dedup: src/estateflow/services/post_ai_dedup.py. Dedup/Scoring is the weighted engine,
--   Dedup/Repository the in-memory repository with the merge of listings and the selection of a
--   parent, Dedup/Review the review queue with its five actions, and Dedup/Processor the processor
--   that connects them.
-- - Notifications: src/estateflow/services/notifications.py. Notifications/Jobs is the in-memory
--   repository of the jobs, Notifications/Limiter the rate limiter, Notifications/Worker the
--   delivery worker, Notifications/Matching the engine that makes jobs for an announcement, and
--   Notifications/Callbacks the data of the buttons.
-- - Listeners: src/estateflow/services/listener_pool.py. Listeners/Health and Listeners/Assignments are
--   the accounts and the assignments with their in-memory repositories, Listeners/Pool is `reconcile`
--   with the two loops over the assignments and over the sources, and Listeners/Monitor the methods
--   on the health of the accounts. Sources has the records of
--   src/estateflow/services/source_config.py.
-- - Suggestions: src/estateflow/services/source_suggestions.py. Suggestions/Stored is the in-memory
--   repository, Suggestions/Service the service over a registry of sources that is given, and
--   Suggestions/Identifier `normalize_source_identifier`. `approve` and `reject` share `review`.
-- - Tags: src/estateflow/services/audience_tags.py. Tags/Stored is the in-memory repository, Tags/Keys
--   `normalize_tag_key`, and Tags/Service the service, whose `approve` and `reject` share `decide_tag`.
-- - Albums: src/estateflow/services/media_buffer.py. Albums/Buffer is `TelegramAlbumBuffer`, whose
--   `flush` is `begin_flush` and `end_flush`, since the publisher is awaited without the lock, and
--   Albums/Canonical is `_canonical_album_event`.
--
-- How they interact: the processor of Dedup publishes an announcement, the engine of Notifications
-- matches it and publishes jobs, and the worker delivers them by a Telegram client, which Flags may
-- disable. Clock readings, fresh UUIDs, the saved filters, the text of a message, Telegram's answers
-- and the matchers of the engine are arguments of the definitions. Each call of a method
-- is one step, and histories are lists of calls that follow one another. The in-memory repositories
-- hold a lock or do not await, so that their calls cannot interleave. A service method that awaits
-- another service without a lock can: `_process_job` awaits Telegram, the `approve` of a suggestion
-- the registry. What is shown of such a method is shown of calls that do not overlap. The flush of an
-- album is two steps, so that flushes may overlap. The lookup of a user and the publication of a job
-- by the matching engine do not raise in the model.
--
-- Numbers: a datetime is a number of microseconds since an early origin, an interval is one too, and
-- a decimal is a number of 1/10000. Identifiers and counts are not negative in the program, and are
-- natural numbers here. The one loop that is not over a list, `_would_create_cycle`, runs on fuel: one
-- round for each stored event and one more, since each round but the last visits a stored event
-- that was not visited before.
--
-- Not modelled: the repositories over asyncpg, SQLAlchemy and Redis, whose meaning is that of their
-- servers; the web interfaces, the bot and the listeners, which are input and output; the prompts and
-- the language model; the eleven matchers of the engine with their text similarity, and the cheap
-- test of `list_candidates`, which is a parameter; the names of the conflicting fields in the merge
-- audit; the message queue and the deduplication before extraction.
pub mod Base
pub mod Announcements
pub mod Samples
pub mod Flags
pub mod Referrals
pub mod Dedup
pub mod Notifications
pub mod Sources
pub mod Listeners
pub mod Suggestions
pub mod Tags
pub mod Albums
