-- ===== src/Notifications/Index.antt =====
-- src/estateflow/services/notifications.py: the dict of the jobs of `InMemoryNotificationJobRepository`,
-- with its lookup by `_get_by_notification_id` and the storing of a job.
use mathlib.Core.Path.{subst}
use estate_flow.Base.{
  String, ◌≡◌, refl, ◌≢◌, sym, ap, ◌∙◌, inl, inr, Option, none, some, [], ◌∷◌, arith, ◌==◌,
  String_eq, beq_refl, str_eq_iff, Bool-cases, find_first, All,
}
use estate_flow.Base.Dict.{Dict, get, put, values, get-put}
use estate_flow.Notifications.{NotificationJob, idempotency_key}

abbrev pub find : String → Dict String NotificationJob → Option NotificationJob
find id jobs = find_first (λ job. job.notification_id == id) (values jobs)

-- Each job stands under its own key, and a job that is found by its id is the one under its key.
pub record IsIndexed (jobs : Dict String NotificationJob) : Type 0 where
  pub keyed : All (λ e. e.0 ≡ idempotency_key e.1) jobs
  pub indexed :
      (id : String) (job : NotificationJob)
      → find id jobs ≡ some job
      → get (idempotency_key job) jobs ≡ some job

abbrev key_of : Option NotificationJob → String
key_of none = ""
key_of (some job) = idempotency_key job

pub find-id :
    (id : String) (jobs : Dict String NotificationJob) (job : NotificationJob)
    → find id jobs ≡ some job
    → job.notification_id ≡ id
find-id id [] job h = cc
find-id id ((k, j) ∷ jobs) job h = elim (Bool-cases (j.notification_id == id)) [
  | inl e ↦ ground (arith, h, e, str_eq_iff j.notification_id id)
  | inr e ↦ find-id id jobs job (ground (arith, h, e))
]

put-keyed :
    (new : NotificationJob) (jobs : Dict String NotificationJob)
    → All (λ e. e.0 ≡ idempotency_key e.1) jobs
    → All (λ e. e.0 ≡ idempotency_key e.1) (put (idempotency_key new) new jobs)
unfolding put
put-keyed new [] h = (refl, tt)
put-keyed new ((k, j) ∷ jobs) h = elim (Bool-cases (k == idempotency_key new)) [
  | inl e ↦ rw e ((str_eq_iff k (idempotency_key new)).0 e, h.1)
  | inr e ↦ rw e (h.0, put-keyed new jobs h.1)
]

-- An update of a stored job that keeps its id.
find-put :
    (id key : String) (old new : NotificationJob) (jobs : Dict String NotificationJob)
    → get key jobs ≡ some old
    → new.notification_id ≡ old.notification_id
    → new.notification_id ≢ id
    → find id (put key new jobs) ≡ find id jobs
unfolding get put
find-put id key old new [] h e ne = cc
find-put id key old new ((k, j) ∷ jobs) h e ne = elim (Bool-cases (k == key)) [
  | inl here ↦
      let is_old : some j ≡ some old = rw here at h in
      ground (arith, here, is_old, e, ne, str_eq_iff new.notification_id id)
  | inr there ↦
      let rest = find-put id key old new jobs (rw there at h) e ne in ground (arith, there, rest)
]

find-put_same :
    (key : String) (old new : NotificationJob) (jobs : Dict String NotificationJob)
    → All (λ e. e.0 ≡ idempotency_key e.1) jobs
    → key ≡ idempotency_key old
    → find new.notification_id jobs ≡ some old
    → get key jobs ≡ some old
    → find new.notification_id (put key new jobs) ≡ some new
unfolding get put
find-put_same key old new [] keyed own f g = cc
find-put_same key old new ((k, j) ∷ jobs) keyed own f g =
    elim (Bool-cases (j.notification_id == new.notification_id)) [
      | inl e ↦
          let is_old : some j ≡ some old = rw e at f in
          ground (
            arith,
            is_old,
            keyed.0,
            own,
            str_eq_iff k key,
            str_eq_iff new.notification_id new.notification_id,
          )
      | inr e ↦ elim (Bool-cases (k == key)) [
        | inl here ↦
            let is_old : some j ≡ some old = rw here at g in
            let own_id = find-id new.notification_id jobs old (rw e at f) in
            ground (arith, is_old, own_id, e, str_eq_iff j.notification_id new.notification_id)
        | inr there ↦
            let rest = find-put_same key old new jobs keyed.1 own (rw e at f) (rw there at g) in
            ground (arith, there, e, rest)
      ]
    ]

-- Storing an update of a job that keeps its id and its key: the job is found in its new form, the
-- others as they were, and the dict stays well formed.
module _ (old new : NotificationJob) (jobs : Dict String NotificationJob) (w : IsIndexed jobs)
    (same_id : new.notification_id ≡ old.notification_id)
    (same_key : idempotency_key new ≡ idempotency_key old)
    (f : find old.notification_id jobs ≡ some old) where
  there : get (idempotency_key new) jobs ≡ some old
  there = rw same_key (w.indexed old.notification_id old f)

  pub store-found : find old.notification_id (put (idempotency_key new) new jobs) ≡ some new
  store-found =
      subst (λ i. find i (put (idempotency_key new) new jobs) ≡ some new) same_id
        (find-put_same (idempotency_key new) old new jobs w.keyed same_key
          (subst (λ i. find i jobs ≡ some old) (sym same_id) f) there)

  pub store-others :
      (id : String)
      → old.notification_id ≢ id
      → find id (put (idempotency_key new) new jobs) ≡ find id jobs
  store-others id ne =
      find-put id (idempotency_key new) old new jobs there same_id (λ e. ne (sym same_id ∙ e))

  other_key :
      (id : String) (job : NotificationJob)
      → old.notification_id ≢ id
      → find id jobs ≡ some job
      → get (idempotency_key job) (put (idempotency_key new) new jobs) ≡ some job
  other_key id job ne h = elim (Bool-cases (idempotency_key new == idempotency_key job)) [
    | inl same ↦
        let at = (str_eq_iff (idempotency_key new) (idempotency_key job)).0 same in
        let here = w.indexed id job h in
        elim (ne (
          ap (λ o. elim o as (λ _. String) [ none ↦ "" | some j ↦ j.notification_id ])
            (sym there ∙ subst (λ k. get k jobs ≡ some job) (sym at) here)
          ∙ find-id id jobs job h)) [ ]
    | inr other ↦
        get-put (idempotency_key new) (idempotency_key job) new jobs ∙ rw other (w.indexed id job h)
  ]

  pub store-IsIndexed : IsIndexed (put (idempotency_key new) new jobs)
  store-IsIndexed = record {
    keyed = put-keyed new jobs w.keyed;
    indexed = λ id job h. elim (Bool-cases (old.notification_id == id)) [
      | inl same ↦
          let at = (str_eq_iff old.notification_id id).0 same in
          let is_new : some new ≡ some job =
            sym store-found
            ∙ subst (λ i. find i (put (idempotency_key new) new jobs) ≡ some job) (sym at) h in
          subst (λ o. get (key_of o) (put (idempotency_key new) new jobs) ≡ o) is_new
            (get-put (idempotency_key new) (idempotency_key new) new jobs
              ∙ rw (beq_refl (idempotency_key new)) refl)
      | inr other ↦
          let ne : old.notification_id ≢ id =
            λ e. cc (other, (str_eq_iff old.notification_id id).1 e) in
          other_key id job ne (sym (store-others id ne) ∙ h)
    ];
  }

pub single-IsIndexed : (job : NotificationJob) → IsIndexed ((idempotency_key job, job) ∷ [])
unfolding get
single-IsIndexed job = record {
  keyed = (refl, tt);
  indexed = λ id j h. elim (Bool-cases (job.notification_id == id)) [
    | inl e ↦
        let is_job : some job ≡ some j = rw e at h in
        subst (λ o. get (key_of o) ((idempotency_key job, job) ∷ []) ≡ o) is_job
          (rw (beq_refl (idempotency_key job)) refl)
    | inr e ↦ cc (rw e at h)
  ];
}
