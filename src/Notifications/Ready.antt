-- ===== src/Notifications/Ready.antt =====
-- src/estateflow/services/notifications.py: the jobs that `list_ready` returns.
use mathlib.Core.List.{Perm}
use mathlib.Core.Path.{subst}
use estate_flow.Base.{
  List, [], ◌++◌, ◌⊎◌, sym, ℕ, ◌≤◌, ◌≡◌, Bool, true, false, arith, ltb, leb, if◌then◌else◌, length,
  length-take, keep_if, All, All-take, All-keep_if,
}
use estate_flow.Base.Dict.{values}
use estate_flow.Base.Sort.{
  sort_by, All-sort_by, IsSorted, sort_by-IsSorted_for, IsSorted-take, IsSorted-split, sort_by-perm,
}
use estate_flow.Notifications.{JobRepository, NotificationJob, list_ready, is_ready, before}

-- A higher priority comes first, and an older job within one priority.
abbrev pub is_urgent : NotificationJob → NotificationJob → Bool
is_urgent a b =
    if ltb b.priority a.priority
    then true
    else if ltb a.priority b.priority
    then false
    else leb a.created_at b.created_at

before-is_urgent : (a b : NotificationJob) → before a b ≡ true → is_urgent a b ≡ true
unfolding before
before-is_urgent a b h = ground (arith, h)

not_before-is_urgent : (a b : NotificationJob) → before a b ≡ false → is_urgent b a ≡ true
unfolding before
not_before-is_urgent a b h = ground (arith, h)

is_urgent_trans :
    (a b c : NotificationJob) → is_urgent a b ≡ true → is_urgent b c ≡ true → is_urgent a c ≡ true
is_urgent_trans a b c h k = ground (arith, h, k)

-- `list_ready` returns at most `limit` jobs, each of them pending and due, and in order: a job of a
-- higher priority before one of a lower, and within one priority an older before a newer. With the
-- jobs that it leaves out they are the ready jobs, each as often as it is stored. Each job that it
-- leaves out comes in that order after each one that it returns, and it leaves out none unless it
-- returns `limit` jobs.
pub list_ready_lem :
    (limit now : ℕ) (s : JobRepository)
    → (length (list_ready limit now s) ≤ limit)
      × All (λ job. is_ready now job ≡ true) (list_ready limit now s)
      × IsSorted is_urgent (list_ready limit now s)
      × ((rest : List NotificationJob) × Perm
            (list_ready limit now s ++ rest)
            (keep_if (is_ready now) (values s.jobs))
          × All (λ a. All (λ b. is_urgent a b ≡ true) rest) (list_ready limit now s)
          × ((rest ≡ []) ⊎ (length (list_ready limit now s) ≡ limit)))
unfolding list_ready
list_ready_lem limit now s =
    let jobs = keep_if (is_ready now) (values s.jobs) in
    let all_ready =
      All-keep_if (λ job. is_ready now job ≡ true) (is_ready now) (values s.jobs) (λ j h. h) in
    let sorted : IsSorted is_urgent (sort_by before jobs) =
      sort_by-IsSorted_for before is_urgent before-is_urgent not_before-is_urgent is_urgent_trans
        jobs in
    let (rest, whole, ahead, full) = IsSorted-split is_urgent limit (sort_by before jobs) sorted in
    (
      length-take limit (sort_by before jobs),
      All-take (λ job. is_ready now job ≡ true) limit (sort_by before jobs)
          (All-sort_by before (λ job. is_ready now job ≡ true) jobs all_ready),
      IsSorted-take is_urgent limit (sort_by before jobs) sorted,
      (rest, subst (λ xs. Perm xs jobs) (sym whole) (sort_by-perm before jobs), ahead, full),
    )
