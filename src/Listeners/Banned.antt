-- ===== src/Listeners/Banned.antt =====
-- src/estateflow/services/listener_pool.py: an account that is banned.
use mathlib.Core.List.{Memᴰ}
use mathlib.Core.List.Memᴰ
use mathlib.Core.Path.{subst}
use estate_flow.Base.{
  ℕ, String, true, false, ◌≡◌, refl, sym, ap, ◌∙◌, ◌≢◌, inl, inr, List, [], ◌∷◌, ◌++◌, map, arith,
  some, ◌==◌, String_eq, str_eq_iff, any_of, Bool-cases, Option-cases, Result-cases, err,
  value_error, All,
}
use estate_flow.Base.Dict.{get, put, values, get-put}
use estate_flow.Base.Members.{
  IsDistinct, any_of-append, put-IsDistinct, get-member, get-index_by, indexed-member,
  member-sort_by, member-values, sort_by-IsDistinct, values-IsDistinct,
}
use estate_flow.Listeners.Health.{
  ListenerHealthStatus, ListenerHealthStatus_eq, online, reconnecting, flood_wait, banned,
  ListenerAccountMetadata, Accounts, new_account, list_accounts, save_account, status_text,
  same_status_iff, is_among, allowed_health_transitions,
}
use estate_flow.Listeners.Pool.{PoolState, by_account}
use estate_flow.Listeners.Monitor.{
  save, add_accounts, ensure_accounts, requested_keys, transition_health, record_successful_event,
  mark_long_silence, with_health, with_event, transition_text,
}
use estate_flow.Listeners.Frame.{reconcile-Preserves}
use estate_flow.Listeners.Runs.{Call, ensures, reconciles, transitions, records, marks, step, run}

-- Each account stands under its own key, and the keys differ.
pub record IsKeyed (accounts : Accounts) : Type 0 where
  pub own : All (λ e. e.0 ≡ e.1.account_key) accounts
  pub apart : IsDistinct (λ e. e.0) accounts

put-own :
    (account : ListenerAccountMetadata) (accounts : Accounts)
    → All (λ e. e.0 ≡ e.1.account_key) accounts
    → All (λ e. e.0 ≡ e.1.account_key) (save_account account accounts)
unfolding put
put-own account [] h = (refl, tt)
put-own account ((k, a) ∷ rest) h = elim (Bool-cases (k == account.account_key)) [
  | inl e ↦ rw e ((str_eq_iff k account.account_key).0 e, h.1)
  | inr e ↦ rw e (h.0, put-own account rest h.1)
]

save-IsKeyed :
    (account : ListenerAccountMetadata) (accounts : Accounts)
    → IsKeyed accounts
    → IsKeyed (save_account account accounts)
save-IsKeyed account accounts k = record {
  own = put-own account accounts k.own;
  apart = put-IsDistinct account.account_key account accounts k.apart;
}

-- what `list_accounts` gives and `account_by_key` finds
listed :
    (key : String) (a : ListenerAccountMetadata) (accounts : Accounts)
    → get key accounts ≡ some a
    → Memᴰ a (list_accounts accounts)
unfolding list_accounts
listed key a accounts h =
    member-sort_by _ a _ (member-values key a accounts (get-member key a accounts h))

own_key :
    (key : String) (a : ListenerAccountMetadata) (accounts : Accounts)
    → IsKeyed accounts
    → get key accounts ≡ some a
    → a.account_key ≡ key
unfolding get
own_key key a [] k h = cc
own_key key a ((j, b) ∷ rest) k h = elim (Bool-cases (j == key)) [
  | inl e ↦ ground (arith, e, h, k.own.0, str_eq_iff j key)
  | inr e ↦ own_key key a rest (record { own = k.own.1; apart = k.apart.1 }) (ground (arith, h, e))
]

found_stored :
    (key : String) (a : ListenerAccountMetadata) (accounts : Accounts)
    → IsKeyed accounts
    → get key accounts ≡ some a
    → get key (by_account (list_accounts accounts)) ≡ some a
unfolding list_accounts
found_stored key a accounts k h =
    subst (λ j. get j (by_account (list_accounts accounts)) ≡ some a) (own_key key a accounts k h)
      (get-index_by (λ b. b.account_key) a (list_accounts accounts) []
        (sort_by-IsDistinct (λ b. b.account_key) _ (values accounts)
          (values-IsDistinct (λ b. b.account_key) accounts k.own k.apart))
        (listed key a accounts h))

found_key :
    (key : String) (b : ListenerAccountMetadata) (accounts : List ListenerAccountMetadata)
    → get key (by_account accounts) ≡ some b
    → b.account_key ≡ key
found_key key b accounts h =
    sym (indexed-member (λ c. c.account_key) (key, b) accounts (get-member key b _ h)).1

listed_key :
    (key : String) (a : ListenerAccountMetadata) (accounts : List ListenerAccountMetadata)
    → a.account_key ≡ key
    → Memᴰ a accounts
    → any_of (λ k. k == key) (map (λ b. b.account_key) accounts) ≡ true
listed_key key a [] e m = absurd (Memᴰ.not-nil m)
listed_key key a (b ∷ rest) e (Memᴰ.head f) =
    ground (arith, e, ap (λ c. c.account_key) f, str_eq_iff b.account_key key)
listed_key key a (b ∷ rest) e (Memᴰ.tail m) = ground (arith, listed_key key a rest e m)

-- The account of that key is stored and banned.
pub record IsBanned (key : String) (s : PoolState) : Type 0 where
  pub keyed : IsKeyed s.accounts
  pub account : ListenerAccountMetadata
  pub stored : get key s.accounts ≡ some account
  pub status : account.health_status ≡ banned

module _ (key : String) where
  -- A save of another account, or of this one while it stays banned.
  save-IsBanned :
      (b : ListenerAccountMetadata) (s : PoolState)
      → (b.account_key ≡ key → b.health_status ≡ banned)
      → IsBanned key s
      → IsBanned key (save b s).1
  save-IsBanned b s h r = elim (Bool-cases (b.account_key == key)) [
    | inl e ↦ record {
      keyed = save-IsKeyed b s.accounts r.keyed;
      account = b;
      stored = get-put b.account_key key b s.accounts ∙ (rw e refl);
      status = h ((str_eq_iff b.account_key key).0 e);
    }
    | inr e ↦ record {
      keyed = save-IsKeyed b s.accounts r.keyed;
      account = r.account;
      stored = get-put b.account_key key b s.accounts ∙ (rw e r.stored);
      status = r.status;
    }
  ]

  same_accounts : (s t : PoolState) → t.accounts ≡ s.accounts → IsBanned key s → IsBanned key t
  same_accounts s t e r = record {
    keyed = rw e r.keyed;
    account = r.account;
    stored = rw e r.stored;
    status = r.status;
  }

  -- the account that a method on `name` works on
  worked_on :
      (name : String) (s : PoolState) (b : ListenerAccountMetadata)
      → IsBanned key s
      → get name (by_account (list_accounts s.accounts)) ≡ some b
      → b.account_key ≡ key
      → b.health_status ≡ banned
  worked_on name s b r h e =
      let same : name ≡ key = sym (found_key name b (list_accounts s.accounts) h) ∙ e in
      let a_is_b : some r.account ≡ some b =
        sym (found_stored key r.account s.accounts r.keyed r.stored) ∙ (rw (← same) h) in
      ground (arith, a_is_b, r.status)

  still_banned :
      (status : ListenerHealthStatus)
      → is_among status (allowed_health_transitions banned) ≡ true
      → status ≡ banned
  still_banned status h = ground (arith, h, same_status_iff banned status)

  transition_health-IsBanned :
      (name : String) (status : ListenerHealthStatus) (increment now : ℕ) (s : PoolState)
      → IsBanned key s
      → IsBanned key (transition_health name status increment now s).1
  unfolding transition_health
  transition_health-IsBanned name status increment now s r =
      elim (Option-cases (get name (by_account (list_accounts s.accounts)))) [
        | inl e ↦ rw e r
        | inr (b, e) ↦
            elim (Bool-cases (is_among status (allowed_health_transitions b.health_status))) [
              | inr f ↦ rw (e, f) r
              | inl f ↦
                  let saved =
                    save-IsBanned (with_health status increment b) s
                      (λ q. still_banned status (
                        subst (λ h. is_among status (allowed_health_transitions h) ≡ true)
                          (worked_on name s b r e q) f))
                      r in
                  elim (Bool-cases (is_among status (flood_wait ∷ banned ∷ []))) [
                    | inl g ↦ rw (e, f, g) (same_accounts _ _ refl saved)
                    | inr g ↦ rw (e, f, g) (same_accounts _ _ refl saved)
                  ]
            ]
      ]

  record_successful_event-IsBanned :
      (name : String) (now : ℕ) (s : PoolState)
      → IsBanned key s
      → IsBanned key (record_successful_event name now s).1
  unfolding record_successful_event
  record_successful_event-IsBanned name now s r =
      elim (Option-cases (get name (by_account (list_accounts s.accounts)))) [
        | inl e ↦ rw e r
        | inr (b, e) ↦
            elim (Bool-cases (is_among online (allowed_health_transitions b.health_status))) [
              | inr f ↦ rw (e, f) r
              | inl f ↦
                  rw (e, f)
                    (same_accounts _ _ refl (
                      save-IsBanned (with_event now b) s
                        (λ q. still_banned online (
                          subst (λ h. is_among online (allowed_health_transitions h) ≡ true)
                            (worked_on name s b r e q) f))
                        r))
            ]
      ]

  mark_long_silence-IsBanned :
      (name : String) (now : ℕ) (s : PoolState)
      → IsBanned key s
      → IsBanned key (mark_long_silence name now s).1
  unfolding mark_long_silence
  mark_long_silence-IsBanned name now s r =
      let moved = transition_health-IsBanned name reconnecting 0 now s r in
      elim (Result-cases (transition_health name reconnecting 0 now s).0) [
        | inl (a, e) ↦ rw e (same_accounts _ _ refl moved)
        | inr (e, f) ↦ rw f moved
      ]

  -- `ensure_accounts` adds only keys that it has not listed.
  add_accounts-IsBanned :
      (existing keys : List String) (s : PoolState)
      → any_of (λ k. k == key) existing ≡ true
      → IsBanned key s
      → IsBanned key (add_accounts existing keys s).1
  unfolding add_accounts
  add_accounts-IsBanned existing [] s h r = r
  add_accounts-IsBanned existing (k ∷ keys) s h r =
      elim (Bool-cases (any_of (λ other. other == k) existing)) [
        | inl e ↦ rw e (add_accounts-IsBanned existing keys s h r)
        | inr e ↦
            let fresh : k ≢ key = λ same.
              absurd
                (ground (arith, h, subst (λ j. any_of (λ o. o == j) existing ≡ false) same e)) in
            rw e (
              add_accounts-IsBanned (existing ++ k ∷ []) keys _
                (any_of-append (λ o. o == key) existing (k ∷ []) ∙ ground (arith, h))
                (save-IsBanned (new_account k) s (λ q. absurd (fresh q)) r))
      ]

  ensure_accounts-IsBanned :
      (keys : List String) (s : PoolState)
      → IsBanned key s
      → IsBanned key (ensure_accounts keys s).1
  unfolding ensure_accounts
  ensure_accounts-IsBanned keys s r =
      let known =
        listed_key key r.account (list_accounts s.accounts)
          (own_key key r.account s.accounts r.keyed r.stored)
          (listed key r.account s.accounts r.stored) in
      let kept = add_accounts-IsBanned _ (requested_keys keys) s known r in
      elim (Result-cases
        (add_accounts (map (λ a. a.account_key) (list_accounts s.accounts)) (requested_keys keys)
          s).0) [ inl (a, e) ↦ rw e kept | inr (e, f) ↦ rw f kept ]

  step-IsBanned : (s : PoolState) (c : Call) → IsBanned key s → IsBanned key (step s c)
  unfolding step
  step-IsBanned s (ensures keys) r = ensure_accounts-IsBanned keys s r
  step-IsBanned s (reconciles sources now) r =
      (reconcile-Preserves (IsBanned key) same_accounts sources now).holds s r
  step-IsBanned s (transitions name status increment now) r =
      transition_health-IsBanned name status increment now s r
  step-IsBanned s (records name now) r = record_successful_event-IsBanned name now s r
  step-IsBanned s (marks name now) r = mark_long_silence-IsBanned name now s r

-- Once the account of a key is banned, in a repository that keeps each account under its own key,
-- it is banned after any history of calls: none adds it again, and none changes its health.
pub run-IsBanned :
    (key : String) (s : PoolState) (cs : List Call) → IsBanned key s → IsBanned key (run s cs)
unfolding run
run-IsBanned key s [] r = r
run-IsBanned key s (c ∷ cs) r = run-IsBanned key (step s c) cs (step-IsBanned key s c r)

banned-refuses :
    (key : String) (s : PoolState) (status : ListenerHealthStatus) (increment now : ℕ)
    → IsBanned key s
    → status ≢ banned
    → (record_successful_event key now s
        ≡ (err (value_error "Cannot transition listener account from banned to online."), s))
      × (transition_health key status increment now s
          ≡ (err (value_error (transition_text banned status)), s))
unfolding record_successful_event transition_health status_text
banned-refuses key s status increment now r ne =
    let found = found_stored key r.account s.accounts r.keyed r.stored in
    let refused : is_among status (allowed_health_transitions banned) ≡ false =
      ground (arith, ne, same_status_iff banned status) in
    (rw (found, r.status) refl, rw (found, r.status, refused) refl)

-- Once the account of a key is banned, in a repository that keeps each account under its own key,
-- after any history of calls an event of it raises, and so does every change to another health, and
-- neither changes anything.
pub run-refuses :
    (key : String) (s : PoolState) (cs : List Call) (status : ListenerHealthStatus)
    (increment now : ℕ)
    → IsBanned key s
    → status ≢ banned
    → let t = run s cs in
      (record_successful_event key now t
        ≡ (err (value_error "Cannot transition listener account from banned to online."), t))
      × (transition_health key status increment now t
          ≡ (err (value_error (transition_text banned status)), t))
run-refuses key s cs status increment now r ne =
    banned-refuses key (run s cs) status increment now (run-IsBanned key s cs r) ne
