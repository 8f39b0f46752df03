-- ===== src/Dedup/Links.antt =====
-- src/estateflow/services/post_ai_dedup.py: the links from children to parents over a history of
-- `PostAiDedupProcessor.process`.
use estate_flow.Base.{
  ℕ, ◌+◌, String, ◌≡◌, refl, sym, ap, ◌∙◌, inl, inr, Bool, true, false, not, ◌&&◌, ◌||◌, Option,
  none, some, List, [], ◌∷◌, arith, ◌==◌, String_eq, str_eq_iff, beq_refl, if◌then◌else◌, is_some,
  on_option, Bool-cases, Option-cases, Result, ok, err, Exec, modify,
}
use mathlib.Core.Path.{subst}
use estate_flow.Base as B
use estate_flow.Base.Dict.{Dict, get, put, get-put}
use estate_flow.Base.Invariants.{Preserves, preserves_rules}
use estate_flow.Announcements.{StructuredAnnouncement, ReviewReason}
use estate_flow.Dedup.{
  AnnouncementRepository, DedupDecision, DedupScoringConfig, ScoreSignal, ManualReviewQueueService,
  PostAiDedupProcessor, save_parent, link_child, record_decision, linked_to, merged_parent,
  linked_child, enqueue, process, act_on, DedupDecisionType, exact_duplicate,
  high_confidence_duplicate, new, merge_duplicate, save_new, publish_persisted, in_queue, stored,
}

abbrev known : Option String → Dict String StructuredAnnouncement → Bool
known none d = true
known (some id) d = is_some (get id d)

-- Each announcement stands under its id, and its parent, if it has one, is stored.
pub record IsLinked (d : Dict String StructuredAnnouncement) : Type 0 where
  pub keyed :
      (id : String) (a : StructuredAnnouncement) → get id d ≡ some a → a.announcement_id ≡ id
  pub parents :
      (id : String) (a : StructuredAnnouncement) → get id d ≡ some a → known a.parent_id d ≡ true

known-put :
    (p : Option String) (id : String) (a : StructuredAnnouncement)
    (d : Dict String StructuredAnnouncement)
    → known p d ≡ true
    → known p (put id a d) ≡ true
known-put none id a d h = refl
known-put (some j) id a d h = rw (get-put id j a d) (pick (id == j))
  where
    pick : (b : Bool) → is_some (if b then some a else get j d) ≡ true
    pick true = refl
    pick false = h

known-new :
    (id : String) (a : StructuredAnnouncement) (d : Dict String StructuredAnnouncement)
    → known (some id) (put id a d) ≡ true
known-new id a d = rw (get-put id id a d, beq_refl id) refl

put-IsLinked :
    (a : StructuredAnnouncement) (d : Dict String StructuredAnnouncement)
    → known a.parent_id d ≡ true
    → IsLinked d
    → IsLinked (put a.announcement_id a d)
put-IsLinked a d p h = record {
  keyed = λ id b e. elim (Bool-cases (a.announcement_id == id)) [
    | inl same ↦
        let is_a : some a ≡ some b = rw (get-put a.announcement_id id a d, same) at e in
        subst (λ o. id_of o id ≡ id) is_a ((str_eq_iff a.announcement_id id).0 same)
    | inr other ↦ h.keyed id b (rw (get-put a.announcement_id id a d, other) at e)
  ];
  parents = λ id b e. elim (Bool-cases (a.announcement_id == id)) [
    | inl same ↦
        let is_a : some a ≡ some b = rw (get-put a.announcement_id id a d, same) at e in
        subst (λ o. known (parent_of o) (put a.announcement_id a d) ≡ true) is_a
          (known-put a.parent_id a.announcement_id a d p)
    | inr other ↦
        known-put b.parent_id a.announcement_id a d
          (h.parents id b (rw (get-put a.announcement_id id a d, other) at e))
  ];
}
  where
    id_of : Option StructuredAnnouncement → String → String
    id_of none id = id
    id_of (some x) id = x.announcement_id

    parent_of : Option StructuredAnnouncement → Option String
    parent_of none = none
    parent_of (some x) = x.parent_id

abbrev Stored : AnnouncementRepository → Type 0
Stored s = IsLinked s.announcements

save_parent-Stored : (a : StructuredAnnouncement) → Preserves Stored (save_parent a)
unfolding save_parent
save_parent-Stored a = record {
  holds = λ s h. elim (Option-cases (get a.announcement_id s.announcements)) [
    | inl free ↦ rw free (put-IsLinked _ s.announcements refl h)
    | inr (old, e) ↦ rw e h
  ];
}

pub link_child-Stored :
    (child : StructuredAnnouncement) (parent_id : String) (decision : DedupDecision)
    (policy : String) (now : ℕ)
    → Preserves Stored (link_child child parent_id decision policy now)
unfolding link_child
link_child-Stored child parent_id decision policy now = record {
  holds = λ s h. elim (Option-cases (get parent_id s.announcements)) [
    | inl missing ↦ rw missing h
    | inr (parent, e) ↦ elim (Option-cases (get child.announcement_id s.announcements)) [
      | inl free ↦ rw (e, free) (both s parent e h)
      | inr (old, k) ↦ elim (Bool-cases (linked_to parent_id (some old))) [
        | inl linked ↦ rw (e, k, linked) h
        | inr other ↦ rw (e, k, other) (both s parent e h)
      ]
    ]
  ];
}
  where
    both :
        (s : AnnouncementRepository) (parent : StructuredAnnouncement)
        → get parent_id s.announcements ≡ some parent
        → IsLinked s.announcements
        → IsLinked (
            put child.announcement_id
              (linked_child (merged_parent parent child now) child now)
              (put parent.announcement_id (merged_parent parent child now) s.announcements))
    both s parent e h =
        put-IsLinked (linked_child (merged_parent parent child now) child now) _
          (known-new parent.announcement_id (merged_parent parent child now) s.announcements)
          (put-IsLinked (merged_parent parent child now) s.announcements
            (h.parents parent_id parent e) h)

abbrev Sound : PostAiDedupProcessor → Type 0
Sound s = IsLinked s.queue.repository.announcements

stored-Sound :
    {A : Type 0} (m : Exec AnnouncementRepository A)
    → Preserves Stored m
    → Preserves Sound (stored m)
stored-Sound m k = record { holds = λ s h. k.holds s.queue.repository h }

enqueue-same :
    (a : StructuredAnnouncement) (reason : ReviewReason) (decision : DedupDecision) (now : ℕ)
    (s : ManualReviewQueueService)
    → (enqueue a reason decision now s).1.repository ≡ s.repository
unfolding enqueue
enqueue-same a reason decision now s = ground arith

enqueue-Sound :
    (a : StructuredAnnouncement) (reason : ReviewReason) (decision : DedupDecision) (now : ℕ)
    → Preserves Sound (in_queue (enqueue a reason decision now))
enqueue-Sound a reason decision now = record {
  holds = λ s h. rw (enqueue-same a reason decision now s.queue) h;
}

record_decision-Stored : (decision : DedupDecision) → Preserves Stored (record_decision decision)
unfolding record_decision
record_decision-Stored decision = record { holds = λ s h. h }

publish-same :
    (a : StructuredAnnouncement) (s : PostAiDedupProcessor)
    → (publish_persisted a s).1.queue ≡ s.queue
unfolding publish_persisted
publish-same a s = ground arith

publish-Sound : (a : StructuredAnnouncement) → Preserves Sound (publish_persisted a)
publish-Sound a = record { holds = λ s h. rw (publish-same a s) h }

save_new-Sound :
    (a : StructuredAnnouncement) (decision : DedupDecision) → Preserves Sound (save_new a decision)
unfolding save_new
save_new-Sound a decision =
    search
      (preserves_rules, stored-Sound, save_parent-Stored, record_decision-Stored, publish-Sound)
      depth 12

merge_duplicate-Sound :
    (a c : StructuredAnnouncement) (decision : DedupDecision) (now : ℕ)
    → Preserves Sound (merge_duplicate a c decision now)
unfolding merge_duplicate
merge_duplicate-Sound a c decision now =
    search
      (
        preserves_rules, stored-Sound, save_parent-Stored, record_decision-Stored, publish-Sound,
        link_child-Stored,
      )
      depth 14

act_on-Sound :
    (d : DedupDecisionType) (a : StructuredAnnouncement) (decision : DedupDecision)
    (c : Option StructuredAnnouncement) (now : ℕ)
    → Preserves Sound (act_on d a decision c now)
unfolding act_on
act_on-Sound exact_duplicate a decision c now =
    search (preserves_rules, save_new-Sound, merge_duplicate-Sound)
act_on-Sound high_confidence_duplicate a decision c now =
    search (preserves_rules, save_new-Sound, merge_duplicate-Sound)
act_on-Sound DedupDecisionType.possible_duplicate a decision c now =
    search
      (preserves_rules, stored-Sound, save_parent-Stored, record_decision-Stored, enqueue-Sound)
      depth 12
act_on-Sound new a decision c now = save_new-Sound a decision

module _ (cheap_match : StructuredAnnouncement → StructuredAnnouncement → Bool)
    (config : DedupScoringConfig)
    (matchers : List
      (StructuredAnnouncement → StructuredAnnouncement → DedupScoringConfig → ScoreSignal)) where
  process-Sound :
      (a : StructuredAnnouncement) (now : ℕ)
      → Preserves Sound (process cheap_match config matchers a now)
  unfolding process
  process-Sound a now =
      search
        (
          preserves_rules, technical-Sound, stored-Sound, save_parent-Stored, enqueue-Sound,
          act_on-Sound,
        )
        depth 14
    where
      technical-Sound :
          (key : String)
          → Preserves Sound (modify (λ s. record s { technical = B.◌++◌ s.technical (key ∷ []) }))
      technical-Sound key = record { holds = λ s h. h }

  -- The processor's state after it was given these announcements one after the other.
  unfoldable pub process_all :
      PostAiDedupProcessor → List (StructuredAnnouncement × ℕ) → PostAiDedupProcessor
  process_all s [] = s
  process_all s ((a, now) ∷ rest) = process_all (process cheap_match config matchers a now s).1 rest

  -- If each stored announcement stands under its id and has its parent stored, this is so after any
  -- announcements were processed, whatever the engine decided about them and whether a call raised.
  pub process_all-IsLinked :
      (s : PostAiDedupProcessor) (announcements : List (StructuredAnnouncement × ℕ))
      → IsLinked s.queue.repository.announcements
      → IsLinked (process_all s announcements).queue.repository.announcements
  unfolding process_all
  process_all-IsLinked s [] h = h
  process_all-IsLinked s ((a, now) ∷ rest) h =
      process_all-IsLinked (process cheap_match config matchers a now s).1 rest
        ((process-Sound a now).holds s h)
