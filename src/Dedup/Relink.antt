-- ===== src/Dedup/Relink.antt =====
-- src/estateflow/services/post_ai_dedup.py: `link_child` on a child that is not linked yet, and on one
-- that is.
use estate_flow.Base.{
  ℕ, ◌+◌, String, ◌≡◌, refl, sym, ap, ◌∙◌, inl, inr, Bool, true, false, Option, none, some, List,
  [], ◌∷◌, arith, ◌==◌, String_eq, str_eq_iff, beq_refl, if◌then◌else◌, Bool-cases, Option-cases,
  Result, ok,
}
use mathlib.Core.Path.{subst}
use estate_flow.Base as B
use estate_flow.Base.Dict.{get, put, get-put}
use estate_flow.Announcements.{StructuredAnnouncement}
use estate_flow.Dedup.{
  DedupDecision, decision_text, AnnouncementRepository, MergeEntry, link_child, linked_to,
  merged_parent, linked_child,
}

module _ (child parent : StructuredAnnouncement) (decision : DedupDecision) (policy : String) where
  abbrev entry : MergeEntry
  entry = record {
    parent_id = parent.announcement_id;
    child_id = some child.announcement_id;
    decision = decision_text decision.decision;
    score = decision.score;
    config_version = decision.config_version;
    merge_policy = policy;
  }

  abbrev after_link : ℕ → AnnouncementRepository → AnnouncementRepository
  after_link now s = record s {
    announcements =
        put child.announcement_id (linked_child (merged_parent parent child now) child now)
          (put parent.announcement_id (merged_parent parent child now) s.announcements);
    merge_audit = B.◌++◌ s.merge_audit (entry ∷ []);
  }

  link_child-links :
      (now : ℕ) (s : AnnouncementRepository)
      → get parent.announcement_id s.announcements ≡ some parent
      → linked_to parent.announcement_id (get child.announcement_id s.announcements) ≡ false
      → link_child child parent.announcement_id decision policy now s
        ≡ (ok (linked_child parent child now), after_link now s)
  unfolding link_child
  link_child-links now s e unlinked = rw (e, unlinked) refl

  link_child-again :
      (linked : StructuredAnnouncement) (now : ℕ) (s : AnnouncementRepository)
      (p : StructuredAnnouncement)
      → get parent.announcement_id s.announcements ≡ some p
      → get child.announcement_id s.announcements ≡ some linked
      → linked_to parent.announcement_id (some linked) ≡ true
      → link_child child parent.announcement_id decision policy now s ≡ (ok linked, s)
  unfolding link_child
  link_child-again linked now s p e k is_linked = rw (e, k, is_linked) refl

-- A link is made once: linking the child again to the same parent returns the stored child and
-- changes nothing, and the first link raises the parent's source count by one.
pub link_child-once :
    (child parent : StructuredAnnouncement) (decision : DedupDecision) (policy : String)
    (now now' : ℕ) (s : AnnouncementRepository)
    → get parent.announcement_id s.announcements ≡ some parent
    → linked_to parent.announcement_id (get child.announcement_id s.announcements) ≡ false
    → (parent.announcement_id == child.announcement_id) ≡ false
    → let first = link_child child parent.announcement_id decision policy now s in
      (get parent.announcement_id first.1.announcements ≡ some (merged_parent parent child now))
      × (get child.announcement_id first.1.announcements ≡ some (linked_child parent child now))
      × (link_child child parent.announcement_id decision policy now' first.1 ≡ first)
link_child-once child parent decision policy now now' s e unlinked ne =
    let merged = merged_parent parent child now in
    let linked = linked_child parent child now in
    let below = put parent.announcement_id merged s.announcements in
    let ne' : (child.announcement_id == parent.announcement_id) ≡ false = ground (
      arith,
      ne,
      str_eq_iff child.announcement_id parent.announcement_id,
      str_eq_iff parent.announcement_id child.announcement_id,
    ) in
    let at_parent : get parent.announcement_id (put child.announcement_id linked below)
        ≡ some merged =
      get-put child.announcement_id parent.announcement_id linked below
      ∙ rw
          (
            ne',
            get-put parent.announcement_id parent.announcement_id merged s.announcements,
            beq_refl parent.announcement_id,
          )
          refl in
    let at_child : get child.announcement_id (put child.announcement_id linked below)
        ≡ some linked =
      get-put child.announcement_id child.announcement_id linked below
      ∙ rw (beq_refl child.announcement_id) refl in
    subst
      (λ first.
        (get parent.announcement_id first.1.announcements ≡ some merged)
        × (get child.announcement_id first.1.announcements ≡ some linked)
        × (link_child child parent.announcement_id decision policy now' first.1 ≡ first))
      (sym (link_child-links child parent decision policy now s e unlinked))
      (
        at_parent,
        at_child,
        link_child-again child parent decision policy linked now'
            (after_link child parent decision policy now s) merged at_parent at_child
            (beq_refl parent.announcement_id),
      )
