-- ===== src/Dedup/Anchors.antt =====
-- src/estateflow/services/post_ai_dedup.py: the decisions of `_decision_from_score` and the anchors.
use estate_flow.Base.{
  ℕ, ◌≡◌, Bool, true, false, ◌||◌, List, [], ◌∷◌, arith, leb, String_eq, str_eq_iff, any_of,
}
use estate_flow.Dedup.{
  DedupScoringConfig, ScoreSignal, DedupDecisionType, exact_duplicate, high_confidence_duplicate,
  has_match, has_strong_anchor, has_structured_identity, is_exact_identity, decide,
}

-- `decision.decision in {"exact_duplicate", "high_confidence_duplicate"}`
abbrev pub is_merge : DedupDecisionType → Bool
is_merge exact_duplicate = true
is_merge high_confidence_duplicate = true
is_merge _ = false

exact_identity-match :
    (signals : List ScoreSignal)
    → any_of is_exact_identity signals ≡ true
    → (has_match "source_url" signals || has_match "forward_origin" signals) ≡ true
exact_identity-match [] h = cc
exact_identity-match (s ∷ signals) h = ground (
  arith,
  h,
  exact_identity-match signals,
  str_eq_iff s.name "source_url",
  str_eq_iff "source_url" s.name,
  str_eq_iff s.name "forward_origin",
  str_eq_iff "forward_origin" s.name,
)

-- A decision to merge rests on a strong anchor: provenance, an image, the full structured identity
-- with the phone, or phone, address and description together. And its score reaches a merge
-- threshold, or the identity is exact or structured.
pub decide-anchored :
    (config : DedupScoringConfig) (score : ℕ) (signals : List ScoreSignal)
    → is_merge (decide config score signals).0 ≡ true
    → (has_strong_anchor signals ≡ true)
      × ((any_of is_exact_identity signals
            || has_structured_identity signals
            || leb config.exact_threshold score
            || leb config.high_confidence_threshold score)
          ≡ true)
unfolding decide has_strong_anchor
decide-anchored config score signals h = ground (arith, h, exact_identity-match signals)
