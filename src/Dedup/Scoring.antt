-- ===== src/Dedup/Scoring.antt =====
-- src/estateflow/services/post_ai_dedup.py: `WeightedDeduplicationEngine` and its anchors. The
-- matchers are given to the engine, and are a parameter.
use estate_flow.Base.{
  ℕ, ◌+◌, String, Bool, true, false, ◌&&◌, ◌||◌, Option, none, some, List, [], ◌∷◌, map, ltb, leb,
  ◌==◌, String_eq, if◌then◌else◌, any_of, count_if,
}
use estate_flow.Announcements.{StructuredAnnouncement, contains}

-- The version and the thresholds. The weights and the tolerances are read by the matchers alone, which
-- are parameters.
pub record DedupScoringConfig : Type 0 where
  pub version : String
  pub exact_threshold : ℕ
  pub high_confidence_threshold : ℕ
  pub possible_threshold : ℕ
  pub candidate_limit : ℕ

-- `details` are left out.
pub record ScoreSignal : Type 0 where
  pub name : String
  pub weight : ℕ
  pub matched : Bool
  pub reason : String
  pub independent : Bool
  pub exact : Bool

pub record CandidateScore : Type 0 where
  pub candidate_id : String
  pub score : ℕ
  pub signals : List ScoreSignal

pub data DedupDecisionType : Type 0 where
  exact_duplicate high_confidence_duplicate possible_duplicate new : DedupDecisionType

pub record DedupDecision : Type 0 where
  pub decision : DedupDecisionType
  pub score : ℕ
  pub threshold : ℕ
  pub candidate_id : Option String
  pub config_version : String
  pub breakdown : List ScoreSignal

-- `{signal.name for signal in signals if signal.matched}`, as its test for a name
abbrev pub has_match : String → List ScoreSignal → Bool
has_match name signals = any_of (λ s. s.matched && s.name == name) signals

-- `_has_structured_identity`
unfoldable pub has_structured_identity : List ScoreSignal → Bool
has_structured_identity signals =
    has_match "phone" signals
    && (has_match "district" signals
        && (has_match "rooms" signals
            && (has_match "area" signals
                && (has_match "price" signals && has_match "floor" signals))))

abbrev has_provenance : List ScoreSignal → Bool
has_provenance signals =
    has_match "source_url" signals
    || (has_match "forward_origin" signals || has_match "same_image_phash" signals)

-- `_has_strong_anchor`
unfoldable pub has_strong_anchor : List ScoreSignal → Bool
has_strong_anchor signals =
    if has_provenance signals
    then true
    else if has_structured_identity signals
    then true
    else has_match "phone" signals
      && (has_match "similar_address" signals && has_match "similar_description" signals)

-- `len(matched & _STRUCTURED_IDENTITY_SIGNALS)`
abbrev structured_matches : List ScoreSignal → ℕ
structured_matches signals =
    count_if (λ name. has_match name signals)
      ("district" ∷ "rooms" ∷ "area" ∷ "price" ∷ "floor" ∷ [])

-- `_has_manual_review_anchor`
unfoldable pub has_manual_review_anchor : List ScoreSignal → Bool
has_manual_review_anchor signals =
    if has_provenance signals
    then true
    else if has_structured_identity signals
    then false
    else if has_match "similar_address" signals && has_match "similar_description" signals
    then true
    else (has_match "phone" signals && has_match "similar_description" signals)
      && leb 2 (structured_matches signals)

-- `signal.matched and signal.exact and signal.name in {"source_url", "forward_origin"}`
abbrev pub is_exact_identity : ScoreSignal → Bool
is_exact_identity s =
    s.matched && (s.exact && contains s.name ("source_url" ∷ "forward_origin" ∷ []))

module _ (config : DedupScoringConfig) where
  -- The chain of tests of `_decision_from_score`, with the threshold of each answer.
  unfoldable pub decide : ℕ → List ScoreSignal → DedupDecisionType × ℕ
  decide score signals =
      if any_of is_exact_identity signals
      then (exact_duplicate, config.exact_threshold)
      else if has_structured_identity signals
      then (high_confidence_duplicate, config.high_confidence_threshold)
      else if leb config.exact_threshold score && has_strong_anchor signals
      then (exact_duplicate, config.exact_threshold)
      else if leb config.high_confidence_threshold score && has_strong_anchor signals
      then (high_confidence_duplicate, config.high_confidence_threshold)
      else if leb config.possible_threshold score && has_manual_review_anchor signals
      then (possible_duplicate, config.possible_threshold)
      else (new, config.possible_threshold)

  unfoldable pub decision_from_score : CandidateScore → DedupDecision
  decision_from_score best =
      let (decision, threshold) = decide best.score best.signals in
      record {
        decision = decision;
        score = best.score;
        threshold = threshold;
        candidate_id = some best.candidate_id;
        config_version = config.version;
        breakdown = best.signals;
      }

-- `sum(signal.weight for signal in signals if signal.matched)`
abbrev pub total_weight : List ScoreSignal → ℕ
total_weight [] = 0
total_weight (s ∷ signals) = (if s.matched then s.weight else 0) + total_weight signals

module _ (config : DedupScoringConfig)
    (matchers : List
      (StructuredAnnouncement → StructuredAnnouncement → DedupScoringConfig → ScoreSignal))
    (incoming : StructuredAnnouncement) where
  unfoldable pub score_candidate : StructuredAnnouncement → CandidateScore
  score_candidate candidate =
      let signals = map (λ match. match incoming candidate config) matchers in
      record {
        candidate_id = candidate.announcement_id;
        score = total_weight signals;
        signals = signals;
      }

  abbrev better : CandidateScore → Option CandidateScore → Bool
  better score none = true
  better score (some best) = ltb best.score score.score

  -- The loop of `evaluate`, from the best score so far.
  unfoldable pub best_of :
      Option CandidateScore → List StructuredAnnouncement → Option CandidateScore
  best_of best [] = best
  best_of best (candidate ∷ candidates) =
      let score = score_candidate candidate in
      best_of (if better score best then some score else best) candidates

  -- `evaluate`, with the candidates that the repository lists.
  unfoldable pub evaluate : List StructuredAnnouncement → DedupDecision
  evaluate candidates = elim (best_of none candidates) [
    | none ↦ record {
      decision = new;
      score = 0;
      threshold = config.possible_threshold;
      candidate_id = none;
      config_version = config.version;
      breakdown = [];
    }
    | some best ↦ decision_from_score config best
  ]
