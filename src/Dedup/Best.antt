-- ===== src/Dedup/Best.antt =====
-- src/estateflow/services/post_ai_dedup.py: the loop of `evaluate` over the candidates.
use estate_flow.Base.{
  ℕ, ◌≤◌, ◌<◌, ◌≡◌, refl, ap, ◌⊎◌, inl, inr, false, some, List, [], ◌∷◌, ◌++◌, arith, ltb, ltb→lt,
  Bool-cases, All,
}
use estate_flow.Announcements.{StructuredAnnouncement}
use estate_flow.Dedup.{
  DedupScoringConfig, ScoreSignal, CandidateScore, score_candidate, best_of, evaluate,
  decision_from_score,
}

not_lt : (a b : ℕ) → ltb a b ≡ false → b ≤ a
not_lt a b h = ground arith

module _ (config : DedupScoringConfig)
    (matchers : List
      (StructuredAnnouncement → StructuredAnnouncement → DedupScoringConfig → ScoreSignal))
    (incoming : StructuredAnnouncement) where
  abbrev score_of : StructuredAnnouncement → ℕ
  score_of c = (score_candidate config matchers incoming c).score

  -- The first candidate with the highest score, at its place in the list.
  pub record IsFirstBest (cs : List StructuredAnnouncement) (b : StructuredAnnouncement)
      : Type 0 where
    pub earlier : List StructuredAnnouncement
    pub later : List StructuredAnnouncement
    pub place : cs ≡ earlier ++ b ∷ later
    pub lower : All (λ c. score_of c < score_of b) earlier
    pub not_higher : All (λ c. score_of c ≤ score_of b) later

  abbrev Outcome : CandidateScore → List StructuredAnnouncement → Type 0
  Outcome best cs =
      (All (λ c. score_of c ≤ best.score) cs
        × (best_of config matchers incoming (some best) cs ≡ some best))
      ⊎ ((b : StructuredAnnouncement) × (best.score < score_of b)
          × (best_of config matchers incoming (some best) cs
              ≡ some (score_candidate config matchers incoming b))
          × IsFirstBest cs b)

  best_of-some : (best : CandidateScore) (cs : List StructuredAnnouncement) → Outcome best cs
  unfolding best_of
  best_of-some best [] = inl (tt, refl)
  best_of-some best (c ∷ cs) = elim (Bool-cases (ltb best.score (score_of c))) [
    | inl higher ↦ rw higher (elim (best_of-some (score_candidate config matchers incoming c) cs) [
      | inl (all, same) ↦ inr (
        c,
        omega (arith, ltb→lt best.score (score_of c) higher),
        same,
        record { earlier = []; later = cs; place = refl; lower = tt; not_higher = all },
      )
      | inr (b, above, found, f) ↦ inr (
        b,
        omega (arith, above, ltb→lt best.score (score_of c) higher),
        found,
        record {
          earlier = c ∷ f.earlier;
          later = f.later;
          place = ap (λ xs. c ∷ xs) f.place;
          lower = (above, f.lower);
          not_higher = f.not_higher;
        },
      )
    ])
    | inr low ↦ rw low (elim (best_of-some best cs) [
      | inl (all, same) ↦ inl ((not_lt best.score (score_of c) low, all), same)
      | inr (b, above, found, f) ↦ inr (
        b,
        above,
        found,
        record {
          earlier = c ∷ f.earlier;
          later = f.later;
          place = ap (λ xs. c ∷ xs) f.place;
          lower = (omega (arith, above, not_lt best.score (score_of c) low), f.lower);
          not_higher = f.not_higher;
        },
      )
    ])
  ]

  -- With at least one candidate, the engine decides about the first of those with the highest
  -- score: all before it score less, and none after it scores more.
  pub evaluate-IsFirstBest :
      (c : StructuredAnnouncement) (cs : List StructuredAnnouncement)
      → (b : StructuredAnnouncement) × IsFirstBest (c ∷ cs) b
        × (evaluate config matchers incoming (c ∷ cs)
            ≡ decision_from_score config (score_candidate config matchers incoming b))
  unfolding evaluate best_of
  evaluate-IsFirstBest c cs = elim (best_of-some (score_candidate config matchers incoming c) cs) [
    | inl (all, same) ↦ (
      c,
      record { earlier = []; later = cs; place = refl; lower = tt; not_higher = all },
      rw (same, evaluate) refl,
    )
    | inr (b, above, found, f) ↦ (
      b,
      record {
        earlier = c ∷ f.earlier;
        later = f.later;
        place = ap (λ xs. c ∷ xs) f.place;
        lower = (above, f.lower);
        not_higher = f.not_higher;
      },
      rw (found, evaluate) refl,
    )
  ]
