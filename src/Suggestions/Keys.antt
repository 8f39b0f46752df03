-- ===== src/Suggestions/Keys.antt =====
-- src/estateflow/services/source_suggestions.py: histories of calls, and the keys of reviews.
use estate_flow.Base.{
  ℕ, String, Bool, true, false, ◌≡◌, Option, some, List, [], ◌∷◌, nat_eq, ok, is_some, String_eq,
}
use estate_flow.Base.Dict.{get}
use estate_flow.Sources.{SourceType}
use estate_flow.Suggestions.Stored.{
  SourceSuggestion, SuggestionState, approve, reject, approved, rejected,
}
use estate_flow.Suggestions.Service.{
  SourceRegistry, Review, decision, grant, refuse, submit_suggestion, approve_suggestion,
  reject_suggestion,
}
use estate_flow.Suggestions.Outcomes.{review-used}
use estate_flow.Suggestions.Frame.{
  HasKey, submit_suggestion-HasKey, approve_suggestion-HasKey, reject_suggestion-HasKey,
  approve_suggestion-used, reject_suggestion-used,
}

pub data Call : Type 0 where
  submits : ℕ → String → SourceType → ℕ → Call
  approves : Review → Call
  rejects : Review → Call

module _ {Reg : Type 0} (registry : Option (SourceRegistry Reg)) (is_digit : ℕ → Bool)
    (extension : ℕ) where
  unfoldable pub step : SuggestionState Reg → Call → SuggestionState Reg
  step s (submits user identifier type now) =
      (submit_suggestion registry is_digit extension user identifier type now s).1
  step s (approves r) = (approve_suggestion registry is_digit extension r s).1
  step s (rejects r) = (reject_suggestion registry is_digit extension r s).1

  unfoldable pub run : SuggestionState Reg → List Call → SuggestionState Reg
  unfolding step
  run s [] = s
  run s (c ∷ cs) = run (step s c) cs

  run-HasKey :
      (key : String) (cs : List Call) (s : SuggestionState Reg)
      → HasKey key s
      → HasKey key (run s cs)
  unfolding run step
  run-HasKey key [] s h = h
  run-HasKey key (submits user identifier type now ∷ cs) s h = run-HasKey key cs _ (
      (submit_suggestion-HasKey key registry is_digit extension user identifier type now).holds s h)
  run-HasKey key (approves r ∷ cs) s h =
      run-HasKey key cs _ ((approve_suggestion-HasKey key registry is_digit extension r).holds s h)
  run-HasKey key (rejects r ∷ cs) s h =
      run-HasKey key cs _ ((reject_suggestion-HasKey key registry is_digit extension r).holds s h)

  -- an approval, or a rejection
  abbrev pub reviews : Bool → Review → Call
  reviews true r = approves r
  reviews false r = rejects r

  reviews-HasKey :
      (b : Bool) (s : SuggestionState Reg) (r : Review)
      → nat_eq r.admin_user_id 0 ≡ false
      → HasKey r.idempotency_key (step s (reviews b r))
  unfolding step
  reviews-HasKey true s r admin = approve_suggestion-used registry is_digit extension r s admin
  reviews-HasKey false s r admin = reject_suggestion-used registry is_digit extension r s admin

  -- the state in which a review is repeated
  abbrev pub later : SuggestionState Reg → Bool → Review → List Call → SuggestionState Reg
  later s b r cs = run (step s (reviews b r)) cs

  -- An idempotency key is good for one review: after an approval or a rejection by a
  -- reviewer, whether it was accepted or refused, and any calls since, a review under its key of a
  -- suggestion that is stored approves nothing and rejects nothing: it returns the suggestion as it
  -- is, with `created` false.
  pub review-once :
      (s : SuggestionState Reg) (b : Bool) (r again : Review) (cs : List Call)
      (suggestion : SourceSuggestion)
      → nat_eq r.admin_user_id 0 ≡ false
      → nat_eq again.admin_user_id 0 ≡ false
      → again.idempotency_key ≡ r.idempotency_key
      → get again.suggestion_id (later s b r cs).suggestions ≡ some suggestion
      → (approve_suggestion registry is_digit extension again (later s b r cs)
          ≡ (ok (decision suggestion false), later s b r cs))
        × (reject_suggestion registry is_digit extension again (later s b r cs)
            ≡ (ok (decision suggestion false), later s b r cs))
  unfolding approve_suggestion reject_suggestion
  review-once s b r again cs suggestion admin admin_again same stored =
      let used =
        run-HasKey r.idempotency_key cs (step s (reviews b r)) (reviews-HasKey b s r admin) in
      let taken : is_some (get again.idempotency_key (later s b r cs).audit_events) ≡ true =
        rw same used.used in
      (
        review-used approve approved (grant registry is_digit extension again) again
            (later s b r cs) taken admin_again suggestion stored,
        review-used reject rejected (refuse again) again (later s b r cs) taken admin_again
            suggestion stored,
      )
