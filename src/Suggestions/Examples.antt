-- ===== src/Suggestions/Examples.antt =====
-- Concrete runs of the source suggestions.
use estate_flow.Base.{
  ℕ, String, Bool, true, false, ◌≡◌, refl, none, some, List, [], ◌∷◌, ◌&&◌, leb, ok,
}
use estate_flow.Base.Dict.{get, put}
use estate_flow.Sources.{telegram_channel}
use estate_flow.Suggestions.Stored.{
  SuggestionState, SourceSuggestion, new_suggestion, approved, rejected, pending,
}
use estate_flow.Suggestions.Service.{
  Review, decision, approve_suggestion, reject_suggestion, review, checked_review,
}
use estate_flow.Suggestions.Keys.{Call, submits, rejects, run, step, later, review-once}
use estate_flow.Suggestions.Rewarded.{run-rewards_once}
use estate_flow.Suggestions.Granted.{IsRewarded}

abbrev is_digit : ℕ → Bool
is_digit c = leb b'0' c && leb c b'9'

abbrev suggested : SourceSuggestion
suggested = new_suggestion "@uy_joy" 5 telegram_channel 1

-- one suggestion, not decided yet
abbrev waiting : SuggestionState (Unit {0})
waiting = record {
  suggestions = ("source:@uy_joy", suggested) ∷ [];
  by_identifier = ("@uy_joy", "source:@uy_joy") ∷ [];
  audit_events = [];
  premium_until = [];
  notifications = [];
  registry = tt;
}

abbrev reviewed : String → Review
reviewed key = record {
  suggestion_id = "source:@uy_joy";
  admin_user_id = 1;
  idempotency_key = key;
  note = none;
  expected_status = some pending;
  now = 10;
}

-- an approval that expects another status raises, and its key is spent
abbrev misplaced : Review
misplaced = record (reviewed "k1") { expected_status = some rejected }

approves_and_rewards :
    (approve_suggestion none is_digit 7 (reviewed "k1") waiting).1.premium_until ≡ (5, 17) ∷ []
unfolding approve_suggestion review checked_review get put
approves_and_rewards = refl

review-once_example :
    (approve_suggestion none is_digit 7
        (reviewed "k1")
        (later none is_digit 7 waiting true misplaced [])
      ≡ (ok (decision suggested false), later none is_digit 7 waiting true misplaced []))
    × (reject_suggestion none is_digit 7
          (reviewed "k1")
          (later none is_digit 7 waiting true misplaced [])
        ≡ (ok (decision suggested false), later none is_digit 7 waiting true misplaced []))
unfolding run step approve_suggestion review checked_review get put
review-once_example =
    review-once none is_digit 7 waiting true misplaced (reviewed "k1") [] suggested refl refl refl
      refl

abbrev rewarded : SuggestionState (Unit {0})
rewarded = record waiting {
  suggestions =
      (
        "source:@uy_joy",
        record suggested { status = approved; reward_granted = true; decided_at = some 10 },
      )
      ∷ [];
  premium_until = (5, 17) ∷ [];
}

rewarded-IsRewarded : IsRewarded "source:@uy_joy" rewarded
unfolding get
rewarded-IsRewarded = record {
  identifier = "@uy_joy";
  known = refl;
  named = refl;
  suggestion = record suggested { status = approved; reward_granted = true; decided_at = some 10 };
  stored = refl;
  granted = refl;
}

abbrev history : List Call
history =
    rejects (record (reviewed "k2") { expected_status = some approved })
    ∷ submits 5 "@uy_joy" telegram_channel 12
    ∷ []

run-rewards_once_example :
    IsRewarded "source:@uy_joy" (run none is_digit 7 rewarded history)
    × ((approve_suggestion none is_digit 7
          (reviewed "k3")
          (run none is_digit 7 rewarded history)).1.premium_until
        ≡ (run none is_digit 7 rewarded history).premium_until)
run-rewards_once_example =
    run-rewards_once none is_digit 7 "source:@uy_joy" rewarded history (reviewed "k3")
      rewarded-IsRewarded refl
