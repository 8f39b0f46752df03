-- ===== src/Tags/Each.antt =====
-- src/estateflow/services/audience_tags.py: `resolve_tags`, each proposed tag and each result.
use mathlib.Core.List.{Memᴰ}
use mathlib.Core.Path.{subst}
use estate_flow.Base.{
  ℕ, String, refl, ◌∙◌, inl, inr, List, [], ◌∷◌, ◌++◌, String_eq, Bool-cases, Result-cases, All,
}
use estate_flow.Tags.Keys.{normalize_tag_key}
use estate_flow.Tags.Stored.{AudienceTagStatus_eq, TagState, has_tag}
use estate_flow.Tags.Service.{resolve_tag, resolve_each}
use estate_flow.Tags.Single.{IsKeyed, IsKept-refl, IsKept-trans, resolve_tag-IsResolved}
use estate_flow.Tags.Answer.{resolve_tag-IsAnswer}
use estate_flow.Tags.Reached.{
  IsReached, IsAsked, IsRefused, IsResolvedAll, All-map, ok_inj, err_eq, err_inj, IsRefused-tail,
  IsAsked-tail, IsReached-tail,
}

module _ (casefold title : String → String) (ratio : String → String → ℕ) (threshold : ℕ) where
  pub resolve_each-IsResolvedAll :
      (seen values : List String) (now : ℕ) (s : TagState)
      → IsKeyed s
      → IsResolvedAll casefold ratio threshold seen values s
          (resolve_each casefold title ratio threshold seen values now s)
  unfolding resolve_each
  resolve_each-IsResolvedAll seen [] now s k = record {
    kept = IsKept-refl s k;
    right = λ rs h. rw (← ok_inj h) tt;
    fails = λ e h. cc;
    reached = λ rs h. tt;
    asked = λ rs h. rw (← ok_inj h) tt;
  }
  resolve_each-IsResolvedAll seen (value ∷ rest) now s k =
      elim (Result-cases (normalize_tag_key casefold value)) [
        | inr (e, f) ↦ rw f (record {
          kept = IsKept-refl s k;
          right = λ rs h. cc;
          fails = λ g h. (value, Memᴰ.head refl, inl (f ∙ err_eq h));
          reached = λ rs h. cc;
          asked = λ rs h. cc;
        })
        | inl (key, f) ↦ elim (Bool-cases (has_tag key seen)) [
          | inl g ↦
              let more = resolve_each-IsResolvedAll seen rest now s k in
              rw (f, g)
                (record {
                  kept = more.kept;
                  right = more.right;
                  fails = λ e h. IsRefused-tail casefold value rest e (more.fails e h);
                  reached = λ rs h. ((key, f, inl g), more.reached rs h);
                  asked = λ rs h.
                      All-map
                        (λ r.
                          IsAsked-tail casefold ratio threshold value rest s s r (IsKept-refl s k))
                        rs (more.asked rs h);
                })
          | inr g ↦
              let one = resolve_tag-IsResolved casefold title ratio threshold key now s k in
              elim (Result-cases (resolve_tag casefold title ratio threshold key now s).0) [
                | inr (e, h) ↦
                    rw (f, g, h)
                      (record {
                        kept = one.kept;
                        right = λ rs i. cc;
                        fails =
                            λ d i. (value, Memᴰ.head refl, inr (key, f, one.fails e h ∙ err_eq i));
                        reached = λ rs i. cc;
                        asked = λ rs i. cc;
                      })
                | inl (r, h) ↦
                    let answer =
                      resolve_tag-IsAnswer casefold title ratio threshold key now s r k h in
                    let t = (resolve_tag casefold title ratio threshold key now s).1 in
                    let more =
                      resolve_each-IsResolvedAll (seen ++ key ∷ []) rest now t one.kept.keyed in
                    elim (Result-cases
                      (resolve_each casefold title ratio threshold (seen ++ key ∷ []) rest now
                        t).0) [
                          | inr (e, i) ↦
                              rw (f, g, h, i)
                                (record {
                                  kept = IsKept-trans s t _ one.kept more.kept;
                                  right = λ rs j. cc;
                                  fails = λ d j. IsRefused-tail casefold value rest d (
                                      subst (IsRefused casefold rest) (err_inj j) (more.fails e i));
                                  reached = λ rs j. cc;
                                  asked = λ rs j. cc;
                                })
                          | inl (rs, i) ↦
                              rw (f, g, h, i)
                                (record {
                                  kept = IsKept-trans s t _ one.kept more.kept;
                                  right = λ all j. rw (← ok_inj j) (
                                    more.kept.status r.tag_key r.status (one.right r h),
                                    more.right rs i,
                                  );
                                  fails = λ d j. cc;
                                  reached = λ all j.
                                      subst
                                        (λ xs.
                                          All (IsReached casefold ratio threshold seen s xs)
                                            (value ∷ rest))
                                        (ok_inj j)
                                        (
                                          (key, f, inr (r, Memᴰ.head refl, answer)),
                                          All-map
                                              (λ v.
                                                IsReached-tail casefold ratio threshold seen key s t
                                                  r rs v one.kept answer)
                                              rest (more.reached rs i),
                                        );
                                  asked = λ all j.
                                      subst
                                        (All (IsAsked casefold ratio threshold (value ∷ rest) s))
                                        (ok_inj j)
                                        (
                                          (value, Memᴰ.head refl, key, f, answer),
                                          All-map
                                              (λ q.
                                                IsAsked-tail casefold ratio threshold value rest s t
                                                  q one.kept)
                                              rs (more.asked rs i),
                                        );
                                })
                        ]
              ]
        ]
      ]
