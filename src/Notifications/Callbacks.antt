-- ===== src/Notifications/Callbacks.antt =====
-- src/estateflow/services/notifications.py: the data of the buttons under a notification.
use Prim.Native.String.{◌∷◌ as cons, [] as empty, ◌++◌ as join}
use Prim.Native.String.append
use mathlib.Core.Path.{subst}
use text.Mathlib.TextLemmas.{append-nil, append_assoc}
use estate_flow.Base.{
  String, Bool, true, ◌||◌, ◌&&◌, ◌≡◌, refl, sym, ap, ◌∙◌, ◌↔◌, inl, inr, List, [], ◌∷◌, arith,
  ◌==◌, String_eq, str_eq_iff, Bool-cases, if◌then◌else◌, Result, ok, err, value_error,
}
use estate_flow.Base.Split.{split, glued, glued-split, lacks, split-part, split-last}

-- `action in {"open", "search", "read"}`
abbrev pub is_action : String → Bool
is_action action = action == "open" || action == "search" || action == "read"

unfoldable pub notification_action_callback : String → String → Result String
notification_action_callback notification_id action =
    if is_action action
    then ok (join "n:v1:" (join action (join ":" notification_id)))
    else err (value_error "Unsupported notification action.")

abbrev parsed_action : String → String → Result (String × String)
parsed_action action rest =
    if is_action action
    then ok (action, rest)
    else err (value_error "Unsupported notification action.")

-- the tests on the parts: there are four, and the first two are the prefix
unfoldable pub parse_parts : List String → Result (String × String)
parse_parts (prefix ∷ version ∷ action ∷ rest ∷ []) =
    if prefix == "n" && version == "v1"
    then parsed_action action rest
    else err (value_error "Unsupported notification callback.")
parse_parts _ = err (value_error "Unsupported notification callback.")

unfoldable pub parse_notification_action_callback : String → Result (String × String)
unfolding parse_parts split
parse_notification_action_callback value = parse_parts (split ":" 3 "" value)

colon : (s : String) → join ":" s ≡ cons ":" s
colon s = append.cons ":" "" s ∙ ap (cons ":") (append.nil s)

-- the text that is built, part by part
built_parts :
    (action id : String)
    → join "n:v1:" (join action (join ":" id))
      ≡ join "n" (cons ":" (join "v1" (cons ":" (join action (cons ":" id)))))
built_parts action id =
    append_assoc "n" (join ":" (join "v1" ":")) (join action (join ":" id))
    ∙ ap (join "n") (
        append_assoc ":" (join "v1" ":") _
        ∙ (colon _
            ∙ ap (cons ":") (
                append_assoc "v1" ":" _
                ∙ ap (join "v1") (colon _ ∙ ap (λ t. cons ":" (join action t)) (colon id)))))

action-lacks : (action : String) → is_action action ≡ true → lacks ":" action ≡ true
action-lacks action h = elim (Bool-cases (action == "open")) [
  | inl e ↦ rw ((str_eq_iff action "open").0 e) refl
  | inr e ↦ elim (Bool-cases (action == "search")) [
    | inl f ↦ rw ((str_eq_iff action "search").0 f) refl
    | inr f ↦ rw ((str_eq_iff action "read").0 (ground (arith, e, f, h))) refl
  ]
]

parse-built :
    (action id : String)
    → is_action action ≡ true
    → parse_notification_action_callback (join "n:v1:" (join action (join ":" id)))
      ≡ ok (action, id)
unfolding parse_notification_action_callback parse_parts
parse-built action id h =
    rw
      (
        built_parts action id,
        split-part ":" 2 "" "n" _ refl,
        split-part ":" 1 "" "v1" _ refl,
        split-part ":" 0 "" action id (action-lacks action h),
        split-last ":" "" id,
        append.nil id,
        append.nil action,
        h,
      )
      refl

after_colon : String → String
after_colon empty = empty
after_colon (cons c s) = s

-- four parts that spell a text
whole :
    (p q r t value : String)
    → p ≡ "n"
    → q ≡ "v1"
    → glued ":" (p ∷ q ∷ r ∷ t ∷ []) ≡ cons ":" value
    → join "n" (cons ":" (join "v1" (cons ":" (join r (cons ":" t))))) ≡ value
unfolding after_colon
whole p q r t value e f g =
    ap (λ u. join "n" (cons ":" (join "v1" (cons ":" (join r (cons ":" u)))))) (sym (append-nil t))
    ∙ ((rw (e, f) refl) ∙ ap after_colon g)

parts-built :
    (parts : List String) (value action id : String)
    → glued ":" parts ≡ cons ":" value
    → parse_parts parts ≡ ok (action, id)
    → notification_action_callback id action ≡ ok value
unfolding parse_parts notification_action_callback
parts-built [] value action id g h = cc
parts-built (p ∷ []) value action id g h = cc
parts-built (p ∷ q ∷ []) value action id g h = cc
parts-built (p ∷ q ∷ r ∷ []) value action id g h = cc
parts-built (p ∷ q ∷ r ∷ t ∷ u ∷ more) value action id g h = cc
parts-built (p ∷ q ∷ r ∷ t ∷ []) value action id g h = elim (Bool-cases (p == "n" && q == "v1")) [
  | inr e ↦ absurd (ground (arith, e, h))
  | inl e ↦ elim (Bool-cases (is_action r)) [
    | inr f ↦ absurd (ground (arith, e, f, h))
    | inl f ↦
        let read : ◌≡◌ {A = Result (String × String)} (ok (r, t)) (ok (action, id)) =
          rw (e, f) at h in
        let same_action : r ≡ action = ground (arith, read) in
        let same_id : t ≡ id = ground (arith, read) in
        let is_n : p ≡ "n" = ground (arith, e, str_eq_iff p "n") in
        let is_v1 : q ≡ "v1" = ground (arith, e, str_eq_iff q "v1") in
        rw (← same_action, ← same_id, f)
          (ap ok (built_parts r t ∙ whole p q r t value is_n is_v1 g))
  ]
]

ok_inj : {s t : String} → ok s ≡ ok t → s ≡ t
ok_inj h = ground (arith, h)

-- The text that is built for a button is read back as its action and its notification's id, whatever
-- characters the id holds; and a text that is read is the one that is built for what it reads as.
pub notification_action_callback_iff :
    (value action id : String)
    → (notification_action_callback id action ≡ ok value)
      ↔ (parse_notification_action_callback value ≡ ok (action, id))
unfolding notification_action_callback parse_notification_action_callback
notification_action_callback_iff value action id = (
  λ h. elim (Bool-cases (is_action action)) [
    | inl e ↦
        let built : ok (join "n:v1:" (join action (join ":" id))) ≡ ok value = rw e at h in
        subst (λ v. parse_notification_action_callback v ≡ ok (action, id)) (ok_inj built)
          (parse-built action id e)
    | inr e ↦ absurd (ground (arith, e, h))
  ],
  λ h.
      parts-built (split ":" 3 "" value) value action id
        (glued-split ":" 3 "" value ∙ ap (cons ":") (append.nil value)) h,
)
