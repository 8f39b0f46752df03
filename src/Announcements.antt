-- ===== src/Announcements.antt =====
-- The announcements that the services exchange: `CanonicalListing` of
-- src/estateflow/services/extraction.py, `StructuredAnnouncement` of
-- src/estateflow/services/post_ai_dedup.py, and the search criteria of
-- src/estateflow/services/search.py with `announcement_matches`. A decimal or a float is a number of
-- 1/10000; a datetime is a number of microseconds.
use estate_flow.Base.{
  ℕ, String, Bool, true, false, not, ◌&&◌, ◌||◌, Option, none, some, List, [], map, ltb, nat_eq,
  ◌==◌, String_eq, if◌then◌else◌, any_of, is_some, ℕ_eq,
}

pub data PricePeriod : Type 0 where
  daily monthly one_time : PricePeriod

pub data PriceBasis : Type 0 where
  total per_person : PriceBasis

pub record CanonicalListing : Type 0 where
  pub schema_version : String
  pub prompt_version : String
  pub price : Option ℕ
  pub currency : Option String
  pub price_period : PricePeriod
  pub price_basis : PriceBasis
  pub price_normalized_monthly : Option ℕ
  pub listing_type : Option String
  pub rooms : Option ℕ
  pub area_sqm : Option ℕ
  pub floor : Option ℕ
  pub total_floors : Option ℕ
  pub district : Option String
  pub address : Option String
  pub phone_numbers : List String
  pub owner_type : String
  pub renovation_level : Option String
  pub renovation_source : String
  pub furniture : Option Bool
  pub description : String
  pub audience_tags : List String
  pub audience_excluded_tags : List String
  pub confidence : ℕ
  pub field_confidence : List (String × ℕ)
  pub assumptions : List String

pub data AnnouncementStatus : Type 0 where
  active archived manual_review : AnnouncementStatus

abbrev pub is_active : AnnouncementStatus → Bool
is_active active = true
is_active _ = false

pub data ReviewReason : Type 0 where
  possible_duplicate low_confidence business_quality : ReviewReason

-- `StoredMedia` of src/estateflow/services/media_storage.py, without its metadata
pub record StoredMedia : Type 0 where
  pub media_id : String
  pub storage_url : String
  pub object_key : String
  pub mime_type : String
  pub size_bytes : ℕ
  pub phash : String
  pub content_sha256 : String
  pub width : Option ℕ
  pub height : Option ℕ

pub record StructuredAnnouncement : Type 0 where
  pub announcement_id : String
  pub idempotency_key : String
  pub source_id : String
  pub source_channel_id : String
  pub source_message_id : String
  pub occurred_at : ℕ
  pub canonical : CanonicalListing
  pub media : List StoredMedia
  pub source_url : Option String
  pub forward_origin_key : Option String
  pub source_message_ids : List String
  pub trusted_source_score : ℕ
  pub parent_id : Option String
  pub status : AnnouncementStatus
  pub source_count : ℕ
  pub latest_source_id : Option String
  pub review_reason : Option ReviewReason
  pub created_at : ℕ
  pub updated_at : ℕ

pub record SearchCriteria : Type 0 where
  pub min_price : Option ℕ
  pub max_price : Option ℕ
  pub include_per_person : Bool
  pub selected_districts : List String
  pub rooms : Option ℕ
  pub renovation_level : Option String
  pub audience_tag : Option String

-- `a == b` of two values that may be `None`
abbrev pub same_option {ℓ} : {A : Type ℓ} → (A → A → Bool) → Option A → Option A → Bool
same_option eq none none = true
same_option eq (some a) (some b) = eq a b
same_option eq _ _ = false

-- `wanted is None or value == wanted`
abbrev fits_option {ℓ} : {A : Type ℓ} → (A → A → Bool) → Option A → Option A → Bool
fits_option eq none value = true
fits_option eq (some wanted) value = same_option eq value (some wanted)

abbrev or_empty : Option String → String
or_empty none = ""
or_empty (some text) = text

-- `item in items`
abbrev pub contains : String → List String → Bool
contains item items = any_of (λ x. x == item) items

abbrev not_below : Option ℕ → ℕ → Bool
not_below none price = true
not_below (some bound) price = not (ltb price bound)

abbrev not_above : Option ℕ → ℕ → Bool
not_above none price = true
not_above (some bound) price = not (ltb bound price)

abbrev price_fits : SearchCriteria → Option ℕ → Bool
price_fits criteria none = not (is_some criteria.min_price || is_some criteria.max_price)
price_fits criteria (some price) =
    not_below criteria.min_price price && not_above criteria.max_price price

abbrev is_once : PricePeriod → Bool
is_once one_time = true
is_once _ = false

abbrev is_per_person : PriceBasis → Bool
is_per_person per_person = true
is_per_person _ = false

abbrev is_empty_list : List String → Bool
is_empty_list [] = true
is_empty_list _ = false

-- `str.casefold` is Python's own.
module _ (casefold : String → String) where
  abbrev district_fits : List String → Option String → Bool
  district_fits districts district =
      is_empty_list districts || contains (casefold (or_empty district)) (map casefold districts)

  abbrev tag_fits : Option String → List String → List String → Bool
  tag_fits none tags excluded = true
  tag_fits (some tag) tags excluded =
      contains tag (map casefold tags) && not (contains tag (map casefold excluded))

  unfoldable pub announcement_matches : StructuredAnnouncement → SearchCriteria → Bool
  announcement_matches announcement criteria =
      let canonical = announcement.canonical in
      if not (is_active announcement.status) || is_some announcement.parent_id
      then false
      else if is_once canonical.price_period
      then false
      else if is_per_person canonical.price_basis && not criteria.include_per_person
      then false
      else if not (price_fits criteria canonical.price_normalized_monthly)
      then false
      else if not (district_fits criteria.selected_districts canonical.district)
      then false
      else if not (fits_option nat_eq criteria.rooms canonical.rooms)
      then false
      else if not (fits_option (λ a b. a == b) criteria.renovation_level canonical.renovation_level)
      then false
      else tag_fits criteria.audience_tag canonical.audience_tags canonical.audience_excluded_tags
