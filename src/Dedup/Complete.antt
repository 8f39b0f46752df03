-- ===== src/Dedup/Complete.antt =====
-- src/estateflow/services/post_ai_dedup.py: `merge_parent_fields` and `_canonical_completeness`.
use estate_flow.Base.{◌≤◌, Bool, true, false, ◌≡◌, refl, ◌⊎◌, arith, Bool-cases, inl, inr}
use estate_flow.Announcements.{CanonicalListing}
use estate_flow.Dedup.{
  merge_canonical, canonical_completeness, fill, present, empty_text, empty_list, empty_option,
  empty_option_text,
}

module _ {A : Type 0} (is_empty : A → Bool) where
  -- The merged value `m` of a field: what the parent has stays, what it lacks comes from the child.
  abbrev pub IsFilled : (p c m : A) → Type 0
  IsFilled p c m =
      ((is_empty p ≡ false) × (m ≡ p))
      ⊎ (((is_empty p ≡ true) × (is_empty c ≡ false) × (m ≡ c))
          ⊎ ((is_empty p ≡ true) × (is_empty c ≡ true) × (m ≡ p)))

  fill-IsFilled : (p c : A) → IsFilled p c (fill is_empty p c)
  fill-IsFilled p c = elim (Bool-cases (is_empty p)) [
    | inr full ↦ rw full (inl (refl, refl))
    | inl gap ↦ elim (Bool-cases (is_empty c)) [
      | inl nothing ↦ rw (gap, nothing) (inr (inr (refl, refl, refl)))
      | inr full ↦ rw (gap, full) (inr (inl (refl, refl, refl)))
    ]
  ]

  present-IsFilled :
      (p c m : A)
      → IsFilled p c m
      → (present (is_empty p) ≤ present (is_empty m))
        × (present (is_empty c) ≤ present (is_empty m))
  present-IsFilled p c m (inl (full, e)) = rw (e, full) (omega arith, ground arith)
  present-IsFilled p c m (inr (inl (gap, full, e))) = rw (e, gap, full) (omega arith, omega arith)
  present-IsFilled p c m (inr (inr (gap, nothing, e))) =
      rw (e, gap, nothing) (omega arith, omega arith)

-- What a merge of a child's listing into a parent's gives, field by field.
pub record IsMerge (p c m : CanonicalListing) : Type 0 where
  pub schema_version : IsFilled empty_text p.schema_version c.schema_version m.schema_version
  pub prompt_version : IsFilled empty_text p.prompt_version c.prompt_version m.prompt_version
  pub price : IsFilled empty_option p.price c.price m.price
  pub currency : IsFilled empty_option_text p.currency c.currency m.currency
  pub price_normalized_monthly :
      IsFilled empty_option p.price_normalized_monthly c.price_normalized_monthly
        m.price_normalized_monthly
  pub listing_type : IsFilled empty_option_text p.listing_type c.listing_type m.listing_type
  pub rooms : IsFilled empty_option p.rooms c.rooms m.rooms
  pub area_sqm : IsFilled empty_option p.area_sqm c.area_sqm m.area_sqm
  pub floor : IsFilled empty_option p.floor c.floor m.floor
  pub total_floors : IsFilled empty_option p.total_floors c.total_floors m.total_floors
  pub district : IsFilled empty_option_text p.district c.district m.district
  pub address : IsFilled empty_option_text p.address c.address m.address
  pub phone_numbers : IsFilled empty_list p.phone_numbers c.phone_numbers m.phone_numbers
  pub owner_type : IsFilled empty_text p.owner_type c.owner_type m.owner_type
  pub renovation_level :
      IsFilled empty_option_text p.renovation_level c.renovation_level m.renovation_level
  pub renovation_source :
      IsFilled empty_text p.renovation_source c.renovation_source m.renovation_source
  pub furniture : IsFilled empty_option p.furniture c.furniture m.furniture
  pub description : IsFilled empty_text p.description c.description m.description
  pub audience_tags : IsFilled empty_list p.audience_tags c.audience_tags m.audience_tags
  pub audience_excluded_tags :
      IsFilled empty_list p.audience_excluded_tags c.audience_excluded_tags m.audience_excluded_tags
  pub field_confidence :
      IsFilled empty_list p.field_confidence c.field_confidence m.field_confidence
  pub assumptions : IsFilled empty_list p.assumptions c.assumptions m.assumptions
  pub price_period : m.price_period ≡ p.price_period
  pub price_basis : m.price_basis ≡ p.price_basis
  pub confidence : m.confidence ≡ p.confidence

merge_canonical-fields : (p c : CanonicalListing) → IsMerge p c (merge_canonical p c)
unfolding merge_canonical
merge_canonical-fields p c = record {
  schema_version = fill-IsFilled empty_text p.schema_version c.schema_version;
  prompt_version = fill-IsFilled empty_text p.prompt_version c.prompt_version;
  price = fill-IsFilled empty_option p.price c.price;
  currency = fill-IsFilled empty_option_text p.currency c.currency;
  price_normalized_monthly =
      fill-IsFilled empty_option p.price_normalized_monthly c.price_normalized_monthly;
  listing_type = fill-IsFilled empty_option_text p.listing_type c.listing_type;
  rooms = fill-IsFilled empty_option p.rooms c.rooms;
  area_sqm = fill-IsFilled empty_option p.area_sqm c.area_sqm;
  floor = fill-IsFilled empty_option p.floor c.floor;
  total_floors = fill-IsFilled empty_option p.total_floors c.total_floors;
  district = fill-IsFilled empty_option_text p.district c.district;
  address = fill-IsFilled empty_option_text p.address c.address;
  phone_numbers = fill-IsFilled empty_list p.phone_numbers c.phone_numbers;
  owner_type = fill-IsFilled empty_text p.owner_type c.owner_type;
  renovation_level = fill-IsFilled empty_option_text p.renovation_level c.renovation_level;
  renovation_source = fill-IsFilled empty_text p.renovation_source c.renovation_source;
  furniture = fill-IsFilled empty_option p.furniture c.furniture;
  description = fill-IsFilled empty_text p.description c.description;
  audience_tags = fill-IsFilled empty_list p.audience_tags c.audience_tags;
  audience_excluded_tags =
      fill-IsFilled empty_list p.audience_excluded_tags c.audience_excluded_tags;
  field_confidence = fill-IsFilled empty_list p.field_confidence c.field_confidence;
  assumptions = fill-IsFilled empty_list p.assumptions c.assumptions;
  price_period = refl;
  price_basis = refl;
  confidence = refl;
}

IsMerge-complete :
    (p c m : CanonicalListing)
    → IsMerge p c m
    → (canonical_completeness p ≤ canonical_completeness m)
      × (canonical_completeness c ≤ canonical_completeness m)
unfolding canonical_completeness
IsMerge-complete p c m h = (
  omega (
    arith,
    (present-IsFilled empty_text p.schema_version c.schema_version m.schema_version
        h.schema_version).0,
    (present-IsFilled empty_text p.prompt_version c.prompt_version m.prompt_version
        h.prompt_version).0,
    (present-IsFilled empty_option p.price c.price m.price h.price).0,
    (present-IsFilled empty_option_text p.currency c.currency m.currency h.currency).0,
    (present-IsFilled empty_option p.price_normalized_monthly c.price_normalized_monthly
        m.price_normalized_monthly h.price_normalized_monthly).0,
    (present-IsFilled empty_option_text p.listing_type c.listing_type m.listing_type
        h.listing_type).0,
    (present-IsFilled empty_option p.rooms c.rooms m.rooms h.rooms).0,
    (present-IsFilled empty_option p.area_sqm c.area_sqm m.area_sqm h.area_sqm).0,
    (present-IsFilled empty_option p.floor c.floor m.floor h.floor).0,
    (present-IsFilled empty_option p.total_floors c.total_floors m.total_floors h.total_floors).0,
    (present-IsFilled empty_option_text p.district c.district m.district h.district).0,
    (present-IsFilled empty_option_text p.address c.address m.address h.address).0,
    (present-IsFilled empty_list p.phone_numbers c.phone_numbers m.phone_numbers h.phone_numbers).0,
    (present-IsFilled empty_text p.owner_type c.owner_type m.owner_type h.owner_type).0,
    (present-IsFilled empty_option_text p.renovation_level c.renovation_level m.renovation_level
        h.renovation_level).0,
    (present-IsFilled empty_text p.renovation_source c.renovation_source m.renovation_source
        h.renovation_source).0,
    (present-IsFilled empty_option p.furniture c.furniture m.furniture h.furniture).0,
    (present-IsFilled empty_text p.description c.description m.description h.description).0,
    (present-IsFilled empty_list p.audience_tags c.audience_tags m.audience_tags h.audience_tags).0,
    (present-IsFilled empty_list p.audience_excluded_tags c.audience_excluded_tags
        m.audience_excluded_tags h.audience_excluded_tags).0,
    (present-IsFilled empty_list p.field_confidence c.field_confidence m.field_confidence
        h.field_confidence).0,
    (present-IsFilled empty_list p.assumptions c.assumptions m.assumptions h.assumptions).0,
  ),
  omega (
    arith,
    (present-IsFilled empty_text p.schema_version c.schema_version m.schema_version
        h.schema_version).1,
    (present-IsFilled empty_text p.prompt_version c.prompt_version m.prompt_version
        h.prompt_version).1,
    (present-IsFilled empty_option p.price c.price m.price h.price).1,
    (present-IsFilled empty_option_text p.currency c.currency m.currency h.currency).1,
    (present-IsFilled empty_option p.price_normalized_monthly c.price_normalized_monthly
        m.price_normalized_monthly h.price_normalized_monthly).1,
    (present-IsFilled empty_option_text p.listing_type c.listing_type m.listing_type
        h.listing_type).1,
    (present-IsFilled empty_option p.rooms c.rooms m.rooms h.rooms).1,
    (present-IsFilled empty_option p.area_sqm c.area_sqm m.area_sqm h.area_sqm).1,
    (present-IsFilled empty_option p.floor c.floor m.floor h.floor).1,
    (present-IsFilled empty_option p.total_floors c.total_floors m.total_floors h.total_floors).1,
    (present-IsFilled empty_option_text p.district c.district m.district h.district).1,
    (present-IsFilled empty_option_text p.address c.address m.address h.address).1,
    (present-IsFilled empty_list p.phone_numbers c.phone_numbers m.phone_numbers h.phone_numbers).1,
    (present-IsFilled empty_text p.owner_type c.owner_type m.owner_type h.owner_type).1,
    (present-IsFilled empty_option_text p.renovation_level c.renovation_level m.renovation_level
        h.renovation_level).1,
    (present-IsFilled empty_text p.renovation_source c.renovation_source m.renovation_source
        h.renovation_source).1,
    (present-IsFilled empty_option p.furniture c.furniture m.furniture h.furniture).1,
    (present-IsFilled empty_text p.description c.description m.description h.description).1,
    (present-IsFilled empty_list p.audience_tags c.audience_tags m.audience_tags h.audience_tags).1,
    (present-IsFilled empty_list p.audience_excluded_tags c.audience_excluded_tags
        m.audience_excluded_tags h.audience_excluded_tags).1,
    (present-IsFilled empty_list p.field_confidence c.field_confidence m.field_confidence
        h.field_confidence).1,
    (present-IsFilled empty_list p.assumptions c.assumptions m.assumptions h.assumptions).1,
  ),
)

-- In the merged listing each field that the parent has filled is the parent's, each field that only
-- the child has filled is the child's, and the others are the parent's, as are the three that are
-- never empty. It has no fewer fields filled than either.
pub merge_canonical-IsMerge :
    (p c : CanonicalListing)
    → IsMerge p c (merge_canonical p c)
      × (canonical_completeness p ≤ canonical_completeness (merge_canonical p c))
      × (canonical_completeness c ≤ canonical_completeness (merge_canonical p c))
merge_canonical-IsMerge p c =
    let h = merge_canonical-fields p c in
    let (parent, child) = IsMerge-complete p c (merge_canonical p c) h in (h, parent, child)
