-- ===== src/Samples.antt =====
-- A listing and an announcement that the tests of several components use.
use estate_flow.Base.{none, some, [], ◌∷◌}
use estate_flow.Announcements.{CanonicalListing, StructuredAnnouncement, monthly, total, active}

abbrev pub listing : CanonicalListing
listing = record {
  schema_version = "estateflow.listing.v1";
  prompt_version = "v1";
  listing_type = some "rent";
  total_floors = some 9;
  owner_type = "owner";
  renovation_source = "unknown";
  confidence = 9000;
  field_confidence = [];
  assumptions = [];
  price = some 5000000;
  currency = some "USD";
  price_period = monthly;
  price_basis = total;
  price_normalized_monthly = some 5000000;
  rooms = some 2;
  area_sqm = none;
  floor = some 3;
  district = some "Chilonzor";
  address = none;
  phone_numbers = [];
  renovation_level = none;
  furniture = none;
  description = "2 rooms";
  audience_tags = [];
  audience_excluded_tags = [];
}

abbrev pub announcement : StructuredAnnouncement
announcement = record {
  announcement_id = "a1";
  idempotency_key = "k1";
  source_id = "s1";
  source_channel_id = "c1";
  source_message_id = "m1";
  occurred_at = 1;
  media = [];
  forward_origin_key = none;
  source_message_ids = "m1" ∷ [];
  canonical = listing;
  source_url = none;
  trusted_source_score = 0;
  parent_id = none;
  status = active;
  source_count = 1;
  latest_source_id = none;
  review_reason = none;
  created_at = 1;
  updated_at = 1;
}
