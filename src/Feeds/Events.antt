-- ===== src/Feeds/Events.antt =====
-- services/information_layer/information_layer/models.py: an evidence event. The fields that the
-- coordinator and the collector neither read nor check (source, sentiment, confidence) are left out; a
-- relevance is a number of some unit.
use us_stock_helper.Prelude.{
  ℕ, Text, Bool, not, ◌&&◌, ◌||◌, Option, none, some, List, [], ◌∷◌, leb, ◌==◌, length, every,
}

-- A time in microseconds, and a span of them.
abbrev pub Instant : Type 0
Instant = ℕ

abbrev pub Duration : Type 0
Duration = ℕ

pub record EvidenceEvent : Type 0 where
  pub event_id : Text
  pub claim_key : Text
  pub headline : Text
  pub published_at : Instant
  pub first_seen_at : Instant
  pub available_at : Instant
  pub retrieved_at : Instant
  pub revised_at : Option Instant
  pub revision_of : Option Text
  pub revision_number : ℕ
  pub content_hash : Text
  pub symbol_relevance : List (Text × ℕ)
  pub geopolitical_tags : List Text
  pub macro_tags : List Text
  pub attributes : List (Text × Text)

abbrev is_empty : Text → Bool
is_empty [] = Bool.true
is_empty (c ∷ cs) = Bool.false

-- `re.fullmatch(r"[0-9a-f]{64}", …)`
abbrev is_hex : ℕ → Bool
is_hex c = (leb b'0' c && leb c b'9') || (leb b'a' c && leb c b'f')

unfoldable pub is_sha256_hex : Text → Bool
is_sha256_hex t = length t == 64 && every is_hex t

abbrev pub is_by : Option Instant → Instant → Bool
is_by none t = Bool.true
is_by (some r) t = leb r t

abbrev pub has_origin : Option Text → ℕ → Bool
has_origin none n = n == 0
has_origin (some origin) n = Bool.true

-- What `EvidenceEvent.__post_init__` asks of these fields.
unfoldable pub is_accepted : EvidenceEvent → Bool
is_accepted e =
    (leb e.published_at e.first_seen_at
      && (leb e.first_seen_at e.available_at && leb e.available_at e.retrieved_at))
    && (is_by e.revised_at e.available_at
        && (not (is_empty e.event_id || (is_empty e.claim_key || is_empty e.headline))
            && (has_origin e.revision_of e.revision_number && is_sha256_hex e.content_hash)))
