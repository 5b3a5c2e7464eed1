-- ===== src/Feeds/Snapshot.antt =====
-- services/information_layer/information_layer/feeds/coordinator.py, `snapshot` and `from_snapshot`:
-- the coordinator as a JSON value, and what is made of one. `str` of what is no text, and the two
-- conversions of an instant, are parameters.
pub mod RoundTrip
pub mod Stored
mod Examples
pub mod Restart
use us_stock_helper.Prelude.{
  ℕ, zero, suc, Text, text_eq, codes, ◌≡◌, Bool, true, false, not, Option, none, some, List, [],
  ◌∷◌, if◌then◌else◌, Dict, get_key, set_key, ℤ, pos, negsuc, read_int,
}
use us_stock_helper.Prelude.Checked.{Checked, accepted, rejected, ◌>>=◌}
use us_stock_helper.Feeds.Events.{Instant}
use us_stock_helper.Feeds.Coordinator.{
  PollingCoordinator, AdapterState, PublishedRecord, CacheValidators,
}

-- A value that `json.loads` may give. A float that is a number is known by whether it is zero and by
-- its integral part; the keys of an object are distinct.
mutual
  pub data Json : Type 0 where
    null not_a_number : Json
    boolean : Bool → Json
    integer : ℤ → Json
    real : Bool → ℤ → Json
    infinity : Bool → Json
    string : Text → Json
    array : Items → Json
    object : Fields → Json

  pub data Items : Type 0 where
    no_items : Items
    item : Json → Items → Items

  pub data Fields : Type 0 where
    no_fields : Fields
    field : Text → Json → Fields → Fields

pub record PythonTexts : Type 0 where
  pub str : Json → Text
  pub isoformat : Instant → Text
  pub fromisoformat : Text → Option Instant

-- What is raised; `outside` is a state that the source takes as it is and this model does not hold: a
-- negative count, or a validator that is no text.
pub data RestoreError : Type 0 where
  value_error type_error overflow_error outside : RestoreError

abbrev pub Restored : Type 0 → Type 0
Restored A = Checked RestoreError A

-- `raw.get(key)`
unfoldable pub field_of : Text → Fields → Option Json
field_of k no_fields = none
field_of k (field j v fs) = let rest = field_of k fs in if text_eq j k then some v else rest

-- `raw[key]` where a `KeyError` becomes a `ValueError`
abbrev pub needed : Option Json → Restored Json
needed none = rejected value_error
needed (some j) = accepted j

abbrev pub or_value : Json → Option Json → Json
or_value default none = default
or_value default (some j) = j

-- `str(j)`
unfoldable pub str_of : PythonTexts → Json → Text
str_of py (string t) = t
str_of py null = py.str null
str_of py not_a_number = py.str not_a_number
str_of py (boolean b) = py.str (boolean b)
str_of py (integer n) = py.str (integer n)
str_of py (real z n) = py.str (real z n)
str_of py (infinity b) = py.str (infinity b)
str_of py (array xs) = py.str (array xs)
str_of py (object fs) = py.str (object fs)

abbrev of_text : Option ℤ → Restored ℤ
of_text none = rejected value_error
of_text (some n) = accepted n

-- `int(j)`
unfoldable pub int_of : Json → Restored ℤ
int_of null = rejected type_error
int_of not_a_number = rejected value_error
int_of (boolean b) = accepted (if b then pos 1 else pos 0)
int_of (integer n) = accepted n
int_of (real z n) = accepted n
int_of (infinity b) = rejected overflow_error
int_of (string t) = of_text (read_int t)
int_of (array xs) = rejected type_error
int_of (object fs) = rejected type_error

abbrev pub count_of : ℤ → Restored ℕ
count_of (pos n) = accepted n
count_of (negsuc n) = rejected outside

-- `except (KeyError, TypeError, ValueError) … raise ValueError`
abbrev pub as_value_error : {A : Type 0} → Restored A → Restored A
as_value_error (accepted a) = accepted a
as_value_error (rejected value_error) = rejected value_error
as_value_error (rejected type_error) = rejected value_error
as_value_error (rejected overflow_error) = rejected overflow_error
as_value_error (rejected outside) = rejected outside

-- A value that must be an object, or a `ValueError`.
abbrev pub fields_of : Json → Restored Fields
fields_of (object fs) = accepted fs
fields_of null = rejected value_error
fields_of not_a_number = rejected value_error
fields_of (boolean b) = rejected value_error
fields_of (integer n) = rejected value_error
fields_of (real z n) = rejected value_error
fields_of (infinity b) = rejected value_error
fields_of (string t) = rejected value_error
fields_of (array xs) = rejected value_error

unfoldable pub read_record : PythonTexts → Fields → Restored PublishedRecord
read_record py fs = do
  hash ← needed (field_of (codes "content_hash") fs)
  id ← needed (field_of (codes "event_id") fs)
  raw ← needed (field_of (codes "revision_number") fs)
  number ← int_of raw
  count ← count_of number
  accepted
      (record { content_hash = str_of py hash; event_id = str_of py id; revision_number = count })

-- The loop over the published record of an adapter.
unfoldable pub read_published :
    PythonTexts → Fields → Dict PublishedRecord → Restored (Dict PublishedRecord)
read_published py no_fields published = accepted published
read_published py (field claim_key j fs) published = do
  entry ← fields_of j
  r ← as_value_error (read_record py entry)
  read_published py fs (set_key claim_key r published)

-- A validator: null or a text, which are what the source writes.
abbrev pub validator_of : Option Json → Restored (Option Text)
validator_of none = accepted none
validator_of (some null) = accepted none
validator_of (some (string t)) = accepted (some t)
validator_of (some not_a_number) = rejected outside
validator_of (some (boolean b)) = rejected outside
validator_of (some (integer n)) = rejected outside
validator_of (some (real z n)) = rejected outside
validator_of (some (infinity b)) = rejected outside
validator_of (some (array xs)) = rejected outside
validator_of (some (object fs)) = rejected outside

abbrev pub is_truthy_integer : ℤ → Bool
is_truthy_integer (pos zero) = false
is_truthy_integer (pos (suc n)) = true
is_truthy_integer (negsuc n) = true

-- `bool(j)`
abbrev pub is_truthy : Json → Bool
is_truthy null = false
is_truthy not_a_number = true
is_truthy (boolean b) = b
is_truthy (integer n) = is_truthy_integer n
is_truthy (real is_zero n) = not is_zero
is_truthy (infinity b) = true
is_truthy (string []) = false
is_truthy (string (c ∷ cs)) = true
is_truthy (array no_items) = false
is_truthy (array (item x xs)) = true
is_truthy (object no_fields) = false
is_truthy (object (field k v fs)) = true

abbrev pub parsed_instant : Option Instant → Restored (Option Instant)
parsed_instant none = rejected value_error
parsed_instant (some t) = accepted (some t)

abbrev pub instant_of : PythonTexts → Json → Restored (Option Instant)
instant_of py (string t) = parsed_instant (py.fromisoformat t)
instant_of py null = rejected type_error
instant_of py not_a_number = rejected type_error
instant_of py (boolean b) = rejected type_error
instant_of py (integer n) = rejected type_error
instant_of py (real z n) = rejected type_error
instant_of py (infinity b) = rejected type_error
instant_of py (array xs) = rejected type_error
instant_of py (object fs) = rejected type_error

-- `datetime.fromisoformat(last_polled) if last_polled else None`
unfoldable pub last_polled_of : PythonTexts → Json → Restored (Option Instant)
last_polled_of py j = if is_truthy j then instant_of py j else accepted none

unfoldable pub read_state : PythonTexts → Fields → Restored AdapterState
read_state py fs = do
  published_raw ← fields_of (or_value (object no_fields) (field_of (codes "published") fs))
  published ← read_published py published_raw []
  etag ← validator_of (field_of (codes "etag") fs)
  last_modified ← validator_of (field_of (codes "last_modified") fs)
  failures ← int_of (or_value (integer (pos 0)) (field_of (codes "consecutive_failures") fs))
  count ← count_of failures
  last ← last_polled_of py (or_value null (field_of (codes "last_polled_at") fs))
  accepted (record {
    validators = record { etag = etag; last_modified = last_modified };
    consecutive_failures = count;
    published = published;
    last_polled_at = last;
  })

-- The loop over the adapters.
unfoldable pub read_states : PythonTexts → Fields → PollingCoordinator → Restored PollingCoordinator
read_states py no_fields c = accepted c
read_states py (field adapter_id j fs) c = do
  raw ← fields_of j
  state ← read_state py raw
  read_states py fs (set_key adapter_id state c)

unfoldable pub from_snapshot : PythonTexts → Json → Restored PollingCoordinator
from_snapshot py j = do fs ← fields_of j; read_states py fs []

abbrev pub text_or_null : Option Text → Json
text_or_null none = null
text_or_null (some t) = string t

abbrev pub instant_or_null : PythonTexts → Option Instant → Json
instant_or_null py none = null
instant_or_null py (some t) = string (py.isoformat t)

abbrev pub write_record : PublishedRecord → Json
write_record r = object (
    field (codes "content_hash") (string r.content_hash) (
      field (codes "event_id") (string r.event_id)
        (field (codes "revision_number") (integer (pos r.revision_number)) no_fields)))

unfoldable pub write_published : Dict PublishedRecord → Fields
write_published [] = no_fields
write_published ((claim_key, r) ∷ rest) = field claim_key (write_record r) (write_published rest)

unfoldable pub write_state : PythonTexts → AdapterState → Fields
write_state py s = field (codes "etag") (text_or_null s.validators.etag) (
    field (codes "last_modified") (text_or_null s.validators.last_modified) (
      field (codes "consecutive_failures") (integer (pos s.consecutive_failures)) (
        field (codes "last_polled_at") (instant_or_null py s.last_polled_at)
          (field (codes "published") (object (write_published s.published)) no_fields))))

unfoldable pub write_states : PythonTexts → PollingCoordinator → Fields
write_states py [] = no_fields
write_states py ((adapter_id, s) ∷ rest) =
    field adapter_id (object (write_state py s)) (write_states py rest)

unfoldable pub snapshot : PythonTexts → PollingCoordinator → Json
snapshot py c = object (write_states py c)
