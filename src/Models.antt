-- ===== src/Models.antt =====
-- The rows of the database that several components share: backend/stocktrack/models/event.py and
-- the clock arithmetic that they all do. A `datetime` is the number of microseconds since
-- `datetime.min`; prices are floats, and stay a type `F`.
use stock_track.Common.{ℕ, ◌-◌, ◌/◌, ◌*◌, Option, none, some, String, if◌then◌else◌, leb}
use stock_track.Common.Int.{ℤ, pos, neg}

abbrev pub microseconds : ℕ
microseconds = 1_000_000

-- `int((a - b).total_seconds())`, which cuts towards zero.
unfoldable pub seconds_between : ℕ → ℕ → ℤ
seconds_between a b = if leb b a then pos ((a - b) / microseconds) else neg ((b - a) / microseconds)

abbrev pub day : ℕ
day = 86_400 * microseconds

-- `now - timedelta(days=n)`; `none` is the `OverflowError` below `datetime.min`.
unfoldable pub days_before : ℕ → ℕ → Option ℕ
days_before now n = if leb (n * day) now then some (now - n * day) else none

-- The strings of `Event.kind` that some code tests for or writes.
pub data EventKind : Type 0 where
  early_access public oos new_product price_drop price_rise new_low price_target lead_time :
      EventKind
  other : String → EventKind

pub record Event (F : Type 0) : Type 0 where
  pub id : ℕ
  pub product_id : ℕ
  pub ts : ℕ
  pub kind : EventKind
  pub price : Option F
  pub available_seconds : Option ℤ
