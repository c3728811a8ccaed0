-- ===== src/Poller/Types.antt =====
-- The values that a check works on: models/product.py, models/watch.py, models/product_change.py,
-- the parsed product of sites/base.py, and the staged alert of services/poller.py.
use stock_track.Common.{
  ℕ, Bool, true, false, Option, none, some, List, String, str_eq, if◌then◌else◌,
}
use stock_track.Common.Int.{ℤ}
use stock_track.Models.{EventKind}

-- A phase string; the column and the parsed field may also be empty, which is `none` there.
pub data Phase : Type 0 where
  early public oos : Phase
  other : String → Phase

unfoldable pub phase_eq : Phase → Phase → Bool
phase_eq Phase.early Phase.early = true
phase_eq Phase.public Phase.public = true
phase_eq Phase.oos Phase.oos = true
phase_eq (Phase.other s) (Phase.other t) = str_eq s t
phase_eq _ _ = false

abbrev pub is_oos : Phase → Bool
is_oos Phase.oos = true
is_oos Phase.early = false
is_oos Phase.public = false
is_oos (Phase.other s) = false

-- `_phase`
unfoldable pub phase : Option Phase → Bool → Phase
phase (some p) in_stock = p
phase none in_stock = if in_stock then Phase.public else Phase.oos

-- What a handler parses for one product. `offer` stands for the offer fields of the plugin API.
pub record Parsed (F O : Type 0) : Type 0 where
  pub code : String
  pub title : String
  pub in_stock : Bool
  pub brand : String
  pub price : Option F
  pub delivery : String
  pub url : String
  pub availability : Option Phase
  pub basket_url : String
  pub offer : O

-- A row of the `product` table, of one watch. `discounts` is `discounts_json`, and `offer` the
-- other offer columns.
pub record Row (F O : Type 0) : Type 0 where
  pub id : ℕ
  pub code : String
  pub title : String
  pub brand : String
  pub url : String
  pub availability : Option Phase
  pub basket_url : String
  pub delivery : String
  pub current_in_stock : Bool
  pub current_price : Option F
  pub price_ref : Option F
  pub lowest_price : Option F
  pub available_since : Option ℕ
  pub muted_until : Option ℕ
  pub spec_watts : Option ℕ
  pub discounts : Option String
  pub offer : O
  pub archived_at : Option ℕ
  pub last_checked : Option ℕ
  pub first_seen : ℕ
  pub last_seen : ℕ

pub record Watch (F : Type 0) : Type 0 where
  pub interval_seconds : ℤ
  pub track_price_drops : Bool
  pub track_price_rises : Bool
  pub quiet : Bool
  pub price_drop_min_pct : Option F
  pub price_drop_min_abs : Option F
  pub price_target : Option F
  pub last_checked_at : Option ℕ
  pub last_ok_at : Option ℕ
  pub consecutive_failures : ℕ
  pub last_error : String

-- The settings that a check reads, after their conversion.
pub record Settings (F : Type 0) : Type 0 where
  pub restock_priority : ℤ
  pub new_product_priority : ℤ
  pub oos_priority : ℤ
  pub drop_min_pct : F
  pub drop_min_abs : F
  pub drop_priority : ℤ
  pub lead_time_priority : ℤ
  pub lead_time_min_days : ℤ
  pub in_stock_only : Bool
  pub dashboard_url : String
  pub alert_group_threshold : ℤ

-- A row added to `event`; its id and its time come from the database and the clock at the flush.
pub record NewEvent (F : Type 0) : Type 0 where
  pub product_id : ℕ
  pub kind : EventKind
  pub price : Option F
  pub available_seconds : Option ℤ

pub data ChangeField : Type 0 where
  price discounts : ChangeField

-- A row of `product_change`; the table is in the order of its ids.
pub record Change : Type 0 where
  pub product_id : ℕ
  pub ts : ℕ
  pub field : ChangeField
  pub old : Option String
  pub new : Option String

pub record Counts : Type 0 where
  pub early : ℕ
  pub public : ℕ
  pub oos : ℕ
  pub price_drops : ℕ
  pub new_products : ℕ
  pub lead_time_changes : ℕ
  pub price_targets : ℕ
  pub new_lows : ℕ
  pub price_rises : ℕ

-- The pair of closures that a branch stages, with the values that they capture. `also_lowest` wraps
-- the closures of a staged drop, as `_nl_merged_ok` does.
pub data Effect (F : Type 0) : Type 0 where
  appeared : Phase → Option F → Effect F
  entered : Phase → Option F → Phase → Option ℕ → Effect F
  left : Option F → Option ℤ → Phase → Option ℕ → Effect F
  delisted : Option ℤ → Phase → Option ℕ → Effect F
  dropped : F → Option F → Effect F
  rose : F → Option F → Effect F
  lowest : F → Effect F
  reached_target : F → Option F → Effect F
  rescheduled : Option F → String → Effect F
  also_lowest : Effect F → F → Effect F

-- `PendingAlert`, without its texts. `row` is the object: its place among the rows.
pub record Alert (F : Type 0) : Type 0 where
  pub row : ℕ
  pub kind : EventKind
  pub click_url : Option String
  pub priority : ℤ
  pub effect : Effect F

-- The session of one check: the watch's rows, the rows that it adds, and what it counts.
pub record State (F O : Type 0) : Type 0 where
  pub rows : List (Row F O)
  pub next_id : ℕ
  pub events : List (NewEvent F)
  pub changes : List Change
  pub counts : Counts
  pub pending : List (Alert F)

-- What the check calls that is not the check's own: text functions of the language, `parse_watts`,
-- `parse_delivery_date` on a day number, and the reading of the offer fields.
pub record Env (F O : Type 0) : Type 0 where
  pub casefold : String → String
  pub mentions_collection : String → Bool
  pub parse_watts : String → Option ℕ
  pub parse_delivery_date : String → ℕ → Option ℕ
  pub discounts_to_json : O → Option String
  pub offer_columns : O → O
  pub repr : F → String
  pub num : String → Option F
