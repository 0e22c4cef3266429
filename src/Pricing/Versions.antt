-- ===== src/Pricing/Versions.antt =====
-- backend/app/services/pricing/versions.py: the items of a saved price version, and the numbering of the
-- versions by sessions that may run at the same time. A commit of the database is one event; it fails
-- where the unique constraint of the table is broken.
pub mod Numbering
mod Tests
use aso_light.Base.{
  ℕ, suc, ◌+◌, String, Bool, true, false, not, ◌&&◌, Option, none, some, List, [], ◌∷◌, ◌++◌, map,
  keep, str_eq, eqb, ltb, any, if◌then◌else◌,
}
use aso_light.Base.Dict.{Dict, lookup, insert, erase, contains, mem}
use aso_light.Base.Sort.{sort, text_leb}
use aso_light.Pricing.Decimal.{Decimal}
use aso_light.Pricing.Safety.{PriceApplySkippedItem}
use aso_light.Pricing.Apply.{PriceApplyItem, Entry}

-- A cached price of a known territory; `entry` reads nothing else of it.
pub record CachedPrice : Type 0 where
  pub territory_code : String
  pub customer_price : Decimal
  pub price_point_id : Option String

pub data Origin : Type 0 where
  current skipped applied failed preserved : Origin

pub record VersionItem : Type 0 where
  pub territory_code : String
  pub currency : Option String
  pub customer_price : Option Decimal
  pub price_point_id : Option String
  pub previous_customer_price : Option Decimal
  pub previous_price_point_id : Option String
  pub force : Bool
  pub preserve_current_price : Bool
  pub origin : Origin

-- `previous`: the last row of a territory
abbrev pub previous_of : List CachedPrice → Dict CachedPrice → Dict CachedPrice
previous_of [] d = d
previous_of (p ∷ prices) d = previous_of prices (insert p.territory_code p d)

module _ (previous : Dict CachedPrice) (currency : Dict String) where
  abbrev pub price_in : Option CachedPrice → Option Decimal
  price_in none = none
  price_in (some p) = some p.customer_price

  abbrev pub point_in : Option CachedPrice → Option String
  point_in none = none
  point_in (some p) = p.price_point_id

  -- `entry`
  unfoldable pub entry :
      String → Option String → Option Decimal → Origin → Bool → Bool → VersionItem
  entry code i price origin force preserve = record {
    territory_code = code;
    currency = lookup code currency;
    customer_price = price;
    price_point_id = i;
    previous_customer_price = price_in (lookup code previous);
    previous_price_point_id = point_in (lookup code previous);
    force = force;
    preserve_current_price = preserve;
    origin = origin;
  }

  abbrev pub cached_entry : String × CachedPrice → VersionItem
  cached_entry (code, p) = entry code p.price_point_id (some p.customer_price) current false false

  module _ (skipped_codes applied_codes kept : List String) (resolved : Dict Decimal) where
    unfoldable pub requested_origin : String → Origin
    requested_origin code =
        if mem code skipped_codes
        then skipped
        else if mem code applied_codes
        then applied
        else failed

    abbrev pub requested_entry : PriceApplyItem → VersionItem
    requested_entry i =
        entry i.territory_code (some i.price_point_id) (lookup i.territory_code resolved)
          (requested_origin i.territory_code) i.force (mem i.territory_code kept)

    abbrev pub preserved_entry : Entry → VersionItem
    preserved_entry (code, i) =
        entry code (some i) (price_in (lookup code previous)) preserved false false

    abbrev pub is_requested : List PriceApplyItem → Entry → Bool
    is_requested items e = any (λ i. str_eq i.territory_code e.0) items

    -- The items of a version with a request
    unfoldable pub request_items : List PriceApplyItem → List Entry → List VersionItem
    request_items items submitted =
        map requested_entry items
        ++ map preserved_entry (keep (λ e. not (is_requested items e)) submitted)

abbrev pub code_leb : String × CachedPrice → String × CachedPrice → Bool
code_leb a b = text_leb a.0 b.0

-- The items of a version without a request: the cached prices, by territory
unfoldable pub cached_items : List CachedPrice → Dict String → List VersionItem
cached_items prices currency =
    let previous = previous_of prices [] in
    map (cached_entry previous currency) (sort code_leb previous)

-- The columns of the unique constraint but the version.
pub record ProductKey : Type 0 where
  pub app_id : ℕ
  pub product_kind : String
  pub product_ref_id : ℕ

abbrev pub same_key : ProductKey → ProductKey → Bool
same_key a b =
    eqb a.app_id b.app_id
    && (str_eq a.product_kind b.product_kind && eqb a.product_ref_id b.product_ref_id)

pub record PriceVersion : Type 0 where
  pub key : ProductKey
  pub version : ℕ
  pub items : List VersionItem

abbrev pub Table : Type 0
Table = List PriceVersion

abbrev pub larger : ℕ → ℕ → ℕ
larger a b = if ltb a b then b else a

-- `select(func.max(PriceVersion.version))`, 0 for no row
unfoldable pub latest : ProductKey → Table → ℕ
latest k [] = 0
latest k (r ∷ rows) = let m = latest k rows in if same_key k r.key then larger r.version m else m

-- `_next_version`
unfoldable pub next_version : ProductKey → Table → ℕ
next_version k rows = latest k rows + 1

-- A call of `record_price_version` on its way: its attempt, and the number it has read for it.
pub record Recording : Type 0 where
  pub key : ProductKey
  pub items : List VersionItem
  pub attempt : ℕ
  pub number : Option ℕ

-- The table, the newest row first; the calls on their way; and those that raised an IntegrityError.
pub record Database : Type 0 where
  pub rows : Table
  pub recordings : Dict Recording
  pub raised : List String

-- A new call has a name of its own; a name in use begins nothing.
pub data Event : Type 0 where
  begin : String → ProductKey → List VersionItem → Event
  read_number commit : String → Event

abbrev pub version_insert_attempts : ℕ
version_insert_attempts = 3

-- A row with the key and the version breaks the constraint.
unfoldable pub is_taken : ProductKey → ℕ → Table → Bool
is_taken k n [] = false
is_taken k n (r ∷ rows) =
    let rest = is_taken k n rows in if same_key k r.key && eqb n r.version then true else rest

abbrev pub begun : String → ProductKey → List VersionItem → Option Recording → Database → Database
begun name k items (some r) d = d
begun name k items none d = record d {
  recordings =
      insert name (record { key = k; items = items; attempt = 1; number = none }) d.recordings;
}

abbrev pub after_read : String → Option Recording → Database → Database
after_read name none d = d
after_read name (some r) d = record d {
  recordings = insert name (record r { number = some (next_version r.key d.rows) }) d.recordings;
}

-- The rollback, and the next attempt if there is one.
abbrev pub after_conflict : String → Recording → Database → Database
after_conflict name r d =
    if eqb r.attempt version_insert_attempts
    then record d { recordings = erase name d.recordings; raised = name ∷ d.raised }
    else record d {
      recordings = insert name (record r { attempt = suc r.attempt; number = none }) d.recordings;
    }

abbrev pub inserted : String → Recording → ℕ → Database → Database
inserted name r n d = record d {
  rows = record { key = r.key; version = n; items = r.items } ∷ d.rows;
  recordings = erase name d.recordings;
}

abbrev pub with_number : String → Recording → Option ℕ → Database → Database
with_number name r none d = d
with_number name r (some n) d =
    if is_taken r.key n d.rows then after_conflict name r d else inserted name r n d

abbrev pub after_commit : String → Option Recording → Database → Database
after_commit name none d = d
after_commit name (some r) d = with_number name r r.number d

-- The loop of `record_price_version`, one event of one call at a time.
unfoldable pub happens : Event → Database → Database
happens (begin name k items) d = begun name k items (lookup name d.recordings) d
happens (read_number name) d = after_read name (lookup name d.recordings) d
happens (commit name) d = after_commit name (lookup name d.recordings) d

unfoldable pub history : List Event → Database → Database
history [] d = d
history (e ∷ events) d = history events (happens e d)

abbrev pub no_versions : Database
no_versions = record { rows = []; recordings = []; raised = [] }
