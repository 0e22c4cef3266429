-- ===== src/Revenuecat/Client.antt =====
-- backend/app/services/revenuecat/swap.py: the data of a swap, and the RevenueCat client as the replies to
-- the calls made so far.
use aso_light.Base.{ℕ, String, Option, none, some, List}

-- A product as RevenueCat lists it.
pub record Product : Type 0 where
  pub id : String
  pub store_identifier : Option String
  pub app_id : Option String
  pub display_name : Option String

-- A product that an entitlement or a package names.
pub record Attached : Type 0 where
  pub id : Option String
  pub store_identifier : Option String

-- An entitlement or a package; `products` may be missing.
pub record Holder : Type 0 where
  pub id : String
  pub products : Option (List Attached)

pub data Call : Type 0 where
  list_products : Option String → String → Call
  create_product : String → String → String → Option String → Option String → Call
  list_entitlements list_offerings : Call
  list_packages : String → Call
  attach_entitlement detach_entitlement : String → String → Call
  attach_package detach_package : String × String → String → Call
  archive_product : String → Call

abbrev pub Calls : Type 0
Calls = List Call

-- `str` of a RevenueCatAPIError
pub data Reply {ℓ} (A : Type ℓ) : Type ℓ where
  answered : A → Reply A
  raised : String → Reply A

-- The replies, from the calls before; the newest call stands first.
pub record Client : Type 0 where
  pub products : Calls → String → Reply (List Product)
  pub created : Calls → String → Reply Product
  pub entitlements : Calls → Reply (List Holder)
  pub offerings : Calls → Reply (List String)
  pub packages : Calls → String → Reply (List Holder)
  pub entitlement_attached : Calls → String → Reply (Unit {0})
  pub entitlement_detached : Calls → String → Reply (Unit {0})
  pub package_attached : Calls → String × String → Reply (Unit {0})
  pub package_detached : Calls → String × String → Reply (Unit {0})
  pub archived : Calls → String → Reply (Unit {0})

pub data Status : Type 0 where
  pending running done skipped failed partial : Status

-- The `detail` of a step.
pub data Detail : Type 0 where
  exception : String → Detail
  no_match : String → Detail
  product_id existing_product_id archived_product_id : String → Detail
  no_app_id : Detail

pub record SwapStep : Type 0 where
  pub status : Status
  pub detail : Option Detail
  pub completed : ℕ
  pub total : ℕ

pub record SwapSteps : Type 0 where
  pub find_old_product : SwapStep
  pub create_new_product : SwapStep
  pub attach_to_entitlements : SwapStep
  pub attach_to_packages : SwapStep
  pub detach_old_from_entitlements : SwapStep
  pub detach_old_from_packages : SwapStep
  pub archive_old_product : SwapStep

-- An entry of `errors`.
pub data Problem : Type 0 where
  find_old_failed : String → Problem
  missing_app_id : Problem
  create_new_failed discover_failed archive_failed : String → Problem
  attach_entitlement_failed detach_entitlement_failed : String → String → Problem
  attach_package_failed detach_package_failed : String × String → String → Problem

-- What `swap` returns: early, or after its last step.
pub data SwapOutcome : Type 0 where
  ended : SwapSteps → List Problem → SwapOutcome
  swapped :
      SwapSteps
      → List Problem
      → String
      → String
      → List String
      → List (String × String)
      → SwapOutcome

-- The arguments of `swap`, and `rc_app_id`.
pub record SwapRequest : Type 0 where
  pub rc_app_id : Option String
  pub old_store_id : String
  pub new_store_id : String
  pub product_type : String
  pub subscription_period : Option String
  pub display_name : Option String

abbrev pub waiting : SwapStep
waiting = record { status = pending; detail = none; completed = 0; total = 0 }

abbrev pub new_steps : SwapSteps
new_steps = record {
  find_old_product = waiting;
  create_new_product = waiting;
  attach_to_entitlements = waiting;
  attach_to_packages = waiting;
  detach_old_from_entitlements = waiting;
  detach_old_from_packages = waiting;
  archive_old_product = waiting;
}

abbrev pub with_status : Status → Detail → SwapStep → SwapStep
with_status status detail step = record step { status = status; detail = some detail }
