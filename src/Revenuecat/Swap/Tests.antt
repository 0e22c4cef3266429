-- ===== src/Revenuecat/Swap/Tests.antt =====
-- backend/app/services/revenuecat/swap.py: a product in one entitlement and one package; the new one cannot
-- be attached to the entitlement.
use aso_light.Base.{String, ◌≡◌, refl, none, some, List, [], ◌∷◌}
use aso_light.Revenuecat.Client.{
  Client, SwapRequest, Product, Holder, answered, raised, SwapOutcome, ended, swapped, Problem,
  attach_entitlement_failed,
}
use aso_light.Revenuecat.Swap.{
  swap, find_product_by_store_id, discover, attached_packages, move_attachments, holders_of,
  try_each,
}
use aso_light.Revenuecat.Swap.Errors.{IsReported, swap-IsReported}

abbrev product : String → String → Product
product i store = record {
  id = i;
  store_identifier = some store;
  app_id = some "app";
  display_name = none;
}

abbrev holder : String → Holder
holder i = record {
  id = i;
  products = some (record { id = some "prod-1"; store_identifier = none } ∷ []);
}

abbrev client : Client
client = record {
  products = λ h store. answered (product "prod-1" "monthly" ∷ []);
  created = λ h store. answered (product "prod-2" store);
  entitlements = λ h. answered (holder "pro" ∷ []);
  offerings = λ h. answered ("default" ∷ []);
  packages = λ h offering. answered (holder "$rc_monthly" ∷ []);
  entitlement_attached = λ h e. raised "409";
  entitlement_detached = λ h e. answered tt;
  package_attached = λ h p. answered tt;
  package_detached = λ h p. answered tt;
  archived = λ h p. answered tt;
}

abbrev request : SwapRequest
request = record {
  rc_app_id = none;
  old_store_id = "monthly";
  new_store_id = "monthly_v2";
  product_type = "subscription";
  subscription_period = none;
  display_name = none;
}

abbrev errors_of : SwapOutcome → List Problem
errors_of (ended steps errors) = errors
errors_of (swapped steps errors old_id new_id entitlements packages) = errors

-- The old product is archived, and the entitlement is left without a product.
swap-detached : errors_of (swap client request []).0 ≡ attach_entitlement_failed "pro" "409" ∷ []
unfolding swap find_product_by_store_id discover attached_packages move_attachments holders_of
    try_each
swap-detached = refl

swap-IsReported_example : IsReported (swap client request []).0
swap-IsReported_example = swap-IsReported client request []
