-- ===== src/Revenuecat/Swap.antt =====
-- backend/app/services/revenuecat/swap.py: the seven steps of the swap of a product.
mod Found
pub mod Ledger
pub mod Errors
mod Tests
use aso_light.Base.{
  ℕ, suc, ◌+◌, String, Bool, true, false, ◌||◌, Option, none, some, List, [], ◌∷◌, ◌++◌, map,
  length, keep, any, str_eq, eqb, if◌then◌else◌,
}
use aso_light.Revenuecat.Client.{
  Product, Attached, Holder, Call, Calls, Reply, Client, Status, Detail, SwapStep, SwapSteps,
  Problem, SwapOutcome, SwapRequest, waiting, new_steps, with_status, list_products, create_product,
  list_entitlements, list_offerings, list_packages, attach_entitlement, detach_entitlement,
  attach_package, detach_package, archive_product, answered, raised, pending, running, done,
  skipped, failed, partial, exception, no_match, product_id, existing_product_id,
  archived_product_id, no_app_id, find_old_failed, missing_app_id, create_new_failed,
  discover_failed, archive_failed, attach_entitlement_failed, detach_entitlement_failed,
  attach_package_failed, detach_package_failed, ended, swapped,
}

-- `a == b` on a value that may be absent
abbrev pub is_text : Option String → String → Bool
is_text none t = false
is_text (some s) t = str_eq s t

-- `a or b`
abbrev pub or_other : Option String → Option String → Option String
or_other none b = b
or_other (some a) b = if str_eq a "" then b else some a

abbrev pub first_match : String → List Product → Option Product
first_match store [] = none
first_match store (p ∷ products) =
    let rest = first_match store products in
    if is_text p.store_identifier store then some p else rest

abbrev pub is_old : String → String → Attached → Bool
is_old old_id old_store p = is_text p.id old_id || is_text p.store_identifier old_store

abbrev pub has_old : String → String → Holder → Bool
has_old old_id old_store h = elim h.products [
  | none ↦ false
  | some products ↦ any (is_old old_id old_store) products
]

abbrev pub holder_id : Holder → String
holder_id h = h.id

-- The ids of the entitlements, or of the packages, that name the old product
unfoldable pub holders_of : String → String → List Holder → List String
holders_of old_id old_store hs = map holder_id (keep (has_old old_id old_store) hs)

abbrev pub package_of : String → String → String × String
package_of offering pkg = (offering, pkg)

-- The step after its loop
abbrev pub counted : ℕ → ℕ → SwapStep
counted completed total = record {
  status = if eqb completed total then done else partial;
  detail = none;
  completed = completed;
  total = total;
}

-- The loops of the steps 4 to 6: every call is made, and a failed one is reported.
abbrev pub Tried : Type 0
Tried = ℕ × List Problem × Calls

module _ {A : Type 0} (call : A → Call) (answer : Calls → A → Reply (Unit {0})) where
  module _ (problem : A → String → Problem) where
    abbrev pub count_reply : A → Reply (Unit {0}) → Tried → Tried
    count_reply a (answered u) (n, errors, h) = (suc n, errors, h)
    count_reply a (raised message) (n, errors, h) = (n, problem a message ∷ errors, h)

    unfoldable pub try_each : List A → Calls → Tried
    try_each [] h = (0, [], h)
    try_each (a ∷ as_) h = count_reply a (answer h a) (try_each as_ (call a ∷ h))

module _ (c : Client) (r : SwapRequest) where
  -- `find_product_by_store_id`
  abbrev pub found_in : String → Reply (List Product) → Reply (Option Product)
  found_in store (answered products) = answered (first_match store products)
  found_in store (raised message) = raised message

  unfoldable pub find_product_by_store_id : String → Calls → Reply (Option Product) × Calls
  find_product_by_store_id store h =
      (found_in store (c.products h store), list_products r.rc_app_id store ∷ h)

  -- The packages that name the old product; an offering whose packages cannot be listed is passed
  -- over.
  abbrev pub packages_in : String → String → Reply (List Holder) → List (String × String)
  packages_in old_id offering (answered packages) =
      map (package_of offering) (holders_of old_id r.old_store_id packages)
  packages_in old_id offering (raised message) = []

  unfoldable pub attached_packages : String → List String → Calls → List (String × String) × Calls
  attached_packages old_id [] h = ([], h)
  attached_packages old_id (offering ∷ offerings) h =
      let (packages, h') = attached_packages old_id offerings (list_packages offering ∷ h) in
      (packages_in old_id offering (c.packages h offering) ++ packages, h')

  -- SwapStep 7
  abbrev pub after_archive : String → Reply (Unit {0}) → SwapStep × List Problem
  after_archive old_id (answered u) = (with_status done (archived_product_id old_id) waiting, [])
  after_archive old_id (raised message) =
      (with_status failed (exception message) waiting, archive_failed message ∷ [])

  -- The steps 4 to 7
  unfoldable pub move_attachments :
      SwapSteps
      → String
      → String
      → List String
      → List (String × String)
      → Calls
      → SwapOutcome × Calls
  move_attachments steps old_id new_id entitlements packages h =
      let (n1, e1, h1) =
        try_each (λ e. attach_entitlement e new_id) c.entitlement_attached attach_entitlement_failed
          entitlements h in
      let (n2, e2, h2) =
        try_each (λ p. attach_package p new_id) c.package_attached attach_package_failed packages
          h1 in
      let (n3, e3, h3) =
        try_each (λ e. detach_entitlement e old_id) c.entitlement_detached detach_entitlement_failed
          entitlements h2 in
      let (n4, e4, h4) =
        try_each (λ p. detach_package p old_id) c.package_detached detach_package_failed packages
          h3 in
      let (archive, e5) = after_archive old_id (c.archived h4 old_id) in
      (
        swapped
            (record steps {
              attach_to_entitlements = counted n1 (length entitlements);
              attach_to_packages = counted n2 (length packages);
              detach_old_from_entitlements = counted n3 (length entitlements);
              detach_old_from_packages = counted n4 (length packages);
              archive_old_product = archive;
            })
            (e1 ++ e2 ++ e3 ++ e4 ++ e5) old_id new_id entitlements packages,
        archive_product old_id ∷ h4,
      )

  abbrev pub discover_stopped : SwapSteps → String → SwapOutcome
  discover_stopped steps message =
      ended
        (record steps { attach_to_entitlements = with_status failed (exception message) waiting })
        (discover_failed message ∷ [])

  abbrev pub with_offerings :
      SwapSteps → String → String → List Holder → Reply (List String) → Calls → SwapOutcome × Calls
  with_offerings steps old_id new_id entitlements (raised message) h =
      (discover_stopped steps message, h)
  with_offerings steps old_id new_id entitlements (answered offerings) h =
      let (packages, h') = attached_packages old_id offerings h in
      move_attachments steps old_id new_id (holders_of old_id r.old_store_id entitlements) packages
        h'

  abbrev pub with_entitlements :
      SwapSteps → String → String → Reply (List Holder) → Calls → SwapOutcome × Calls
  with_entitlements steps old_id new_id (raised message) h = (discover_stopped steps message, h)
  with_entitlements steps old_id new_id (answered entitlements) h =
      with_offerings steps old_id new_id entitlements (c.offerings h) (list_offerings ∷ h)

  -- SwapStep 3
  unfoldable pub discover : SwapSteps → String → String → Calls → SwapOutcome × Calls
  discover steps old_id new_id h =
      with_entitlements steps old_id new_id (c.entitlements h) (list_entitlements ∷ h)

  abbrev pub create_stopped : SwapSteps → String → SwapOutcome
  create_stopped steps message =
      ended (record steps { create_new_product = with_status failed (exception message) waiting })
        (create_new_failed message ∷ [])

  abbrev pub after_create : SwapSteps → Product → Reply Product → Calls → SwapOutcome × Calls
  after_create steps old (raised message) h = (create_stopped steps message, h)
  after_create steps old (answered new) h =
      discover (record steps { create_new_product = with_status done (product_id new.id) waiting })
        old.id new.id h

  -- SwapStep 2: a product with the new identifier is taken; else one is created.
  abbrev pub after_lookup :
      SwapSteps → Product → String → Reply (Option Product) × Calls → SwapOutcome × Calls
  after_lookup steps old app (raised message, h) = (create_stopped steps message, h)
  after_lookup steps old app (answered (some new), h) =
      discover
        (record steps {
          create_new_product = with_status done (existing_product_id new.id) waiting;
        })
        old.id new.id h
  after_lookup steps old app (answered none, h) =
      after_create steps old (c.created h r.new_store_id) (
        create_product r.new_store_id app r.product_type (or_other r.display_name old.display_name)
          r.subscription_period
        ∷ h)

  abbrev pub create_new : SwapSteps → Product → Option String → Calls → SwapOutcome × Calls
  create_new steps old none h = (
    ended (record steps { create_new_product = with_status failed no_app_id waiting })
        (missing_app_id ∷ []),
    h,
  )
  create_new steps old (some app) h =
      after_lookup steps old app (find_product_by_store_id r.new_store_id h)

  -- SwapStep 1
  abbrev pub after_find : Reply (Option Product) × Calls → SwapOutcome × Calls
  after_find (raised message, h) = (
    ended (record new_steps { find_old_product = with_status failed (exception message) waiting })
        (find_old_failed message ∷ []),
    h,
  )
  after_find (answered none, h) = (
    ended
        (record new_steps {
          find_old_product = with_status skipped (no_match r.old_store_id) waiting;
        })
        [],
    h,
  )
  after_find (answered (some old), h) =
      create_new
        (record new_steps { find_old_product = with_status done (product_id old.id) waiting }) old
        (or_other old.app_id r.rc_app_id) h

  -- `RevenueCatProductSwap.swap`
  unfoldable pub swap : Calls → SwapOutcome × Calls
  swap h = after_find (find_product_by_store_id r.old_store_id h)
