-- ===== src/Revenuecat/Swap/Errors.antt =====
-- backend/app/services/revenuecat/swap.py: the status of the steps against the errors.
use aso_light.Base.{
  ℕ, suc, ◌+◌, ◌*◌, length-append, if◌then◌else◌, String, Bool, true, false, ◌&&◌, ◌≡◌, refl, ◌∙◌,
  arith, Option, none, some, List, [], ◌∷◌, ◌++◌, length, eqb, inl, inr, Bool-cases,
}
use aso_light.Revenuecat.Client.{
  Call, Calls, attach_entitlement, list_offerings, list_entitlements, detach_entitlement,
  attach_package, detach_package, Holder, Product, attach_entitlement_failed,
  detach_entitlement_failed, attach_package_failed, detach_package_failed, Reply, answered, raised,
  Client, SwapRequest, SwapOutcome, ended, swapped, SwapStep, SwapSteps, Problem, pending, running,
  done, failed, skipped, partial, waiting, new_steps, with_status, product_id, existing_product_id,
}
use aso_light.Revenuecat.Swap.{
  with_entitlements, with_offerings, Tried, count_reply, try_each, find_product_by_store_id,
  move_attachments, discover, after_create, after_lookup, create_new, after_find, after_archive,
  counted, swap, or_other,
}

abbrev pub is_done : SwapStep → Bool
is_done step = elim step.status [
  | done ↦ true
  | pending ↦ false
  | running ↦ false
  | skipped ↦ false
  | failed ↦ false
  | partial ↦ false
]

abbrev pub all_done : SwapSteps → Bool
all_done s =
    is_done s.find_old_product
    && is_done s.create_new_product
    && is_done s.attach_to_entitlements
    && is_done s.attach_to_packages
    && is_done s.detach_old_from_entitlements
    && is_done s.detach_old_from_packages
    && is_done s.archive_old_product

abbrev pub no_errors : List Problem → Bool
no_errors [] = true
no_errors (e ∷ errors) = false

-- 1 if the step is done
abbrev pub one_if_done : SwapStep → ℕ
one_if_done step = if is_done step then 1 else 0

-- The calls that the steps 4 to 7 count as completed.
abbrev pub completed_calls : SwapSteps → ℕ
completed_calls s =
    s.attach_to_entitlements.completed
    + s.attach_to_packages.completed
    + s.detach_old_from_entitlements.completed
    + s.detach_old_from_packages.completed
    + one_if_done s.archive_old_product

-- All steps are done exactly when the swap went through without an error, and each attachment, each
-- detachment and the archive is either completed or has an error.
abbrev pub IsReported : SwapOutcome → Type 0
IsReported (ended steps errors) = all_done steps ≡ false
IsReported (swapped steps errors old_id new_id entitlements packages) =
    (all_done steps ≡ no_errors errors)
    × (completed_calls steps + length errors ≡ 2 * length entitlements + 2 * length packages + 1)

no_errors-append : (a b : List Problem) → no_errors (a ++ b) ≡ (no_errors a && no_errors b)
no_errors-append [] b = refl
no_errors-append (e ∷ a) b = refl

no_errors-eqb :
    (errors : List Problem) (n total : ℕ)
    → n + length errors ≡ total
    → eqb n total ≡ no_errors errors
no_errors-eqb [] n total h = ground (arith, h)
no_errors-eqb (e ∷ errors) n total h = ground (arith, h)

is_done-counted : (n total : ℕ) → is_done (counted n total) ≡ eqb n total
is_done-counted n total = elim (Bool-cases (eqb n total)) [
  | inl all_ ↦ rw all_ refl
  | inr some_ ↦ rw some_ refl
]

module _ {A : Type 0} (call : A → Call) (answer : Calls → A → Reply (Unit {0})) where
  count_reply-length :
      (problem : A → String → Problem) (a : A) (reply : Reply (Unit {0})) (t : Tried)
      → (count_reply call answer problem a reply t).0
          + length (count_reply call answer problem a reply t).1
        ≡ suc (t.0 + length t.1)
  count_reply-length problem a (answered u) t = omega arith
  count_reply-length problem a (raised message) t = omega arith

  -- Each item is counted or has an error.
  try_each-length :
      (problem : A → String → Problem) (as_ : List A) (h : Calls)
      → (try_each call answer problem as_ h).0 + length (try_each call answer problem as_ h).1
        ≡ length as_
  unfolding try_each
  try_each-length problem [] h = refl
  try_each-length problem (a ∷ as_) h = omega (
    arith,
    count_reply-length problem a (answer h a) (try_each call answer problem as_ (call a ∷ h)),
    try_each-length problem as_ (call a ∷ h),
  )

  -- Its step is done exactly when no call failed.
  counted-no_errors :
      (problem : A → String → Problem) (as_ : List A) (h : Calls)
      → is_done (counted (try_each call answer problem as_ h).0 (length as_))
        ≡ no_errors (try_each call answer problem as_ h).1
  counted-no_errors problem as_ h =
      is_done-counted (try_each call answer problem as_ h).0 (length as_)
      ∙ no_errors-eqb (try_each call answer problem as_ h).1 _ _ (try_each-length problem as_ h)

all_done-no_errors :
    (e1 e2 e3 e4 e5 : List Problem) {b c d1 d2 d3 d4 d5 : Bool}
    → b ≡ true
    → c ≡ true
    → d1 ≡ no_errors e1
    → d2 ≡ no_errors e2
    → d3 ≡ no_errors e3
    → d4 ≡ no_errors e4
    → d5 ≡ no_errors e5
    → (b && c && d1 && d2 && d3 && d4 && d5) ≡ no_errors (e1 ++ e2 ++ e3 ++ e4 ++ e5)
all_done-no_errors e1 e2 e3 e4 e5 h k h1 h2 h3 h4 h5 =
    rw
      (
        h, k, h1, h2, h3, h4, h5, no_errors-append, no_errors-append, no_errors-append,
        no_errors-append,
      )
      refl

lengths :
    (e1 e2 e3 e4 e5 : List Problem)
    → length (e1 ++ e2 ++ e3 ++ e4 ++ e5)
      ≡ length e1 + length e2 + length e3 + length e4 + length e5
lengths e1 e2 e3 e4 e5 = omega (
  arith,
  length-append (e1 ++ e2 ++ e3 ++ e4) e5,
  length-append (e1 ++ e2 ++ e3) e4,
  length-append (e1 ++ e2) e3,
  length-append e1 e2,
)

module _ (c : Client) (r : SwapRequest) where
  after_archive-one :
      (old_id : String) (reply : Reply (Unit {0}))
      → one_if_done (after_archive c r old_id reply).0 + length (after_archive c r old_id reply).1
        ≡ 1
  after_archive-one old_id (answered u) = refl
  after_archive-one old_id (raised message) = refl

  after_archive-no_errors :
      (old_id : String) (reply : Reply (Unit {0}))
      → is_done (after_archive c r old_id reply).0 ≡ no_errors (after_archive c r old_id reply).1
  after_archive-no_errors old_id (answered u) = refl
  after_archive-no_errors old_id (raised message) = refl

  move_attachments-IsReported :
      (steps : SwapSteps) (old_id new_id : String) (entitlements : List String)
      (packages : List (String × String)) (h : Calls)
      → is_done steps.find_old_product ≡ true
      → is_done steps.create_new_product ≡ true
      → IsReported (move_attachments c r steps old_id new_id entitlements packages h).0
  unfolding move_attachments
  move_attachments-IsReported steps old_id new_id entitlements packages h found made =
      let h1 =
        (try_each (λ e. attach_entitlement e new_id) c.entitlement_attached
          attach_entitlement_failed entitlements h).2 in
      let h2 =
        (try_each (λ p. attach_package p new_id) c.package_attached attach_package_failed packages
          h1).2 in
      let h3 =
        (try_each (λ e. detach_entitlement e old_id) c.entitlement_detached
          detach_entitlement_failed entitlements h2).2 in
      let h4 =
        (try_each (λ p. detach_package p old_id) c.package_detached detach_package_failed packages
          h3).2 in
      (
        all_done-no_errors _ _ _ _ _ found made
            (counted-no_errors _ _ attach_entitlement_failed entitlements h)
            (counted-no_errors _ _ attach_package_failed packages h1)
            (counted-no_errors _ _ detach_entitlement_failed entitlements h2)
            (counted-no_errors _ _ detach_package_failed packages h3)
            (after_archive-no_errors old_id (c.archived h4 old_id)),
        omega (
          arith,
          lengths
              (try_each (λ e. attach_entitlement e new_id) c.entitlement_attached
                attach_entitlement_failed entitlements h).1
              (try_each (λ p. attach_package p new_id) c.package_attached attach_package_failed
                packages h1).1
              (try_each (λ e. detach_entitlement e old_id) c.entitlement_detached
                detach_entitlement_failed entitlements h2).1
              (try_each (λ p. detach_package p old_id) c.package_detached detach_package_failed
                packages h3).1
              (after_archive c r old_id (c.archived h4 old_id)).1,
          try_each-length (λ e. attach_entitlement e new_id) c.entitlement_attached
              attach_entitlement_failed entitlements h,
          try_each-length (λ p. attach_package p new_id) c.package_attached attach_package_failed
              packages h1,
          try_each-length (λ e. detach_entitlement e old_id) c.entitlement_detached
              detach_entitlement_failed entitlements h2,
          try_each-length (λ p. detach_package p old_id) c.package_detached detach_package_failed
              packages h3,
          after_archive-one old_id (c.archived h4 old_id),
        ),
      )

  -- The steps of a swap that goes on after the creation.
  abbrev IsMade : SwapSteps → Type 0
  IsMade steps = (is_done steps.find_old_product ≡ true) × (is_done steps.create_new_product ≡ true)

  with_entitlements-IsReported :
      (steps : SwapSteps) (old_id new_id : String) (reply : Reply (List Holder)) (h : Calls)
      → IsMade steps
      → IsReported (with_entitlements c r steps old_id new_id reply h).0
  with_entitlements-IsReported steps old_id new_id (raised message) h made =
      rw (made.0, made.1) refl
  with_entitlements-IsReported steps old_id new_id (answered found) h made =
      with_offerings-IsReported (c.offerings h)
    where
      with_offerings-IsReported :
          (reply : Reply (List String))
          → IsReported (with_offerings c r steps old_id new_id found reply (list_offerings ∷ h)).0
      with_offerings-IsReported (raised message) = rw (made.0, made.1) refl
      with_offerings-IsReported (answered offerings) =
          move_attachments-IsReported steps old_id new_id _ _ _ made.0 made.1

  discover-IsReported :
      (steps : SwapSteps) (old_id new_id : String) (h : Calls)
      → IsMade steps
      → IsReported (discover c r steps old_id new_id h).0
  unfolding discover
  discover-IsReported steps old_id new_id h made =
      with_entitlements-IsReported steps old_id new_id (c.entitlements h) (list_entitlements ∷ h)
        made

  after_create-IsReported :
      (steps : SwapSteps) (old : Product) (reply : Reply Product) (h : Calls)
      → is_done steps.find_old_product ≡ true
      → IsReported (after_create c r steps old reply h).0
  after_create-IsReported steps old (raised message) h found = rw found refl
  after_create-IsReported steps old (answered new) h found =
      discover-IsReported
        (record steps { create_new_product = with_status done (product_id new.id) waiting }) old.id
        new.id h (found, refl)

  after_lookup-IsReported :
      (steps : SwapSteps) (old : Product) (app : String) (reply : Reply (Option Product))
      (h : Calls)
      → is_done steps.find_old_product ≡ true
      → IsReported (after_lookup c r steps old app (reply, h)).0
  after_lookup-IsReported steps old app (raised message) h found = rw found refl
  after_lookup-IsReported steps old app (answered (some new)) h found =
      discover-IsReported
        (record steps {
          create_new_product = with_status done (existing_product_id new.id) waiting;
        })
        old.id new.id h (found, refl)
  after_lookup-IsReported steps old app (answered none) h found =
      after_create-IsReported steps old (c.created h r.new_store_id) _ found

  create_new-IsReported :
      (steps : SwapSteps) (old : Product) (app : Option String) (h : Calls)
      → is_done steps.find_old_product ≡ true
      → IsReported (create_new c r steps old app h).0
  unfolding find_product_by_store_id
  create_new-IsReported steps old none h found = rw found refl
  create_new-IsReported steps old (some app) h found =
      after_lookup-IsReported steps old app _ _ found

  after_find-IsReported :
      (reply : Reply (Option Product)) (h : Calls) → IsReported (after_find c r (reply, h)).0
  after_find-IsReported (raised message) h = refl
  after_find-IsReported (answered none) h = refl
  after_find-IsReported (answered (some old)) h =
      create_new-IsReported
        (record new_steps { find_old_product = with_status done (product_id old.id) waiting }) old
        (or_other old.app_id r.rc_app_id) h refl

-- A swap that ends early leaves a step undone; in one that goes through, all seven steps are done
-- exactly when its list of errors is empty, and the calls that are counted as completed and the
-- errors together are one for each attachment, for each detachment and for the archive.
pub swap-IsReported : (c : Client) (r : SwapRequest) (h : Calls) → IsReported (swap c r h).0
unfolding swap
swap-IsReported c r h =
    let (reply, h') = find_product_by_store_id c r r.old_store_id h in
    after_find-IsReported c r reply h'
