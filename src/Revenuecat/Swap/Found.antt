-- ===== src/Revenuecat/Swap/Found.antt =====
-- backend/app/services/revenuecat/swap.py: the products, entitlements and packages that a swap finds.
use aso_light.Base.{
  Bool, any, String, true, false, ◌≡◌, ◌≢◌, ◌⊎◌, refl, sym, ap, ◌∙◌, arith, Option, none, some,
  List, [], ◌∷◌, ◌++◌, map, inl, inr, Bool-cases, eq_iff, str_eq_refl,
}
use aso_light.Revenuecat.Client.{
  Calls, Attached, list_offerings, list_packages, Holder, Product, Reply, answered, raised, Client,
  SwapRequest,
}
use aso_light.Revenuecat.Swap.{
  is_text, is_old, has_old, first_match, package_of, packages_in, found_in, holders_of,
  attached_packages,
}

false-true : false ≡ true → ⊥
false-true h = ground (arith, h)

some_injective : {A : Type 0} {a b : A} → some a ≡ some b → a ≡ b
some_injective h = cc h

answered_injective : {A : Type 0} {a b : A} → answered a ≡ answered b → a ≡ b
answered_injective h = cc h

-- The first of the products with the store identifier.
abbrev pub IsFirst : String → List Product → Product → Type 0
IsFirst store [] p = ⊥
IsFirst store (q ∷ products) p =
    ((q.store_identifier ≡ some store) × (q ≡ p))
    ⊎ ((q.store_identifier ≢ some store) × IsFirst store products p)

-- One of the products has the id or the store identifier.
abbrev pub IsNamed : String → String → List Attached → Type 0
IsNamed old_id store [] = ⊥
IsNamed old_id store (p ∷ products) =
    (p.id ≡ some old_id) ⊎ ((p.store_identifier ≡ some store) ⊎ IsNamed old_id store products)

-- The products are listed and name the old one.
abbrev pub NamesOld : String → String → Option (List Attached) → Type 0
NamesOld old_id store none = ⊥
NamesOld old_id store (some products) = IsNamed old_id store products

-- The ids of those that name the old product, in order.
abbrev pub Picks : String → String → List Holder → List String → Type 0
Picks old_id store [] ids = ids ≡ []
Picks old_id store (h ∷ hs) ids =
    ((rest : List String) × (ids ≡ h.id ∷ rest)
      × NamesOld old_id store h.products
      × Picks old_id store hs rest)
    ⊎ ((NamesOld old_id store h.products → ⊥) × Picks old_id store hs ids)

module _ (c : Client) (r : SwapRequest) where
  -- The product that the first lookup found.
  abbrev pub IsOld : Calls → String → Type 0
  IsOld h old_id =
      (old : Product) × (products : List Product) × (c.products h r.old_store_id
        ≡ answered products)
      × IsFirst r.old_store_id products old
      × (old_id ≡ old.id)

  -- The product that the second lookup found, or the one created.
  abbrev pub IsNew : String → Type 0
  IsNew new_id =
      (new : Product) × (at_ : Calls) × (new_id ≡ new.id)
      × (((products : List Product) × (c.products at_ r.new_store_id ≡ answered products)
            × IsFirst r.new_store_id products new)
          ⊎ (c.created at_ r.new_store_id ≡ answered new))

  -- The packages of one offering that name the old product; none if they cannot be listed.
  abbrev pub InOffering : String → String → Reply (List Holder) → List (String × String) → Type 0
  InOffering old_id offering (answered found) packages =
      (ids : List String) × (packages ≡ map (package_of offering) ids)
      × Picks old_id r.old_store_id found ids
  InOffering old_id offering (raised message) packages = packages ≡ []

  -- Those of each offering, in order.
  abbrev pub InOfferings : String → List String → Calls → List (String × String) → Type 0
  InOfferings old_id [] h packages = packages ≡ []
  InOfferings old_id (offering ∷ offerings) h packages =
      (here : List (String × String)) × (rest : List (String × String)) × (packages ≡ here ++ rest)
      × InOffering old_id offering (c.packages h offering) here
      × InOfferings old_id offerings (list_packages offering ∷ h) rest

  -- The entitlements and the packages that name the old product, as they were listed.
  abbrev pub IsEntitled : String → List String → Type 0
  IsEntitled old_id entitlements =
      (at_ : Calls) × (found : List Holder) × (c.entitlements at_ ≡ answered found)
      × Picks old_id r.old_store_id found entitlements

  abbrev pub IsOffered : String → List (String × String) → Type 0
  IsOffered old_id packages =
      (at_ : Calls) × (offerings : List String) × (c.offerings at_ ≡ answered offerings)
      × InOfferings old_id offerings (list_offerings ∷ at_) packages

is_text-some : (o : Option String) (t : String) → is_text o t ≡ true → o ≡ some t
is_text-some none t h = absurd (ground (arith, h))
is_text-some (some s) t h = ap some ((eq_iff s t).0 h)

is_text-other : (o : Option String) (t : String) → is_text o t ≡ false → o ≢ some t
is_text-other o t h e = absurd (false-true (sym h ∙ (ap (λ x. is_text x t) e ∙ str_eq_refl t)))

any_old-IsNamed :
    (old_id store : String) (products : List Attached)
    → (any (is_old old_id store) products ≡ true → IsNamed old_id store products)
      × (any (is_old old_id store) products ≡ false → IsNamed old_id store products → ⊥)
any_old-IsNamed old_id store [] = (λ h. absurd (false-true h), λ h n. n)
any_old-IsNamed old_id store (p ∷ products) =
    let rest = any_old-IsNamed old_id store products in
    elim (Bool-cases (is_text p.id old_id)) [
      | inl same ↦
          (λ h. inl (is_text-some p.id old_id same), λ h n. absurd (ground (arith, h, same)))
      | inr other ↦ elim (Bool-cases (is_text p.store_identifier store)) [
        | inl same ↦ (
          λ h. inr (inl (is_text-some p.store_identifier store same)),
          λ h n. absurd (ground (arith, h, same)),
        )
        | inr differs ↦ (
          λ h. inr (inr (rest.0 (ground (arith, h, other, differs)))),
          λ h n. elim n [
            | inl e ↦ is_text-other p.id old_id other e
            | inr (inl e) ↦ is_text-other p.store_identifier store differs e
            | inr (inr m) ↦ rest.1 (ground (arith, h, other, differs)) m
          ],
        )
      ]
    ]

in_products-NamesOld :
    (old_id store : String) (o : Option (List Attached)) (b : Bool)
    → elim o [ none ↦ false | some products ↦ any (is_old old_id store) products ] ≡ b
    → (b ≡ true → NamesOld old_id store o) × (b ≡ false → NamesOld old_id store o → ⊥)
in_products-NamesOld old_id store none b e = (λ h. absurd (false-true (e ∙ h)), λ h n. n)
in_products-NamesOld old_id store (some products) b e =
    let named = any_old-IsNamed old_id store products in
    (λ h. named.0 (e ∙ h), λ h n. named.1 (e ∙ h) n)

pub holders_of-Picks :
    (old_id store : String) (hs : List Holder) → Picks old_id store hs (holders_of old_id store hs)
unfolding holders_of
holders_of-Picks old_id store [] = refl
holders_of-Picks old_id store (h ∷ hs) = elim (Bool-cases (has_old old_id store h)) [
  | inl names ↦
      let named = (in_products-NamesOld old_id store h.products true names).0 refl in
      rw names (inl (_, refl, named, holders_of-Picks old_id store hs))
  | inr lacks ↦
      let unnamed = (in_products-NamesOld old_id store h.products false lacks).1 refl in
      rw lacks (inr (unnamed, holders_of-Picks old_id store hs))
]

first_match-IsFirst :
    (store : String) (products : List Product) (p : Product)
    → first_match store products ≡ some p
    → IsFirst store products p
first_match-IsFirst store [] p h = absurd (ground (arith, h))
first_match-IsFirst store (q ∷ products) p h =
    elim (Bool-cases (is_text q.store_identifier store)) [
      | inl here ↦
          let found : some q ≡ some p = rw here at h in
          inl (is_text-some q.store_identifier store here, some_injective found)
      | inr there ↦
          let found : first_match store products ≡ some p = rw there at h in
          inr (
            is_text-other q.store_identifier store there,
            first_match-IsFirst store products p found,
          )
    ]

module _ (c : Client) (r : SwapRequest) where
  pub attached_packages-InOfferings :
      (old_id : String) (offerings : List String) (h : Calls)
      → InOfferings c r old_id offerings h (attached_packages c r old_id offerings h).0
  unfolding attached_packages
  attached_packages-InOfferings old_id [] h = refl
  attached_packages-InOfferings old_id (offering ∷ offerings) h = (
    packages_in c r old_id offering (c.packages h offering),
    (attached_packages c r old_id offerings (list_packages offering ∷ h)).0,
    refl,
    packages_in-InOffering old_id offering (c.packages h offering),
    attached_packages-InOfferings old_id offerings (list_packages offering ∷ h),
  )
    where
      packages_in-InOffering :
          (i offering : String) (reply : Reply (List Holder))
          → InOffering c r i offering reply (packages_in c r i offering reply)
      packages_in-InOffering i offering (answered found) =
          (holders_of i r.old_store_id found, refl, holders_of-Picks i r.old_store_id found)
      packages_in-InOffering i offering (raised message) = refl

  -- A product that was looked up.
  pub found_in-IsFirst :
      (store : String) (reply : Reply (List Product)) (p : Product)
      → found_in c r store reply ≡ answered (some p)
      → (products : List Product) × (reply ≡ answered products) × IsFirst store products p
  found_in-IsFirst store (answered products) p h =
      (products, refl, first_match-IsFirst store products p (answered_injective h))
  found_in-IsFirst store (raised message) p h = absurd (ground (arith, h))
