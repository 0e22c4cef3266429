-- ===== src/Pricing/Apply/Iap/Covers.antt =====
-- backend/app/api/v1/pricing.py, `apply_iap_prices`: the territories of a price schedule.
use aso_light.Base.{
  String, Bool, true, ◌≡◌, ◌⊎◌, refl, sym, ap, subst, arith, eq_iff, Option, none, some, List, [],
  ◌∷◌, ◌++◌, inl, inr, Bool-cases, any, All, str_eq,
}
use aso_light.Base.Dict.{lookup, contains}
use aso_light.Pricing.Territories.{alpha2_to_alpha3}
use aso_light.Pricing.Apply.{PriceApplyItem, Entry}
use aso_light.Pricing.Apply.Iap.{
  IapPrice, kept_entry, kept_entries, first_known, base_or, resolve_iap_base_territory,
}

abbrev pub IsIn : Entry → List Entry → Type 0
IsIn e [] = ⊥
IsIn e (d ∷ entries) = (e ≡ d) ⊎ IsIn e entries

IsIn-append : (e : Entry) (a b : List Entry) → IsIn e b → IsIn e (a ++ b)
IsIn-append e [] b h = h
IsIn-append e (d ∷ a) b h = inr (IsIn-append e a b h)

IsIn-append_left : (e : Entry) (a b : List Entry) → IsIn e a → IsIn e (a ++ b)
IsIn-append_left e [] b h = absurd h
IsIn-append_left e (d ∷ a) b (inl h) = inl h
IsIn-append_left e (d ∷ a) b (inr h) = inr (IsIn-append_left e a b h)

contains-append_left :
    (code : String) (a b : List Entry) → contains code a ≡ true → contains code (a ++ b) ≡ true
contains-append_left code [] b h = absurd (ground (arith, h))
contains-append_left code ((c, i) ∷ a) b h = ground (arith, h, contains-append_left code a b)

contains-IsIn : (code i : String) (es : List Entry) → IsIn (code, i) es → contains code es ≡ true
contains-IsIn code i [] h = absurd h
contains-IsIn code i ((c, j) ∷ es) (inl h) = ground (arith, (eq_iff code c).1 (ap (λ e. e.0) h))
contains-IsIn code i ((c, j) ∷ es) (inr h) = ground (arith, contains-IsIn code i es h)

-- The request has an item for the territory.
abbrev pub is_asked : List PriceApplyItem → String → Bool
is_asked items code = any (λ item. str_eq item.territory_code code) items

-- A cached price point of a known territory goes along, unless the request has an item for the
-- territory; in both cases the territory is in the schedule.
abbrev pub IsCovered : List PriceApplyItem → List Entry → Option String → Option String → Type 0
IsCovered items entries none i = Unit
IsCovered items entries (some code) none = Unit
IsCovered items entries (some code) (some i) =
    (i ≡ "")
    ⊎ ((contains code entries ≡ true) × (IsIn (code, i) entries ⊎ (is_asked items code ≡ true)))

asked-contains :
    (items : List PriceApplyItem) (code : String) (es : List Entry)
    → All (λ e. is_asked items e.0 ≡ true) es
    → contains code es ≡ true
    → is_asked items code ≡ true
asked-contains items code [] h found = absurd (ground (arith, found))
asked-contains items code ((c, i) ∷ es) h found = elim (Bool-cases (str_eq code c)) [
  | inl same ↦ subst (λ x. is_asked items x ≡ true) (sym ((eq_iff code c).0 same)) h.0
  | inr other ↦ asked-contains items code es h.1 (ground (arith, other, found))
]

module _ (items : List PriceApplyItem) (submitted : List Entry) where
  kept_entry-IsCovered :
      (code i : Option String) (rest : List Entry)
      → All (λ e. is_asked items e.0 ≡ true) submitted
      → IsCovered items (submitted ++ (kept_entry submitted code i ++ rest)) code i
  kept_entry-IsCovered none i rest asked = tt
  kept_entry-IsCovered (some code) none rest asked = tt
  kept_entry-IsCovered (some code) (some i) rest asked =
      elim (Bool-cases (contains code submitted)) [
        | inl sent ↦ inr (
          contains-append_left code submitted _ sent,
          inr (asked-contains items code submitted asked sent),
        )
        | inr unsent ↦ elim (Bool-cases (str_eq i "")) [
          | inl empty ↦ inl ((eq_iff i "").0 empty)
          | inr full ↦ kept (IsIn-append (code, i) submitted _ (rw (unsent, full) (inl refl)))
        ]
      ]
    where
      kept :
          IsIn (code, i) (submitted ++ (kept_entry submitted (some code) (some i) ++ rest))
          → IsCovered items
              (submitted ++ (kept_entry submitted (some code) (some i) ++ rest))
              (some code)
              (some i)
      kept h = inr (contains-IsIn code i _ h, inl h)

IsCovered-later :
    (items : List PriceApplyItem) (submitted new rest : List Entry) (code i : Option String)
    → IsCovered items (submitted ++ rest) code i
    → IsCovered items (submitted ++ (new ++ rest)) code i
IsCovered-later items submitted new rest none i h = tt
IsCovered-later items submitted new rest (some code) none h = tt
IsCovered-later items submitted new rest (some code) (some i) (inl empty) = inl empty
IsCovered-later items submitted new rest (some code) (some i) (inr (found, why)) =
    inr (contains-middle submitted found, in_middle why)
  where
    contains-append : (a b : List Entry) → contains code b ≡ true → contains code (a ++ b) ≡ true
    contains-append [] b h = h
    contains-append ((c, j) ∷ a) b h = ground (arith, contains-append a b h)

    contains-middle :
        (a : List Entry)
        → contains code (a ++ rest) ≡ true
        → contains code (a ++ (new ++ rest)) ≡ true
    contains-middle [] h = contains-append new rest h
    contains-middle ((c, j) ∷ a) h = elim (Bool-cases (str_eq code c)) [
      | inl same ↦ ground (arith, same)
      | inr other ↦ ground (arith, other, contains-middle a (ground (arith, other, h)))
    ]

    IsIn-middle :
        (a : List Entry) → IsIn (code, i) (a ++ rest) → IsIn (code, i) (a ++ (new ++ rest))
    IsIn-middle [] h = IsIn-append (code, i) new rest h
    IsIn-middle (e ∷ a) (inl h) = inl h
    IsIn-middle (e ∷ a) (inr h) = inr (IsIn-middle a h)

    in_middle :
        IsIn (code, i) (submitted ++ rest) ⊎ (is_asked items code ≡ true)
        → IsIn (code, i) (submitted ++ (new ++ rest)) ⊎ (is_asked items code ≡ true)
    in_middle (inl h) = inl (IsIn-middle submitted h)
    in_middle (inr h) = inr h

abbrev pub IsRowCovered : List PriceApplyItem → List Entry → IapPrice → Type 0
IsRowCovered items entries r = IsCovered items entries r.territory_code r.price_point_id

rows-later :
    (items : List PriceApplyItem) (submitted new rest : List Entry) (rows : List IapPrice)
    → All (IsRowCovered items (submitted ++ rest)) rows
    → All (IsRowCovered items (submitted ++ (new ++ rest))) rows
rows-later items submitted new rest [] h = tt
rows-later items submitted new rest (r ∷ rows) h = (
  IsCovered-later items submitted new rest r.territory_code r.price_point_id h.0,
  rows-later items submitted new rest rows h.1,
)

pub kept_entries-IsCovered :
    (items : List PriceApplyItem) (submitted : List Entry) (rows : List IapPrice)
    → All (λ e. is_asked items e.0 ≡ true) submitted
    → All (IsRowCovered items (submitted ++ kept_entries submitted rows)) rows
unfolding kept_entries
kept_entries-IsCovered items submitted [] asked = tt
kept_entries-IsCovered items submitted (r ∷ rows) asked = (
  kept_entry-IsCovered items submitted r.territory_code r.price_point_id
      (kept_entries submitted rows) asked,
  rows-later items submitted (kept_entry submitted r.territory_code r.price_point_id)
      (kept_entries submitted rows) rows (kept_entries-IsCovered items submitted rows asked),
)

-- The base is a territory of the schedule.
abbrev pub IsBase : List Entry → String → Type 0
IsBase entries base =
    (code : String) × (lookup code alpha2_to_alpha3 ≡ some base) × (contains code entries ≡ true)

abbrev pub IsBaseOf : List Entry → Option String → Type 0
IsBaseOf entries none = Unit
IsBaseOf entries (some base) = IsBase entries base

first_known-IsBase : (entries : List Entry) → IsBaseOf entries (first_known entries)
first_known-IsBase [] = tt
first_known-IsBase ((code, i) ∷ entries) =
    go (first_known entries) (first_known-IsBase entries) (lookup code alpha2_to_alpha3) refl
  where
    later : (o : Option String) → IsBaseOf entries o → IsBaseOf ((code, i) ∷ entries) o
    later none h = tt
    later (some base) h = let (c, known, found) = h in (c, known, ground (arith, found))

    go :
        (rest : Option String)
        → IsBaseOf entries rest
        → (o : Option String) → lookup code alpha2_to_alpha3 ≡ o
        → IsBaseOf ((code, i) ∷ entries) (elim o [ none ↦ rest | some alpha3 ↦ some alpha3 ])
    go rest h none e = later rest h
    go rest h (some alpha3) e = (code, e, ground (arith, eq_iff code code))

pub resolve-IsBase :
    (requested : String) (entries : List Entry)
    → IsBaseOf entries (resolve_iap_base_territory requested entries)
unfolding resolve_iap_base_territory
resolve-IsBase requested entries = go (lookup requested alpha2_to_alpha3) refl
  where
    go :
        (o : Option String)
        → lookup requested alpha2_to_alpha3 ≡ o
        → IsBaseOf entries (base_or entries requested o)
    go none e = first_known-IsBase entries
    go (some alpha3) e = elim (Bool-cases (contains requested entries)) [
      | inl found ↦ rw found (requested, e, found)
      | inr missing ↦ rw missing (first_known-IsBase entries)
    ]
