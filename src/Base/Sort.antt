-- ===== src/Base/Sort.antt =====
-- Python's `sorted(xs, key=...)`: a stable sort by a Boolean order.
use Prim.Native.Nat.{suc, Ordering}
use Prim.Native.String.{String, compare}
use mathlib.Core.Path.{◌≡◌, refl, ◌∙◌, ap}
use mathlib.Core.Bool.{Bool, true, false}
use mathlib.Core.List.{List, [], ◌∷◌}
use mathlib.Core.Logic.{inl, inr}
use native.Mathlib.Omega.{arith}
use aso_light.Base.Tests.{if◌then◌else◌, Bool-cases}
use aso_light.Base.Lists.{length, All}

-- `before x y` holds when `x` may stand in front of `y`.
module _ {ℓ} {A : Type ℓ} (before : A → A → Bool) where
  abbrev pub insert_sorted : A → List A → List A
  insert_sorted x [] = x ∷ []
  insert_sorted x (y ∷ ys) =
      let rest = insert_sorted x ys in if before x y then x ∷ y ∷ ys else y ∷ rest

  abbrev pub sort : List A → List A
  sort [] = []
  sort (x ∷ xs) = insert_sorted x (sort xs)

  pub length-insert_sorted : (x : A) (ys : List A) → length (insert_sorted x ys) ≡ suc (length ys)
  length-insert_sorted x [] = refl
  length-insert_sorted x (y ∷ ys) = ground (arith, length-insert_sorted x ys)

  pub length-sort : (xs : List A) → length (sort xs) ≡ length xs
  length-sort [] = refl
  length-sort (x ∷ xs) = length-insert_sorted x (sort xs) ∙ ap suc (length-sort xs)

  pub insert_sorted-All {κ} :
      (P : A → Type κ) (x : A) (ys : List A) → P x → All P ys → All P (insert_sorted x ys)
  insert_sorted-All P x [] h k = (h, k)
  insert_sorted-All P x (y ∷ ys) h k = ground (arith, insert_sorted-All P x ys h k.1)

  pub sort-All {κ} : (P : A → Type κ) (xs : List A) → All P xs → All P (sort xs)
  sort-All P [] h = h
  sort-All P (x ∷ xs) h = insert_sorted-All P x (sort xs) h.0 (sort-All P xs h.1)

  insert_sorted-each {κ} :
      (P : A → Type κ) (x : A) (ys : List A) → All P (insert_sorted x ys) → P x × All P ys
  insert_sorted-each P x [] h = h
  insert_sorted-each P x (y ∷ ys) h = elim (Bool-cases (before x y)) [
    | inl first ↦ rw first at h
    | inr later ↦
        let later_h : All P (y ∷ insert_sorted x ys) = rw later at h in
        let rest = insert_sorted-each P x ys later_h.1 in (rest.0, (later_h.0, rest.1))
  ]

  -- What holds of the sorted elements holds of all.
  pub sort-each {κ} : (P : A → Type κ) (xs : List A) → All P (sort xs) → All P xs
  sort-each P [] h = h
  sort-each P (x ∷ xs) h =
      let rest = insert_sorted-each P x (sort xs) h in (rest.0, sort-each P xs rest.1)

  abbrev Leads : A → List A → Type 0
  Leads x [] = Unit
  Leads x (y ∷ ys) = before x y ≡ true

  -- Each element may stand in front of the next.
  abbrev pub IsSorted : List A → Type 0
  IsSorted [] = Unit
  IsSorted (x ∷ xs) = Leads x xs × IsSorted xs

  insert_sorted-Leads :
      (x y : A) (ys : List A) → before y x ≡ true → Leads y ys → Leads y (insert_sorted x ys)
  insert_sorted-Leads x y [] h k = h
  insert_sorted-Leads x y (z ∷ zs) h k = elim (Bool-cases (before x z)) [
    | inl first ↦ rw first h
    | inr later ↦ rw later k
  ]

  insert_sorted-IsSorted :
      ((x y : A) → before x y ≡ false → before y x ≡ true)
      → (x : A) (ys : List A) → IsSorted ys
      → IsSorted (insert_sorted x ys)
  insert_sorted-IsSorted total x [] h = (tt, tt)
  insert_sorted-IsSorted total x (y ∷ ys) h = elim (Bool-cases (before x y)) [
    | inl first ↦ rw first (first, h)
    | inr later ↦
        rw later
          (insert_sorted-Leads x y ys (total x y later) h.0, insert_sorted-IsSorted total x ys h.1)
  ]

  pub sort-IsSorted :
      ((x y : A) → before x y ≡ false → before y x ≡ true) → (xs : List A) → IsSorted (sort xs)
  sort-IsSorted total [] = tt
  sort-IsSorted total (x ∷ xs) = insert_sorted-IsSorted total x (sort xs) (sort-IsSorted total xs)

-- `s <= t` on texts, by code points
abbrev pub text_leb : String → String → Bool
text_leb s t = elim (compare s t) [ Ordering.gt ↦ false | _ ↦ true ]
