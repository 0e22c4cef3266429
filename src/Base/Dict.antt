-- ===== src/Base/Dict.antt =====
-- Python's `dict` with string keys: an association list in insertion order.
use Prim.Native.Nat.{◌+◌, ◌≤◌, ◌<◌}
use Prim.Native.String.{String}
use mathlib.Core.Path.{◌≡◌, refl, ap, subst, ◌∙◌}
use mathlib.Core.Logic.{inl, inr}
use mathlib.Core.Bool.{Bool, true, false, ◌||◌}
use mathlib.Core.Option.{Option, none, some}
use mathlib.Core.List.{List, [], ◌∷◌, ◌++◌}
use native.Mathlib.Omega.{arith}
use text.Mathlib.TextEquality.{eq_iff}
use aso_light.Base.Tests.{str_eq, str_eq_refl, if◌then◌else◌, Bool-cases}
use aso_light.Base.Lists.{length, All, All-weaken}

abbrev pub Dict {ℓ} : Type ℓ → Type ℓ
Dict V = List (String × V)

-- `x in xs`, for a list or a set of strings
abbrev pub mem : String → List String → Bool
mem k [] = false
mem k (j ∷ l) = let rest = mem k l in if str_eq k j then true else rest

pub mem-append : (k : String) (xs ys : List String) → mem k (xs ++ ys) ≡ (mem k xs || mem k ys)
mem-append k [] ys = refl
mem-append k (x ∷ xs) ys = ground (arith, mem-append k xs ys)

module _ {ℓ} {V : Type ℓ} where
  -- `d.get(k)`
  abbrev pub lookup : String → Dict V → Option V
  lookup k [] = none
  lookup k ((j, v) ∷ d) = let rest = lookup k d in if str_eq k j then some v else rest

  -- `k in d`
  abbrev pub contains : String → Dict V → Bool
  contains k d = elim (lookup k d) [ none ↦ false | some v ↦ true ]

  -- `d[k] = v`: an old key keeps its place.
  abbrev pub insert : String → V → Dict V → Dict V
  insert k v [] = (k, v) ∷ []
  insert k v ((j, w) ∷ d) =
      let rest = insert k v d in if str_eq k j then (j, v) ∷ d else (j, w) ∷ rest

  -- `del d[k]`, `d.pop(k, None)`
  abbrev pub erase : String → Dict V → Dict V
  erase k [] = []
  erase k ((j, w) ∷ d) = let rest = erase k d in if str_eq k j then rest else (j, w) ∷ rest

  pub lookup-insert :
      (k j : String) (v : V) (d : Dict V)
      → lookup j (insert k v d) ≡ (if str_eq j k then some v else lookup j d)
  lookup-insert k j v [] = refl
  lookup-insert k j v ((i, w) ∷ d) =
      ground (arith, eq_iff k i, eq_iff j i, eq_iff j k, lookup-insert k j v d)

  pub lookup-erase :
      (k j : String) (d : Dict V) → lookup j (erase k d) ≡ (if str_eq j k then none else lookup j d)
  lookup-erase k j [] = ground arith
  lookup-erase k j ((i, w) ∷ d) =
      ground (arith, eq_iff k i, eq_iff j i, eq_iff j k, lookup-erase k j d)

  pub length-insert : (k : String) (v : V) (d : Dict V) → length (insert k v d) ≤ length d + 1
  length-insert k v [] = omega arith
  length-insert k v ((i, w) ∷ d) = ground (arith, length-insert k v d)

  pub length-erase : (k : String) (d : Dict V) → length (erase k d) ≤ length d
  length-erase k [] = omega arith
  length-erase k ((i, w) ∷ d) = ground (arith, length-erase k d)

  -- A key that is found makes the removal shorten the dictionary.
  pub length-erase_lt :
      (k : String) (v : V) (d : Dict V) → lookup k d ≡ some v → length (erase k d) < length d
  length-erase_lt k v [] h = absurd (ground arith)
  length-erase_lt k v ((i, w) ∷ d) h = ground (arith, length-erase k d, length-erase_lt k v d)

  -- What was put under a key leaves with the key.
  pub erase-insert : (k : String) (v : V) (d : Dict V) → erase k (insert k v d) ≡ erase k d
  erase-insert k v [] = ground (arith, eq_iff k k)
  erase-insert k v ((i, w) ∷ d) = ground (arith, eq_iff k i, erase-insert k v d)

  -- What holds of every entry holds of the one that is found.
  pub lookup-All {κ} :
      (P : String × V → Type κ) (k : String) (v : V) (d : Dict V)
      → All P d
      → lookup k d ≡ some v
      → P (k, v)
  lookup-All P k v [] h e = absurd (ground (arith, e))
  lookup-All P k v ((j, w) ∷ d) h e = elim (Bool-cases (str_eq k j)) [
    | inl same ↦
        let kj : j ≡ k = ground (arith, same, eq_iff k j) in
        let wv : w ≡ v = ground (arith, e, same) in
        subst P (ap (λ x. (x, w)) kj ∙ ap (λ x. (k, x)) wv) h.0
    | inr other ↦ lookup-All P k v d h.1 (ground (arith, e, other))
  ]

  -- No key stands twice.
  abbrev pub IsUnique : Dict V → Type 0
  IsUnique [] = Unit
  IsUnique ((j, w) ∷ d) = (contains j d ≡ false) × IsUnique d

  pub insert-IsUnique : (k : String) (v : V) (d : Dict V) → IsUnique d → IsUnique (insert k v d)
  insert-IsUnique k v [] h = (refl, tt)
  insert-IsUnique k v ((j, w) ∷ d) h = elim (Bool-cases (str_eq k j)) [
    | inl same ↦ rw same h
    | inr other ↦
        let absent : contains j (insert k v d) ≡ false =
          ground (arith, h.0, lookup-insert k j v d, eq_iff k j, eq_iff j k, other) in
        rw other (absent, insert-IsUnique k v d h.1)
  ]

  lookup-later :
      (k j : String) (v w : V) (d : Dict V)
      → contains j d ≡ false
      → lookup k d ≡ some v
      → lookup k ((j, w) ∷ d) ≡ some v
  lookup-later k j v w d h e = elim (Bool-cases (str_eq k j)) [
    | inl same ↦
        let kj : k ≡ j = (eq_iff k j).0 same in
        let found : lookup j d ≡ some v = subst (λ i. lookup i d ≡ some v) kj e in
        absurd (ground (arith, h, found))
    | inr other ↦ rw other e
  ]

  -- Each entry is the one that is found under its key.
  pub IsUnique-lookup :
      (d : Dict V) → IsUnique d → All (λ (e : String × V). lookup e.0 d ≡ some e.1) d
  IsUnique-lookup [] h = tt
  IsUnique-lookup ((j, w) ∷ d) h = (
    rw (str_eq_refl j) refl,
    All-weaken _ _ d (λ e f. lookup-later e.0 j e.1 w d h.0 f) (IsUnique-lookup d h.1),
  )
