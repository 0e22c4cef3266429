-- ===== src/Pricing/Versions/Numbering.antt =====
-- backend/app/services/pricing/versions.py: the numbers of the versions, however calls interleave.
use aso_light.Base.{
  ℕ, zero, suc, ◌+◌, ◌≤◌, String, true, false, ◌≡◌, ◌⊎◌, refl, sym, ap, subst, ◌∙◌, arith, Option,
  none, some, List, [], ◌∷◌, inl, inr, Bool-cases, eqb, str_eq, eq_iff, if◌then◌else◌, ltb,
}
use aso_light.Base.Dict.{Dict, lookup, insert, erase, lookup-insert, lookup-erase}
use aso_light.Pricing.Versions.{
  ProductKey, same_key, Table, latest, next_version, Recording, Database, Event, begin, read_number,
  commit, version_insert_attempts, is_taken, begun, after_read, after_conflict, inserted,
  with_number, after_commit, happens, history, no_versions, VersionItem,
}

-- The versions of a product, the newest row first.
abbrev pub versions_of : ProductKey → Table → List ℕ
versions_of k [] = []
versions_of k (r ∷ rows) =
    let rest = versions_of k rows in if same_key k r.key then r.version ∷ rest else rest

-- n, n - 1, …, 1
abbrev pub count_down : ℕ → List ℕ
count_down zero = []
count_down (suc n) = suc n ∷ count_down n

abbrev IsNumbered : ProductKey → ℕ → Table → Type 0
IsNumbered k n rows = versions_of k rows ≡ count_down n

cons_injective : {x y : ℕ} {xs ys : List ℕ} → x ∷ xs ≡ y ∷ ys → (x ≡ y) × (xs ≡ ys)
cons_injective {x} {y} {xs} {ys} e = (ap (first_or x) e, ap rest e)
  where
    first_or : ℕ → List ℕ → ℕ
    first_or d [] = d
    first_or d (z ∷ zs) = z

    rest : List ℕ → List ℕ
    rest [] = []
    rest (z ∷ zs) = zs

-- The newest of the rows of a product is its row n, and the others are numbered up to n - 1.
newest :
    (v : ℕ) (vs : List ℕ) (n : ℕ)
    → v ∷ vs ≡ count_down n
    → (m : ℕ) × (n ≡ suc m) × (v ≡ suc m) × (vs ≡ count_down m)
newest v vs zero e = absurd (ground (arith, e))
newest v vs (suc m) e = let (head, tail) = cons_injective e in (m, refl, head, tail)

latest-count_down :
    (k : ProductKey) (n : ℕ) (rows : Table) → IsNumbered k n rows → latest k rows ≡ n
unfolding latest
latest-count_down k zero [] h = refl
latest-count_down k (suc n) [] h = absurd (ground (arith, h))
latest-count_down k n (r ∷ rows) h = elim (Bool-cases (same_key k r.key)) [
  | inl same ↦
      let (m, size, head, tail) = newest r.version (versions_of k rows) n (rw same at h) in
      rw same (ground (arith, size, head, latest-count_down k m rows tail))
  | inr other ↦ rw other (latest-count_down k n rows (rw other at h))
]

-- A number from 1 to n is taken.
is_taken-count_down :
    (k : ProductKey) (n : ℕ) (rows : Table) (v : ℕ)
    → IsNumbered k n rows
    → 1 ≤ v
    → v ≤ n
    → is_taken k v rows ≡ true
unfolding is_taken
is_taken-count_down k zero [] v h low high = absurd (omega (arith, low, high))
is_taken-count_down k (suc n) [] v h low high = absurd (ground (arith, h))
is_taken-count_down k n (r ∷ rows) v h low high = elim (Bool-cases (same_key k r.key)) [
  | inl same ↦
      let (m, size, head, tail) = newest r.version (versions_of k rows) n (rw same at h) in
      elim (Bool-cases (eqb v r.version)) [
        | inl this ↦ rw (same, this) refl
        | inr later ↦
            rw (same, later)
              (is_taken-count_down k m rows v tail low (ground (arith, size, head, later, high)))
      ]
  | inr other ↦ rw other (is_taken-count_down k n rows v (rw other at h) low high)
]

same_key-parts :
    (a b : ProductKey)
    → same_key a b ≡ true
    → (a.app_id ≡ b.app_id)
      × (a.product_kind ≡ b.product_kind)
      × (a.product_ref_id ≡ b.product_ref_id)
same_key-parts a b h = (
  ground (arith, h),
  (eq_iff a.product_kind b.product_kind).0 (ground (arith, h)),
  ground (arith, h),
)

same_key-eq : (a b : ProductKey) → same_key a b ≡ true → a ≡ b
same_key-eq a b h =
    let (app, kind, ref) = same_key-parts a b h in
    λ i. record { app_id = app i; product_kind = kind i; product_ref_id = ref i }

-- A number that a call has read for the product is one of 1 to n + 1.
abbrev IsNear : ProductKey → ℕ → ProductKey → Option ℕ → Type 0
IsNear k n key none = Unit
IsNear k n key (some v) = (same_key k key ≡ false) ⊎ ((1 ≤ v) × (v ≤ suc n))

abbrev IsNearIn : ProductKey → ℕ → Option Recording → Type 0
IsNearIn k n none = Unit
IsNearIn k n (some r) = IsNear k n r.key r.number

record IsOrdered (k : ProductKey) (n : ℕ) (d : Database) : Type 0 where
  numbered : IsNumbered k n d.rows
  near : (name : String) → IsNearIn k n (lookup name d.recordings)

insert-near :
    (k : ProductKey) (n : ℕ) (name : String) (r : Recording) (rs : Dict Recording)
    → IsNear k n r.key r.number
    → ((j : String) → IsNearIn k n (lookup j rs))
    → (j : String) → IsNearIn k n (lookup j (insert name r rs))
insert-near k n name r rs here near j =
    subst (IsNearIn k n) (sym (lookup-insert name j r rs)) (elim (Bool-cases (str_eq j name)) [
      | inl same ↦ rw same here
      | inr other ↦ rw other (near j)
    ])

erase-near :
    (k : ProductKey) (n : ℕ) (name : String) (rs : Dict Recording)
    → ((j : String) → IsNearIn k n (lookup j rs))
    → (j : String) → IsNearIn k n (lookup j (erase name rs))
erase-near k n name rs near j =
    subst (IsNearIn k n) (sym (lookup-erase name j rs))
      (elim (Bool-cases (str_eq j name)) [ inl same ↦ rw same tt | inr other ↦ rw other (near j) ])

-- One more row leaves a number as near.
near-suc : (k : ProductKey) (n : ℕ) (o : Option Recording) → IsNearIn k n o → IsNearIn k (suc n) o
near-suc k n none h = tt
near-suc k n (some r) h = go r.number h
  where
    go : (v : Option ℕ) → IsNear k n r.key v → IsNear k (suc n) r.key v
    go none h = tt
    go (some v) (inl other) = inl other
    go (some v) (inr (low, high)) = inr (low, omega (arith, high))

abbrev IsOrderedAt : ProductKey → Database → Type 0
IsOrderedAt k d = (n : ℕ) × IsOrdered k n d

next_version-IsNear :
    (k : ProductKey) (n : ℕ) (key : ProductKey) (rows : Table)
    → IsNumbered k n rows
    → IsNear k n key (some (next_version key rows))
unfolding next_version
next_version-IsNear k n key rows h = elim (Bool-cases (same_key k key)) [
  | inl same ↦ inr (
      subst (λ x. (1 ≤ latest x rows + 1) × (latest x rows + 1 ≤ suc n)) (same_key-eq k key same)
        (omega arith, omega (arith, latest-count_down k n rows h)))
  | inr other ↦ inl other
]

module _ (k : ProductKey) where
  begun-IsOrdered :
      (name : String) (key : ProductKey) (items : List VersionItem) (o : Option Recording)
      (d : Database)
      → IsOrderedAt k d
      → IsOrderedAt k (begun name key items o d)
  begun-IsOrdered name key items (some r) d h = h
  begun-IsOrdered name key items none d (n, h) =
      (n, record { numbered = h.numbered; near = insert-near k n name _ d.recordings tt h.near })

  after_read-IsOrdered :
      (name : String) (o : Option Recording) (d : Database)
      → IsOrderedAt k d
      → IsOrderedAt k (after_read name o d)
  after_read-IsOrdered name none d h = h
  after_read-IsOrdered name (some r) d (n, h) = (
    n,
    record {
      numbered = h.numbered;
      near =
          insert-near k n name _ d.recordings (next_version-IsNear k n r.key d.rows h.numbered)
            h.near;
    },
  )

  after_conflict-IsOrdered :
      (name : String) (r : Recording) (d : Database)
      → IsOrderedAt k d
      → IsOrderedAt k (after_conflict name r d)
  after_conflict-IsOrdered name r d (n, h) =
      elim (Bool-cases (eqb r.attempt version_insert_attempts)) [
        | inl last ↦
            rw last
              (n, record { numbered = h.numbered; near = erase-near k n name d.recordings h.near })
        | inr more ↦ rw more (
          n,
          record { numbered = h.numbered; near = insert-near k n name _ d.recordings tt h.near },
        )
      ]

  bounds :
      (key : ProductKey) (v n : ℕ)
      → same_key k key ≡ true
      → IsNear k n key (some v)
      → (1 ≤ v) × (v ≤ suc n)
  bounds key v n same (inl other) = absurd (ground (arith, same, other))
  bounds key v n same (inr h) = h

  -- The only number near the rows that is not taken is the next one.
  free_number :
      (n : ℕ) (rows : Table) (v : ℕ)
      → IsNumbered k n rows
      → (1 ≤ v) × (v ≤ suc n)
      → is_taken k v rows ≡ false
      → v ≡ suc n
  free_number n rows v h (low, high) free = elim (Bool-cases (ltb n v)) [
    | inl above ↦ ground (arith, above, high)
    | inr below ↦
        absurd (ground (arith, free, is_taken-count_down k n rows v h low (ground (arith, below))))
  ]

  inserted-IsOrdered :
      (name : String) (r : Recording) (v : ℕ) (d : Database) (n : ℕ)
      → IsOrdered k n d
      → IsNear k n r.key (some v)
      → is_taken r.key v d.rows ≡ false
      → IsOrderedAt k (inserted name r v d)
  inserted-IsOrdered name r v d n h near free = elim (Bool-cases (same_key k r.key)) [
    | inl same ↦
        let e =
          free_number n d.rows v h.numbered (bounds r.key v n same near)
            (subst (λ x. is_taken x v d.rows ≡ false) (sym (same_key-eq k r.key same)) free) in
        (
          suc n,
          record {
            numbered =
                rw same (ap (λ x. x ∷ versions_of k d.rows) e ∙ ap (λ vs. suc n ∷ vs) h.numbered);
            near =
                erase-near k (suc n) name d.recordings
                  λ j. near-suc k n (lookup j d.recordings) (h.near j);
          },
        )
    | inr other ↦ (
      n,
      record { numbered = rw other h.numbered; near = erase-near k n name d.recordings h.near },
    )
  ]

  with_number-IsOrdered :
      (name : String) (r : Recording) (o : Option ℕ) (d : Database) (n : ℕ)
      → IsOrdered k n d
      → IsNear k n r.key o
      → IsOrderedAt k (with_number name r o d)
  with_number-IsOrdered name r none d n h near = (n, h)
  with_number-IsOrdered name r (some v) d n h near = elim (Bool-cases (is_taken r.key v d.rows)) [
    | inl taken ↦ rw taken (after_conflict-IsOrdered name r d (n, h))
    | inr free ↦ rw free (inserted-IsOrdered name r v d n h near free)
  ]

  after_commit-IsOrdered :
      (name : String) (o : Option Recording) (d : Database) (n : ℕ)
      → IsOrdered k n d
      → IsNearIn k n o
      → IsOrderedAt k (after_commit name o d)
  after_commit-IsOrdered name none d n h near = (n, h)
  after_commit-IsOrdered name (some r) d n h near = with_number-IsOrdered name r r.number d n h near

  happens-IsOrdered : (e : Event) (d : Database) → IsOrderedAt k d → IsOrderedAt k (happens e d)
  unfolding happens
  happens-IsOrdered (begin name key items) d h =
      begun-IsOrdered name key items (lookup name d.recordings) d h
  happens-IsOrdered (read_number name) d h =
      after_read-IsOrdered name (lookup name d.recordings) d h
  happens-IsOrdered (commit name) d (n, h) =
      after_commit-IsOrdered name (lookup name d.recordings) d n h (h.near name)

  history-IsOrdered :
      (events : List Event) (d : Database) → IsOrderedAt k d → IsOrderedAt k (history events d)
  unfolding history
  history-IsOrdered [] d h = h
  history-IsOrdered (e ∷ events) d h =
      history-IsOrdered events (happens e d) (happens-IsOrdered e d h)

-- However the calls that save versions interleave, the versions of each product are numbered 1, 2, 3
-- and so on in the order of their commits, without a gap and without a number twice.
pub history-numbers :
    (events : List Event) (k : ProductKey)
    → (n : ℕ) × (versions_of k (history events no_versions).rows ≡ count_down n)
history-numbers events k =
    let (n, h) =
      history-IsOrdered k events no_versions (0, record { numbered = refl; near = λ name. tt }) in
    (n, h.numbered)
