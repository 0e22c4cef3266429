-- ===== src/Keywords/Packer/Greedy.antt =====
-- backend/app/services/keyword_intel/packer.py, `pack_keywords`: no room is left unused.
use Prim.Native.String.{count}
use mathlib.Core.List.{◌++◌ as append}
use aso_light.Base.{
  ℕ, ◌+◌, ◌≤◌, ◌<◌, ◌⊎◌, String, Bool, true, false, ◌≡◌, refl, sym, ap, subst, ◌∙◌, Option, none,
  some, List, [], ◌∷◌, arith, All, All-weaken, ltb, inl, inr, Bool-cases, Option-cases, eq_iff,
  str_eq, str_eq_refl, if◌then◌else◌,
}
use aso_light.Keywords.Tokenize.{words}
use aso_light.Base.Dict.{Dict, mem, lookup, insert, lookup-insert, lookup-All}
use aso_light.Base.Int.{ℤ, pos, leb_ℤ}
use aso_light.Base.Sort.{sort, sort-each}
use aso_light.Keywords.Packer.{
  PackCandidate, value, or_zero, max_value, add_words, ranks_before, added, pack_loop, join,
  word_values, pack_keywords,
}
use aso_light.Keywords.Packer.Field.{count-join}

mem-append : (w u : String) (xs : List String) → mem w xs ≡ true → mem w (append xs (u ∷ [])) ≡ true
mem-append w u [] h = absurd (ground arith)
mem-append w u (x ∷ xs) h = ground (arith, mem-append w u xs)

mem-append_last : (w : String) (xs : List String) → mem w (append xs (w ∷ [])) ≡ true
mem-append_last w [] = ground (arith, eq_iff w w)
mem-append_last w (x ∷ xs) = ground (arith, mem-append_last w xs)

added_mono :
    (w u : String) (packed : List String) → added w packed ≤ added w (append packed (u ∷ []))
added_mono w u [] = omega arith
added_mono w u (x ∷ xs) = omega arith

-- A packed word stays, and room that a word lacks does not come back.
pack_loop-grows :
    (w : String) (limit : ℕ) (ranked : List (String × ℤ)) (packed : List String) (length : ℕ)
    → (mem w packed ≡ true → mem w (pack_loop limit ranked packed length) ≡ true)
      × (count (join packed) + added w packed
          ≤ count (join (pack_loop limit ranked packed length))
            + added w (pack_loop limit ranked packed length))
unfolding pack_loop
pack_loop-grows w limit [] packed length = (λ h. h, omega arith)
pack_loop-grows w limit ((u, v) ∷ ranked) packed length = elim (Bool-cases (leb_ℤ v (pos 0))) [
  | inl worthless ↦ rw worthless (pack_loop-grows w limit ranked packed length)
  | inr worth ↦ elim (Bool-cases (ltb limit (length + added u packed))) [
    | inl full ↦ rw (worth, full) (pack_loop-grows w limit ranked packed length)
    | inr fits ↦
        let longer = append packed (u ∷ []) in
        let rest = pack_loop-grows w limit ranked longer (length + added u packed) in
        rw (worth, fits)
          (
            λ h. rest.0 (mem-append w u packed h),
            omega (arith, rest.1, count-join packed u, added_mono w u packed),
          )
  ]
]

-- The word is worthless, or it is packed, or the packed words leave no room for it.
abbrev pub IsServed : ℕ → List String → String × ℤ → Type 0
IsServed limit packed (w, v) =
    (leb_ℤ v (pos 0) ≡ true)
    ⊎ ((mem w packed ≡ true) ⊎ (limit < count (join packed) + added w packed))

pack_loop-IsServed :
    (limit : ℕ) (ranked : List (String × ℤ)) (packed : List String) (length : ℕ)
    (final : List String)
    → length ≡ count (join packed)
    → final ≡ pack_loop limit ranked packed length
    → All (IsServed limit final) ranked
unfolding pack_loop
pack_loop-IsServed limit [] packed length final e f = tt
pack_loop-IsServed limit ((w, v) ∷ ranked) packed length final e f =
    elim (Bool-cases (leb_ℤ v (pos 0))) [
      | inl worthless ↦
          let f' : final ≡ pack_loop limit ranked packed length = f ∙ rw worthless refl in
          (inl worthless, pack_loop-IsServed limit ranked packed length final e f')
      | inr worth ↦ elim (Bool-cases (ltb limit (length + added w packed))) [
        | inl full ↦
            let f' : final ≡ pack_loop limit ranked packed length = f ∙ rw (worth, full) refl in
            let grown = (pack_loop-grows w limit ranked packed length).1 in
            (
              inr (inr (rw f' (ground (arith, e, full, grown)))),
              pack_loop-IsServed limit ranked packed length final e f',
            )
        | inr fits ↦
            let longer = append packed (w ∷ []) in
            let f' : final ≡ pack_loop limit ranked longer (length + added w packed) =
              f ∙ rw (worth, fits) refl in
            let kept = (pack_loop-grows w limit ranked longer (length + added w packed)).0 in
            (
              inr (inl (rw f' (kept (mem-append_last w packed)))),
              pack_loop-IsServed limit ranked longer (length + added w packed) final
                  (omega (arith, e, count-join packed w)) f',
            )
      ]
    ]

-- A value that is at least `x`.
abbrev reaches : ℤ → Option ℤ → Bool
reaches x none = false
reaches x (some v) = leb_ℤ x v

reaches-max :
    (x v : ℤ) (o : Option ℤ) → reaches x o ≡ true → leb_ℤ x (max_value (or_zero o) v) ≡ true
reaches-max x v none h = absurd (ground (arith, h))
reaches-max x v (some u) h = ground (arith, h)

max-right : (a v : ℤ) → leb_ℤ v (max_value a v) ≡ true
max-right a v = ground arith

insert-reaches :
    (x v : ℤ) (w u : String) (d : Dict ℤ)
    → reaches x (lookup w d) ≡ true
    → reaches x (lookup w (insert u (max_value (or_zero (lookup u d)) v) d)) ≡ true
insert-reaches x v w u d h =
    let found = lookup-insert u w (max_value (or_zero (lookup u d)) v) d in
    elim (Bool-cases (str_eq w u)) [
      | inl same ↦
          let wu : w ≡ u = (eq_iff w u).0 same in
          ap (reaches x) found
          ∙ (rw same
              (reaches-max x v (lookup u d) (subst (λ k. reaches x (lookup k d) ≡ true) wu h)))
      | inr other ↦ ap (reaches x) found ∙ (rw other h)
    ]

insert-reaches_new :
    (v : ℤ) (u : String) (d : Dict ℤ)
    → reaches v (lookup u (insert u (max_value (or_zero (lookup u d)) v) d)) ≡ true
insert-reaches_new v u d =
    ap (reaches v) (lookup-insert u u (max_value (or_zero (lookup u d)) v) d)
    ∙ (rw (str_eq_refl u) (max-right (or_zero (lookup u d)) v))

-- The table has the word with at least the value, unless the word is excluded.
abbrev IsTabled : List String → ℤ → Dict ℤ → String → Type 0
IsTabled exclude v d w = (mem w exclude ≡ true) ⊎ (reaches v (lookup w d) ≡ true)

add_words-keeps :
    (exclude : List String) (x v : ℤ) (w : String) (ws : List String) (d : Dict ℤ)
    → reaches x (lookup w d) ≡ true
    → reaches x (lookup w (add_words exclude v ws d)) ≡ true
unfolding add_words
add_words-keeps exclude x v w [] d h = h
add_words-keeps exclude x v w (u ∷ ws) d h = elim (Bool-cases (mem u exclude)) [
  | inl used ↦ rw used (add_words-keeps exclude x v w ws d h)
  | inr free ↦ rw free (add_words-keeps exclude x v w ws _ (insert-reaches x v w u d h))
]

add_words-IsTabled :
    (exclude : List String) (v : ℤ) (ws : List String) (d : Dict ℤ)
    → All (IsTabled exclude v (add_words exclude v ws d)) ws
unfolding add_words
add_words-IsTabled exclude v [] d = tt
add_words-IsTabled exclude v (u ∷ ws) d =
    let d' : Dict ℤ =
      if mem u exclude then d else insert u (max_value (or_zero (lookup u d)) v) d in
    (
      elim (Bool-cases (mem u exclude)) [
        | inl used ↦ inl used
        | inr free ↦ inr (add_words-keeps exclude v v u ws d' (rw free (insert-reaches_new v u d)))
      ],
      add_words-IsTabled exclude v ws d',
    )

-- A word of the candidate is excluded, the candidate is worth nothing, the word is packed, or the
-- packed words leave no room for it.
abbrev pub IsPlaced : ℕ → List String → List String → ℤ → String → Type 0
IsPlaced limit exclude packed v w =
    (mem w exclude ≡ true)
    ⊎ ((leb_ℤ v (pos 0) ≡ true)
        ⊎ ((mem w packed ≡ true) ⊎ (limit < count (join packed) + added w packed)))

worthless : (v u : ℤ) → leb_ℤ v u ≡ true → leb_ℤ u (pos 0) ≡ true → leb_ℤ v (pos 0) ≡ true
worthless v u h k = ground (arith, h, k)

IsServed-IsPlaced :
    (limit : ℕ) (exclude packed : List String) (v u : ℤ) (w : String)
    → leb_ℤ v u ≡ true
    → IsServed limit packed (w, u)
    → IsPlaced limit exclude packed v w
IsServed-IsPlaced limit exclude packed v u w h (inl low) = inr (inl (worthless v u h low))
IsServed-IsPlaced limit exclude packed v u w h (inr rest) = inr (inr rest)

IsTabled-IsPlaced :
    (limit : ℕ) (exclude packed : List String) (v : ℤ) (d : Dict ℤ) (w : String)
    → All (IsServed limit packed) d
    → IsTabled exclude v d w
    → IsPlaced limit exclude packed v w
IsTabled-IsPlaced limit exclude packed v d w all_ (inl used) = inl used
IsTabled-IsPlaced limit exclude packed v d w all_ (inr reached) = elim (Option-cases (lookup w d)) [
  | inl missing ↦ absurd (ground (arith, missing, reached))
  | inr (u, found) ↦
      IsServed-IsPlaced limit exclude packed v u w (sym (ap (reaches v) found) ∙ reached)
        (lookup-All (IsServed limit packed) w u d all_ found)
]

module _ (find : String → List String) where
  word_values-keeps :
      (exclude : List String) (x : ℤ) (w : String) (cs : List PackCandidate) (d : Dict ℤ)
      → reaches x (lookup w d) ≡ true
      → reaches x (lookup w (word_values find exclude cs d)) ≡ true
  unfolding word_values
  word_values-keeps exclude x w [] d h = h
  word_values-keeps exclude x w (c ∷ cs) d h =
      word_values-keeps exclude x w cs _
        (add_words-keeps exclude x (value c) w (words find (some c.term)) d h)

  IsTabled-keeps :
      (exclude : List String) (x : ℤ) (cs : List PackCandidate) (d : Dict ℤ) (w : String)
      → IsTabled exclude x d w
      → IsTabled exclude x (word_values find exclude cs d) w
  IsTabled-keeps exclude x cs d w (inl used) = inl used
  IsTabled-keeps exclude x cs d w (inr h) = inr (word_values-keeps exclude x w cs d h)

  word_values-IsTabled :
      (exclude : List String) (cs : List PackCandidate) (d : Dict ℤ)
      → All
          (λ c.
            All
              (IsTabled exclude (value c) (word_values find exclude cs d))
              (words find (some c.term)))
          cs
  unfolding word_values
  word_values-IsTabled exclude [] d = tt
  word_values-IsTabled exclude (c ∷ cs) d = (
    All-weaken _ _ (words find (some c.term)) (IsTabled-keeps exclude (value c) cs _)
        (add_words-IsTabled exclude (value c) (words find (some c.term)) d),
    word_values-IsTabled exclude cs _,
  )

  -- Each word of each candidate's term is packed, unless it is excluded, the candidate has no
  -- positive value, or the packed words leave too little room for the word.
  pub pack_keywords-IsServed :
      (candidates : List PackCandidate) (exclude : List String) (limit : ℕ)
      → All
          (λ c.
            All
              (IsPlaced limit exclude (pack_keywords find candidates exclude limit) (value c))
              (words find (some c.term)))
          candidates
  unfolding pack_keywords join
  pack_keywords-IsServed candidates exclude limit =
      let table = word_values find exclude candidates [] in
      let packed = pack_keywords find candidates exclude limit in
      let served =
        sort-each ranks_before (IsServed limit packed) table
          (pack_loop-IsServed limit (sort ranks_before table) [] 0 packed refl refl) in
      All-weaken _ _ candidates
        (λ c h.
          All-weaken _ _ (words find (some c.term))
            (λ w t. IsTabled-IsPlaced limit exclude packed (value c) table w served t) h)
        (word_values-IsTabled exclude candidates [])
