-- ===== src/Keywords/Packer/Storefront.antt =====
-- backend/app/services/keyword_intel/packer.py, `pack_storefront`: one word budget per storefront.
use Prim.Native.String.{count}
use mathlib.Core.List.{◌++◌ as append}
use aso_light.Base.{
  ℕ, ◌+◌, ◌≤◌, String, Bool, true, false, ◌||◌, ◌≡◌, refl, sym, ap, ◌∙◌, Option, some, List, [],
  ◌∷◌, arith, All, All-append, All-weaken, ltb, inl, inr, Bool-cases, str_eq, str_eq_refl, eq_iff,
  map,
}
use aso_light.Base.Dict.{Dict, mem, insert, mem-append}
use aso_light.Base.Int.{ℤ, pos, leb_ℤ}
use aso_light.Base.Sort.{sort, sort-All}
use aso_light.Keywords.Tokenize.{words}
use aso_light.Keywords.Packer.{
  PackCandidate, value, add_words, ranks_before, added, pack_loop, join, word_values, pack_keywords,
  pack_locales, pack_storefront, join_field, bulk_values, used_words,
}
use aso_light.Keywords.Packer.Field.{count-pack_keywords}

insert-All {ℓ} :
    (P : String → Type ℓ) (k : String) (v : ℤ) (d : Dict ℤ)
    → P k
    → All (λ (e : String × ℤ). P e.0) d
    → All (λ (e : String × ℤ). P e.0) (insert k v d)
insert-All P k v [] h a = (h, tt)
insert-All P k v ((j, w) ∷ d) h a = ground (arith, insert-All P k v d h a.1)

pack_loop-All {ℓ} :
    (P : String → Type ℓ) (limit : ℕ) (ranked : List (String × ℤ)) (packed : List String)
    (length : ℕ)
    → All (λ (e : String × ℤ). P e.0) ranked
    → All P packed
    → All P (pack_loop limit ranked packed length)
unfolding pack_loop
pack_loop-All P limit [] packed length r a = a
pack_loop-All P limit ((word, v) ∷ ranked) packed length r a = elim (Bool-cases (leb_ℤ v (pos 0))) [
  | inl worthless ↦ rw worthless (pack_loop-All P limit ranked packed length r.1 a)
  | inr worth ↦ elim (Bool-cases (ltb limit (length + added word packed))) [
    | inl full ↦ rw (worth, full) (pack_loop-All P limit ranked packed length r.1 a)
    | inr fits ↦
        rw (worth, fits)
          (pack_loop-All P limit ranked (append packed (word ∷ [])) (length + added word packed) r.1
            (All-append P packed (word ∷ []) a (r.0, tt)))
  ]
]

false-true : false ≡ true → ⊥
false-true h = ground (arith, h)

or_left : (a b : Bool) → a ≡ true → (a || b) ≡ true
or_left a b h = ground (arith, h)

or_right : (a b : Bool) → b ≡ true → (a || b) ≡ true
or_right a b h = ground (arith, h)

or_mono : (a b c : Bool) → (a ≡ true → b ≡ true) → (a || c) ≡ true → (b || c) ≡ true
or_mono true b c f h = or_left b c (f refl)
or_mono false b c f h = or_right b c h

or_mono_right : (c a b : Bool) → (a ≡ true → b ≡ true) → (c || a) ≡ true → (c || b) ≡ true
or_mono_right true a b f h = refl
or_mono_right false a b f h = f h

mem-tail : (x w : String) (ws : List String) → mem x ws ≡ true → mem x (w ∷ ws) ≡ true
mem-tail x w ws h = ground (arith, h)

-- The word is not among the excluded.
abbrev pub IsFree : List String → String → Type 0
IsFree exclude w = mem w exclude ≡ false

add_words-IsFree :
    (exclude : List String) (v : ℤ) (ws : List String) (d : Dict ℤ)
    → All (λ (e : String × ℤ). IsFree exclude e.0) d
    → All (λ (e : String × ℤ). IsFree exclude e.0) (add_words exclude v ws d)
unfolding add_words
add_words-IsFree exclude v [] d a = a
add_words-IsFree exclude v (w ∷ ws) d a = elim (Bool-cases (mem w exclude)) [
  | inl used ↦ rw used (add_words-IsFree exclude v ws d a)
  | inr free ↦ rw free (add_words-IsFree exclude v ws _ (insert-All (IsFree exclude) w _ d free a))
]

module _ (find : String → List String) where
  word_values-IsFree :
      (exclude : List String) (cs : List PackCandidate) (d : Dict ℤ)
      → All (λ (e : String × ℤ). IsFree exclude e.0) d
      → All (λ (e : String × ℤ). IsFree exclude e.0) (word_values find exclude cs d)
  unfolding word_values
  word_values-IsFree exclude [] d a = a
  word_values-IsFree exclude (c ∷ cs) d a =
      word_values-IsFree exclude cs _
        (add_words-IsFree exclude (value c) (words find (some c.term)) d a)

  pack_keywords-IsFree :
      (cs : List PackCandidate) (exclude : List String) (limit : ℕ)
      → All (IsFree exclude) (pack_keywords find cs exclude limit)
  unfolding pack_keywords
  pack_keywords-IsFree cs exclude limit =
      pack_loop-All (IsFree exclude) limit (sort ranks_before (word_values find exclude cs [])) [] 0
        (sort-All ranks_before (λ (e : String × ℤ). IsFree exclude e.0)
          (word_values find exclude cs []) (word_values-IsFree exclude cs [] tt))
        tt

  -- None of the packed words is a word of the text.
  abbrev pub IsApart : List String → Option String → Type 0
  IsApart packed text = All (λ w. mem w packed ≡ false) (words find text)

  -- Each locale's joined field fits the limit, and none of its words is a word of the texts or was
  -- packed before: `used` are the words of the earlier locales.
  abbrev pub IsPlan : ℕ → List (Option String) → List String → List (String × List String) → Type 0
  IsPlan limit texts used [] = Unit
  IsPlan limit texts used ((locale, packed) ∷ rest) =
      (count (join packed) ≤ limit)
      × All (IsApart packed) texts
      × All (IsFree used) packed
      × IsPlan limit texts (append used packed) rest

  IsFree-apart :
      (used : List String) (packed : List String) (w : String)
      → All (IsFree used) packed
      → mem w used ≡ true
      → mem w packed ≡ false
  IsFree-apart used [] w h k = refl
  IsFree-apart used (u ∷ packed) w h k = elim (Bool-cases (str_eq w u)) [
    | inl same ↦
        let uw : w ≡ u = (eq_iff w u).0 same in
        absurd (false-true (sym h.0 ∙ (ap (λ x. mem x used) (sym uw) ∙ k)))
    | inr other ↦ rw other (IsFree-apart used packed w h.1 k)
  ]

  abbrev Within : List String → List String → Type 0
  Within a b = (w : String) → mem w a ≡ true → mem w b ≡ true

  IsFree-Within : (a b : List String) → Within a b → (w : String) → IsFree b w → IsFree a w
  IsFree-Within a b within w h = elim (Bool-cases (mem w a)) [
    | inl used ↦ absurd (false-true (sym h ∙ within w used))
    | inr free ↦ free
  ]

  Within-append :
      (a b packed : List String) → Within a b → Within (append a packed) (append b packed)
  Within-append a b packed within w h =
      mem-append w b packed
      ∙ or_mono (mem w a) (mem w b) (mem w packed) (within w) (sym (mem-append w a packed) ∙ h)

  -- All words of the text are among the used.
  abbrev Covered : List String → Option String → Type 0
  Covered used text = All (λ w. mem w used ≡ true) (words find text)

  pack_locales-IsPlan :
      (limit : ℕ) (texts : List (Option String)) (used all_used : List String)
      (candidates : List (String × List PackCandidate))
      → All (Covered all_used) texts
      → Within used all_used
      → IsPlan limit texts used (pack_locales find limit all_used candidates)
  unfolding pack_locales
  pack_locales-IsPlan limit texts used all_used [] covered within = tt
  pack_locales-IsPlan limit texts used all_used ((locale, cs) ∷ rest) covered within =
      let packed = pack_keywords find cs all_used limit in
      let free = pack_keywords-IsFree cs all_used limit in
      (
        count-pack_keywords find cs all_used limit,
        All-weaken _ _ texts
            (λ text h.
              All-weaken _ _ (words find text) (λ w k. IsFree-apart all_used packed w free k) h)
            covered,
        All-weaken _ _ packed (IsFree-Within used all_used within) free,
        pack_locales-IsPlan limit texts (append used packed) (append all_used packed) rest
            (All-weaken _ _ texts
              (λ text h.
                All-weaken _ _ (words find text)
                  (λ w k. mem-append w all_used packed ∙ or_left (mem w all_used) (mem w packed) k)
                  h)
              covered)
            (Within-append used all_used packed within),
      )

  mem_self : (ws us : List String) → All (λ w. mem w (append us ws) ≡ true) ws
  mem_self [] us = tt
  mem_self (w ∷ ws) us = (
    mem-append w us (w ∷ ws) ∙ or_right (mem w us) (mem w (w ∷ ws)) (rw (str_eq_refl w) refl),
    All-weaken _ _ ws
        (λ x k.
          mem-append x us (w ∷ ws)
          ∙ or_mono_right (mem x us) (mem x ws) (mem x (w ∷ ws)) (λ h. mem-tail x w ws h)
              (sym (mem-append x us ws) ∙ k))
        (mem_self ws us),
  )

  used_words-Covered : (texts : List (Option String)) → All (Covered (used_words find texts)) texts
  unfolding used_words
  used_words-Covered [] = tt
  used_words-Covered (text ∷ texts) = (
    All-weaken _ _ (words find text)
        (λ w k.
          mem-append w (words find text) (used_words find texts)
          ∙ or_left (mem w (words find text)) (mem w (used_words find texts)) k)
        (mem_self (words find text) []),
    All-weaken _ _ texts
        (λ t h.
          All-weaken _ _ (words find t)
            (λ w k.
              mem-append w (words find text) (used_words find texts)
              ∙ or_right (mem w (words find text)) (mem w (used_words find texts)) k)
            h)
        (used_words-Covered texts),
  )

  map-locale :
      (limit : ℕ) (used : List String) (candidates : List (String × List PackCandidate))
      → map (λ (e : String × List String). e.0) (pack_locales find limit used candidates)
        ≡ map (λ (e : String × List PackCandidate). e.0) candidates
  unfolding pack_locales
  map-locale limit used [] = refl
  map-locale limit used ((locale, cs) ∷ rest) =
      ap (λ l. locale ∷ l) (map-locale limit (append used (pack_keywords find cs used limit)) rest)

  -- The fields of a storefront are the joined words of a plan with one list of words for each
  -- locale, in order: each field fits the limit, and none of its words is a word of a name, of a
  -- subtitle or of an earlier locale's field.
  pub pack_storefront-IsPlan :
      (candidates : List (String × List PackCandidate)) (names subtitles : List (Option String))
      (limit : ℕ)
      → (plan : List (String × List String)) × (pack_storefront find candidates names subtitles
            limit
          ≡ map (λ (e : String × List String). (e.0, join e.1)) plan)
        × (map (λ (e : String × List String). e.0) plan
            ≡ map (λ (e : String × List PackCandidate). e.0) candidates)
        × IsPlan limit (append names subtitles) [] plan
  unfolding pack_storefront
  pack_storefront-IsPlan candidates names subtitles limit =
      let used = used_words find (append names subtitles) in
      (
        pack_locales find limit used candidates,
        refl,
        map-locale limit used candidates,
        pack_locales-IsPlan limit (append names subtitles) [] used candidates
            (used_words-Covered (append names subtitles)) (λ w h. absurd (false-true h)),
      )

-- The text is not empty and at most `limit` characters long.
abbrev pub IsSendable : ℕ → String × String → Type 0
IsSendable limit (locale, text) = (str_eq text "" ≡ false) × (count text ≤ limit)

bulk_values-IsSendable :
    (limit : ℕ) (fields : Dict String)
    → All (λ (e : String × String). count e.1 ≤ limit) fields
    → All (IsSendable limit) (bulk_values fields)
unfolding bulk_values
bulk_values-IsSendable limit [] a = tt
bulk_values-IsSendable limit ((locale, text) ∷ fields) a = elim (Bool-cases (str_eq text "")) [
  | inl empty ↦ rw empty (bulk_values-IsSendable limit fields a.1)
  | inr full ↦ rw full ((full, a.0), bulk_values-IsSendable limit fields a.1)
]

module _ (find : String → List String) where
  join_field-All :
      (limit : ℕ) (used : List String) (candidates : List (String × List PackCandidate))
      → All
          (λ (e : String × String). count e.1 ≤ limit)
          (map (join_field find) (pack_locales find limit used candidates))
  unfolding pack_locales
  join_field-All limit used [] = tt
  join_field-All limit used ((locale, cs) ∷ rest) = (
    count-pack_keywords find cs used limit,
    join_field-All limit (append used (pack_keywords find cs used limit)) rest,
  )

  -- What goes to the bulk preview for a storefront: only texts that are not empty and at most
  -- `limit` characters long.
  pub bulk_values-pack_storefront :
      (candidates : List (String × List PackCandidate)) (names subtitles : List (Option String))
      (limit : ℕ)
      → All (IsSendable limit) (bulk_values (pack_storefront find candidates names subtitles limit))
  unfolding pack_storefront
  bulk_values-pack_storefront candidates names subtitles limit =
      bulk_values-IsSendable limit _
        (join_field-All limit (used_words find (append names subtitles)) candidates)
