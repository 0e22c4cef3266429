-- ===== src/Keywords/Packer/Field.antt =====
-- backend/app/services/keyword_intel/packer.py, `pack_keywords`: the length of a field.
use Prim.Native.String.{count, ◌++◌}
use text.Mathlib.TextLemmas.{length-append as count-append}
use mathlib.Core.List.{◌++◌ as append}
use aso_light.Base.{ℕ, ◌+◌, ◌≤◌, String, ◌≡◌, refl, List, [], ◌∷◌, arith, ltb, inl, inr, Bool-cases}
use aso_light.Base.Int.{ℤ, pos, leb_ℤ}
use aso_light.Base.Sort.{sort}
use aso_light.Keywords.Packer.{
  PackCandidate, ranks_before, added, pack_loop, join, word_values, pack_keywords, separator,
}

-- Appending a word makes the field longer by what the loop counts.
pub count-join :
    (packed : List String) (word : String)
    → count (join (append packed (word ∷ []))) ≡ count (join packed) + added word packed
unfolding join
count-join [] word = omega arith
count-join (w ∷ []) word =
    omega (arith, count-append w (separator ++ word), count-append separator word)
count-join (w ∷ u ∷ ws) word = omega (
  arith,
  count-join (u ∷ ws) word,
  count-append w (separator ++ join (u ∷ append ws (word ∷ []))),
  count-append separator (join (u ∷ append ws (word ∷ []))),
  count-append w (separator ++ join (u ∷ ws)),
  count-append separator (join (u ∷ ws)),
)

pack_loop-length :
    (limit : ℕ) (ranked : List (String × ℤ)) (packed : List String) (length : ℕ)
    → length ≡ count (join packed)
    → length ≤ limit
    → count (join (pack_loop limit ranked packed length)) ≤ limit
unfolding pack_loop
pack_loop-length limit [] packed length e h = omega arith
pack_loop-length limit ((word, v) ∷ ranked) packed length e h =
    elim (Bool-cases (leb_ℤ v (pos 0))) [
      | inl worthless ↦ rw worthless (pack_loop-length limit ranked packed length e h)
      | inr worth ↦ elim (Bool-cases (ltb limit (length + added word packed))) [
        | inl full ↦ rw (worth, full) (pack_loop-length limit ranked packed length e h)
        | inr fits ↦
            rw (worth, fits)
              (pack_loop-length limit ranked (append packed (word ∷ []))
                (length + added word packed) (omega (arith, e, count-join packed word))
                (ground arith))
      ]
    ]

module _ (find : String → List String) where
  -- The joined field of packed keywords is at most `limit` characters long, separators included.
  pub count-pack_keywords :
      (candidates : List PackCandidate) (exclude : List String) (limit : ℕ)
      → count (join (pack_keywords find candidates exclude limit)) ≤ limit
  unfolding pack_keywords join
  count-pack_keywords candidates exclude limit =
      pack_loop-length limit (sort ranks_before (word_values find exclude candidates [])) [] 0 refl
        (omega arith)
