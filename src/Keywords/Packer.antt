-- ===== src/Keywords/Packer.antt =====
-- backend/app/services/keyword_intel/packer.py: keyword fields of at most 100 characters.
-- The regular expression with the case folding of `words` is an argument. A candidate's value is
-- an exact number of hundredths where the source computes with floats.
pub mod Field
pub mod Greedy
pub mod Storefront
mod Tests
use Prim.Native.String.{count, ◌++◌, compare}
use Prim.Native.Nat.{Ordering}
use aso_light.Base.{
  ℕ, ◌+◌, String, Bool, true, false, Option, none, some, List, [], ◌∷◌, map, ltb, str_eq,
  if◌then◌else◌,
}
use mathlib.Core.List.{◌++◌ as append}
use aso_light.Keywords.Tokenize.{words}
use aso_light.Base.Dict.{Dict, mem, lookup, insert}
use aso_light.Base.Int.{ℤ, pos, ◌*ℤ◌, ◌-ℤ◌, ltb_ℤ, leb_ℤ}
use aso_light.Base.Sort.{sort}

abbrev pub field_limit : ℕ
field_limit = 100

abbrev pub separator : String
separator = ","

pub record PackCandidate : Type 0 where
  pub term : String
  pub popularity : ℕ
  pub difficulty : ℕ

-- `PackCandidate.value`, times one hundred
pub value : PackCandidate → ℤ
value c = pos c.popularity *ℤ (pos 100 -ℤ pos c.difficulty)

abbrev pub or_zero : Option ℤ → ℤ
or_zero none = pos 0
or_zero (some v) = v

abbrev pub max_value : ℤ → ℤ → ℤ
max_value a b = if ltb_ℤ a b then b else a

-- The inner loop: the words of one candidate.
pub add_words : List String → ℤ → List String → Dict ℤ → Dict ℤ
add_words exclude v [] values = values
add_words exclude v (word ∷ rest) values = add_words exclude v rest (
    if mem word exclude
    then values
    else insert word (max_value (or_zero (lookup word values)) v) values)

-- Whether `(-v / len(w), w) <= (-x / len(u), u)`; no word is empty.
pub ranks_before : String × ℤ → String × ℤ → Bool
ranks_before (w, v) (u, x) =
    if ltb_ℤ (x *ℤ pos (count w)) (v *ℤ pos (count u))
    then true
    else if ltb_ℤ (v *ℤ pos (count u)) (x *ℤ pos (count w))
    then false
    else elim (compare w u) [ Ordering.gt ↦ false | _ ↦ true ]

abbrev pub is_empty {ℓ} : {A : Type ℓ} → List A → Bool
is_empty [] = true
is_empty (x ∷ xs) = false

-- `len(word) + (len(KEYWORD_SEPARATOR) if packed else 0)`
abbrev pub added : String → List String → ℕ
added word packed = count word + (if is_empty packed then 0 else count separator)

-- The greedy loop over the ranked words.
pub pack_loop : ℕ → List (String × ℤ) → List String → ℕ → List String
pack_loop limit [] packed length = packed
pack_loop limit ((word, v) ∷ ranked) packed length =
    let skip = pack_loop limit ranked packed length in
    let take = pack_loop limit ranked (append packed (word ∷ [])) (length + added word packed) in
    if leb_ℤ v (pos 0) then skip else if ltb limit (length + added word packed) then skip else take

-- `KEYWORD_SEPARATOR.join(packed)`
pub join : List String → String
join [] = ""
join (w ∷ []) = w
join (w ∷ u ∷ ws) = w ++ (separator ++ join (u ∷ ws))

-- `find` is `_WORD.findall(text.casefold())`.
module _ (find : String → List String) where
  -- The outer loop over the candidates.
  pub word_values : List String → List PackCandidate → Dict ℤ → Dict ℤ
  word_values exclude [] values = values
  word_values exclude (c ∷ cs) values =
      word_values exclude cs (add_words exclude (value c) (words find (some c.term)) values)

  pub pack_keywords : List PackCandidate → List String → ℕ → List String
  pack_keywords candidates exclude limit =
      pack_loop limit (sort ranks_before (word_values exclude candidates [])) [] 0

  -- The words of the names and subtitles: the set `used` before the loop.
  pub used_words : List (Option String) → List String
  used_words [] = []
  used_words (text ∷ texts) = append (words find text) (used_words texts)

  -- The loop of `pack_storefront`, before the words are joined.
  pub pack_locales :
      ℕ → List String → List (String × List PackCandidate) → List (String × List String)
  pack_locales limit used [] = []
  pack_locales limit used ((locale, candidates) ∷ rest) =
      let packed = pack_keywords candidates used limit in
      (locale, packed) ∷ pack_locales limit (append used packed) rest

  abbrev join_field : String × List String → String × String
  join_field (locale, packed) = (locale, join packed)

  -- `pack_storefront`, on mappings as lists of entries
  pub pack_storefront :
      List (String × List PackCandidate)
      → List (Option String)
      → List (Option String)
      → ℕ
      → Dict String
  pack_storefront candidates_by_locale names subtitles limit =
      map join_field (pack_locales limit (used_words (append names subtitles)) candidates_by_locale)

-- The `values_by_locale` of `bulk_preview_payload`: empty fields are left out.
pub bulk_values : Dict String → Dict String
bulk_values [] = []
bulk_values ((locale, text) ∷ fields) =
    let rest = bulk_values fields in if str_eq text "" then rest else (locale, text) ∷ rest
