-- ===== src/Keywords/Tokenize.antt =====
-- backend/app/services/keyword_intel/tokenize.py: words, segments and the search for a phrase.
-- `find` is `_WORD.findall(text.casefold())` and `split` is `_SEGMENT_BREAK.split`. N-grams are not
-- modelled.
pub mod Phrase
mod Tests
use aso_light.Base.{
  ℕ, zero, suc, ◌+◌, ◌-◌, String, Bool, true, false, ◌&&◌, not, Option, none, some, List, [], ◌∷◌,
  map, any, keep, take, drop, length, str_eq,
}

module _ (find : String → List String) where
  -- `words`; `text or ""` is the empty text where there is none.
  abbrev pub words : Option String → List String
  words none = find ""
  words (some text) = find text

abbrev pub is_full : List String → Bool
is_full [] = false
is_full (w ∷ ws) = true

-- `==` on lists of words
abbrev pub same_words : List String → List String → Bool
same_words [] [] = true
same_words [] (u ∷ us) = false
same_words (w ∷ ws) [] = false
same_words (w ∷ ws) (u ∷ us) = str_eq w u && same_words ws us

-- `k` numbers from `start` on
abbrev pub range_from : ℕ → ℕ → List ℕ
range_from start zero = []
range_from start (suc k) = start ∷ range_from (suc start) k

-- The needle is a slice of the tokens: the part of `contains_phrase` for one segment.
abbrev pub occurs : List String → List String → Bool
occurs needle tokens =
    any (λ i. same_words (take (length needle) (drop i tokens)) needle)
      (range_from 0 (length tokens + 1 - length needle))

module _ (find : String → List String) (split : String → List String) where
  abbrev pub text_of : Option String → String
  text_of none = ""
  text_of (some text) = text

  unfoldable pub segments : Option String → List (List String)
  segments text = keep is_full (map (λ seg. words find (some seg)) (split (text_of text)))

  unfoldable pub contains_phrase : Option String → String → Bool
  contains_phrase text phrase =
      let needle = words find (some phrase) in is_full needle && any (occurs needle) (segments text)
