-- ===== src/Keywords/Packer/Tests.antt =====
-- backend/app/services/keyword_intel/packer.py: the packer run on a small catalogue.
use Prim.Native.String.{count}
use aso_light.Base.{
  ◌≤◌, ◌≡◌, refl, Option, none, some, List, [], ◌∷◌, All, String, map, str_eq, if◌then◌else◌, true,
  false,
}
use aso_light.Keywords.Tokenize.{words}
use aso_light.Keywords.Packer.{
  PackCandidate, pack_keywords, join, pack_storefront, bulk_values, word_values, ranks_before,
  value, add_words, pack_loop,
}
use aso_light.Keywords.Packer.Field.{count-pack_keywords}
use aso_light.Keywords.Packer.Greedy.{IsPlaced, pack_keywords-IsServed}
use aso_light.Keywords.Packer.Storefront.{
  IsPlan, IsSendable, pack_storefront-IsPlan, bulk_values-pack_storefront,
}

-- A tokenizer that takes the whole text as one word.
abbrev one_word : String → List String
one_word text = if str_eq text "" then [] else text ∷ []

abbrev candidates : List PackCandidate
candidates =
    record { term = "photo"; popularity = 60; difficulty = 40 }
    ∷ record { term = "editor"; popularity = 50; difficulty = 20 }
    ∷ record { term = "free"; popularity = 0; difficulty = 10 }
    ∷ record { term = "cam"; popularity = 30; difficulty = 10 }
    ∷ []

abbrev by_locale : List (String × List PackCandidate)
by_locale = ("en-US", candidates) ∷ ("es-MX", candidates) ∷ []

packed : pack_keywords one_word candidates ("photo" ∷ []) 10 ≡ "cam" ∷ "editor" ∷ []
unfolding pack_keywords word_values add_words value pack_loop ranks_before aso_light.Base.Int.◌*ℤ◌
    aso_light.Base.Int.◌-ℤ◌
packed = refl

count-pack_keywords_example :
    count (join (pack_keywords one_word candidates ("photo" ∷ []) 10)) ≤ 10
count-pack_keywords_example = count-pack_keywords one_word candidates ("photo" ∷ []) 10

pack_keywords-IsServed_example :
    All
      (λ c.
        All
          (IsPlaced 10
            ("photo" ∷ [])
            (pack_keywords one_word candidates ("photo" ∷ []) 10)
            (value c))
          (words one_word (some c.term)))
      candidates
pack_keywords-IsServed_example = pack_keywords-IsServed one_word candidates ("photo" ∷ []) 10

pack_storefront-IsPlan_example :
    (plan : List (String × List String)) × (pack_storefront one_word by_locale
        (some "photo" ∷ [])
        (none ∷ [])
        8
      ≡ map (λ (e : String × List String). (e.0, join e.1)) plan)
    × (map (λ (e : String × List String). e.0) plan
        ≡ map (λ (e : String × List PackCandidate). e.0) by_locale)
    × IsPlan one_word 8 (some "photo" ∷ none ∷ []) [] plan
pack_storefront-IsPlan_example =
    pack_storefront-IsPlan one_word by_locale (some "photo" ∷ []) (none ∷ []) 8

bulk_values-pack_storefront_example :
    All
      (IsSendable 8)
      (bulk_values (pack_storefront one_word by_locale (some "photo" ∷ []) (none ∷ []) 8))
bulk_values-pack_storefront_example =
    bulk_values-pack_storefront one_word by_locale (some "photo" ∷ []) (none ∷ []) 8
