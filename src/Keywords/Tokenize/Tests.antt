-- ===== src/Keywords/Tokenize/Tests.antt =====
-- backend/app/services/keyword_intel/tokenize.py: a phrase in a short title.
use aso_light.Base.{String, List, [], ◌∷◌, ◌≡◌, refl, ◌↔◌, some, true, str_eq, if◌then◌else◌}
use aso_light.Keywords.Tokenize.{words, is_full, segments, contains_phrase}
use aso_light.Keywords.Tokenize.Phrase.{SomeInfix, contains_phrase-SomeInfix}

-- The words and the segments of the texts below, and no others.
abbrev title_words : String → List String
title_words text =
    if str_eq text "Calm"
    then "calm" ∷ []
    else if str_eq text " Sleep Sounds Daily"
    then "sleep" ∷ "sounds" ∷ "daily" ∷ []
    else if str_eq text "sounds daily"
    then "sounds" ∷ "daily" ∷ []
    else []

abbrev title_segments : String → List String
title_segments text = "Calm" ∷ " Sleep Sounds Daily" ∷ []

found :
    contains_phrase title_words title_segments (some "Calm: Sleep Sounds Daily") "sounds daily"
    ≡ true
unfolding contains_phrase segments
found = refl

contains_phrase-SomeInfix_example :
    (contains_phrase title_words title_segments (some "Calm: Sleep Sounds Daily") "sounds daily"
      ≡ true)
    ↔ ((is_full (words title_words (some "sounds daily")) ≡ true)
        × SomeInfix
            (words title_words (some "sounds daily"))
            (segments title_words title_segments (some "Calm: Sleep Sounds Daily")))
contains_phrase-SomeInfix_example =
    contains_phrase-SomeInfix title_words title_segments (some "Calm: Sleep Sounds Daily")
      "sounds daily"
