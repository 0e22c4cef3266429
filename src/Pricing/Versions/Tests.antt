-- ===== src/Pricing/Versions/Tests.antt =====
-- backend/app/services/pricing/versions.py: two applies of one product read the same number.
use aso_light.Base.{ℕ, ◌≡◌, refl, List, [], ◌∷◌}
use aso_light.Pricing.Versions.{
  ProductKey, Event, begin, read_number, commit, history, happens, latest, next_version, is_taken,
  no_versions,
}
use aso_light.Pricing.Versions.Numbering.{versions_of, count_down, history-numbers}

abbrev key : ProductKey
key = record { app_id = 1; product_kind = "iap"; product_ref_id = 7 }

-- The second call loses, reads again and takes the next number.
abbrev events : List Event
events =
    begin "a" key []
    ∷ begin "b" key []
    ∷ read_number "a"
    ∷ read_number "b"
    ∷ commit "a"
    ∷ commit "b"
    ∷ read_number "b"
    ∷ commit "b"
    ∷ []

both-saved : versions_of key (history events no_versions).rows ≡ 2 ∷ 1 ∷ []
unfolding history happens latest next_version is_taken
both-saved = refl

history-numbers_example :
    (n : ℕ) × (versions_of key (history events no_versions).rows ≡ count_down n)
history-numbers_example = history-numbers events key
