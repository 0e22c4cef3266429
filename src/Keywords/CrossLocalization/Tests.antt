-- ===== src/Keywords/CrossLocalization/Tests.antt =====
-- backend/app/services/keywords/cross_localization.py: the loaded tables.
use aso_light.Base.{◌≡◌, refl, [], ◌∷◌}
use aso_light.Keywords.CrossLocalization.Table.{cross_localization_data}
use aso_light.Keywords.CrossLocalization.{
  index_entries, no_lookups, loaded, get_indexed_locales_for_territory, get_territories_for_locale,
}
use aso_light.Keywords.CrossLocalization.Inverse.{IsIndexOf, index_entries-IsIndexOf}

ukraine : get_indexed_locales_for_territory loaded "UA" ≡ "uk" ∷ "en-US" ∷ "ru" ∷ []
unfolding get_indexed_locales_for_territory index_entries
ukraine = refl

german : get_territories_for_locale loaded "de-DE" ≡ "DE" ∷ "AT" ∷ "CH" ∷ []
unfolding get_territories_for_locale index_entries
german = refl

index_entries-IsIndexOf_example : IsIndexOf cross_localization_data no_lookups loaded
index_entries-IsIndexOf_example = index_entries-IsIndexOf cross_localization_data no_lookups
