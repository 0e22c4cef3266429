-- ===== src/Keywords/CrossLocalization.antt =====
-- backend/app/services/keywords/cross_localization.py: which locales are indexed in which
-- territories. The two lookup tables are filled by the loop at the end of the module.
mod Table
mod Inverse
mod Tests
use mathlib.Core.List.{◌++◌}
use aso_light.Base.{String, Option, none, some, List, [], ◌∷◌, if◌then◌else◌}
use aso_light.Base.Dict.{Dict, lookup, insert}
use aso_light.Keywords.CrossLocalization.Table.{Entry, cross_localization_data}

-- `table.get(key, [])`
abbrev pub listed : String → Dict (List String) → List String
listed key table = elim (lookup key table) [ none ↦ [] | some values ↦ values ]

-- `table.setdefault(key, []).append(value)`
abbrev pub append_to : String → String → Dict (List String) → Dict (List String)
append_to key value table = insert key (listed key table ++ value ∷ []) table

-- `_LOCALES_BY_TERRITORY` and `_TERRITORIES_BY_LOCALE`
pub record Lookups : Type 0 where
  pub locales_by_territory : Dict (List String)
  pub territories_by_locale : Dict (List String)

-- One round of the loop over the entries.
abbrev pub index_entry : Entry → Lookups → Lookups
index_entry entry ls =
    if entry.is_indexed
    then record {
      locales_by_territory = append_to entry.territory_code entry.locale ls.locales_by_territory;
      territories_by_locale = append_to entry.locale entry.territory_code ls.territories_by_locale;
    }
    else ls

unfoldable pub index_entries : List Entry → Lookups → Lookups
index_entries [] ls = ls
index_entries (entry ∷ rest) ls = index_entries rest (index_entry entry ls)

abbrev pub no_lookups : Lookups
no_lookups = record { locales_by_territory = []; territories_by_locale = [] }

-- The tables after the module is loaded.
abbrev pub loaded : Lookups
loaded = index_entries cross_localization_data no_lookups

pub get_cross_localization_table : List Entry
get_cross_localization_table = cross_localization_data

unfoldable pub get_indexed_locales_for_territory : Lookups → String → List String
get_indexed_locales_for_territory ls territory_code = listed territory_code ls.locales_by_territory

unfoldable pub get_territories_for_locale : Lookups → String → List String
get_territories_for_locale ls locale = listed locale ls.territories_by_locale
