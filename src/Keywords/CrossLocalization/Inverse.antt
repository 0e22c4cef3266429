-- ===== src/Keywords/CrossLocalization/Inverse.antt =====
-- backend/app/services/keywords/cross_localization.py: the two lookup tables say the same.
use mathlib.Core.List.{◌++◌}
use aso_light.Base.{
  arith, String, Bool, ◌≡◌, List, [], ◌∷◌, if◌then◌else◌, any, ◌&&◌, eq_iff, str_eq, ◌||◌,
}
use aso_light.Base.Dict.{Dict, mem, lookup-insert}
use aso_light.Keywords.CrossLocalization.Table.{Entry}
use aso_light.Keywords.CrossLocalization.{
  listed, append_to, Lookups, index_entry, index_entries, get_indexed_locales_for_territory,
  get_territories_for_locale,
}

mem-append_one : (x v : String) (xs : List String) → mem x (xs ++ v ∷ []) ≡ (mem x xs || str_eq x v)
mem-append_one x v [] = ground arith
mem-append_one x v (y ∷ xs) = ground (arith, mem-append_one x v xs)

-- Appending under one key is seen under that key only.
listed-append_to :
    (j k v x : String) (table : Dict (List String))
    → mem x (listed j (append_to k v table))
      ≡ (if str_eq j k then mem x (listed k table) || str_eq x v else mem x (listed j table))
listed-append_to j k v x table =
    ground (
      arith,
      lookup-insert k j (listed k table ++ v ∷ []) table,
      mem-append_one x v (listed k table),
    )

-- The entry says that the locale is indexed in the territory.
abbrev pub says : String → String → Entry → Bool
says territory locale entry =
    entry.is_indexed && str_eq territory entry.territory_code && str_eq locale entry.locale

-- After the loop a locale is listed for a territory, and the territory for the locale, exactly when
-- they were before or an entry says so.
abbrev pub IsIndexOf : List Entry → Lookups → Lookups → Type 0
IsIndexOf entries before after =
    (territory locale : String)
    → (mem locale (get_indexed_locales_for_territory after territory) ≡ (
        mem locale (get_indexed_locales_for_territory before territory)
        || any (says territory locale) entries))
      × (mem territory (get_territories_for_locale after locale) ≡ (
          mem territory (get_territories_for_locale before locale)
          || any (says territory locale) entries))

index_entry-IsIndexOf :
    (entry : Entry) (ls : Lookups) → IsIndexOf (entry ∷ []) ls (index_entry entry ls)
unfolding get_indexed_locales_for_territory get_territories_for_locale
index_entry-IsIndexOf entry ls territory locale = ground (
  arith,
  eq_iff territory entry.territory_code,
  eq_iff locale entry.locale,
  listed-append_to territory entry.territory_code entry.locale locale ls.locales_by_territory,
  listed-append_to locale entry.locale entry.territory_code territory ls.territories_by_locale,
)

-- After the loop a locale is listed for a territory exactly when it was before or an indexed entry
-- has the two, and the territory is listed for the locale under the same condition.
pub index_entries-IsIndexOf :
    (entries : List Entry) (ls : Lookups) → IsIndexOf entries ls (index_entries entries ls)
unfolding index_entries
index_entries-IsIndexOf [] ls territory locale = ground arith
index_entries-IsIndexOf (entry ∷ rest) ls territory locale = ground (
  arith,
  index_entry-IsIndexOf entry ls territory locale,
  index_entries-IsIndexOf rest (index_entry entry ls) territory locale,
)
