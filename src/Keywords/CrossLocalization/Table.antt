-- ===== src/Keywords/CrossLocalization/Table.antt =====
-- backend/app/services/keywords/cross_localization.py, `CROSS_LOCALIZATION_DATA`.
use mathlib.Core.List.{◌++◌}
use aso_light.Base.{String, Bool, true, List, [], ◌∷◌}

-- An entry of the table: a dictionary with these three keys.
pub record Entry : Type 0 where
  pub territory_code : String
  pub locale : String
  pub is_indexed : Bool

abbrev indexed : String → String → Entry
indexed t l = record { territory_code = t; locale = l; is_indexed = true }

-- The entries from the United States to Portugal.
abbrev us_to_portugal : List Entry
us_to_portugal =
    indexed "US" "en-US"
    ∷ indexed "US" "es-MX"
    ∷ indexed "US" "fr-FR"
    ∷ indexed "US" "pt-BR"
    ∷ indexed "US" "zh-Hans"
    ∷ indexed "US" "zh-Hant"
    ∷ indexed "US" "ko"
    ∷ indexed "US" "vi"
    ∷ indexed "US" "ar"
    ∷ indexed "US" "ru"
    ∷ indexed "GB" "en-GB"
    ∷ indexed "GB" "en-US"
    ∷ indexed "DE" "de-DE"
    ∷ indexed "DE" "en-US"
    ∷ indexed "FR" "fr-FR"
    ∷ indexed "FR" "en-US"
    ∷ indexed "JP" "ja"
    ∷ indexed "JP" "en-US"
    ∷ indexed "CN" "zh-Hans"
    ∷ indexed "CN" "en-US"
    ∷ indexed "KR" "ko"
    ∷ indexed "KR" "en-US"
    ∷ indexed "RU" "ru"
    ∷ indexed "RU" "en-US"
    ∷ indexed "BR" "pt-BR"
    ∷ indexed "BR" "en-US"
    ∷ indexed "BR" "es-MX"
    ∷ indexed "MX" "es-MX"
    ∷ indexed "MX" "en-US"
    ∷ indexed "IT" "it"
    ∷ indexed "IT" "en-US"
    ∷ indexed "ES" "es-ES"
    ∷ indexed "ES" "en-US"
    ∷ indexed "AU" "en-AU"
    ∷ indexed "AU" "en-US"
    ∷ indexed "CA" "en-CA"
    ∷ indexed "CA" "fr-CA"
    ∷ indexed "CA" "en-US"
    ∷ indexed "IN" "en-US"
    ∷ indexed "IN" "hi"
    ∷ indexed "TR" "tr"
    ∷ indexed "TR" "en-US"
    ∷ indexed "NL" "nl"
    ∷ indexed "NL" "en-US"
    ∷ indexed "SE" "sv"
    ∷ indexed "SE" "en-US"
    ∷ indexed "PL" "pl"
    ∷ indexed "PL" "en-US"
    ∷ indexed "TW" "zh-Hant"
    ∷ indexed "TW" "en-US"
    ∷ indexed "SA" "ar"
    ∷ indexed "SA" "en-US"
    ∷ indexed "AE" "ar"
    ∷ indexed "AE" "en-US"
    ∷ indexed "TH" "th"
    ∷ indexed "TH" "en-US"
    ∷ indexed "VN" "vi"
    ∷ indexed "VN" "en-US"
    ∷ indexed "ID" "id"
    ∷ indexed "ID" "en-US"
    ∷ indexed "PT" "pt-PT"
    ∷ indexed "PT" "en-US"
    ∷ []

-- The entries from Norway to Ukraine.
abbrev norway_to_ukraine : List Entry
norway_to_ukraine =
    indexed "NO" "nb"
    ∷ indexed "NO" "en-US"
    ∷ indexed "DK" "da"
    ∷ indexed "DK" "en-US"
    ∷ indexed "FI" "fi"
    ∷ indexed "FI" "en-US"
    ∷ indexed "AT" "de-DE"
    ∷ indexed "AT" "en-US"
    ∷ indexed "CH" "de-DE"
    ∷ indexed "CH" "fr-FR"
    ∷ indexed "CH" "it"
    ∷ indexed "CH" "en-US"
    ∷ indexed "BE" "nl"
    ∷ indexed "BE" "fr-FR"
    ∷ indexed "BE" "en-US"
    ∷ indexed "IL" "he"
    ∷ indexed "IL" "en-US"
    ∷ indexed "SG" "en-US"
    ∷ indexed "SG" "zh-Hans"
    ∷ indexed "HK" "zh-Hant"
    ∷ indexed "HK" "en-US"
    ∷ indexed "MY" "ms"
    ∷ indexed "MY" "en-US"
    ∷ indexed "MY" "zh-Hans"
    ∷ indexed "PH" "en-US"
    ∷ indexed "CO" "es-MX"
    ∷ indexed "CO" "en-US"
    ∷ indexed "AR" "es-MX"
    ∷ indexed "AR" "en-US"
    ∷ indexed "CL" "es-MX"
    ∷ indexed "CL" "en-US"
    ∷ indexed "PE" "es-MX"
    ∷ indexed "PE" "en-US"
    ∷ indexed "EG" "ar"
    ∷ indexed "EG" "en-US"
    ∷ indexed "ZA" "en-US"
    ∷ indexed "NG" "en-US"
    ∷ indexed "NZ" "en-US"
    ∷ indexed "NZ" "en-AU"
    ∷ indexed "IE" "en-GB"
    ∷ indexed "IE" "en-US"
    ∷ indexed "CZ" "cs"
    ∷ indexed "CZ" "en-US"
    ∷ indexed "RO" "ro"
    ∷ indexed "RO" "en-US"
    ∷ indexed "HU" "hu"
    ∷ indexed "HU" "en-US"
    ∷ indexed "GR" "el"
    ∷ indexed "GR" "en-US"
    ∷ indexed "UA" "uk"
    ∷ indexed "UA" "en-US"
    ∷ indexed "UA" "ru"
    ∷ []

-- `CROSS_LOCALIZATION_DATA`
abbrev pub cross_localization_data : List Entry
cross_localization_data = us_to_portugal ++ norway_to_ukraine
