-- ===== src/Metadata/Audit.antt =====
-- backend/app/services/aso_check/audit.py: the audit of a metadata snapshot. The operations on texts
-- and `urlparse` are arguments; an issue's code carries what its message reports.
pub mod Fields
pub mod Errors
mod Tests
use Prim.Native.String.{count}
use aso_light.Base.{
  ℕ, suc, ◌+◌, ◌*◌, String, Bool, true, false, not, ◌&&◌, ◌||◌, Option, none, some, List, [], ◌∷◌,
  ◌++◌, map, keep, any, all, str_eq, eqb, ltb, leb, if◌then◌else◌,
}
use aso_light.Base.Dict.{Dict, lookup, insert, contains, mem}
use aso_light.Base.Sort.{sort, text_leb}
use aso_light.Metadata.Validation.{field_char_limits, is_valid_url}

-- `AppMetadataLocalization`; an absent column is `None`.
pub record Localization : Type 0 where
  pub kind : String
  pub locale : String
  pub columns : Dict String

pub data Severity : Type 0 where
  error warning info : Severity

pub data Code : Type 0 where
  no_snapshot empty : Code
  over_limit near_limit underused : ℕ → ℕ → Code
  bad_url : Code
  kw_duplicate : String → ℕ → Code
  kw_redundant : String → Code
  pp_missing_here : Code
  url_missing_here : String → Code
  tracked_not_placed : String → Code

pub record Issue : Type 0 where
  pub severity : Severity
  pub locale : Option String
  pub field : Option String
  pub code : Code

abbrev pub issue : Severity → String → String → Code → Issue
issue severity locale field code = record {
  severity = severity;
  locale = some locale;
  field = some field;
  code = code;
}

abbrev pub flat_map {ℓ κ} : {A : Type ℓ} {B : Type κ} → (A → List B) → List A → List B
flat_map f [] = []
flat_map f (x ∷ xs) = f x ++ flat_map f xs

-- The texts of a set, each once
abbrev pub distinct : List String → List String
distinct [] = []
distinct (s ∷ ss) = let rest = distinct ss in if mem s rest then rest else s ∷ rest

abbrev pub column : String → Localization → String
column field r = elim (lookup field r.columns) [ none ↦ "" | some v ↦ v ]

-- `if value`
abbrev pub is_set : String → Localization → Bool
is_set field r = not (str_eq (column field r) "")

-- `_row_for`
unfoldable pub row_for : List Localization → String → String → Option Localization
row_for [] kind locale = none
row_for (r ∷ rows) kind locale =
    let rest = row_for rows kind locale in
    if str_eq r.kind kind && str_eq r.locale locale then some r else rest

abbrev pub value_in : String → Option Localization → String
value_in field none = ""
value_in field (some r) = column field r

-- `_field_audit` of a value that is set, with the fractions as cross products
abbrev pub length_audit : String → String → ℕ → ℕ → List Issue
length_audit locale field limit used =
    if ltb limit used
    then issue error locale field (over_limit used limit) ∷ []
    else if leb (95 * limit) (100 * used)
    then issue warning locale field (near_limit used limit) ∷ []
    else if ltb (2 * used) limit && mem field ("keywords" ∷ "subtitle" ∷ "name" ∷ [])
    then issue info locale field (underused used limit) ∷ []
    else []

abbrev pub limited_audit : String → String → String → Bool → Option ℕ → List Issue
limited_audit locale field value optional none = []
limited_audit locale field value optional (some limit) =
    if str_eq value ""
    then (if optional then [] else issue error locale field empty ∷ [])
    else length_audit locale field limit (count value)

-- `_field_audit`; `None` and the empty text count the same.
unfoldable pub field_audit : String → String → String → Bool → List Issue
field_audit locale field value optional =
    limited_audit locale field value optional (lookup field field_char_limits)

abbrev pub required_app_info : List String
required_app_info = "name" ∷ "subtitle" ∷ []

abbrev pub required_version : List String
required_version = "description" ∷ "keywords" ∷ []

abbrev pub required_audit : String → Option Localization → String → List Issue
required_audit locale row field = field_audit locale field (value_in field row) false

abbrev pub promotional_audit : String → String → List Issue
promotional_audit locale value =
    if str_eq value "" then [] else field_audit locale "promotional_text" value true

abbrev pub locale_audit : List Localization → List Localization → String → List Issue
locale_audit app_info versions locale =
    flat_map (required_audit locale (row_for app_info "app_info" locale)) required_app_info
    ++ flat_map (required_audit locale (row_for versions "version" locale)) required_version
    ++ promotional_audit locale (value_in "promotional_text" (row_for versions "version" locale))

-- `_check_per_locale_fields`
unfoldable pub check_per_locale_fields :
    List String → List Localization → List Localization → List Issue
check_per_locale_fields locales app_info versions =
    flat_map (locale_audit app_info versions) locales

-- One rule of `_check_cross_locale_url_consistency`
abbrev pub missing_here : Severity → String → Code → List Localization → List Issue
missing_here severity field code rows =
    let without = keep (λ r. not (is_set field r)) rows in
    if any (is_set field) rows
    then map (λ locale. issue severity locale field code)
        (sort text_leb (distinct (map (λ r. r.locale) without)))
    else []

abbrev pub version_urls : List String
version_urls = "marketing_url" ∷ "support_url" ∷ []

unfoldable pub check_cross_locale_url_consistency :
    List Localization → List Localization → List Issue
check_cross_locale_url_consistency app_info versions =
    missing_here warning "privacy_policy_url" pp_missing_here app_info
    ++ flat_map (λ field. missing_here info field (url_missing_here field) versions) version_urls

-- `_check_unplaced_tracked_keywords`, on (keyword, locale, placement)
abbrev pub placement_audit : String × String × String → List Issue
placement_audit (keyword, locale, placement) =
    if str_eq placement "none"
    then issue warning locale "keywords" (tracked_not_placed keyword) ∷ []
    else []

unfoldable pub check_unplaced_tracked_keywords : List (String × String × String) → List Issue
check_unplaced_tracked_keywords coverage = flat_map placement_audit coverage

-- Python's text operations: `s.split(",")`, `strip`, `lower` and `split`.
pub record Texts : Type 0 where
  pub split_commas : String → List String
  pub strip : String → String
  pub lower : String → String
  pub split : String → List String

-- `collections.Counter`, by the first occurrence
abbrev pub count_in : String → Dict ℕ → Dict ℕ
count_in k d = elim (lookup k d) [ none ↦ insert k 1 d | some n ↦ insert k (suc n) d ]

abbrev pub counter : List String → Dict ℕ → Dict ℕ
counter [] d = d
counter (k ∷ ks) d = counter ks (count_in k d)

module _ (x : Texts) where
  -- `_split_keywords`
  unfoldable pub split_keywords : String → List String
  split_keywords value =
      if str_eq value ""
      then []
      else map (λ k. x.lower (x.strip k))
          (keep (λ k. not (str_eq (x.strip k) "")) (x.split_commas value))

  abbrev pub duplicate_audit : String → String × ℕ → List Issue
  duplicate_audit locale (kw, n) =
      if ltb 1 n then issue warning locale "keywords" (kw_duplicate kw n) ∷ [] else []

  abbrev pub redundant_audit : String → List String → String × ℕ → List Issue
  redundant_audit locale indexed (kw, n) =
      if mem kw indexed then issue info locale "keywords" (kw_redundant kw) ∷ [] else []

  abbrev pub words_of : String → Localization → List String
  words_of field r = x.split (x.lower (column field r))

  -- `by_locale_ai`: the last row of a locale
  abbrev pub rows_by_locale : List Localization → Dict Localization → Dict Localization
  rows_by_locale [] d = d
  rows_by_locale (r ∷ rows) d = rows_by_locale rows (insert r.locale r d)

  abbrev pub indexed_audit : String → Dict ℕ → Option Localization → List Issue
  indexed_audit locale counts none = []
  indexed_audit locale counts (some ai) =
      flat_map (redundant_audit locale (words_of "name" ai ++ words_of "subtitle" ai)) counts

  abbrev pub version_audit : Dict Localization → Localization → List Issue
  version_audit ais ver =
      let counts = counter (split_keywords (column "keywords" ver)) [] in
      flat_map (duplicate_audit ver.locale) counts
      ++ indexed_audit ver.locale counts (lookup ver.locale ais)

  -- `_check_keyword_quality`
  unfoldable pub check_keyword_quality : List Localization → List Localization → List Issue
  check_keyword_quality versions app_info =
      flat_map (version_audit (rows_by_locale app_info [])) versions

  module _ (urlparse : String → Option (String × String)) where
    abbrev pub url_audit : String → Localization → List Issue
    url_audit field r =
        if is_set field r && not (is_valid_url urlparse (column field r))
        then issue error r.locale field bad_url ∷ []
        else []

    abbrev pub version_url_audit : Localization → List Issue
    version_url_audit r = flat_map (λ field. url_audit field r) version_urls

    -- `_check_url_validity`
    unfoldable pub check_url_validity : List Localization → List Localization → List Issue
    check_url_validity app_info versions =
        flat_map (url_audit "privacy_policy_url") app_info ++ flat_map version_url_audit versions

    unfoldable pub locales_of : List Localization → List Localization → List String
    locales_of app_info versions =
        sort text_leb (distinct (map (λ r. r.locale) (app_info ++ versions)))

    abbrev pub audit_locales :
        List String
        → List Localization
        → List Localization
        → List (String × String × String)
        → List Issue
    audit_locales [] app_info versions coverage =
        record { severity = error; locale = none; field = none; code = no_snapshot } ∷ []
    audit_locales (l ∷ ls) app_info versions coverage =
        check_per_locale_fields (l ∷ ls) app_info versions
        ++ check_url_validity app_info versions
        ++ check_keyword_quality versions app_info
        ++ check_cross_locale_url_consistency app_info versions
        ++ check_unplaced_tracked_keywords coverage

    -- `audit`
    unfoldable pub audit :
        List Localization → List Localization → List (String × String × String) → List Issue
    audit app_info versions coverage =
        audit_locales (locales_of app_info versions) app_info versions coverage
