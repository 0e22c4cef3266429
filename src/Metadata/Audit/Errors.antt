-- ===== src/Metadata/Audit/Errors.antt =====
-- backend/app/services/aso_check/audit.py: which snapshots have an issue of severity `error`.
use aso_light.Base.{
  ℕ, String, Bool, true, false, not, ◌&&◌, ◌||◌, ◌≡◌, refl, ◌∙◌, Option, none, some, List, [], ◌∷◌,
  ◌++◌, map, any, all, str_eq, ltb, inl, inr, Bool-cases,
}
use aso_light.Base.Dict.{Dict, lookup, mem}
use aso_light.Metadata.Validation.{is_valid_url}
use aso_light.Metadata.Audit.{
  Localization, Severity, warning, info, Code, pp_missing_here, url_missing_here, Issue, issue,
  flat_map, column, is_set, locale_audit, check_per_locale_fields, missing_here, version_urls,
  check_cross_locale_url_consistency, placement_audit, check_unplaced_tracked_keywords, Texts,
  duplicate_audit, redundant_audit, indexed_audit, version_audit, check_keyword_quality, url_audit,
  version_url_audit, check_url_validity, locales_of, audit_locales, audit, counter, split_keywords,
  words_of, rows_by_locale,
}
use aso_light.Metadata.Audit.Fields.{
  is_error, is_complete, any-append, any-flat_map, no_errors-flat_map, any-not, any-append3,
  locale_audit-is_complete,
}

module _ (x : Texts) where
  version_audit-warns :
      (ais : Dict Localization) (ver : Localization)
      → any is_error (version_audit x ais ver) ≡ false
  version_audit-warns ais ver =
      any-append (flat_map (duplicate_audit x ver.locale) counts) _
      ∙ (rw
          (
            no_errors-flat_map (duplicate_audit x ver.locale) counts duplicate,
            indexed (lookup ver.locale ais),
          )
          refl)
    where
      counts : Dict ℕ
      counts = counter (split_keywords x (column "keywords" ver)) []

      duplicate : (e : String × ℕ) → any is_error (duplicate_audit x ver.locale e) ≡ false
      duplicate (kw, n) = elim (Bool-cases (ltb 1 n)) [
        | inl many ↦ rw many refl
        | inr one ↦ rw one refl
      ]

      redundant :
          (indexed_words : List String) (e : String × ℕ)
          → any is_error (redundant_audit x ver.locale indexed_words e) ≡ false
      redundant indexed_words (kw, n) = elim (Bool-cases (mem kw indexed_words)) [
        | inl known ↦ rw known refl
        | inr new ↦ rw new refl
      ]

      indexed :
          (o : Option Localization) → any is_error (indexed_audit x ver.locale counts o) ≡ false
      indexed none = refl
      indexed (some ai) =
          no_errors-flat_map _ counts (redundant (words_of x "name" ai ++ words_of x "subtitle" ai))

placement_audit-warns : (e : String × String × String) → any is_error (placement_audit e) ≡ false
placement_audit-warns (keyword, locale, placement) = elim (Bool-cases (str_eq placement "none")) [
  | inl open_ ↦ rw open_ refl
  | inr placed ↦ rw placed refl
]

any-map-false :
    (severity : Severity) (field : String) (code : Code)
    → ((locale : String) → is_error (issue severity locale field code) ≡ false)
    → (locales : List String)
    → any is_error (map (λ locale. issue severity locale field code) locales) ≡ false
any-map-false severity field code h [] = refl
any-map-false severity field code h (l ∷ ls) = rw (h l, any-map-false severity field code h ls) refl

missing_here-warns :
    (severity : Severity) (field : String) (code : Code) (rows : List Localization)
    → ((locale : String) → is_error (issue severity locale field code) ≡ false)
    → any is_error (missing_here severity field code rows) ≡ false
missing_here-warns severity field code rows h = elim (Bool-cases (any (is_set field) rows)) [
  | inl set_ ↦ rw set_ (any-map-false severity field code h _)
  | inr unset ↦ rw unset refl
]

-- A URL that is set is well formed.
abbrev pub is_good_url : (String → Option (String × String)) → String → Localization → Bool
is_good_url urlparse field r = not (is_set field r) || is_valid_url urlparse (column field r)

abbrev pub is_nonempty : List String → Bool
is_nonempty [] = false
is_nonempty (s ∷ ss) = true

-- Ready to submit: there is a snapshot, each locale has what it needs, and the URLs are good.
abbrev pub is_ready :
    (String → Option (String × String)) → List String → List Localization → List Localization → Bool
is_ready urlparse locales app_info versions =
    is_nonempty locales
    && (all (is_complete app_info versions) locales
        && (all (is_good_url urlparse "privacy_policy_url") app_info
            && all
                (λ r.
                  is_good_url urlparse "marketing_url" r && is_good_url urlparse "support_url" r)
                versions))

module _ (x : Texts) (urlparse : String → Option (String × String)) where
  url_audit-good :
      (field : String) (r : Localization)
      → any is_error (url_audit x urlparse field r) ≡ not (is_good_url urlparse field r)
  url_audit-good field r = elim (Bool-cases (is_set field r)) [
    | inl set_ ↦ elim (Bool-cases (is_valid_url urlparse (column field r))) [
      | inl good ↦ rw (set_, good) refl
      | inr bad ↦ rw (set_, bad) refl
    ]
    | inr unset ↦ rw unset refl
  ]

  two_missing : (a b : Bool) → (not a || (not b || false)) ≡ not (a && b)
  two_missing false b = refl
  two_missing true false = refl
  two_missing true true = refl

  version_url_audit-good :
      (r : Localization)
      → any is_error (version_url_audit x urlparse r)
        ≡ not (is_good_url urlparse "marketing_url" r && is_good_url urlparse "support_url" r)
  version_url_audit-good r =
      any-flat_map (λ field. url_audit x urlparse field r) version_urls
      ∙ (rw (url_audit-good "marketing_url" r, url_audit-good "support_url" r) (two_missing _ _))

  or_assoc : (a b c d e : Bool) → (((a || (b || c)) || d) || e) ≡ (a || (b || (c || (d || e))))
  or_assoc true b c d e = refl
  or_assoc false true c d e = refl
  or_assoc false false true d e = refl
  or_assoc false false false d e = refl

  any-append5 :
      (a b c d e : List Issue)
      → any is_error (a ++ b ++ c ++ d ++ e) ≡ (
          any is_error a
          || (any is_error b || (any is_error c || (any is_error d || any is_error e))))
  any-append5 a b c d e =
      any-append (a ++ b ++ c ++ d) e
      ∙ (rw (any-append (a ++ b ++ c) d, any-append3 a b c)
          (or_assoc (any is_error a) (any is_error b) (any is_error c) (any is_error d)
            (any is_error e)))

  url_validity-good :
      (app_info versions : List Localization)
      → any is_error (check_url_validity x urlparse app_info versions) ≡ (
          not (all (is_good_url urlparse "privacy_policy_url") app_info)
          || not (
              all
                (λ r.
                  is_good_url urlparse "marketing_url" r && is_good_url urlparse "support_url" r)
                versions))
  unfolding check_url_validity
  url_validity-good app_info versions =
      any-append (flat_map (url_audit x urlparse "privacy_policy_url") app_info) _
      ∙ (rw
          (
            any-flat_map (url_audit x urlparse "privacy_policy_url") app_info,
            any-flat_map (version_url_audit x urlparse) versions,
            any-not _ (is_good_url urlparse "privacy_policy_url") app_info
                (url_audit-good "privacy_policy_url"),
            any-not _ _ versions version_url_audit-good,
          )
          refl)

  keyword_quality-warns :
      (versions app_info : List Localization)
      → any is_error (check_keyword_quality x versions app_info) ≡ false
  unfolding check_keyword_quality
  keyword_quality-warns versions app_info =
      no_errors-flat_map _ versions (version_audit-warns x (rows_by_locale x app_info []))

  consistency-warns :
      (app_info versions : List Localization)
      → any is_error (check_cross_locale_url_consistency app_info versions) ≡ false
  unfolding check_cross_locale_url_consistency
  consistency-warns app_info versions =
      any-append (missing_here warning "privacy_policy_url" pp_missing_here app_info) _
      ∙ (rw
          (
            missing_here-warns warning "privacy_policy_url" pp_missing_here app_info (λ l. refl),
            no_errors-flat_map (λ field. missing_here info field (url_missing_here field) versions)
                version_urls
                (λ field.
                  missing_here-warns info field (url_missing_here field) versions (λ l. refl)),
          )
          refl)

  unplaced-warns :
      (coverage : List (String × String × String))
      → any is_error (check_unplaced_tracked_keywords coverage) ≡ false
  unfolding check_unplaced_tracked_keywords
  unplaced-warns coverage = no_errors-flat_map placement_audit coverage placement_audit-warns

  rest_missing :
      (a b c : Bool)
      → (not a || ((not b || not c) || (false || (false || false)))) ≡ not (a && (b && c))
  rest_missing false b c = refl
  rest_missing true false c = refl
  rest_missing true true false = refl
  rest_missing true true true = refl

  audit_locales-is_ready :
      (locales : List String) (app_info versions : List Localization)
      (coverage : List (String × String × String))
      → any is_error (audit_locales x urlparse locales app_info versions coverage)
        ≡ not (is_ready urlparse locales app_info versions)
  unfolding check_per_locale_fields
  audit_locales-is_ready [] app_info versions coverage = refl
  audit_locales-is_ready (l ∷ ls) app_info versions coverage =
      any-append5 (flat_map (locale_audit app_info versions) (l ∷ ls))
        (check_url_validity x urlparse app_info versions)
        (check_keyword_quality x versions app_info)
        (check_cross_locale_url_consistency app_info versions)
        (check_unplaced_tracked_keywords coverage)
      ∙ (rw
          (
            any-flat_map (locale_audit app_info versions) (l ∷ ls),
            any-not (λ m. any is_error (locale_audit app_info versions m))
                (is_complete app_info versions) (l ∷ ls)
                (locale_audit-is_complete app_info versions),
            url_validity-good app_info versions,
            keyword_quality-warns versions app_info,
            consistency-warns app_info versions,
            unplaced-warns coverage,
          )
          (rest_missing (all (is_complete app_info versions) (l ∷ ls))
            (all (is_good_url urlparse "privacy_policy_url") app_info)
            (all
              (λ r. is_good_url urlparse "marketing_url" r && is_good_url urlparse "support_url" r)
              versions)))

-- An audit reports an error exactly if there is no snapshot, some locale lacks its name, subtitle,
-- description or keywords or has one of them or its promotional text over the limit, or some URL
-- that is set is malformed. All other issues are warnings and infos.
pub audit-is_ready :
    (x : Texts) (urlparse : String → Option (String × String))
    (app_info versions : List Localization) (coverage : List (String × String × String))
    → any is_error (audit x urlparse app_info versions coverage)
      ≡ not (is_ready urlparse (locales_of x urlparse app_info versions) app_info versions)
unfolding audit
audit-is_ready x urlparse app_info versions coverage =
    audit_locales-is_ready x urlparse (locales_of x urlparse app_info versions) app_info versions
      coverage
