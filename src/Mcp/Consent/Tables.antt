-- ===== src/Mcp/Consent/Tables.antt =====
-- The two tables of backend/app/mcp/consent.py: what each gated tool destroys, and the tools that
-- only read.
use aso_light.Base.{String, List, [], ◌∷◌}
use aso_light.Base.Dict.{Dict}

-- `DESTRUCTIVE`: the tool's name and its impact sentence.
unfoldable pub destructive : Dict String
destructive =
    (
      "screenshots_delete",
      "Permanently deletes screenshots from the live App Store version. With delete_all, the entire device family goes, and Apple does not return the binaries — they must be re-uploaded from local originals.",
    )
    ∷ (
      "metadata_delete_locale",
      "Delists an entire App Store language and discards its copy, locally as well as at Apple. There is no remaining copy to restore from.",
    )
    ∷ (
      "metadata_update_locale",
      "Overwrites live listing copy for a locale. The previous value is not snapshotted anywhere before the write.",
    )
    ∷ (
      "metadata_bulk_apply",
      "Overwrites title/subtitle/keywords/description across every locale passed, in one call, with no snapshot of the prior values.",
    )
    ∷ (
      "cpp_delete",
      "Deletes a Custom Product Page. CPP ids are wired into live Apple Search Ads campaigns, so deleting one breaks the traffic pointing at it.",
    )
    ∷ (
      "cpp_screenshots_delete",
      "Permanently deletes screenshots from a Custom Product Page. With delete_all, the entire device family goes, and Apple does not return the binaries.",
    )
    ∷ (
      "availability_update",
      "Changes which territories the app is on sale in. Removing territories pulls it from those stores.",
    )
    ∷ (
      "swap_subscription_product",
      "Swaps a live subscription product; archives the old one at Apple (not reversible) and can re-point RevenueCat entitlements and offering packages. Directly revenue-affecting.",
    )
    ∷ (
      "swap_iap",
      "Swaps a live in-app purchase; archives the old one at Apple (not reversible) and can re-point RevenueCat. Directly revenue-affecting.",
    )
    ∷ (
      "pricing_apply_subscription_prices",
      "Writes new subscription prices to live products across every territory passed. Per-item force=True bypasses the ±50% safety band.",
    )
    ∷ (
      "pricing_apply_iap_prices",
      "Writes new IAP prices to live products across every territory passed. Per-item force=True bypasses the ±50% safety band.",
    )
    ∷ (
      "pricing_bulk_sync_subscription_localizations",
      "Bulk-overwrites live subscription store copy for every locale passed.",
    )
    ∷ (
      "pricing_bulk_sync_iap_localizations",
      "Bulk-overwrites live IAP store copy for every locale passed.",
    )
    ∷ (
      "pricing_delete_subscription",
      "Deletes a subscription at Apple and drops the local row with it.",
    )
    ∷ (
      "pricing_delete_subscription_localization",
      "Deletes a live subscription localization at Apple.",
    )
    ∷ (
      "pricing_delete_iap",
      "Deletes an in-app purchase at Apple and drops the local row with it. The productId is burned — Apple never allows it to be reused.",
    )
    ∷ ("pricing_delete_iap_localization", "Deletes a live IAP localization at Apple.")
    ∷ (
      "pricing_delete_subscription_group_localization",
      "Deletes a live subscription group localization at Apple.",
    )
    ∷ (
      "pricing_delete_subscription_intro_offer",
      "Deletes a live introductory offer — affects what new subscribers pay.",
    )
    ∷ (
      "reviews_respond",
      "Publishes public text under your app's name on the App Store, visible to everyone browsing the listing.",
    )
    ∷ (
      "reviews_update_response",
      "Edits public text published under your app's name on the App Store.",
    )
    ∷ (
      "reviews_delete_response",
      "Removes a public response from the App Store and forgets the local mapping to the review it answered.",
    )
    ∷ (
      "experiment_stop",
      "Stops a running product page optimization test. Apple does not allow restarting it — the run and its accumulated data are finished.",
    )
    ∷ (
      "experiment_start",
      "Starts an approved product page optimization test: live App Store traffic is split onto its treatments.",
    )
    ∷ (
      "experiment_submit_for_review",
      "Submits an experiment to Apple's App Review. Externally visible and not silently undoable.",
    )
    ∷ ("experiment_delete", "Deletes a product page optimization experiment.")
    ∷ ("experiment_delete_treatment", "Deletes an experiment treatment.")
    ∷ (
      "asa_delete_credential",
      "Cascades away the Apple Search Ads org, its campaigns, ad groups, keywords AND all historical performance metrics. Past-date ASA history cannot be re-synced from Apple.",
    )
    ∷ (
      "asa_remove_negative_keyword",
      "Removes the negative keyword from live Apple Search Ads first, which immediately re-opens ad spend on that search term.",
    )
    ∷ (
      "visibility_delete_watch",
      "Deletes a share-of-voice watch and every historical snapshot under it. The time series cannot be reconstructed.",
    )
    ∷ ("keywords_remove", "Deletes a tracked keyword and its entire ranking history.")
    ∷ (
      "keywords_remove_competitor",
      "Deletes a competitor and the keyword corpus harvested from it.",
    )
    ∷ (
      "revenuecat_delete_credential",
      "Deletes the stored RevenueCat secret key; it must be re-entered by hand to reconnect.",
    )
    ∷ (
      "revenuecat_archive_product",
      "Archives a RevenueCat product. Paying users lose access to it on their next getOfferings call.",
    )
    ∷ (
      "revenuecat_delete_entitlement",
      "Deletes a RevenueCat entitlement — paying users lose the access it granted.",
    )
    ∷ (
      "revenuecat_delete_offering",
      "Deletes a RevenueCat offering; clients requesting it stop receiving packages.",
    )
    ∷ ("revenuecat_delete_package", "Deletes a package from a RevenueCat offering.")
    ∷ (
      "revenuecat_detach_product_from_entitlement",
      "Detaches a product from an entitlement — cuts off entitlement access for users who bought that product.",
    )
    ∷ ("revenuecat_detach_products_from_package", "Detaches products from a RevenueCat package.")
    ∷ []

-- `READ_ONLY`
unfoldable pub read_only : List String
read_only =
    "account_whoami" ∷ "analytics_cpp_performance" ∷ "analytics_downloads" ∷ "analytics_engagement"
    ∷ "analytics_status" ∷ "apps_get" ∷ "apps_list" ∷ "asa_get_campaign" ∷ "asa_list_ad_groups"
    ∷ "asa_list_campaigns" ∷ "asa_list_cpp_ads" ∷ "asa_list_credentials" ∷ "asa_list_keywords"
    ∷ "asa_list_negative_keywords" ∷ "asa_list_orgs" ∷ "asa_paid_organic_join"
    ∷ "asa_performance_report" ∷ "asa_search_term_report" ∷ "asa_suggest_negative_candidates"
    ∷ "asa_suggest_organic_keywords_to_track" ∷ "asa_test_credential" ∷ "availability_get"
    ∷ "clone_get_operation" ∷ "clone_list_operations" ∷ "cpp_get" ∷ "cpp_list" ∷ "cpp_keywords_get"
    ∷ "cpp_list_screenshots" ∷ "experiment_get" ∷ "experiment_list"
    ∷ "experiment_list_treatment_screenshots" ∷ "experiment_list_treatments"
    ∷ "growth_recommendations" ∷ "indices_list_gdp" ∷ "indices_status" ∷ "keyword_intel_list"
    ∷ "keyword_intel_score_free" ∷ "listing_gaps" ∷ "keywords_cross_localization"
    ∷ "keywords_get_rankings" ∷ "keywords_list_competitor_keywords" ∷ "keywords_list_competitors"
    ∷ "keywords_list_for_app" ∷ "keywords_search" ∷ "keywords_suggestions" ∷ "metadata_bulk_preview"
    ∷ "metadata_export" ∷ "metadata_get_locale" ∷ "metadata_get_snapshot"
    ∷ "metadata_keyword_coverage" ∷ "presets_get" ∷ "presets_list" ∷ "pricing_export_prices"
    ∷ "pricing_get_iap_prices" ∷ "pricing_get_iap_review_screenshot" ∷ "pricing_get_price_version"
    ∷ "pricing_get_subscription_availability" ∷ "pricing_get_subscription_prices"
    ∷ "pricing_get_subscription_review_screenshot" ∷ "pricing_iap_price_points_status"
    ∷ "pricing_list_iap_localizations" ∷ "pricing_list_iaps" ∷ "pricing_list_price_versions"
    ∷ "pricing_list_subscription_group_localizations" ∷ "pricing_list_subscription_groups"
    ∷ "pricing_list_subscription_intro_offers" ∷ "pricing_list_subscription_localizations"
    ∷ "pricing_preview_iap_prices" ∷ "pricing_preview_subscription_prices"
    ∷ "pricing_resolve_iap_price" ∷ "pricing_resolve_subscription_price"
    ∷ "pricing_subscription_price_points_status" ∷ "revenuecat_get_credential"
    ∷ "revenuecat_list_apps" ∷ "revenuecat_list_entitlements" ∷ "revenuecat_list_offerings"
    ∷ "revenuecat_list_packages" ∷ "revenuecat_list_products" ∷ "revenuecat_test_credential"
    ∷ "reviews_get" ∷ "reviews_list" ∷ "screenshots_compare" ∷ "screenshots_list"
    ∷ "territories_list" ∷ "visibility_competitor_sites" ∷ "visibility_get_sov"
    ∷ "visibility_list_anomalies" ∷ "visibility_list_snapshots" ∷ "visibility_list_watches" ∷ []
