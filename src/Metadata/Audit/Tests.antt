-- ===== src/Metadata/Audit/Tests.antt =====
-- backend/app/services/aso_check/audit.py: a snapshot of one locale with a subtitle that is missing.
use aso_light.Base.{String, not, ◌≡◌, Option, some, List, [], ◌∷◌, any}
use aso_light.Metadata.Audit.{Localization, Texts, audit, locales_of}
use aso_light.Metadata.Audit.Fields.{is_error}
use aso_light.Metadata.Audit.Errors.{is_ready, audit-is_ready}

abbrev texts : Texts
texts = record { split_commas = λ s. s ∷ []; strip = λ s. s; lower = λ s. s; split = λ s. s ∷ [] }

abbrev app_info : List Localization
app_info =
    record {
      kind = "app_info";
      locale = "en-US";
      columns = ("name", "Photos") ∷ ("privacy_policy_url", "https://a.b") ∷ [];
    }
    ∷ []

abbrev versions : List Localization
versions =
    record {
      kind = "version";
      locale = "en-US";
      columns = ("description", "An editor") ∷ ("keywords", "photo,edit") ∷ [];
    }
    ∷ []

abbrev parse : String → Option (String × String)
parse url = some ("https", "a.b")

audit-is_ready_example :
    any is_error (audit texts parse app_info versions [])
    ≡ not (is_ready parse (locales_of texts parse app_info versions) app_info versions)
audit-is_ready_example = audit-is_ready texts parse app_info versions []
