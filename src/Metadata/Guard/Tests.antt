-- ===== src/Metadata/Guard/Tests.antt =====
-- backend/app/services/metadata/guard.py: a live version, on which only one field is editable.
use aso_light.Base.{none, some, [], ◌∷◌, ◌≡◌, refl, ◌↔◌, All}
use aso_light.Metadata.Guard.{
  version, Allowed, assert_body_fields_editable, assert_fields_editable, attempted_fields_for,
  assert_body_fields_editable-Allowed,
}

refuses_others :
    assert_body_fields_editable
      (some ("promotional_text" ∷ []))
      version
      ("name" ∷ "keywords" ∷ "promotional_text" ∷ [])
    ≡ some ("keywords" ∷ [])
unfolding assert_body_fields_editable assert_fields_editable attempted_fields_for
refuses_others = refl

assert_body_fields_editable-Allowed_example :
    (assert_body_fields_editable (some ("promotional_text" ∷ [])) version ("keywords" ∷ []) ≡ none)
    ↔ All (Allowed (some ("promotional_text" ∷ [])) version) ("keywords" ∷ [])
assert_body_fields_editable-Allowed_example =
    assert_body_fields_editable-Allowed (some ("promotional_text" ∷ [])) version ("keywords" ∷ [])
