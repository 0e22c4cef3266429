-- ===== src/Pricing/Cache/Tests.antt =====
-- backend/app/services/asc/price_point_cache.py: a ladder of two tiers, with a concrete encoding.
use aso_light.Base.{◌≡◌, refl, some, [], map}
use aso_light.Base.Dict.{lookup}
use aso_light.Pricing.Territories.{alpha2_to_alpha3}
use aso_light.Pricing.Cache.{answered, ok, price_point, get_with_price_point_ids, fetch_and_cache}
use aso_light.Pricing.Cache.Example.{codec, codec-IsCodec, ladder}
use aso_light.Pricing.Cache.Ladder.{get-fetch}

us_known : lookup "US" alpha2_to_alpha3 ≡ some "USA"
unfolding alpha2_to_alpha3
us_known = refl

get-fetch_example :
    (get_with_price_point_ids codec "US" "sub-2"
      (fetch_and_cache codec "2026" "US"
        (λ a. answered (map (price_point codec "sub-1" a) ladder))
        []).1).0
    ≡ ok (some (map (price_point codec "sub-2" "USA") ladder))
get-fetch_example =
    get-fetch codec codec-IsCodec "2026" "US" "USA" "sub-1" "sub-2" ladder [] refl us_known
      (refl, (refl, tt))
