-- ===== src/Pricing/Rounding/Profiles.antt =====
-- backend/app/services/pricing/currency_rounding.py, the profiles of the currencies.
use aso_light.Base.{ℕ, List, [], ◌∷◌}
use aso_light.Base.Dict.{Dict}
use aso_light.Base.Int.{ℤ, pos, negsuc}
use aso_light.Pricing.Decimal.{whole, hundredths, thousandths}

-- A tier is (threshold, step, suffix). `decimal_suffix` and `min_price` are numbers here, where
-- the source keeps the text of a `Decimal`.
pub record CurrencyProfile : Type 0 where
  pub decimals : ℕ
  pub tiers : List (ℕ × ℕ × ℤ)
  pub decimal_suffix : ℕ
  pub min_price : ℕ

abbrev pub standard_99 : CurrencyProfile
standard_99 = record {
  decimals = 2;
  tiers = [];
  decimal_suffix = hundredths 99;
  min_price = hundredths 99;
}

abbrev brl : CurrencyProfile
brl = record { decimals = 2; tiers = []; decimal_suffix = hundredths 90; min_price = hundredths 90 }

abbrev rub : CurrencyProfile
rub = record { decimals = 2; tiers = []; decimal_suffix = hundredths 0; min_price = whole 1 }

abbrev pub standard_3dp : CurrencyProfile
standard_3dp = record {
  decimals = 3;
  tiers = [];
  decimal_suffix = thousandths 999;
  min_price = thousandths 999;
}

abbrev pub jpy : CurrencyProfile
jpy = record {
  decimals = 0;
  tiers = (0, 10, negsuc 9) ∷ (10000, 100, negsuc 99) ∷ [];
  decimal_suffix = hundredths 99;
  min_price = whole 100;
}

abbrev krw : CurrencyProfile
krw = record {
  decimals = 0;
  tiers = (0, 100, negsuc 99) ∷ (100000, 1000, negsuc 999) ∷ [];
  decimal_suffix = hundredths 99;
  min_price = whole 900;
}

abbrev vnd : CurrencyProfile
vnd = record {
  decimals = 0;
  tiers = (0, 1000, pos 0) ∷ (1000000, 10000, pos 0) ∷ [];
  decimal_suffix = hundredths 99;
  min_price = whole 10000;
}

abbrev inr : CurrencyProfile
inr = record {
  decimals = 0;
  tiers = (0, 100, negsuc 0) ∷ (1000, 500, negsuc 0) ∷ (10000, 1000, negsuc 0) ∷ [];
  decimal_suffix = hundredths 99;
  min_price = whole 49;
}

abbrev huf : CurrencyProfile
huf = record {
  decimals = 0;
  tiers = (0, 10, negsuc 9) ∷ (10000, 100, negsuc 99) ∷ [];
  decimal_suffix = hundredths 99;
  min_price = whole 100;
}

abbrev php : CurrencyProfile
php = record {
  decimals = 0;
  tiers = (0, 10, negsuc 0) ∷ (10000, 100, negsuc 0) ∷ [];
  decimal_suffix = hundredths 99;
  min_price = whole 49;
}

abbrev ars : CurrencyProfile
ars = record {
  decimals = 2;
  tiers = (0, 10, pos 0) ∷ (100, 50, pos 0) ∷ (500, 100, pos 0) ∷ (5000, 500, pos 0) ∷ [];
  decimal_suffix = hundredths 99;
  min_price = hundredths 99;
}

abbrev twd : CurrencyProfile
twd = jpy

abbrev pub default_profile : CurrencyProfile
default_profile = standard_99

-- `CURRENCY_PROFILES`
unfoldable pub currency_profiles : Dict CurrencyProfile
currency_profiles =
    ("USD", standard_99)
    ∷ ("EUR", standard_99)
    ∷ ("GBP", standard_99)
    ∷ ("AUD", standard_99)
    ∷ ("CAD", standard_99)
    ∷ ("CHF", standard_99)
    ∷ ("NZD", standard_99)
    ∷ ("SGD", standard_99)
    ∷ ("HKD", standard_99)
    ∷ ("NOK", standard_99)
    ∷ ("SEK", standard_99)
    ∷ ("DKK", standard_99)
    ∷ ("PLN", standard_99)
    ∷ ("CZK", standard_99)
    ∷ ("TRY", standard_99)
    ∷ ("ZAR", standard_99)
    ∷ ("MXN", standard_99)
    ∷ ("MYR", standard_99)
    ∷ ("AED", standard_99)
    ∷ ("SAR", standard_99)
    ∷ ("QAR", standard_99)
    ∷ ("RON", standard_99)
    ∷ ("BGN", standard_99)
    ∷ ("HRK", standard_99)
    ∷ ("PEN", standard_99)
    ∷ ("EGP", standard_99)
    ∷ ("NGN", standard_99)
    ∷ ("KES", standard_99)
    ∷ ("GHS", standard_99)
    ∷ ("TZS", standard_99)
    ∷ ("ILS", standard_99)
    ∷ ("KWD", standard_3dp)
    ∷ ("BHD", standard_3dp)
    ∷ ("OMR", standard_3dp)
    ∷ ("JOD", standard_3dp)
    ∷ ("TND", standard_3dp)
    ∷ ("ARS", ars)
    ∷ ("BRL", brl)
    ∷ ("RUB", rub)
    ∷ ("JPY", jpy)
    ∷ ("TWD", twd)
    ∷ ("KRW", krw)
    ∷ ("CLP", krw)
    ∷ ("COP", krw)
    ∷ ("VND", vnd)
    ∷ ("IDR", vnd)
    ∷ ("INR", inr)
    ∷ ("PKR", inr)
    ∷ ("BDT", inr)
    ∷ ("LKR", inr)
    ∷ ("HUF", huf)
    ∷ ("ISK", huf)
    ∷ ("PHP", php)
    ∷ ("THB", php)
    ∷ []
