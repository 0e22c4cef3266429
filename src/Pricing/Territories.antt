-- ===== src/Pricing/Territories.antt =====
-- backend/app/data/territories.py: the codes of the territories.
use aso_light.Base.{String, [], ◌∷◌}
use aso_light.Base.Dict.{Dict}

-- `ALPHA2_TO_ALPHA3`
unfoldable pub alpha2_to_alpha3 : Dict String
alpha2_to_alpha3 =
    ("AF", "AFG")
    ∷ ("AL", "ALB")
    ∷ ("DZ", "DZA")
    ∷ ("AO", "AGO")
    ∷ ("AG", "ATG")
    ∷ ("AR", "ARG")
    ∷ ("AM", "ARM")
    ∷ ("AU", "AUS")
    ∷ ("AT", "AUT")
    ∷ ("AZ", "AZE")
    ∷ ("BS", "BHS")
    ∷ ("BH", "BHR")
    ∷ ("BB", "BRB")
    ∷ ("BY", "BLR")
    ∷ ("BE", "BEL")
    ∷ ("BZ", "BLZ")
    ∷ ("BJ", "BEN")
    ∷ ("BM", "BMU")
    ∷ ("BT", "BTN")
    ∷ ("BO", "BOL")
    ∷ ("BA", "BIH")
    ∷ ("BW", "BWA")
    ∷ ("BR", "BRA")
    ∷ ("VG", "VGB")
    ∷ ("BN", "BRN")
    ∷ ("BG", "BGR")
    ∷ ("BF", "BFA")
    ∷ ("BI", "BDI")
    ∷ ("KH", "KHM")
    ∷ ("CM", "CMR")
    ∷ ("CA", "CAN")
    ∷ ("CV", "CPV")
    ∷ ("KY", "CYM")
    ∷ ("TD", "TCD")
    ∷ ("CL", "CHL")
    ∷ ("CN", "CHN")
    ∷ ("CO", "COL")
    ∷ ("CG", "COG")
    ∷ ("CD", "COD")
    ∷ ("CR", "CRI")
    ∷ ("HR", "HRV")
    ∷ ("CY", "CYP")
    ∷ ("CZ", "CZE")
    ∷ ("CI", "CIV")
    ∷ ("DK", "DNK")
    ∷ ("DM", "DMA")
    ∷ ("DO", "DOM")
    ∷ ("EC", "ECU")
    ∷ ("EG", "EGY")
    ∷ ("SV", "SLV")
    ∷ ("EE", "EST")
    ∷ ("SZ", "SWZ")
    ∷ ("ET", "ETH")
    ∷ ("FJ", "FJI")
    ∷ ("FI", "FIN")
    ∷ ("FR", "FRA")
    ∷ ("GA", "GAB")
    ∷ ("GM", "GMB")
    ∷ ("GE", "GEO")
    ∷ ("DE", "DEU")
    ∷ ("GH", "GHA")
    ∷ ("GR", "GRC")
    ∷ ("GD", "GRD")
    ∷ ("GT", "GTM")
    ∷ ("GW", "GNB")
    ∷ ("GY", "GUY")
    ∷ ("HN", "HND")
    ∷ ("HK", "HKG")
    ∷ ("HU", "HUN")
    ∷ ("IS", "ISL")
    ∷ ("IN", "IND")
    ∷ ("ID", "IDN")
    ∷ ("IQ", "IRQ")
    ∷ ("IE", "IRL")
    ∷ ("IL", "ISR")
    ∷ ("IT", "ITA")
    ∷ ("JM", "JAM")
    ∷ ("JP", "JPN")
    ∷ ("JO", "JOR")
    ∷ ("KZ", "KAZ")
    ∷ ("KE", "KEN")
    ∷ ("KR", "KOR")
    ∷ ("KW", "KWT")
    ∷ ("KG", "KGZ")
    ∷ ("LA", "LAO")
    ∷ ("LV", "LVA")
    ∷ ("LB", "LBN")
    ∷ ("LR", "LBR")
    ∷ ("LY", "LBY")
    ∷ ("LT", "LTU")
    ∷ ("LU", "LUX")
    ∷ ("MO", "MAC")
    ∷ ("MG", "MDG")
    ∷ ("MW", "MWI")
    ∷ ("MY", "MYS")
    ∷ ("MV", "MDV")
    ∷ ("ML", "MLI")
    ∷ ("MT", "MLT")
    ∷ ("MR", "MRT")
    ∷ ("MU", "MUS")
    ∷ ("MX", "MEX")
    ∷ ("FM", "FSM")
    ∷ ("MD", "MDA")
    ∷ ("MN", "MNG")
    ∷ ("ME", "MNE")
    ∷ ("MS", "MSR")
    ∷ ("MA", "MAR")
    ∷ ("MZ", "MOZ")
    ∷ ("MM", "MMR")
    ∷ ("NA", "NAM")
    ∷ ("NR", "NRU")
    ∷ ("NP", "NPL")
    ∷ ("NL", "NLD")
    ∷ ("NZ", "NZL")
    ∷ ("NI", "NIC")
    ∷ ("NE", "NER")
    ∷ ("NG", "NGA")
    ∷ ("MK", "MKD")
    ∷ ("NO", "NOR")
    ∷ ("OM", "OMN")
    ∷ ("PK", "PAK")
    ∷ ("PW", "PLW")
    ∷ ("PA", "PAN")
    ∷ ("PG", "PNG")
    ∷ ("PY", "PRY")
    ∷ ("PE", "PER")
    ∷ ("PH", "PHL")
    ∷ ("PL", "POL")
    ∷ ("PT", "PRT")
    ∷ ("QA", "QAT")
    ∷ ("RO", "ROU")
    ∷ ("RU", "RUS")
    ∷ ("RW", "RWA")
    ∷ ("KN", "KNA")
    ∷ ("LC", "LCA")
    ∷ ("VC", "VCT")
    ∷ ("ST", "STP")
    ∷ ("SA", "SAU")
    ∷ ("SN", "SEN")
    ∷ ("RS", "SRB")
    ∷ ("SC", "SYC")
    ∷ ("SL", "SLE")
    ∷ ("SG", "SGP")
    ∷ ("SK", "SVK")
    ∷ ("SI", "SVN")
    ∷ ("SB", "SLB")
    ∷ ("ZA", "ZAF")
    ∷ ("ES", "ESP")
    ∷ ("LK", "LKA")
    ∷ ("SR", "SUR")
    ∷ ("SE", "SWE")
    ∷ ("CH", "CHE")
    ∷ ("TW", "TWN")
    ∷ ("TJ", "TJK")
    ∷ ("TZ", "TZA")
    ∷ ("TH", "THA")
    ∷ ("TN", "TUN")
    ∷ ("TR", "TUR")
    ∷ ("TM", "TKM")
    ∷ ("TC", "TCA")
    ∷ ("UG", "UGA")
    ∷ ("UA", "UKR")
    ∷ ("AE", "ARE")
    ∷ ("GB", "GBR")
    ∷ ("US", "USA")
    ∷ ("UY", "URY")
    ∷ ("UZ", "UZB")
    ∷ ("VU", "VUT")
    ∷ ("VE", "VEN")
    ∷ ("VN", "VNM")
    ∷ ("YE", "YEM")
    ∷ ("ZM", "ZMB")
    ∷ ("ZW", "ZWE")
    ∷ ("BD", "BGD")
    ∷ ("AI", "AIA")
    ∷ ("TO", "TON")
    ∷ ("TT", "TTO")
    ∷ ("XK", "XKS")
    ∷ ("CF", "CAF")
    ∷ ("CU", "CUB")
    ∷ ("DJ", "DJI")
    ∷ ("ER", "ERI")
    ∷ ("GF", "GUF")
    ∷ ("GN", "GIN")
    ∷ ("GP", "GLP")
    ∷ ("GQ", "GNQ")
    ∷ ("HT", "HTI")
    ∷ ("KM", "COM")
    ∷ ("LS", "LSO")
    ∷ ("MQ", "MTQ")
    ∷ ("NC", "NCL")
    ∷ ("MC", "MCO")
    ∷ ("MH", "MHL")
    ∷ ("PF", "PYF")
    ∷ ("PR", "PRI")
    ∷ ("PS", "PSE")
    ∷ ("RE", "REU")
    ∷ ("SD", "SDN")
    ∷ ("SO", "SOM")
    ∷ ("SS", "SSD")
    ∷ ("TG", "TGO")
    ∷ ("WS", "WSM")
    ∷ ("YT", "MYT")
    ∷ []
