-- ===== src/Onboarding/Countries.antt =====
-- frontend/app/lib/onboarding/countries.ts
pub mod Laws
use Prim.Native.String.{String}
use scholarmatch_ai.Base.{Bool, List, [], ◌∷◌, ◌++◌, Option, none, some, any, find, map}
use scholarmatch_ai.Base.Text.{Text, codes, text_eq, member, to_upper_case}

pub record Country : Type 0 where
  pub code : Text
  pub name : String

abbrev country : String → String → Country
country code name = record { code = codes code; name = name }

abbrev countries_a : List Country
countries_a =
    country "AF" "Afghanistan"
    ∷ country "AL" "Albania"
    ∷ country "DZ" "Algeria"
    ∷ country "AD" "Andorra"
    ∷ country "AO" "Angola"
    ∷ country "AG" "Antigua and Barbuda"
    ∷ country "AR" "Argentina"
    ∷ country "AM" "Armenia"
    ∷ country "AU" "Australia"
    ∷ country "AT" "Austria"
    ∷ country "AZ" "Azerbaijan"
    ∷ country "BS" "Bahamas"
    ∷ country "BH" "Bahrain"
    ∷ country "BD" "Bangladesh"
    ∷ country "BB" "Barbados"
    ∷ country "BY" "Belarus"
    ∷ country "BE" "Belgium"
    ∷ country "BZ" "Belize"
    ∷ country "BJ" "Benin"
    ∷ country "BT" "Bhutan"
    ∷ country "BO" "Bolivia"
    ∷ country "BA" "Bosnia and Herzegovina"
    ∷ country "BW" "Botswana"
    ∷ country "BR" "Brazil"
    ∷ country "BN" "Brunei Darussalam"
    ∷ country "BG" "Bulgaria"
    ∷ country "BF" "Burkina Faso"
    ∷ country "BI" "Burundi"
    ∷ country "CV" "Cabo Verde"
    ∷ country "KH" "Cambodia"
    ∷ country "CM" "Cameroon"
    ∷ country "CA" "Canada"
    ∷ country "CF" "Central African Republic"
    ∷ country "TD" "Chad"
    ∷ country "CL" "Chile"
    ∷ country "CN" "China"
    ∷ country "CO" "Colombia"
    ∷ country "KM" "Comoros"
    ∷ country "CG" "Congo"
    ∷ country "CD" "Congo (Democratic Republic)"
    ∷ country "CR" "Costa Rica"
    ∷ country "CI" "Côte d'Ivoire"
    ∷ country "HR" "Croatia"
    ∷ country "CU" "Cuba"
    ∷ country "CY" "Cyprus"
    ∷ country "CZ" "Czechia"
    ∷ country "DK" "Denmark"
    ∷ country "DJ" "Djibouti"
    ∷ country "DM" "Dominica"
    ∷ country "DO" "Dominican Republic"
    ∷ []

abbrev countries_b : List Country
countries_b =
    country "EC" "Ecuador"
    ∷ country "EG" "Egypt"
    ∷ country "SV" "El Salvador"
    ∷ country "GQ" "Equatorial Guinea"
    ∷ country "ER" "Eritrea"
    ∷ country "EE" "Estonia"
    ∷ country "SZ" "Eswatini"
    ∷ country "ET" "Ethiopia"
    ∷ country "FJ" "Fiji"
    ∷ country "FI" "Finland"
    ∷ country "FR" "France"
    ∷ country "GA" "Gabon"
    ∷ country "GM" "Gambia"
    ∷ country "GE" "Georgia"
    ∷ country "DE" "Germany"
    ∷ country "GH" "Ghana"
    ∷ country "GR" "Greece"
    ∷ country "GD" "Grenada"
    ∷ country "GT" "Guatemala"
    ∷ country "GN" "Guinea"
    ∷ country "GW" "Guinea-Bissau"
    ∷ country "GY" "Guyana"
    ∷ country "HT" "Haiti"
    ∷ country "HN" "Honduras"
    ∷ country "HU" "Hungary"
    ∷ country "IS" "Iceland"
    ∷ country "IN" "India"
    ∷ country "ID" "Indonesia"
    ∷ country "IR" "Iran"
    ∷ country "IQ" "Iraq"
    ∷ country "IE" "Ireland"
    ∷ country "IL" "Israel"
    ∷ country "IT" "Italy"
    ∷ country "JM" "Jamaica"
    ∷ country "JP" "Japan"
    ∷ country "JO" "Jordan"
    ∷ country "KZ" "Kazakhstan"
    ∷ country "KE" "Kenya"
    ∷ country "KI" "Kiribati"
    ∷ country "KW" "Kuwait"
    ∷ country "KG" "Kyrgyzstan"
    ∷ country "LA" "Laos"
    ∷ country "LV" "Latvia"
    ∷ country "LB" "Lebanon"
    ∷ country "LS" "Lesotho"
    ∷ country "LR" "Liberia"
    ∷ country "LY" "Libya"
    ∷ country "LI" "Liechtenstein"
    ∷ country "LT" "Lithuania"
    ∷ country "LU" "Luxembourg"
    ∷ []

abbrev countries_c : List Country
countries_c =
    country "MG" "Madagascar"
    ∷ country "MW" "Malawi"
    ∷ country "MY" "Malaysia"
    ∷ country "MV" "Maldives"
    ∷ country "ML" "Mali"
    ∷ country "MT" "Malta"
    ∷ country "MH" "Marshall Islands"
    ∷ country "MR" "Mauritania"
    ∷ country "MU" "Mauritius"
    ∷ country "MX" "Mexico"
    ∷ country "FM" "Micronesia"
    ∷ country "MD" "Moldova"
    ∷ country "MC" "Monaco"
    ∷ country "MN" "Mongolia"
    ∷ country "ME" "Montenegro"
    ∷ country "MA" "Morocco"
    ∷ country "MZ" "Mozambique"
    ∷ country "MM" "Myanmar"
    ∷ country "NA" "Namibia"
    ∷ country "NR" "Nauru"
    ∷ country "NP" "Nepal"
    ∷ country "NL" "Netherlands"
    ∷ country "NZ" "New Zealand"
    ∷ country "NI" "Nicaragua"
    ∷ country "NE" "Niger"
    ∷ country "NG" "Nigeria"
    ∷ country "KP" "North Korea"
    ∷ country "MK" "North Macedonia"
    ∷ country "NO" "Norway"
    ∷ country "OM" "Oman"
    ∷ country "PK" "Pakistan"
    ∷ country "PW" "Palau"
    ∷ country "PS" "Palestine"
    ∷ country "PA" "Panama"
    ∷ country "PG" "Papua New Guinea"
    ∷ country "PY" "Paraguay"
    ∷ country "PE" "Peru"
    ∷ country "PH" "Philippines"
    ∷ country "PL" "Poland"
    ∷ country "PT" "Portugal"
    ∷ country "QA" "Qatar"
    ∷ country "RO" "Romania"
    ∷ country "RU" "Russia"
    ∷ country "RW" "Rwanda"
    ∷ country "KN" "Saint Kitts and Nevis"
    ∷ country "LC" "Saint Lucia"
    ∷ country "VC" "Saint Vincent and the Grenadines"
    ∷ country "WS" "Samoa"
    ∷ country "SM" "San Marino"
    ∷ country "ST" "Sao Tome and Principe"
    ∷ []

abbrev countries_d : List Country
countries_d =
    country "SA" "Saudi Arabia"
    ∷ country "SN" "Senegal"
    ∷ country "RS" "Serbia"
    ∷ country "SC" "Seychelles"
    ∷ country "SL" "Sierra Leone"
    ∷ country "SG" "Singapore"
    ∷ country "SK" "Slovakia"
    ∷ country "SI" "Slovenia"
    ∷ country "SB" "Solomon Islands"
    ∷ country "SO" "Somalia"
    ∷ country "ZA" "South Africa"
    ∷ country "KR" "South Korea"
    ∷ country "SS" "South Sudan"
    ∷ country "ES" "Spain"
    ∷ country "LK" "Sri Lanka"
    ∷ country "SD" "Sudan"
    ∷ country "SR" "Suriname"
    ∷ country "SE" "Sweden"
    ∷ country "CH" "Switzerland"
    ∷ country "SY" "Syria"
    ∷ country "TW" "Taiwan"
    ∷ country "TJ" "Tajikistan"
    ∷ country "TZ" "Tanzania"
    ∷ country "TH" "Thailand"
    ∷ country "TL" "Timor-Leste"
    ∷ country "TG" "Togo"
    ∷ country "TO" "Tonga"
    ∷ country "TT" "Trinidad and Tobago"
    ∷ country "TN" "Tunisia"
    ∷ country "TR" "Türkiye"
    ∷ country "TM" "Turkmenistan"
    ∷ country "TV" "Tuvalu"
    ∷ country "UG" "Uganda"
    ∷ country "UA" "Ukraine"
    ∷ country "AE" "United Arab Emirates"
    ∷ country "GB" "United Kingdom"
    ∷ country "US" "United States"
    ∷ country "UY" "Uruguay"
    ∷ country "UZ" "Uzbekistan"
    ∷ country "VU" "Vanuatu"
    ∷ country "VE" "Venezuela"
    ∷ country "VN" "Vietnam"
    ∷ country "YE" "Yemen"
    ∷ country "ZM" "Zambia"
    ∷ country "ZW" "Zimbabwe"
    ∷ []

unfoldable pub countries : List Country
countries = countries_a ++ (countries_b ++ (countries_c ++ (countries_d)))

-- `CODES`
unfoldable pub country_codes : List Text
unfolding countries
country_codes = map (λ c. c.code) countries

-- `upper` is the case mapping of text that is not ASCII.
unfoldable pub is_valid_country_code : (Text → Text) → Text → Bool
unfolding country_codes member
is_valid_country_code upper code = member (to_upper_case upper code) country_codes

abbrev pub name_of : Option Country → Option String
name_of none = none
name_of (some c) = some c.name

unfoldable pub country_name : (Text → Text) → Text → Option String
unfolding countries text_eq
country_name upper code = name_of (find (λ c. text_eq c.code (to_upper_case upper code)) countries)
