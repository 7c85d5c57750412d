-- ===== src/Scholarships.antt =====
-- The filters of the scholarship list: frontend/app/lib/scholarships/filters.ts. Filters are the
-- entries of the object in the order in which it is filled, each with its value as a text.
pub mod Laws
mod Tests
use scholarmatch_ai.Base.{
  Bool, true, false, not, ◌&&◌, List, [], ◌∷◌, Option, none, some, if◌then◌else◌, keep,
}
use mathlib.Core.Option
use scholarmatch_ai.Base.Text.{Text, codes, text_eq, member, is_empty}
use scholarmatch_ai.Base.Text.Trim.{trim}
use scholarmatch_ai.Base.Url.{form_serialize}
use scholarmatch_ai.Api.Errors.{truthy}

pub data FilterKey : Type 0 where
  q : FilterKey
  field : FilterKey
  destination : FilterKey
  nationality : FilterKey
  residency : FilterKey
  deadline_from : FilterKey
  deadline_to : FilterKey
  study_level : FilterKey
  funding_type : FilterKey
  sort : FilterKey
  verified : FilterKey

unfoldable pub word : FilterKey → Text
word q = codes "q"
word field = codes "field"
word destination = codes "destination"
word nationality = codes "nationality"
word residency = codes "residency"
word deadline_from = codes "deadline_from"
word deadline_to = codes "deadline_to"
word study_level = codes "study_level"
word funding_type = codes "funding_type"
word sort = codes "sort"
word verified = codes "verified"

-- The order in which `parseScholarshipFilters` reads them.
abbrev pub filter_keys : List FilterKey
filter_keys =
    q ∷ field ∷ destination ∷ nationality ∷ residency ∷ deadline_from ∷ deadline_to ∷ study_level
    ∷ funding_type ∷ sort ∷ verified ∷ []

abbrev pub scholarship_sorts : List Text
scholarship_sorts =
    codes "relevance" ∷ codes "deadline" ∷ codes "recently_verified" ∷ codes "funding_amount" ∷ []

abbrev pub filter_study_levels : List Text
filter_study_levels =
    codes "undergraduate" ∷ codes "postgraduate" ∷ codes "doctoral" ∷ codes "other" ∷ []

abbrev pub funding_types : List Text
funding_types =
    codes "full"
    ∷ codes "partial"
    ∷ codes "tuition"
    ∷ codes "stipend"
    ∷ codes "research"
    ∷ codes "other"
    ∷ []

-- A value of the page's search parameters, where there is one.
pub data SearchParamValue : Type 0 where
  one : Text → SearchParamValue
  many : List Text → SearchParamValue

abbrev pub first_value : Option SearchParamValue → Option Text
first_value none = none
first_value (some (one s)) = some s
first_value (some (many [])) = none
first_value (some (many (s ∷ rest))) = some s

-- A value that is one of the options.
abbrev pub one_of : List Text → Option Text → Option Text
one_of options none = none
one_of options (some s) = if member s options then some s else none

abbrev pub or_relevance : Option Text → Option Text
or_relevance none = some (codes "relevance")
or_relevance (some s) = some s

abbrev pub if_true : Option Text → Option Text
if_true none = none
if_true (some s) = if text_eq s (codes "true") then some (codes "true") else none

-- The value that a key is given, from the first one of its parameter.
unfoldable pub clean : FilterKey → Option Text → Option Text
unfolding trim member text_eq
clean study_level value = one_of filter_study_levels value
clean funding_type value = one_of funding_types value
clean sort value = or_relevance (one_of scholarship_sorts value)
clean verified value = if_true value
clean text_key value = truthy (Option.map trim value)

abbrev pub Filters : Type 0
Filters = List (Text × Text)

abbrev pub add_entry : Text → Option Text → Filters → Filters
add_entry key none rest = rest
add_entry key (some value) rest = (key, value) ∷ rest

abbrev pub entries : (FilterKey → Option Text) → List FilterKey → Filters
entries value [] = []
entries value (key ∷ keys) = add_entry (word key) (value key) (entries value keys)

unfoldable pub parse_scholarship_filters : (Text → Option SearchParamValue) → Filters
unfolding clean word
parse_scholarship_filters params =
    (codes "limit", codes "12")
    ∷ entries (λ key. clean key (first_value (params (word key)))) filter_keys

-- The pairs that are set, and the text that they make.
unfoldable pub serialized_pairs : Filters → Filters
unfolding text_eq
serialized_pairs filters =
    keep (λ (e : Text × Text). not (text_eq e.0 (codes "limit")) && not (is_empty e.1)) filters

unfoldable pub serialize_scholarship_filters : Filters → Text
unfolding serialized_pairs form_serialize
serialize_scholarship_filters filters = form_serialize (serialized_pairs filters)
