-- ===== src/Scholarships/Tests.antt =====
-- The filters of one search.
use scholarmatch_ai.Base.{[], ◌∷◌, Option, none, some, ◌≡◌, refl, if◌then◌else◌}
use mathlib.Core.Option
use scholarmatch_ai.Base.Text.{Text, codes, text_eq}
use scholarmatch_ai.Mutations.{get}
use scholarmatch_ai.Scholarships.{
  SearchParamValue, one, many, parse_scholarship_filters, serialized_pairs,
}
use scholarmatch_ai.Scholarships.Laws.{parse-serialized}

-- A padded search, two study levels, and a sort that is not known.
abbrev search : Text → Option SearchParamValue
unfolding text_eq
search key =
    if text_eq key (codes "q")
    then some (one (codes " grant "))
    else if text_eq key (codes "study_level")
    then some (many (codes "doctoral" ∷ codes "other" ∷ []))
    else if text_eq key (codes "sort")
    then some (one (codes "name"))
    else none

search_filters :
    parse_scholarship_filters search
    ≡ (codes "limit", codes "12")
      ∷ (codes "q", codes "grant")
      ∷ (codes "study_level", codes "doctoral")
      ∷ (codes "sort", codes "relevance")
      ∷ []
unfolding parse_scholarship_filters
search_filters = refl

parse-serialized_example :
    parse_scholarship_filters (λ key.
      Option.map SearchParamValue.one
        (get key (serialized_pairs (parse_scholarship_filters search))))
    ≡ parse_scholarship_filters search
parse-serialized_example = parse-serialized search
