-- ===== src/Scholarships/Laws.antt =====
-- Filters survive being serialized and parsed again.
use scholarmatch_ai.Base.{
  Bool, false, not, ◌&&◌, List, [], ◌∷◌, Option, none, some, ◌≡◌, refl, ap, ◌∙◌, keep, All,
  Bool-cases, inl, inr,
}
use mathlib.Core.Path.{ap₂}
use mathlib.Core.Option
use scholarmatch_ai.Base.Text.{Text, codes, text_eq, text_eq_refl, text_eq_comm, member, is_empty}
use scholarmatch_ai.Base.Text.Trim.{trim, trim-trim}
use scholarmatch_ai.Api.Errors.{truthy}
use scholarmatch_ai.Mutations.{get}
use scholarmatch_ai.Scholarships.{
  FilterKey, q, field, destination, nationality, residency, deadline_from, deadline_to, study_level,
  funding_type, sort, verified, word, filter_keys, scholarship_sorts, filter_study_levels,
  funding_types, SearchParamValue, first_value, one_of, or_relevance, if_true, clean, Filters,
  add_entry, entries, parse_scholarship_filters, serialized_pairs,
}

one_of-one_of :
    (options : List Text) (o : Option Text) → one_of options (one_of options o) ≡ one_of options o
one_of-one_of options none = refl
one_of-one_of options (some s) = elim (Bool-cases (member s options)) [
  | inl known ↦ rw (known, known) refl
  | inr other ↦ rw other refl
]

if_true-if_true : (o : Option Text) → if_true (if_true o) ≡ if_true o
unfolding text_eq
if_true-if_true none = refl
if_true-if_true (some s) = elim (Bool-cases (text_eq s (codes "true"))) [
  | inl same ↦ rw same refl
  | inr other ↦ rw other refl
]

or_relevance_again :
    (o : Option Text)
    → or_relevance (one_of scholarship_sorts (or_relevance (one_of scholarship_sorts o)))
      ≡ or_relevance (one_of scholarship_sorts o)
unfolding member text_eq
or_relevance_again none = refl
or_relevance_again (some s) = elim (Bool-cases (member s scholarship_sorts)) [
  | inl known ↦ rw (known, known) refl
  | inr other ↦ rw other refl
]

trimmed_again :
    (o : Option Text)
    → truthy (Option.map trim (truthy (Option.map trim o))) ≡ truthy (Option.map trim o)
trimmed_again none = refl
trimmed_again (some s) = again (trim s) (trim-trim s)
  where
    again : (t : Text) → trim t ≡ t → truthy (Option.map trim (truthy (some t))) ≡ truthy (some t)
    again [] e = refl
    again (c ∷ t) e = ap (λ u. truthy (some u)) e

clean-clean : (k : FilterKey) (o : Option Text) → clean k (clean k o) ≡ clean k o
unfolding clean
clean-clean q o = trimmed_again o
clean-clean field o = trimmed_again o
clean-clean destination o = trimmed_again o
clean-clean nationality o = trimmed_again o
clean-clean residency o = trimmed_again o
clean-clean deadline_from o = trimmed_again o
clean-clean deadline_to o = trimmed_again o
clean-clean study_level o = one_of-one_of filter_study_levels o
clean-clean funding_type o = one_of-one_of funding_types o
clean-clean sort o = or_relevance_again o
clean-clean verified o = if_true-if_true o

-- Values that a key can have are not empty.
IsFilled : Option Text → Type 0
IsFilled none = Unit
IsFilled (some v) = is_empty v ≡ false

truthy-IsFilled : (o : Option Text) → IsFilled (truthy o)
unfolding IsFilled
truthy-IsFilled none = tt
truthy-IsFilled (some []) = tt
truthy-IsFilled (some (c ∷ s)) = refl

one_of-IsFilled :
    (options : List Text) (o : Option Text)
    → member [] options ≡ false
    → IsFilled (one_of options o)
unfolding IsFilled
one_of-IsFilled options none h = tt
one_of-IsFilled options (some []) h = rw h tt
one_of-IsFilled options (some (c ∷ s)) h = elim (Bool-cases (member (c ∷ s) options)) [
  | inl known ↦ rw known refl
  | inr other ↦ rw other tt
]

or_relevance-IsFilled : (o : Option Text) → IsFilled o → IsFilled (or_relevance o)
unfolding IsFilled
or_relevance-IsFilled none h = refl
or_relevance-IsFilled (some v) h = h

if_true-IsFilled : (o : Option Text) → IsFilled (if_true o)
unfolding IsFilled
if_true-IsFilled none = tt
if_true-IsFilled (some s) = elim (Bool-cases (text_eq s (codes "true"))) [
  | inl same ↦ rw same refl
  | inr other ↦ rw other tt
]

clean-IsFilled : (k : FilterKey) (o : Option Text) → IsFilled (clean k o)
unfolding clean member text_eq
clean-IsFilled q o = truthy-IsFilled _
clean-IsFilled field o = truthy-IsFilled _
clean-IsFilled destination o = truthy-IsFilled _
clean-IsFilled nationality o = truthy-IsFilled _
clean-IsFilled residency o = truthy-IsFilled _
clean-IsFilled deadline_from o = truthy-IsFilled _
clean-IsFilled deadline_to o = truthy-IsFilled _
clean-IsFilled study_level o = one_of-IsFilled filter_study_levels o refl
clean-IsFilled funding_type o = one_of-IsFilled funding_types o refl
clean-IsFilled sort o = or_relevance-IsFilled _ (one_of-IsFilled scholarship_sorts o refl)
clean-IsFilled verified o = if_true-IsFilled o

not_limit : (k : FilterKey) → text_eq (word k) (codes "limit") ≡ false
unfolding word text_eq
not_limit q = refl
not_limit field = refl
not_limit destination = refl
not_limit nationality = refl
not_limit residency = refl
not_limit deadline_from = refl
not_limit deadline_to = refl
not_limit study_level = refl
not_limit funding_type = refl
not_limit sort = refl
not_limit verified = refl

abbrev is_serialized : Text × Text → Bool
is_serialized e = not (text_eq e.0 (codes "limit")) && not (is_empty e.1)

keep-add_entry :
    (k : FilterKey) (o : Option Text) (rest : Filters)
    → IsFilled o
    → keep is_serialized rest ≡ rest
    → keep is_serialized (add_entry (word k) o rest) ≡ add_entry (word k) o rest
unfolding IsFilled
keep-add_entry k none rest filled e = e
keep-add_entry k (some v) rest filled e = rw (not_limit k, filled) (ap (λ r. (word k, v) ∷ r) e)

keep-entries :
    (value : FilterKey → Option Text) (keys : List FilterKey)
    → ((k : FilterKey) → IsFilled (value k))
    → keep is_serialized (entries value keys) ≡ entries value keys
keep-entries value [] h = refl
keep-entries value (k ∷ keys) h = keep-add_entry k (value k) _ (h k) (keep-entries value keys h)

-- No later key has the word of an earlier one.
Distinct : List FilterKey → Type 0
Distinct [] = Unit
Distinct (k ∷ keys) = All (λ j. text_eq (word k) (word j) ≡ false) keys × Distinct keys

filter_keys-Distinct : Distinct filter_keys
unfolding Distinct word text_eq
filter_keys-Distinct = (
  (refl, (refl, (refl, (refl, (refl, (refl, (refl, (refl, (refl, (refl, tt)))))))))),
  (
    (refl, (refl, (refl, (refl, (refl, (refl, (refl, (refl, (refl, tt))))))))),
    (
      (refl, (refl, (refl, (refl, (refl, (refl, (refl, (refl, tt)))))))),
      (
        (refl, (refl, (refl, (refl, (refl, (refl, (refl, tt))))))),
        (
          (refl, (refl, (refl, (refl, (refl, (refl, tt)))))),
          (
            (refl, (refl, (refl, (refl, (refl, tt))))),
            (
              (refl, (refl, (refl, (refl, tt)))),
              ((refl, (refl, (refl, tt))), ((refl, (refl, tt)), ((refl, tt), (tt, tt)))),
            ),
          ),
        ),
      ),
    ),
  ),
)

get-add_other :
    (k j : FilterKey) (o : Option Text) (rest : Filters)
    → text_eq (word k) (word j) ≡ false
    → get (word j) (add_entry (word k) o rest) ≡ get (word j) rest
unfolding get
get-add_other k j none rest h = refl
get-add_other k j (some v) rest h = rw h refl

get-absent :
    (value : FilterKey → Option Text) (k : FilterKey) (keys : List FilterKey)
    → All (λ j. text_eq (word k) (word j) ≡ false) keys
    → get (word k) (entries value keys) ≡ none
unfolding get
get-absent value k [] h = refl
get-absent value k (j ∷ keys) (p, h) =
    get-add_other j k (value j) _ (text_eq_comm (word j) (word k) ∙ p) ∙ get-absent value k keys h

get-add_self :
    (k : FilterKey) (o : Option Text) (rest : Filters)
    → get (word k) rest ≡ none
    → get (word k) (add_entry (word k) o rest) ≡ o
unfolding get
get-add_self k none rest h = h
get-add_self k (some v) rest h = rw (text_eq_refl (word k)) refl

later :
    (value : FilterKey → Option Text) (k : FilterKey) (o : Option Text) (rest : Filters)
    (keys : List FilterKey)
    → All (λ j. text_eq (word k) (word j) ≡ false) keys
    → All (λ j. get (word j) rest ≡ value j) keys
    → All (λ j. get (word j) (add_entry (word k) o rest) ≡ value j) keys
later value k o rest [] new h = tt
later value k o rest (j ∷ keys) (p, new) (e, h) =
    (get-add_other k j o rest p ∙ e, later value k o rest keys new h)

-- Each key is found with its value.
get-entries :
    (value : FilterKey → Option Text) (keys : List FilterKey)
    → Distinct keys
    → All (λ k. get (word k) (entries value keys) ≡ value k) keys
unfolding Distinct
get-entries value [] h = tt
get-entries value (k ∷ keys) (new, h) = (
  get-add_self k (value k) _ (get-absent value k keys new),
  later value k (value k) (entries value keys) keys new (get-entries value keys h),
)

again :
    (value value' : FilterKey → Option Text) (keys : List FilterKey)
    → All (λ k. value' k ≡ value k) keys
    → entries value' keys ≡ entries value keys
again value value' [] h = refl
again value value' (k ∷ keys) (e, h) =
    ap₂ (λ o rest. add_entry (word k) o rest) e (again value value' keys h)

mapped :
    (value value' : FilterKey → Option Text) (found : Text → Option Text) (keys : List FilterKey)
    → ((k : FilterKey) → found (word k) ≡ value k → value' k ≡ value k)
    → All (λ k. found (word k) ≡ value k) keys
    → All (λ k. value' k ≡ value k) keys
mapped value value' found [] f h = tt
mapped value value' found (k ∷ keys) f (e, h) = (f k e, mapped value value' found keys f h)

first_value-one : (o : Option Text) → first_value (Option.map SearchParamValue.one o) ≡ o
first_value-one none = refl
first_value-one (some v) = refl

keep-parsed :
    (value : FilterKey → Option Text)
    → ((k : FilterKey) → IsFilled (value k))
    → serialized_pairs ((codes "limit", codes "12") ∷ entries value filter_keys)
      ≡ entries value filter_keys
unfolding serialized_pairs text_eq
keep-parsed value h = keep-entries value filter_keys h

clean_again :
    (k : FilterKey) (o found : Option Text)
    → found ≡ clean k o
    → clean k (first_value (Option.map SearchParamValue.one found)) ≡ clean k o
clean_again k o found e = rw (first_value-one found, e) (clean-clean k o)

-- Filters that were read from any search parameters are read again from the pairs that they are
-- serialized to: nothing is lost or changed, and the value of every key survives.
pub parse-serialized :
    (params : Text → Option SearchParamValue)
    → let filters = parse_scholarship_filters params in
      parse_scholarship_filters
        (λ key. Option.map SearchParamValue.one (get key (serialized_pairs filters)))
      ≡ filters
unfolding parse_scholarship_filters
parse-serialized params = rw (keep-parsed value (λ k. clean-IsFilled k _)) (
    ap (λ r. (codes "limit", codes "12") ∷ r)
      (again value value' filter_keys (
        mapped value value' found filter_keys
          (λ k. clean_again k (first_value (params (word k))) (found (word k)))
          (get-entries value filter_keys filter_keys-Distinct))))
  where
    value : FilterKey → Option Text
    value k = clean k (first_value (params (word k)))

    found : Text → Option Text
    found key = get key (entries value filter_keys)

    value' : FilterKey → Option Text
    value' k = clean k (first_value (Option.map SearchParamValue.one (found (word k))))
