-- ===== src/Api/Client/Calls/Laws.antt =====
-- What holds of the requests of all methods of the client.
use scholarmatch_ai.Base.{
  ℕ, suc, ◌+◌, Bool, true, false, not, List, [], ◌∷◌, ◌++◌, Option, none, some, if◌then◌else◌, ◌==◌,
  ◌≡◌, refl, sym, ◌∙◌, ap, arith, All, All-append, Bool-cases, inl, inr, is_some, ◌&&◌, ◌/◌, ◌%◌,
  ◌||◌, some_inj, if_some,
}
use mathlib.Core.Path.{subst}
use native.Mathlib.Nat.{zero-add}
use scholarmatch_ai.Base.Text.{Text}
use scholarmatch_ai.Base.Url.{
  utf8, encode_bytes, component_byte, is_component_safe, percent, hex_digit, encode_uri_component,
  well_formed_from,
}
use scholarmatch_ai.Api.Client.{Method, get}
use scholarmatch_ai.Api.Client.Routes.{Piece, fixed, encoded, render, prepend, prepend_encoded}
use scholarmatch_ai.Api.Client.Calls.{Call, student, library, catalogue, operations, route_of}
use scholarmatch_ai.Api.Client.Calls.Student.{
  StudentCall, student_route, get_profile, replace_profile,
}
use scholarmatch_ai.Api.Client.Calls.Library.{
  LibraryCall, library_route, get_document_upload_policy, set_scholarship_saved,
}
use scholarmatch_ai.Api.Client.Calls.Catalogue.{
  CatalogueCall, catalogue_route, list_admin_scholarships, preview_admin_bulk_action,
}
use scholarmatch_ai.Api.Client.Calls.Operations.{
  OperationsCall, operations_route, list_ingestion_runs,
}

-- How often a unit occurs in a text.
pub count : ℕ → Text → ℕ
count c [] = 0
count c (d ∷ s) = if d == c then suc (count c s) else count c s

count-append : (c : ℕ) (s t : Text) → count c (s ++ t) ≡ count c s + count c t
unfolding count
count-append c [] t = omega arith
count-append c (d ∷ s) t = ground (arith, count-append c s t)

-- The units that end a segment, a path or a query: `/`, `?` and `#`.
abbrev pub is_delimiter : ℕ → Bool
is_delimiter c = c == b'/' || c == b'?' || c == b'#'

count_plain :
    (c : ℕ) (s : Text) → is_delimiter c ≡ true → All (λ d. is_delimiter d ≡ false) s → count c s ≡ 0
unfolding count
count_plain c [] h p = refl
count_plain c (d ∷ s) h (q, p) = ground (arith, count_plain c s h p)

hex_digit_plain : (n : ℕ) → is_delimiter (hex_digit n) ≡ false
unfolding hex_digit
hex_digit_plain n = ground arith

component_safe_plain : (b : ℕ) → is_component_safe b ≡ true → is_delimiter b ≡ false
unfolding is_component_safe
component_safe_plain b h = ground arith

percent_plain : (b : ℕ) → All (λ d. is_delimiter d ≡ false) (percent b)
unfolding percent
percent_plain b = (refl, (hex_digit_plain (b / 16), (hex_digit_plain (b % 16), tt)))

component_byte_plain : (b : ℕ) → All (λ d. is_delimiter d ≡ false) (component_byte b)
unfolding component_byte
component_byte_plain b = elim (Bool-cases (is_component_safe b)) [
  | inl safe ↦ rw safe (component_safe_plain b safe, tt)
  | inr unsafe ↦ rw unsafe (percent_plain b)
]

component_plain : (bs : List ℕ) → All (λ d. is_delimiter d ≡ false) (encode_bytes component_byte bs)
component_plain [] = tt
component_plain (b ∷ bs) =
    All-append (λ d. is_delimiter d ≡ false) (component_byte b) _ (component_byte_plain b)
      (component_plain bs)

encoded_plain : (s e : Text) → encode_uri_component s ≡ some e → All (λ d. is_delimiter d ≡ false) e
unfolding encode_uri_component
encoded_plain s e h =
    subst (All (λ d. is_delimiter d ≡ false)) (if_some (well_formed_from false s) h)
      (component_plain (utf8 s))

-- The text of a template without its arguments.
pub fixed_text : List Piece → Text
fixed_text [] = []
fixed_text (fixed s ∷ pieces) = s ++ fixed_text pieces
fixed_text (encoded s ∷ pieces) = fixed_text pieces

prepend-some :
    (s : Text) (o : Option Text) {path : Text}
    → prepend s o ≡ some path
    → (rest : Text) × (o ≡ some rest) × (path ≡ s ++ rest)
prepend-some s none e = absurd (cc)
prepend-some s (some rest) e = (rest, refl, sym (some_inj e))

prepend_encoded-some :
    (o o' : Option Text) {path : Text}
    → prepend_encoded o o' ≡ some path
    → (s rest : Text) × (o ≡ some s) × (o' ≡ some rest) × (path ≡ s ++ rest)
prepend_encoded-some none o' e = absurd (cc)
prepend_encoded-some (some s) o' e =
    let (rest, below, same) = prepend-some s o' e in (s, rest, refl, below, same)

render-count :
    (c : ℕ) (pieces : List Piece) (path : Text)
    → is_delimiter c ≡ true
    → render pieces ≡ some path
    → count c path ≡ count c (fixed_text pieces)
unfolding render fixed_text
render-count c [] path h e = ap (count c) (sym (some_inj e))
render-count c (fixed s ∷ pieces) path h e =
    let (rest, below, same) = prepend-some s (render pieces) e in
    ap (count c) same
    ∙ (count-append c s rest
        ∙ (ap (λ n. count c s + n) (render-count c pieces rest h below)
            ∙ sym (count-append c s (fixed_text pieces))))
render-count c (encoded s ∷ pieces) path h e =
    let (e', rest, written, below, same) =
      prepend_encoded-some (encode_uri_component s) (render pieces) e in
    ap (count c) same
    ∙ (count-append c e' rest
        ∙ (ap (λ n. n + count c rest) (count_plain c e' h (encoded_plain s e' written))
            ∙ (zero-add (count c rest) ∙ render-count c pieces rest h below)))

abbrev pub is_get : Method → Bool
is_get get = true
is_get _ = false

module _ {Body : Type 0} where
  student_plain :
      (call : StudentCall Body)
      → (count b'?' (fixed_text (student_route call).template) ≡ 0)
        × (count b'#' (fixed_text (student_route call).template) ≡ 0)
  unfolding student_route fixed_text count
  student_plain get_profile = (refl, refl)
  student_plain _ = (refl, refl)

  library_plain :
      (call : LibraryCall Body)
      → (count b'?' (fixed_text (library_route call).template) ≡ 0)
        × (count b'#' (fixed_text (library_route call).template) ≡ 0)
  unfolding library_route fixed_text count
  library_plain get_document_upload_policy = (refl, refl)
  library_plain _ = (refl, refl)

  catalogue_plain :
      (call : CatalogueCall Body)
      → (count b'?' (fixed_text (catalogue_route call).template) ≡ 0)
        × (count b'#' (fixed_text (catalogue_route call).template) ≡ 0)
  unfolding catalogue_route fixed_text count
  catalogue_plain (list_admin_scholarships page) = (refl, refl)
  catalogue_plain _ = (refl, refl)

  operations_plain :
      (call : OperationsCall Body)
      → (count b'?' (fixed_text (operations_route call).template) ≡ 0)
        × (count b'#' (fixed_text (operations_route call).template) ≡ 0)
  unfolding operations_route fixed_text count
  operations_plain (list_ingestion_runs page) = (refl, refl)
  operations_plain _ = (refl, refl)

  fixed_text_plain :
      (call : Call Body)
      → (count b'?' (fixed_text (route_of call).template) ≡ 0)
        × (count b'#' (fixed_text (route_of call).template) ≡ 0)
  unfolding route_of
  fixed_text_plain (student call) = student_plain call
  fixed_text_plain (library call) = library_plain call
  fixed_text_plain (catalogue call) = catalogue_plain call
  fixed_text_plain (operations call) = operations_plain call

  -- Whatever its arguments are, the path of a method has as many slashes as the method's template
  -- writes, and neither a question mark nor a number sign before the method's own query.
  pub route_of-separators :
      (call : Call Body) (path : Text)
      → render (route_of call).template ≡ some path
      → (count b'/' path ≡ count b'/' (fixed_text (route_of call).template))
        × (count b'?' path ≡ 0)
        × (count b'#' path ≡ 0)
  route_of-separators call path e =
      let (no_query, no_fragment) = fixed_text_plain call in
      (
        render-count b'/' _ path refl e,
        render-count b'?' _ path refl e ∙ no_query,
        render-count b'#' _ path refl e ∙ no_fragment,
      )

  -- The three methods that write without an idempotency key.
  abbrev pub is_unkeyed : Call Body → Bool
  is_unkeyed (student (replace_profile body)) = true
  is_unkeyed (library (set_scholarship_saved id saved)) = true
  is_unkeyed (catalogue (preview_admin_bulk_action body)) = true
  is_unkeyed _ = false

  student_keyed :
      (call : StudentCall Body)
      → is_some (student_route call).key
        ≡ (not (is_unkeyed (student call)) && not (is_get (student_route call).method))
  unfolding student_route
  student_keyed get_profile = refl
  student_keyed _ = refl

  library_keyed :
      (call : LibraryCall Body)
      → is_some (library_route call).key
        ≡ (not (is_unkeyed (library call)) && not (is_get (library_route call).method))
  unfolding library_route
  library_keyed get_document_upload_policy = refl
  library_keyed _ = refl

  catalogue_keyed :
      (call : CatalogueCall Body)
      → is_some (catalogue_route call).key
        ≡ (not (is_unkeyed (catalogue call)) && not (is_get (catalogue_route call).method))
  unfolding catalogue_route
  catalogue_keyed (list_admin_scholarships page) = refl
  catalogue_keyed _ = refl

  operations_keyed :
      (call : OperationsCall Body)
      → is_some (operations_route call).key
        ≡ (not (is_unkeyed (operations call)) && not (is_get (operations_route call).method))
  unfolding operations_route
  operations_keyed (list_ingestion_runs page) = refl
  operations_keyed _ = refl

  -- A method of the client sends an idempotency key exactly when it writes and is not one of
  -- three: replacing the profile, saving a scholarship and the preview of a bulk action.
  pub route_of-key :
      (call : Call Body)
      → is_some (route_of call).key ≡ (not (is_unkeyed call) && not (is_get (route_of call).method))
  unfolding route_of
  route_of-key (student call) = student_keyed call
  route_of-key (library call) = library_keyed call
  route_of-key (catalogue call) = catalogue_keyed call
  route_of-key (operations call) = operations_keyed call
