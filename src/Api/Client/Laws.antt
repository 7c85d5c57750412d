-- ===== src/Api/Client/Laws.antt =====
-- What a request of the client carries, and how it settles.
use scholarmatch_ai.Base.{
  ℕ, false, ◌++◌, Option, none, some, ◌≡◌, refl, arith, ◌↔◌, In, here, there,
}
use scholarmatch_ai.Base.Text.{Text, codes}
use scholarmatch_ai.Api.Errors.{
  not_found, ApiError, ErrorEnvelope, FailedResponse, truthy, kind_for_status,
  api_error_from_response,
}
use scholarmatch_ai.Api.Client.{
  RequestOptions, HttpRequest, HttpResponse, responded, returned, failed, http_request,
  request_sent, is_ok, settle, null_if_not_found, failed_response,
}

module _ {Body : Type 0} where
  -- A method that does not switch authentication off calls `fetch` only with a token that is not
  -- empty, and then sends it; without one it fails before the network is reached.
  pub request_sent-authorized :
      (base_url : Text) (token : Option Text) (options : RequestOptions Body)
      → options.require_auth ≡ none
      → (truthy token ≡ none → request_sent base_url token options ≡ none)
        × ((t : Text)
            → truthy token ≡ some t
            → (r : HttpRequest Body) × (request_sent base_url token options ≡ some r)
              × In (codes "Authorization", codes "Bearer " ++ t) r.headers)
  unfolding request_sent
  request_sent-authorized base_url token options strict = (
    λ absent. ground arith,
    λ t present. (http_request base_url (some t) options, ground arith, there (here refl)),
  )

kind_of_error :
    (response : FailedResponse)
    → (api_error_from_response response).kind ≡ kind_for_status response.status
unfolding api_error_from_response
kind_of_error response = ground arith

not_found_status : (status : ℕ) → (kind_for_status status ≡ not_found) ↔ (status ≡ 404)
unfolding kind_for_status
not_found_status status = ground arith

module _ {A : Type 0} (parse_envelope : Text → Option ErrorEnvelope)
    (parse : Text → Option (Option A)) where
  failed_kind :
      (response : HttpResponse)
      → is_ok response.status ≡ false
      → (error : ApiError) × (settle parse_envelope parse (responded response) ≡ failed error)
        × (error.kind ≡ kind_for_status response.status)
  unfolding settle
  failed_kind response h =
      (api_error_from_response (failed_response parse_envelope response), rw h, kind_of_error _)

  -- `getProfile` gives `null` for a failed response exactly when its status is 404.
  pub null_if_not_found-settle :
      (response : HttpResponse)
      → is_ok response.status ≡ false
      → (null_if_not_found (settle parse_envelope parse (responded response)) ≡ returned none)
        ↔ (response.status ≡ 404)
  unfolding null_if_not_found
  null_if_not_found-settle response h =
      let (error, settled, kind) = failed_kind response h in
      rw settled (ground (arith, not_found_status response.status))
