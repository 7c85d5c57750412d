-- ===== src/Api/Client/Calls/Library.antt =====
-- The methods of `ApiClient` for documents and scholarships.
use scholarmatch_ai.Base.{Bool, List, [], ◌∷◌, none, some, if◌then◌else◌}
use scholarmatch_ai.Base.Text.{Text, codes}
use scholarmatch_ai.Api.Client.{delete, get, patch, post, put}
use scholarmatch_ai.Api.Client.Routes.{
  PageOptions, QueryValue, query_params, encoded, fixed, Route, page_params,
}

-- A call with its arguments, the idempotency key last.
pub data LibraryCall (Body : Type 0) : Type 0 where
  list_documents : PageOptions → LibraryCall Body
  get_document_upload_policy : LibraryCall Body
  get_document_readiness : LibraryCall Body
  rename_document : Text → Body → Text → LibraryCall Body
  create_document_download_url : Text → Text → LibraryCall Body
  delete_document : Text → Text → LibraryCall Body
  list_scholarships : List (Text × QueryValue) → LibraryCall Body
  get_scholarship : Text → LibraryCall Body
  list_related_scholarships : Text → PageOptions → LibraryCall Body
  set_scholarship_saved : Text → Bool → LibraryCall Body
  create_application : Body → Text → LibraryCall Body
  report_scholarship : Text → Body → Text → LibraryCall Body

unfoldable pub library_route : {Body : Type 0} → LibraryCall Body → Route Body
unfolding page_params query_params
library_route (list_documents page) = record {
  method = get;
  template = fixed (codes "/profile/documents") ∷ [];
  params = page_params page;
  body = none;
  key = none;
}
library_route get_document_upload_policy = record {
  method = get;
  template = fixed (codes "/profile/documents/policy") ∷ [];
  params = [];
  body = none;
  key = none;
}
library_route get_document_readiness = record {
  method = get;
  template = fixed (codes "/profile/documents/readiness") ∷ [];
  params = [];
  body = none;
  key = none;
}
library_route (rename_document id body key) = record {
  method = patch;
  template = fixed (codes "/profile/documents/") ∷ encoded id ∷ [];
  params = [];
  body = some body;
  key = some key;
}
library_route (create_document_download_url id key) = record {
  method = post;
  template = fixed (codes "/profile/documents/") ∷ encoded id ∷ fixed (codes "/download-url") ∷ [];
  params = [];
  body = none;
  key = some key;
}
library_route (delete_document id key) = record {
  method = delete;
  template = fixed (codes "/profile/documents/") ∷ encoded id ∷ [];
  params = [];
  body = none;
  key = some key;
}
library_route (list_scholarships query) = record {
  method = get;
  template = fixed (codes "/scholarships") ∷ [];
  params = query_params query;
  body = none;
  key = none;
}
library_route (get_scholarship id) = record {
  method = get;
  template = fixed (codes "/scholarships/") ∷ encoded id ∷ [];
  params = [];
  body = none;
  key = none;
}
library_route (list_related_scholarships id page) = record {
  method = get;
  template = fixed (codes "/scholarships/") ∷ encoded id ∷ fixed (codes "/related") ∷ [];
  params = page_params page;
  body = none;
  key = none;
}
library_route (set_scholarship_saved id saved) = record {
  method = if saved then put else delete;
  template = fixed (codes "/scholarships/") ∷ encoded id ∷ fixed (codes "/saved") ∷ [];
  params = [];
  body = none;
  key = none;
}
library_route (create_application body key) = record {
  method = post;
  template = fixed (codes "/applications") ∷ [];
  params = [];
  body = some body;
  key = some key;
}
library_route (report_scholarship id body key) = record {
  method = post;
  template = fixed (codes "/scholarships/") ∷ encoded id ∷ fixed (codes "/reports") ∷ [];
  params = [];
  body = some body;
  key = some key;
}
