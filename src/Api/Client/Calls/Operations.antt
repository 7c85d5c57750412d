-- ===== src/Api/Client/Calls/Operations.antt =====
-- The methods of `ApiClient` for duplicates, verification, audit and ingestion.
use scholarmatch_ai.Base.{[], ◌∷◌, none, some}
use scholarmatch_ai.Base.Text.{Text, codes}
use scholarmatch_ai.Api.Client.{get, post}
use scholarmatch_ai.Api.Client.Routes.{PageOptions, encoded, fixed, Route, page_params}

-- A call with its arguments, the idempotency key last.
pub data OperationsCall (Body : Type 0) : Type 0 where
  list_admin_duplicate_groups : PageOptions → OperationsCall Body
  merge_admin_duplicate_group : Text → Body → Text → OperationsCall Body
  list_admin_verification_queue : PageOptions → OperationsCall Body
  verify_admin_scholarship : Text → Body → Text → OperationsCall Body
  list_admin_audit_events : PageOptions → OperationsCall Body
  list_ingestion_runs : PageOptions → OperationsCall Body
  get_ingestion_run : Text → OperationsCall Body
  create_ingestion_run : Body → Text → OperationsCall Body
  retry_ingestion_run : Text → Text → OperationsCall Body

unfoldable pub operations_route : {Body : Type 0} → OperationsCall Body → Route Body
unfolding page_params
operations_route (list_admin_duplicate_groups page) = record {
  method = get;
  template = fixed (codes "/admin/duplicates") ∷ [];
  params = page_params page;
  body = none;
  key = none;
}
operations_route (merge_admin_duplicate_group id body key) = record {
  method = post;
  template = fixed (codes "/admin/duplicates/") ∷ encoded id ∷ fixed (codes "/merge") ∷ [];
  params = [];
  body = some body;
  key = some key;
}
operations_route (list_admin_verification_queue page) = record {
  method = get;
  template = fixed (codes "/admin/verification-queue") ∷ [];
  params = page_params page;
  body = none;
  key = none;
}
operations_route (verify_admin_scholarship id body key) = record {
  method = post;
  template = fixed (codes "/admin/verification-queue/") ∷ encoded id ∷ fixed (codes "/verify") ∷ [];
  params = [];
  body = some body;
  key = some key;
}
operations_route (list_admin_audit_events page) = record {
  method = get;
  template = fixed (codes "/admin/audit-events") ∷ [];
  params = page_params page;
  body = none;
  key = none;
}
operations_route (list_ingestion_runs page) = record {
  method = get;
  template = fixed (codes "/admin/ingestion-runs") ∷ [];
  params = page_params page;
  body = none;
  key = none;
}
operations_route (get_ingestion_run id) = record {
  method = get;
  template = fixed (codes "/admin/ingestion-runs/") ∷ encoded id ∷ [];
  params = [];
  body = none;
  key = none;
}
operations_route (create_ingestion_run body key) = record {
  method = post;
  template = fixed (codes "/admin/ingestion-runs") ∷ [];
  params = [];
  body = some body;
  key = some key;
}
operations_route (retry_ingestion_run id key) = record {
  method = post;
  template = fixed (codes "/admin/ingestion-runs/") ∷ encoded id ∷ fixed (codes "/retry") ∷ [];
  params = [];
  body = none;
  key = some key;
}
