-- ===== src/Api/Client/Calls/Catalogue.antt =====
-- The methods of `ApiClient` for the administration of scholarships.
use scholarmatch_ai.Base.{[], ◌∷◌, none, some}
use scholarmatch_ai.Base.Text.{Text, codes}
use scholarmatch_ai.Api.Client.{get, patch, post, put}
use scholarmatch_ai.Api.Client.Routes.{PageOptions, encoded, fixed, Route, page_params}

-- A call with its arguments, the idempotency key last.
pub data CatalogueCall (Body : Type 0) : Type 0 where
  list_admin_scholarships : PageOptions → CatalogueCall Body
  get_admin_scholarship : Text → CatalogueCall Body
  create_admin_scholarship : Body → Text → CatalogueCall Body
  update_admin_scholarship : Text → Body → Text → CatalogueCall Body
  transition_admin_scholarship : Text → Body → Text → CatalogueCall Body
  replace_admin_scholarship_requirements : Text → Body → Text → CatalogueCall Body
  preview_admin_bulk_action : Body → CatalogueCall Body
  apply_admin_bulk_action : Body → Text → CatalogueCall Body
  undo_admin_bulk_action : Text → Text → CatalogueCall Body

unfoldable pub catalogue_route : {Body : Type 0} → CatalogueCall Body → Route Body
unfolding page_params
catalogue_route (list_admin_scholarships page) = record {
  method = get;
  template = fixed (codes "/admin/scholarships") ∷ [];
  params = page_params page;
  body = none;
  key = none;
}
catalogue_route (get_admin_scholarship id) = record {
  method = get;
  template = fixed (codes "/admin/scholarships/") ∷ encoded id ∷ [];
  params = [];
  body = none;
  key = none;
}
catalogue_route (create_admin_scholarship body key) = record {
  method = post;
  template = fixed (codes "/admin/scholarships") ∷ [];
  params = [];
  body = some body;
  key = some key;
}
catalogue_route (update_admin_scholarship id body key) = record {
  method = patch;
  template = fixed (codes "/admin/scholarships/") ∷ encoded id ∷ [];
  params = [];
  body = some body;
  key = some key;
}
catalogue_route (transition_admin_scholarship id body key) = record {
  method = post;
  template = fixed (codes "/admin/scholarships/") ∷ encoded id ∷ fixed (codes "/lifecycle") ∷ [];
  params = [];
  body = some body;
  key = some key;
}
catalogue_route (replace_admin_scholarship_requirements id body key) = record {
  method = put;
  template = fixed (codes "/admin/scholarships/") ∷ encoded id ∷ fixed (codes "/requirements") ∷ [];
  params = [];
  body = some body;
  key = some key;
}
catalogue_route (preview_admin_bulk_action body) = record {
  method = post;
  template = fixed (codes "/admin/scholarships/bulk-preview") ∷ [];
  params = [];
  body = some body;
  key = none;
}
catalogue_route (apply_admin_bulk_action body key) = record {
  method = post;
  template = fixed (codes "/admin/scholarships/bulk-action") ∷ [];
  params = [];
  body = some body;
  key = some key;
}
catalogue_route (undo_admin_bulk_action id key) = record {
  method = post;
  template =
      fixed (codes "/admin/scholarships/bulk-actions/") ∷ encoded id ∷ fixed (codes "/undo") ∷ [];
  params = [];
  body = none;
  key = some key;
}
