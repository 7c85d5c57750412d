-- ===== src/Api/Client/Calls/Student.antt =====
-- The methods of `ApiClient` for the profile, the matches and the applications.
use scholarmatch_ai.Base.{[], ◌∷◌, none, some}
use scholarmatch_ai.Base.Text.{Text, codes}
use scholarmatch_ai.Api.Client.{delete, get, patch, post, put}
use scholarmatch_ai.Api.Client.Routes.{PageOptions, encoded, fixed, Route, page_params}

-- A call with its arguments, the idempotency key last.
pub data StudentCall (Body : Type 0) : Type 0 where
  get_profile : StudentCall Body
  replace_profile : Body → StudentCall Body
  list_matches : PageOptions → StudentCall Body
  get_match : Text → StudentCall Body
  recalculate_matches : Text → StudentCall Body
  get_match_recalculation_job : Text → StudentCall Body
  create_match_feedback : Text → Body → Text → StudentCall Body
  list_applications : PageOptions → StudentCall Body
  list_application_deadlines : PageOptions → StudentCall Body
  update_application : Text → Body → Text → StudentCall Body
  update_application_checklist_item : Text → Text → Body → Text → StudentCall Body
  set_application_reminder : Text → Body → Text → StudentCall Body
  delete_application_reminder : Text → Text → StudentCall Body

unfoldable pub student_route : {Body : Type 0} → StudentCall Body → Route Body
unfolding page_params
student_route get_profile = record {
  method = get;
  template = fixed (codes "/profile") ∷ [];
  params = [];
  body = none;
  key = none;
}
student_route (replace_profile body) = record {
  method = put;
  template = fixed (codes "/profile") ∷ [];
  params = [];
  body = some body;
  key = none;
}
student_route (list_matches page) = record {
  method = get;
  template = fixed (codes "/matches") ∷ [];
  params = page_params page;
  body = none;
  key = none;
}
student_route (get_match id) = record {
  method = get;
  template = fixed (codes "/matches/") ∷ encoded id ∷ [];
  params = [];
  body = none;
  key = none;
}
student_route (recalculate_matches key) = record {
  method = post;
  template = fixed (codes "/matches/recalculate") ∷ [];
  params = [];
  body = none;
  key = some key;
}
student_route (get_match_recalculation_job id) = record {
  method = get;
  template = fixed (codes "/matches/recalculation-jobs/") ∷ encoded id ∷ [];
  params = [];
  body = none;
  key = none;
}
student_route (create_match_feedback id body key) = record {
  method = post;
  template = fixed (codes "/matches/") ∷ encoded id ∷ fixed (codes "/feedback") ∷ [];
  params = [];
  body = some body;
  key = some key;
}
student_route (list_applications page) = record {
  method = get;
  template = fixed (codes "/applications") ∷ [];
  params = page_params page;
  body = none;
  key = none;
}
student_route (list_application_deadlines page) = record {
  method = get;
  template = fixed (codes "/applications/deadlines") ∷ [];
  params = page_params page;
  body = none;
  key = none;
}
student_route (update_application id body key) = record {
  method = patch;
  template = fixed (codes "/applications/") ∷ encoded id ∷ [];
  params = [];
  body = some body;
  key = some key;
}
student_route (update_application_checklist_item id item body key) = record {
  method = put;
  template =
      fixed (codes "/applications/") ∷ encoded id ∷ fixed (codes "/checklist/") ∷ encoded item ∷ [];
  params = [];
  body = some body;
  key = some key;
}
student_route (set_application_reminder id body key) = record {
  method = put;
  template = fixed (codes "/applications/") ∷ encoded id ∷ fixed (codes "/reminder") ∷ [];
  params = [];
  body = some body;
  key = some key;
}
student_route (delete_application_reminder id key) = record {
  method = delete;
  template = fixed (codes "/applications/") ∷ encoded id ∷ fixed (codes "/reminder") ∷ [];
  params = [];
  body = none;
  key = some key;
}
