-- ===== src/Mutations.antt =====
-- The runner of mutations that the workspaces share: `mutate` of
-- frontend/app/components/applications/application-workspace.tsx, and `run` of
-- frontend/app/components/documents/document-manager.tsx, which reads the same. A key that
-- `idempotencyKey()` makes is an argument. An `await` cuts the function in two.
pub mod Keys
pub mod Runs
mod Tests
use scholarmatch_ai.Base.{
  Bool, true, false, List, [], ◌∷◌, Option, none, some, if◌then◌else◌, or_else, is_some,
}
use scholarmatch_ai.Base.Text.{Text, text_eq}
use scholarmatch_ai.Api.Errors.{truthy}

-- A `Map` from texts to texts, in the order of insertion.
abbrev pub TextMap : Type 0
TextMap = List (Text × Text)

unfoldable pub get : Text → TextMap → Option Text
unfolding text_eq
get key [] = none
get key ((k, v) ∷ map) = if text_eq k key then some v else get key map

unfoldable pub put : Text → Text → TextMap → TextMap
unfolding text_eq
put key value [] = (key, value) ∷ []
put key value ((k, v) ∷ map) =
    if text_eq k key then (k, value) ∷ map else (k, v) ∷ put key value map

-- `map.delete(key)`
unfoldable pub remove : Text → TextMap → TextMap
unfolding text_eq
remove key [] = []
remove key ((k, v) ∷ map) = if text_eq k key then remove key map else (k, v) ∷ remove key map

-- The state that `pending`, `error` and `retryKeys` hold.
pub record Runner : Type 0 where
  pub pending : Option Text
  pub error : Option Text
  pub retry_keys : TextMap

abbrev pub idle_runner : Runner
idle_runner = record { pending = none; error = none; retry_keys = [] }

-- `if (pending)`: an empty label counts as none.
abbrev pub is_pending : Runner → Bool
is_pending runner = is_some (truthy runner.pending)

-- `retryKeys.current.get(operationId) ?? idempotencyKey()`
abbrev pub key_for : Text → Text → Runner → Text
key_for fresh operation runner = or_else (get operation runner.retry_keys) fresh

-- Up to the `await` of the request, with the key that the request carries; `none` where the
-- function returns at once.
unfoldable pub begin : Text → Text → Text → Runner → Runner × Option Text
unfolding get put
begin fresh operation label runner = if is_pending runner then (runner, none) else (
  record {
    pending = some label;
    error = none;
    retry_keys = put operation (key_for fresh operation runner) runner.retry_keys;
  },
  some (key_for fresh operation runner),
)

-- The rest, where the request succeeded, and where it failed with a message.
unfoldable pub succeed : Text → Runner → Runner
unfolding remove
succeed operation runner = record runner {
  pending = none;
  retry_keys = remove operation runner.retry_keys;
}

unfoldable pub fail : Text → Runner → Runner
fail message runner = record runner { pending = none; error = some message }
