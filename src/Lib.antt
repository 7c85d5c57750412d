-- ===== src/Lib.antt =====
-- A verification library of the scholarmatch frontend: the parts of frontend/ that decide where a
-- visitor may go, what a student's profile must hold and how the browser talks to the API.
--
-- The parts and how they interact. The proxy (frontend/proxy.ts) runs on every page request: it
-- refreshes the session, classifies the path and lets the request pass or redirects it. The
-- onboarding wizard (frontend/app/(app)/onboarding/onboarding-wizard.tsx) takes a student through a
-- list of steps; each answer changes a draft, a step is left only when its validator finds no error,
-- and at the review the draft is converted to the body of the profile request. The API client
-- (frontend/app/lib/api/client.ts) sends that request and all others, and turns failures into typed
-- errors, which the wizard shows. The wizard saves its progress through a store that keeps a copy on
-- the device and one in the user's metadata. The private pages check the session and its role on the
-- server again (frontend/app/lib/auth/server-session.ts). The dashboard (frontend/app/lib/dashboard)
-- derives deadlines, counts and the next action from the profile, the matches and the applications,
-- and rates how complete the profile is (frontend/app/lib/profile/completeness.ts). The list of
-- scholarships keeps its filters in the URL (frontend/app/lib/scholarships/filters.ts). Three
-- workspaces of frontend/app/components change what the service holds: the applications, the documents and the
-- ranked matches. The first two send each change with an idempotency key, which a runner that both
-- share keeps until the change has succeeded. The merging of duplicate scholarships by a reviewer
-- keeps its keys likewise.
--
-- The modules:
--   Base              names of the libraries, tests on numbers, lists; Base/Text is JavaScript text as
--                     UTF-16 code units, Base/Url the form and component encodings, Base/Number the
--                     doubles that are compared
--   Routing/Routes    isProtectedPath, isAuthEntryPath (frontend/app/lib/routing/routes.ts)
--   Routing/SafeRedirect  sanitizeRedirectPath, buildSignInUrl (frontend/app/lib/routing/safe-redirect.ts)
--   Routing/Proxy     refreshSession (frontend/app/lib/supabase/proxy-session.ts), proxy and
--                     redirectPreservingCookies (frontend/proxy.ts)
--   Onboarding/Types, Countries, Validation, Steps, Serialize
--                     the files of those names in frontend/app/lib/onboarding
--   Onboarding/Store  the saved progress (frontend/app/lib/onboarding/store.ts)
--   Onboarding/Patch, Wizard  the draft's updates, and the wizard's state and handlers
--   Api/Errors        ApiError and its makers (frontend/app/lib/api/errors.ts)
--   Api/Client        ApiClient: one request (Client), paths and queries (Client/Routes) and the
--                     methods by area (Client/Calls)
--   Auth/Access, ServerSession, Failures, Validate
--                     access.ts, server-session.ts, errors.ts and validate.ts of frontend/app/lib/auth
--   Profile/Completeness  frontend/app/lib/profile/completeness.ts
--   Mutations         the runner, mutate of application-workspace.tsx and run of document-manager.tsx;
--                     Mutations/Keys and Runs are about its keys
--   Applications      frontend/app/components/applications/application-workspace.tsx: the data, Card
--                     (ApplicationActions, ReminderControl) and Board (replaceApplication, the board)
--   Documents         Upload (frontend/app/lib/documents/upload.ts), Manager, Handlers and
--                     Rename (frontend/app/components/documents/document-manager.tsx); Library
--                     is the abstract map from ids to documents
--   Dashboard         Model and View (frontend/app/lib/dashboard/model.ts and server.ts), Sorting
--   Matches           frontend/app/components/matches/ranked-match-list.tsx
--   Admin/Duplicates  duplicate-workspace.tsx and exact-confirmation.tsx of frontend/app/components/admin
--   Scholarships      frontend/app/lib/scholarships/filters.ts
-- Laws and the modules below a part hold the proofs, Tests the runs on concrete values.
--
-- How the model corresponds to the code. A string is the list of its UTF-16 units; `undefined` and
-- `null` are `none`; a function that throws returns `none`, or a case of an outcome type. toUpperCase
-- is exact on ASCII, and goes by a parameter on other text. A handler of the wizard that awaits is cut
-- at the `await`: `step` runs one event, which may be the settling of a promise, and returns the new
-- state with the effects that it causes. fetch, the JSON codec, the access token and the outcome of
-- Supabase's calls are parameters or fields of the input. A handler of a workspace is likewise two
-- functions, up to its `await` and from it on, and a run is a sequence of presses and answers in any
-- order. A time is a number of milliseconds since the platform's earliest date. No definition runs on
-- fuel that the code does not have: every loop goes over a list, or makes the 40 attempts of
-- waitForJob, and is structural recursion here.
--
-- Not modelled: markup and focus, the options of cookies, the abort signals but for how they settle a
-- request, what may throw in the client before it calls fetch, the printing of dates, the generated
-- schema but for the fields that are read, the other workspaces of the administration, the profile
-- editor, the Python services and the pages that only show data.
pub mod Base
pub mod Routing
pub mod Onboarding
pub mod Api
pub mod Profile
pub mod Auth
pub mod Mutations
pub mod Applications
pub mod Documents
pub mod Dashboard
pub mod Matches
pub mod Admin
pub mod Scholarships
