-- ===== src/Api/Tests.antt =====
-- The API server at concrete requests.
use kubearchive.Prelude.{
  Bool, Result, [], false, none, ok, refl, some, ◌&&◌, ◌++◌, ◌↔◌, ◌∷◌, ◌≡◌, ◌⊎◌,
}
use kubearchive.Text.{Text, lit, text_eq}
use kubearchive.Api.{
  AccessSpec, Context, TokenStatus, UserInfo, abort, access_spec, authentication,
  authentication_failed, empty_token, extract_bearer_token, get_all_resources, invalid_token, json,
  listing, message, param, rbac_authorization, serve, split, unauthorized, user_info,
}
use kubearchive.Api.Token.{IsPair, extract_bearer_token-IsPair}
use kubearchive.Api.Access.{
  IsAllowed, IsAuthenticated, Refuses, authentication-cases, listing_of, rbac_authorization-cases,
  serve-cases, serve-listing, with_user,
}

server : Unit {0}
unfolding serve authentication rbac_authorization get_all_resources extract_bearer_token access_spec
    param split json abort
server = tt

abbrev ann : UserInfo
ann = record { username = lit "ann"; groups = lit "admins" ∷ [] }

-- Reviews that know one token, and one user with access to jobs.
abbrev one_token : Text → Result Text TokenStatus
one_token t = ok (record { authenticated = text_eq t (lit "s3cret"); user = ann })

abbrev only_jobs : AccessSpec → Result Text Bool
only_jobs spec = ok (text_eq spec.user (lit "ann") && text_eq spec.resource (lit "jobs"))

abbrev request : Text → Text → Context
request authorization resource = record {
  authorization = authorization;
  params =
      (lit "group", lit "batch") ∷ (lit "version", lit "v1") ∷ (lit "resourceType", resource) ∷ [];
  user = none;
  responses = [];
  is_aborted = false;
  log = [];
}

-- Any scheme is taken, not "Bearer" alone.
any_scheme : extract_bearer_token (lit "Basic s3cret") ≡ ok (lit "s3cret")
unfolding server
any_scheme = refl

listing_run :
    (serve one_token only_jobs (request (lit "Bearer s3cret") (lit "jobs"))).responses
    ≡ (
      200,
      listing (record {
        kind = lit "jobs";
        api_version = lit "batch/v1";
        items = lit "resource1" ∷ lit "resource2" ∷ [];
      }),
    )
      ∷ []
unfolding server
listing_run = refl

refused_runs :
    ((serve one_token only_jobs (request [] (lit "jobs"))).responses
      ≡ (400, message (invalid_token empty_token)) ∷ [])
    × ((serve one_token only_jobs (request (lit "Bearer x") (lit "jobs"))).responses
        ≡ (401, message authentication_failed) ∷ [])
    × ((serve one_token only_jobs (request (lit "Bearer s3cret") (lit "pods"))).responses
        ≡ (401, message unauthorized) ∷ [])
unfolding server
refused_runs = (refl, refl, refl)

extract_bearer_token-IsPair_example :
    (extract_bearer_token (lit "Bearer s3cret") ≡ ok (lit "s3cret"))
    ↔ ((scheme : Text) × IsPair (lit "Bearer s3cret") scheme (lit "s3cret"))
extract_bearer_token-IsPair_example =
    extract_bearer_token-IsPair (lit "Bearer s3cret") (lit "s3cret")

abbrev jobs : Context
jobs = request (lit "Bearer s3cret") (lit "jobs")

authentication-cases_example :
    ((u : UserInfo) × IsAuthenticated one_token only_jobs jobs u
      × (authentication one_token only_jobs get_all_resources jobs
          ≡ get_all_resources (with_user u jobs)))
    ⊎ Refuses jobs (authentication one_token only_jobs get_all_resources jobs)
authentication-cases_example = authentication-cases one_token only_jobs get_all_resources jobs

rbac_authorization-cases_example :
    ((u : UserInfo) × (some (user_info ann) ≡ some (user_info u))
      × IsAllowed one_token only_jobs (with_user ann jobs) u
      × (rbac_authorization one_token only_jobs get_all_resources (with_user ann jobs)
          ≡ get_all_resources (with_user ann jobs)))
    ⊎ Refuses
        (with_user ann jobs)
        (rbac_authorization one_token only_jobs get_all_resources (with_user ann jobs))
rbac_authorization-cases_example =
    rbac_authorization-cases one_token only_jobs get_all_resources (with_user ann jobs)

serve-cases_example :
    ((u : UserInfo) × IsAuthenticated one_token only_jobs jobs u
      × IsAllowed one_token only_jobs jobs u
      × (serve one_token only_jobs jobs ≡ get_all_resources (with_user u jobs)))
    ⊎ Refuses jobs (serve one_token only_jobs jobs)
serve-cases_example = serve-cases one_token only_jobs jobs

serve-listing_example :
    ((serve one_token only_jobs jobs).responses ≡ [] ++ (200, listing_of jobs) ∷ []) ↔ (
      (u : UserInfo) × IsAuthenticated one_token only_jobs jobs u
      × IsAllowed one_token only_jobs jobs u)
serve-listing_example = serve-listing one_token only_jobs jobs
