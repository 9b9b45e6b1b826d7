-- ===== src/Api/Access.antt =====
-- The handlers of cmd/api answer once, and list resources only to users with access.
use kubearchive.Prelude.{
  Bool, Bool-cases, List, Option, Result, Result-cases, [], ap, arith, err, false, inl, inr, none,
  ok, refl, some, sym, true, ℕ, ◌++◌, ◌↔◌, ◌∙◌, ◌∷◌, ◌≡◌, ◌≤◌, ◌⊎◌,
}
use kubearchive.Text.{Text, lit}
use kubearchive.Api.{
  AccessSpec, Body, Context, Message, Resources, TokenStatus, UserInfo, UserValue, abort,
  access_review_error, access_spec, allowed, authenticate, authentication, authentication_failed,
  authorize, extract_bearer_token, get_all_resources, invalid_token, json, listing, message,
  other_type, param, rbac_authorization, reviewed, serve, token_review_error, unauthorized,
  unexpected_user_type, user_info, user_not_found,
}

-- One error is sent, with a code from 400 on, and the handlers to come are kept from running.
abbrev pub Refuses : Context → Context → Type 0
Refuses c d =
    (code : ℕ) × (msg : Message) × (d.responses ≡ c.responses ++ (code, message msg) ∷ [])
    × (400 ≤ code)
    × (d.is_aborted ≡ true)

abort-Refuses : (msg : Message) (code : ℕ) (c : Context) → 400 ≤ code → Refuses c (abort msg code c)
unfolding abort json
abort-Refuses msg code c le = (code, msg, refl, le, refl)

abbrev pub with_user : UserInfo → Context → Context
with_user u c = record c { user = some (user_info u) }

-- The resources of the path.
abbrev pub listing_of : Context → Body
listing_of c = listing (record {
  kind = param (lit "resourceType") c.params;
  api_version = param (lit "group") c.params ++ (b'/' ∷ param (lit "version") c.params);
  items = lit "resource1" ∷ lit "resource2" ∷ [];
})

last-same : {A : Type 0} (xs : List A) (x y : A) → xs ++ x ∷ [] ≡ xs ++ y ∷ [] → x ≡ y
last-same [] x y e = cc
last-same (z ∷ xs) x y e = last-same xs x y cc

message-listing : {m : Message} {r : Resources} → ¬ (message m ≡ listing r)
message-listing e = cc

module _ (token_review : Text → Result Text TokenStatus)
    (access_review : AccessSpec → Result Text Bool) where
  -- The token of the header is that of an authenticated user.
  abbrev pub IsAuthenticated : Context → UserInfo → Type 0
  IsAuthenticated c u =
      (token : Text) × (status : TokenStatus) × (extract_bearer_token c.authorization ≡ ok token)
      × (token_review token ≡ ok status)
      × (status.authenticated ≡ true)
      × (status.user ≡ u)

  abbrev pub IsAllowed : Context → UserInfo → Type 0
  IsAllowed c u = access_review (access_spec u c) ≡ ok true

  module _ (next : Context → Context) where
    reviewed-cases :
        (review : Result Text TokenStatus) (c : Context)
        → ((status : TokenStatus) × (review ≡ ok status)
            × (status.authenticated ≡ true)
            × (reviewed token_review access_review next review c ≡ next (with_user status.user c)))
          ⊎ Refuses c (reviewed token_review access_review next review c)
    unfolding reviewed
    reviewed-cases (err text) c = inr (abort-Refuses (token_review_error text) 500 c (omega arith))
    reviewed-cases (ok status) c = elim (Bool-cases status.authenticated) [
      | inl known ↦ inl (status, refl, known, rw (reviewed, known) refl)
      | inr unknown ↦
          inr (rw (reviewed, unknown) (abort-Refuses authentication_failed 401 c (omega arith)))
    ]

    -- `Authentication` runs the next handlers with the user of the token if the header gives a token
    -- whose review says that it is authenticated; in all other cases it refuses the request.
    pub authentication-cases :
        (c : Context)
        → ((u : UserInfo) × IsAuthenticated c u
            × (authentication token_review access_review next c ≡ next (with_user u c)))
          ⊎ Refuses c (authentication token_review access_review next c)
    unfolding authentication authenticate
    authentication-cases c = elim (Result-cases (extract_bearer_token c.authorization)) [
      | inr (e, bad) ↦ inr (
          rw (bad, authentication, authenticate)
            (abort-Refuses (invalid_token e) 400 c (omega arith)))
      | inl (token, good) ↦ elim (reviewed-cases (token_review token) c) [
        | inr refused ↦ inr (rw (good, authentication, authenticate) refused)
        | inl (status, review, known, runs) ↦ inl (
          status.user,
          (token, status, good, review, known, refl),
          rw (good, authentication, authenticate) runs,
        )
      ]
    ]

    allowed-cases :
        (review : Result Text Bool) (c : Context)
        → ((review ≡ ok true) × (allowed token_review access_review next review c ≡ next c))
          ⊎ Refuses c (allowed token_review access_review next review c)
    unfolding allowed
    allowed-cases (err text) c = inr (abort-Refuses (access_review_error text) 500 c (omega arith))
    allowed-cases (ok true) c = inl (refl, refl)
    allowed-cases (ok false) c = inr (abort-Refuses unauthorized 401 c (omega arith))

    authorize-cases :
        (user : Option UserValue) (c : Context)
        → ((u : UserInfo) × (user ≡ some (user_info u))
            × IsAllowed c u
            × (authorize token_review access_review next user c ≡ next c))
          ⊎ Refuses c (authorize token_review access_review next user c)
    unfolding authorize
    authorize-cases none c = inr (abort-Refuses user_not_found 500 c (omega arith))
    authorize-cases (some (other_type name)) c =
        inr (abort-Refuses (unexpected_user_type name) 500 c (omega arith))
    authorize-cases (some (user_info u)) c =
        elim (allowed-cases (access_review (access_spec u c)) c) [
          | inl (is_allowed, runs) ↦ inl (u, refl, is_allowed, runs)
          | inr refused ↦ inr refused
        ]

    -- `RBACAuthorization` runs the next handlers if the context has a user to whom a review allows
    -- to get the resource of the path; in all other cases it refuses the request.
    pub rbac_authorization-cases :
        (c : Context)
        → ((u : UserInfo) × (c.user ≡ some (user_info u))
            × IsAllowed c u
            × (rbac_authorization token_review access_review next c ≡ next c))
          ⊎ Refuses c (rbac_authorization token_review access_review next c)
    unfolding rbac_authorization
    rbac_authorization-cases c = authorize-cases c.user c

  some_user_info : {u v : UserInfo} → some (user_info u) ≡ some (user_info v) → u ≡ v
  some_user_info e = cc

  -- A request is answered once: with the listing if its token is that of an authenticated user to
  -- whom the review allows to get the resource of the path, or with an error.
  pub serve-cases :
      (c : Context)
      → ((u : UserInfo) × IsAuthenticated c u
          × IsAllowed c u
          × (serve token_review access_review c ≡ get_all_resources (with_user u c)))
        ⊎ Refuses c (serve token_review access_review c)
  unfolding serve access_spec
  serve-cases c =
      let authorized = rbac_authorization token_review access_review get_all_resources in
      elim (authentication-cases authorized c) [
        | inr refused ↦ inr refused
        | inl (u, authenticated, runs) ↦
            elim (rbac_authorization-cases get_all_resources (with_user u c)) [
              | inr refused ↦ inr (rw runs refused)
              | inl (v, same, is_allowed, lists) ↦
                  let e : v ≡ u = sym (some_user_info same) in
                  inl (u, authenticated, rw e at is_allowed, runs ∙ lists)
            ]
      ]

  serve-allowed :
      (c : Context) (u : UserInfo)
      → IsAuthenticated c u
      → IsAllowed c u
      → serve token_review access_review c ≡ get_all_resources (with_user u c)
  unfolding serve authentication authenticate rbac_authorization authorize access_spec
  serve-allowed c u (token, status, good, review, known, user) is_allowed =
      rw
        (
          serve, authentication, good, authenticate, review, reviewed, known, user, allowed,
          is_allowed,
        )
        refl

  listing-sent :
      (c : Context) (u : UserInfo)
      → (get_all_resources (with_user u c)).responses ≡ c.responses ++ (200, listing_of c) ∷ []
  unfolding get_all_resources json
  listing-sent c u = refl

  -- The listing of the kind, group and version in the path is what is sent, with code 200, exactly if
  -- the token of the request is that of an authenticated user to whom the review allows to get the
  -- resource of the path.
  pub serve-listing :
      (c : Context)
      → ((serve token_review access_review c).responses ≡ c.responses ++ (200, listing_of c) ∷ [])
        ↔ ((u : UserInfo) × IsAuthenticated c u × IsAllowed c u)
  serve-listing c = (
    λ sent. elim (serve-cases c) [
      | inl (u, authenticated, is_allowed, _) ↦ (u, authenticated, is_allowed)
      | inr (code, msg, refused, error_code, aborted) ↦
          let same =
            last-same c.responses (code, message msg) (200, listing_of c) (sym refused ∙ sent) in
          absurd (message-listing (ap (λ (r : ℕ × Body). r.1) same))
    ],
    λ (u, authenticated, is_allowed).
        ap (λ (d : Context). d.responses) (serve-allowed c u authenticated is_allowed)
        ∙ listing-sent c u,
  )
