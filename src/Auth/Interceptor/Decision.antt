-- ===== src/Auth/Interceptor/Decision.antt =====
-- Exactly which calls pass the interceptor.
use g_rpc_playground.Prelude.{
  ℕ, String, ◌≡◌, ◌↔◌, ◌⊎◌, inl, inr, refl, ◌==◌, Bool, true, Option, none, some, List, [], ◌∷◌,
  Bool-cases, Option-cases, any,
}
use mathlib.Core.Path.{subst}
use g_rpc_playground.Exec.{Result, ok, err}
use g_rpc_playground.Dict.{Dict, get}
use g_rpc_playground.Auth.Jwt.{Jwt, UserClaims, verify}
use g_rpc_playground.Auth.Interceptor.{
  AuthInterceptor, values_of, has_role, by_claims, by_token, by_metadata, authorize,
}

-- Whether a role is among those that may call.
abbrev pub among : String → List String → Bool
among role = any (λ r. r == role)

has_role_iff :
    (role : String) (roles : List String) → (has_role role roles ≡ none) ↔ (among role roles ≡ true)
unfolding has_role
has_role_iff role [] = (λ h. cc, λ h. cc)
has_role_iff role (r ∷ roles) = elim (Bool-cases (r == role)) [
  | inl e ↦ rw e (λ h. refl, λ h. refl)
  | inr e ↦ rw e (has_role_iff role roles)
]

module _ (jwt : Jwt) (interceptor : AuthInterceptor) where
  -- What a caller must show for a method with these roles.
  pub record MayCall (md : Option (Dict (List String))) (now : ℕ) (roles : List String)
      : Type 0 where
    pub metadata : Dict (List String)
    pub token : String
    pub others : List String
    pub claims : UserClaims
    pub provided : md ≡ some metadata
    pub first : values_of (get metadata "authorization") ≡ token ∷ others
    pub valid : verify jwt interceptor.jwt_manager token now ≡ ok claims
    pub role : among claims.role roles ≡ true

  from_claims :
      (metadata : Dict (List String)) (now : ℕ) (roles : List String) (token : String)
      (others : List String) (r : Result UserClaims)
      → values_of (get metadata "authorization") ≡ token ∷ others
      → verify jwt interceptor.jwt_manager token now ≡ r
      → by_claims jwt interceptor roles r ≡ none
      → MayCall (some metadata) now roles
  unfolding by_claims
  from_claims metadata now roles token others (ok claims) first valid h = record {
    metadata = metadata;
    token = token;
    others = others;
    claims = claims;
    provided = refl;
    first = first;
    valid = valid;
    role = (has_role_iff claims.role roles).0 h;
  }
  from_claims metadata now roles token others (err e) first valid h = cc

  from_token :
      (metadata : Dict (List String)) (now : ℕ) (roles values : List String)
      → values_of (get metadata "authorization") ≡ values
      → by_token jwt interceptor roles now values ≡ none
      → MayCall (some metadata) now roles
  unfolding by_token
  from_token metadata now roles [] first h = cc
  from_token metadata now roles (token ∷ others) first h =
      from_claims metadata now roles token others _ first refl h

  from_metadata :
      (md : Option (Dict (List String))) (now : ℕ) (roles : List String)
      → by_metadata jwt interceptor roles now md ≡ none
      → MayCall md now roles
  unfolding by_metadata
  from_metadata none now roles h = cc
  from_metadata (some metadata) now roles h = from_token metadata now roles _ refl h

  to_metadata :
      (md : Option (Dict (List String))) (now : ℕ) (roles : List String)
      → MayCall md now roles
      → by_metadata jwt interceptor roles now md ≡ none
  unfolding by_metadata by_token by_claims
  to_metadata md now roles m =
      rw (m.provided, m.first, m.valid) ((has_role_iff m.claims.role roles).1 m.role)

  -- A call of a method without an entry among the accessible roles passes. A call of any other passes
  -- exactly if its metadata has an authorization value, the first of which is a token that Verify takes
  -- and whose role is among those of the method.
  pub authorize_iff :
      (md : Option (Dict (List String))) (now : ℕ) (method : String)
      → (authorize jwt interceptor md now method ≡ none) ↔ (
          (get interceptor.accessible_roles method ≡ none)
          ⊎ ((roles : List String) × (get interceptor.accessible_roles method ≡ some roles)
              × MayCall md now roles))
  unfolding authorize
  authorize_iff md now method = elim (Option-cases (get interceptor.accessible_roles method)) [
    | inl e ↦ rw e (λ h. inl refl, λ h. refl)
    | inr (roles, e) ↦ rw e (
      λ h. inr (roles, refl, from_metadata md now roles h),
      λ h. elim h [
        | inl p ↦ cc
        | inr (roles', p, m) ↦
            let same : roles' ≡ roles = cc in
            to_metadata md now roles (subst (λ r. MayCall md now r) same m)
      ],
    )
  ]
