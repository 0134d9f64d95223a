-- ===== src/ServiceAuth/Guard.antt =====
-- What the service routes answer to whom.
use ms_auth_service.Prelude.{
  String, ◌≡◌, refl, sym, ap, ◌∙◌, inl, inr, true, Option, none, some, ◌==◌, arith, eq_iff,
  Bool-cases,
}
use ms_auth_service.Py.Str.{partition, lower, strip}
use ms_auth_service.Py.Dict.{Dict}
use ms_auth_service.Py.Value.{Value, get, as_str}
use ms_auth_service.Py.Exec.{Result-cases, Exn, Result, ok, raise}
use ms_auth_service.Identity.{IdentityResponse}
use ms_auth_service.ServiceAuth.{
  is_party, decode_token, verify_parts, verify_authorization_header, require_service,
  lookup_identity,
}

-- A header that carries a bearer token which PyJWT accepts and which was issued to the client.
pub record IsTrusted (decode : String → Result (Dict Value)) (client_id : String)
    (header : Option String) : Type 0 where
  pub text : String
  pub text_lem : header ≡ some text
  pub scheme : String
  pub token : String
  pub parts : partition b' ' text ≡ some (scheme, token)
  pub bearer : lower scheme ≡ "bearer"
  pub claims : Dict Value
  pub signed : decode (strip token) ≡ ok claims
  pub party : as_str (get claims "azp") ≡ some client_id

is_party_lem : (c : String) (o : Option String) → is_party c o ≡ true → o ≡ some c
is_party_lem c none h = ground arith
is_party_lem c (some s) h = ap some ((eq_iff s c).0 h)

found_lem :
    (found : Result (Option IdentityResponse)) (i : IdentityResponse)
    → (elim found [
      | raise e ↦ raise e
      | ok none ↦ raise (Exn.http_exception 404 "Identity not found.")
      | ok (some i) ↦ ok i
    ])
      ≡ ok i
    → found ≡ ok (some i)
found_lem (raise e) i h = ground arith
found_lem (ok none) i h = ground arith
found_lem (ok (some j)) i h = let same : j ≡ i = ground arith in ap (λ k. ok (some k)) same

module _ (decode : String → Result (Dict Value)) (client_id : String) where
  decode_token_lem :
      (token : String) (claims : Dict Value)
      → decode_token decode client_id token ≡ ok claims
      → (decode token ≡ ok claims) × (as_str (get claims "azp") ≡ some client_id)
  unfolding decode_token
  decode_token_lem token claims h = elim (Result-cases (decode token)) [
    | inr (x, e) ↦ ground (arith, rw (e, decode_token) at h)
    | inl (payload, e) ↦ elim (Bool-cases (is_party client_id (as_str (get payload "azp")))) [
      | inr p ↦ ground (arith, rw (e, p, decode_token) at h)
      | inl p ↦
          let same : ok payload ≡ ok claims = rw (e, p, decode_token) at h in
          let same' : payload ≡ claims = ground arith in
          (
            e ∙ same,
            ap (λ d. as_str (get d "azp")) (sym same')
                ∙ is_party_lem client_id (as_str (get payload "azp")) p,
          )
    ]
  ]

  verify_parts-IsTrusted :
      (text : String) (parts : Option (String × String)) (claims : Dict Value)
      → partition b' ' text ≡ parts
      → verify_parts decode client_id parts ≡ ok claims
      → IsTrusted decode client_id (some text)
  verify_parts-IsTrusted text none claims e h = ground arith
  verify_parts-IsTrusted text (some (scheme, token)) claims e h =
      elim (Bool-cases (lower scheme == "bearer")) [
        | inr b ↦ ground (arith, rw b at h)
        | inl b ↦ elim (Bool-cases (strip token == "")) [
          | inl t ↦ ground (arith, rw (b, t) at h)
          | inr t ↦
              let (signed, party) = decode_token_lem (strip token) claims (rw (b, t) at h) in
              record {
                text = text;
                text_lem = refl;
                scheme = scheme;
                token = token;
                parts = e;
                bearer = (eq_iff (lower scheme) "bearer").0 b;
                claims = claims;
                signed = signed;
                party = party;
              }
        ]
      ]

  pub verify_authorization_header-IsTrusted :
      (header : Option String) (claims : Dict Value)
      → verify_authorization_header decode client_id header ≡ ok claims
      → IsTrusted decode client_id header
  unfolding verify_authorization_header
  verify_authorization_header-IsTrusted none claims h = ground arith
  verify_authorization_header-IsTrusted (some text) claims h =
      verify_parts-IsTrusted text (partition b' ' text) claims refl h

  -- An identity is given only to a caller whose header carries a bearer token that PyJWT accepts
  -- and that was issued to the configured client, and it is the one that was found.
  pub lookup_identity-IsTrusted :
      (header : Option String) (found : Result (Option IdentityResponse)) (i : IdentityResponse)
      → lookup_identity decode client_id header found ≡ ok i
      → IsTrusted decode client_id header × (found ≡ ok (some i))
  unfolding lookup_identity require_service
  lookup_identity-IsTrusted header found i h =
      elim (Result-cases (verify_authorization_header decode client_id header)) [
        | inr (x, e) ↦ ground (arith, rw (e, lookup_identity) at h)
        | inl (claims, e) ↦ (
          verify_authorization_header-IsTrusted header claims e,
          found_lem found i (rw (e, lookup_identity) at h),
        )
      ]
