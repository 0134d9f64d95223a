-- ===== src/Broker/Contract.antt =====
-- The exchange of app/services/keycloak_token_broker.py against the contract of an access token.
use ms_auth_service.Prelude.{
  ℕ, zero, suc, ◌<◌, String, ◌≡◌, ◌⊎◌, ◌&&◌, and_left, and_right, refl, sym, ap, inl, inr, Bool,
  true, Option, none, some, List, [], ◌∷◌, is_some, arith, eq_iff, Bool-cases,
}
use ms_auth_service.Py.Int.{ℤ, pos, negsuc}
use ms_auth_service.Py.Str.{is_ascii, is_ascii_decimal, int_from}
use ms_auth_service.Py.Dict.{Dict}
use ms_auth_service.Py.Value.{Value, get, as_str}
use ms_auth_service.Py.Exec.{Result-cases, Result, ok, raise, Exec}
use ms_auth_service.Broker.{
  KeycloakTokenResponse, KeycloakTokenBroker, required_first_party_audiences, valid_account_types,
  is_in, is_item, is_subset, audience_set, positive, positive_database_id, roles_of, has_role,
  is_azp, check_claims, validate_access_token_contract, relay, exchange_token,
}

pub is_subset-is_in :
    (a b : List String) (s : String) → is_subset a b ≡ true → is_in s a ≡ true → is_in s b ≡ true
unfolding is_subset is_in
is_subset-is_in [] b s h e = ground arith
is_subset-is_in (x ∷ a) b s h e = ground (arith, eq_iff s x, is_subset-is_in a b s)

-- The claim is the number `id`, or the text of its decimal ASCII digits.
abbrev pub Denotes : Value → ℕ → Type 0
Denotes v id =
    (v ≡ Value.int (pos id))
    ⊎ ((s : String) × (v ≡ Value.str s)
        × (is_ascii s ≡ true)
        × (is_ascii_decimal s ≡ true)
        × (int_from 0 s ≡ id))

-- The claims of an access token that the service relays, as the README states them: every
-- first-party audience, issued to the broker itself, an account type that is a role of the realm,
-- and a positive identifier.
pub record IsOuros (limit : String → Bool) (client_id : String) (claims : Dict Value) : Type 0 where
  pub audiences :
      (s : String)
      → is_in s required_first_party_audiences ≡ true
      → is_in s (audience_set (get claims "aud")) ≡ true
  pub party : as_str (get claims "azp") ≡ some client_id
  pub account_type : String
  pub account_type_lem : as_str (get claims "account_type") ≡ some account_type
  pub valid : is_in account_type valid_account_types ≡ true
  pub roles : List Value
  pub roles_lem : roles_of (get claims "realm_access") ≡ some roles
  pub role : is_item account_type roles ≡ true
  pub id : ℕ
  pub positive_id : 0 < id
  pub id_lem : Denotes (get claims "database_id") id

positive_lem : (n m : ℤ) → positive n ≡ ok m → (id : ℕ) × (0 < id) × (n ≡ pos id)
positive_lem (pos zero) m h = ground arith
positive_lem (pos (suc n)) m h = (suc n, omega arith, refl)
positive_lem (negsuc n) m h = ground arith

pos_inj : (a b : ℕ) → pos a ≡ pos b → a ≡ b
pos_inj a b e = ap (λ z. elim z [ pos n ↦ n | negsuc n ↦ a ]) e

positive_database_id_lem :
    (limit : String → Bool) (v : Value) (m : ℤ)
    → positive_database_id limit v ≡ ok m
    → (id : ℕ) × (0 < id) × Denotes v id
unfolding positive_database_id
positive_database_id_lem limit Value.null m h = ground arith
positive_database_id_lem limit (Value.bool b) m h = ground arith
positive_database_id_lem limit (Value.list vs) m h = ground arith
positive_database_id_lem limit (Value.dict es) m h = ground arith
positive_database_id_lem limit (Value.int n) m h =
    let (id, p, e) = positive_lem n m h in (id, p, inl (ap Value.int e))
positive_database_id_lem limit (Value.str s) m h =
    elim (Bool-cases (is_ascii s && is_ascii_decimal s)) [
      | inr e ↦ ground (arith, rw (e, positive_database_id) at h)
      | inl e ↦ elim (Bool-cases (limit s)) [
        | inl l ↦ ground (arith, rw (e, l, positive_database_id) at h)
        | inr l ↦
            let (id, p, same) =
              positive_lem (pos (int_from 0 s)) m (rw (e, l, positive_database_id) at h) in
            (
              id,
              p,
              inr (
                s,
                refl,
                and_left (is_ascii s) (is_ascii_decimal s) e,
                and_right (is_ascii s) (is_ascii_decimal s) e,
                pos_inj (int_from 0 s) id same,
              ),
            )
      ]
    ]

is_azp_lem : (c : String) (o : Option String) → is_azp c o ≡ true → o ≡ some c
is_azp_lem c none h = ground arith
is_azp_lem c (some s) h = ap some ((eq_iff s c).0 h)

has_role_lem :
    (o : Option String) (r : Option (List Value))
    → has_role o r ≡ true
    → (t : String) × (roles : List Value) × (o ≡ some t)
      × (r ≡ some roles)
      × (is_in t valid_account_types ≡ true)
      × (is_item t roles ≡ true)
has_role_lem (some t) (some roles) h = (t, roles, refl, refl, ground arith, ground arith)
has_role_lem none r h = ground arith
has_role_lem (some t) none h = ground arith

module _ (limit : String → Bool) where
  pub check_claims-IsOuros :
      (client_id : String) (claims claims' : Dict Value)
      → check_claims limit client_id claims ≡ ok claims'
      → (claims' ≡ claims) × IsOuros limit client_id claims
  unfolding check_claims
  check_claims-IsOuros client_id claims claims' h =
      let aud = get claims "aud" in
      let type = as_str (get claims "account_type") in
      let roles = roles_of (get claims "realm_access") in
      elim (Bool-cases (is_subset required_first_party_audiences (audience_set aud))) [
        | inr e ↦ ground arith
        | inl a ↦ elim (Bool-cases (is_azp client_id (as_str (get claims "azp")))) [
          | inr e ↦ ground arith
          | inl b ↦ elim (Bool-cases (has_role type roles)) [
            | inr e ↦ ground arith
            | inl c ↦ elim (Result-cases (positive_database_id limit (get claims "database_id"))) [
              | inr (x, e) ↦ ground arith
              | inl (n, d) ↦
                  let (id, id_pos, id_lem) =
                    positive_database_id_lem limit (get claims "database_id") n d in
                  let (t, rs, t_lem, rs_lem, valid, role) = has_role_lem type roles c in
                  (
                    ground arith,
                    record {
                      audiences = λ s.
                          is_subset-is_in required_first_party_audiences (audience_set aud) s a;
                      party = is_azp_lem client_id (as_str (get claims "azp")) b;
                      account_type = t;
                      account_type_lem = t_lem;
                      valid = valid;
                      roles = rs;
                      roles_lem = rs_lem;
                      role = role;
                      id = id;
                      positive_id = id_pos;
                      id_lem = id_lem;
                    },
                  )
            ]
          ]
        ]
      ]

  module _ (decode : String → Result (Dict Value)) {World : Type 0}
      (post : String → Dict String → Exec World (ℕ × Result KeycloakTokenResponse)) where
    pub validate-IsOuros :
        (client_id token : String) (claims' : Dict Value)
        → validate_access_token_contract limit decode client_id token ≡ ok claims'
        → (decode token ≡ ok claims') × IsOuros limit client_id claims'
    unfolding validate_access_token_contract
    validate-IsOuros client_id token claims' h = elim (Result-cases (decode token)) [
      | inr (x, e) ↦ ground arith
      | inl (claims, e) ↦
          let h' : check_claims limit client_id claims ≡ ok claims' =
            rw (e, validate_access_token_contract) at h in
          let (same, ouros) = check_claims-IsOuros client_id claims claims' h' in rw same (e, ouros)
    ]

    relayed :
        (b : KeycloakTokenBroker) (n : ℕ) (body : Result KeycloakTokenResponse) (w w' : World)
        (r : KeycloakTokenResponse)
        → relay limit decode post b (n, body) w ≡ (ok r, w')
        → (n ≡ 200)
          × (body ≡ ok r)
          × (w ≡ w')
          × ((claims : Dict Value) × (decode r.access_token ≡ ok claims)
              × IsOuros limit b.client_id claims)
    unfolding relay
    relayed b n (raise x) w w' r h = ground arith
    relayed b n (ok body) w w' r h =
        elim (Result-cases
          (validate_access_token_contract limit decode b.client_id body.access_token)) [
            | inr (x, e) ↦ ground arith
            | inl (claims, e) ↦
                let same : body ≡ r = ground arith in
                let (decoded, ouros) = validate-IsOuros b.client_id body.access_token claims e in
                rw (sym same) (ground arith, refl, ground arith, (claims, decoded, ouros))
          ]

    -- A token response that an exchange relays is what Keycloak answered with status 200, and
    -- the claims that PyJWT reads in its access token name every required audience, the broker
    -- as authorized party, a valid account type that is among the realm's roles, and a positive
    -- database id: a number, or the text of its decimal ASCII
    -- digits, that is greater than 0.
    pub exchange_token-IsOuros :
        (b : KeycloakTokenBroker) (form : Dict String) (w w' : World) (r : KeycloakTokenResponse)
        → exchange_token limit decode post b form w ≡ (ok r, w')
        → (post b.token_url form w ≡ (ok (200, ok r), w'))
          × ((claims : Dict Value) × (decode r.access_token ≡ ok claims)
              × IsOuros limit b.client_id claims)
    unfolding exchange_token
    exchange_token-IsOuros b form w w' r h =
        let p = post b.token_url form w in
        elim (Bool-cases (is_some b.client_secret)) [
          | inr e ↦ ground arith
          | inl s ↦ elim (Result-cases p.0) [
            | inr (x, e) ↦
                let p_eq : p ≡ (raise x, p.1) = rw e refl in
                ground (arith, rw (s, p_eq, exchange_token) at h)
            | inl ((n, body), e) ↦
                let p_eq : p ≡ (ok (n, body), p.1) = rw e refl in
                let (n_lem, body_lem, w_lem, ouros) =
                  relayed b n body p.1 w' r (rw (s, p_eq, exchange_token) at h) in
                (rw (p_eq, n_lem, body_lem, w_lem) refl, ouros)
          ]
        ]
