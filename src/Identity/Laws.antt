-- ===== src/Identity/Laws.antt =====
-- What `find_by_email` and `find_by_external_id` find.
use mathlib.Core.List.{◌++◌}
use ms_auth_service.Prelude.{
  ℕ, ◌+◌, String, ◌≡◌, refl, Bool, ◌&&◌, Option, some, List, [], ◌∷◌, ◌==◌, arith, those, count,
  count-++, count-those, count-map,
}
use ms_auth_service.Identity.{
  AccountType, StoredIdentity, Row, Tables, value, account_type_of, realm_role, place, order_by,
  select, of_type, row_to_identity, table, find_identities,
}

-- The texts of the account types are read back, and are the realm roles.
pub account_type_of-value :
    (t : AccountType) → (account_type_of (value t) ≡ some t) × (realm_role t ≡ value t)
unfolding account_type_of value realm_role
account_type_of-value AccountType.farm_owner = (refl, refl)
account_type_of-value AccountType.company_employee = (refl, refl)
account_type_of-value AccountType.admin = (refl, refl)

module _ (p : StoredIdentity → Bool) where
  count-place :
      (i : StoredIdentity) (is : List StoredIdentity) → count p (place i is) ≡ count p (i ∷ is)
  unfolding place count
  count-place i [] = refl
  count-place i (j ∷ js) = ground (arith, count-place i js)

  -- `ORDER BY` neither loses nor repeats a row.
  count-order_by : (is : List StoredIdentity) → count p (order_by is) ≡ count p is
  unfolding order_by count
  count-order_by [] = refl
  count-order_by (i ∷ is) = ground (arith, count-place i (order_by is), count-order_by is)

  module _ (sql_lower : String → String) (email : String) (types : Option AccountType) where
    -- How many rows of a table the query may answer with that satisfy `p`.
    pub found : AccountType → Tables → ℕ
    found t tables =
        count
          (λ r.
            (sql_lower r.email == email)
            && (of_type types (row_to_identity t r) && p (row_to_identity t r)))
          (table t tables)

    count-select :
        (t : AccountType) (tables : Tables)
        → count (λ i. of_type types i && p i) (select sql_lower email t tables) ≡ found t tables
    unfolding select found
    count-select t tables =
        let q : StoredIdentity → Bool = λ i. of_type types i && p i in
        let at = those (λ (r : Row). sql_lower r.email == email) (table t tables) in
        rw
          (
            count-map q (row_to_identity t) at,
            count-those (λ r. q (row_to_identity t r)) (λ r. sql_lower r.email == email)
                (table t tables),
          )
          refl

    -- The query answers with every row of the three tables that has the address and the type,
    -- once, and with nothing else: whatever `p` asks of an identity, it holds for as many.
    pub count-find_identities :
        (tables : Tables)
        → count p (find_identities sql_lower email types tables)
          ≡ found AccountType.farm_owner tables
            + found AccountType.company_employee tables
            + found AccountType.admin tables
    unfolding find_identities
    count-find_identities tables =
        let q : StoredIdentity → Bool = λ i. of_type types i && p i in
        let f = select sql_lower email AccountType.farm_owner tables in
        let c = select sql_lower email AccountType.company_employee tables in
        let a = select sql_lower email AccountType.admin tables in
        rw
          (
            count-order_by (those (of_type types) (f ++ c ++ a)),
            count-those p (of_type types) (f ++ c ++ a),
            count-++ q (f ++ c) a,
            count-++ q f c,
            count-select AccountType.farm_owner tables,
            count-select AccountType.company_employee tables,
            count-select AccountType.admin tables,
          )
          (omega arith)
