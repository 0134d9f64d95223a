-- ===== src/Identity.antt =====
-- app/models/identity.py, app/repositories/identity_repository.py and `IdentityResponse` of
-- app/schemas/auth.py. The three tables are lists of rows, the two queries are written out over
-- them, and PostgreSQL's `lower` is a parameter.
pub mod Laws
use mathlib.Core.List.{◌++◌, map}
use ms_auth_service.Prelude.{
  ℕ, String, Bool, true, false, ◌&&◌, ◌||◌, Option, none, some, List, [], ◌∷◌, ◌==◌, if◌then◌else◌,
  ltb, leb, eqb, those,
}
use ms_auth_service.Py.Str.{normalize_email}
use ms_auth_service.Py.Exec.{Result, ok, raise}

pub data AccountType : Type 0 where
  farm_owner company_employee admin : AccountType

-- `account_type.value`
unfoldable pub value : AccountType → String
value AccountType.farm_owner = "farm_owner"
value AccountType.company_employee = "company_employee"
value AccountType.admin = "admin"

-- `AccountType(text)`: `none` where it raises `ValueError`.
unfoldable pub account_type_of : String → Option AccountType
account_type_of s =
    if s == "farm_owner"
    then some AccountType.farm_owner
    else if s == "company_employee"
    then some AccountType.company_employee
    else if s == "admin"
    then some AccountType.admin
    else none

-- `realm_role`
unfoldable pub realm_role : AccountType → String
realm_role AccountType.farm_owner = "farm_owner"
realm_role AccountType.company_employee = "company_employee"
realm_role AccountType.admin = "admin"

pub record StoredIdentity : Type 0 where
  pub database_id : ℕ
  pub email : String
  pub password_hash : String
  pub account_type : AccountType
  pub name : Option String
  pub farm_id : Option ℕ
  pub enterprise_id : Option ℕ
  pub first_access : Option Bool

pub record IdentityResponse : Type 0 where
  pub id : ℕ
  pub email : String
  pub account_type : AccountType
  pub realm_role : String
  pub name : Option String
  pub farm_id : Option ℕ
  pub enterprise_id : Option ℕ
  pub first_access : Option Bool

-- `IdentityResponse.from_identity`
unfoldable pub from_identity : StoredIdentity → IdentityResponse
unfolding realm_role
from_identity i = record {
  id = i.database_id;
  email = i.email;
  account_type = i.account_type;
  realm_role = realm_role i.account_type;
  name = i.name;
  farm_id = i.farm_id;
  enterprise_id = i.enterprise_id;
  first_access = i.first_access;
}

-- The columns of the tables that the queries read.
pub record Row : Type 0 where
  pub id : ℕ
  pub email : String
  pub password : String
  pub name : Option String
  pub id_farm : Option ℕ
  pub id_enterprise : Option ℕ
  pub first_access : Option Bool

pub record Tables : Type 0 where
  pub farm_owners : List Row
  pub company_employees : List Row
  pub adms : List Row

-- The columns that each SELECT makes of a row, which `_row_to_identity` reads by name.
unfoldable pub row_to_identity : AccountType → Row → StoredIdentity
row_to_identity AccountType.farm_owner r = record {
  database_id = r.id;
  email = r.email;
  password_hash = r.password;
  account_type = AccountType.farm_owner;
  name = r.name;
  farm_id = r.id_farm;
  enterprise_id = none;
  first_access = r.first_access;
}
row_to_identity AccountType.company_employee r = record {
  database_id = r.id;
  email = r.email;
  password_hash = r.password;
  account_type = AccountType.company_employee;
  name = r.name;
  farm_id = none;
  enterprise_id = r.id_enterprise;
  first_access = none;
}
row_to_identity AccountType.admin r = record {
  database_id = r.id;
  email = r.email;
  password_hash = r.password;
  account_type = AccountType.admin;
  name = r.name;
  farm_id = none;
  enterprise_id = none;
  first_access = none;
}

-- The table of an account type.
abbrev pub table : AccountType → Tables → List Row
table AccountType.farm_owner t = t.farm_owners
table AccountType.company_employee t = t.company_employees
table AccountType.admin t = t.adms

-- The place of an account type in the order of the texts.
abbrev rank : AccountType → ℕ
rank AccountType.admin = 0
rank AccountType.company_employee = 1
rank AccountType.farm_owner = 2

abbrev pub same_type : AccountType → AccountType → Bool
same_type a b = eqb (rank a) (rank b)

-- `ORDER BY account_type, database_id`
abbrev before : StoredIdentity → StoredIdentity → Bool
before i j =
    ltb (rank i.account_type) (rank j.account_type)
    || (eqb (rank i.account_type) (rank j.account_type) && leb i.database_id j.database_id)

unfoldable pub place : StoredIdentity → List StoredIdentity → List StoredIdentity
place i [] = i ∷ []
place i (j ∷ js) = let rest = place i js in if before i j then i ∷ j ∷ js else j ∷ rest

unfoldable pub order_by : List StoredIdentity → List StoredIdentity
unfolding place
order_by [] = []
order_by (i ∷ is) = place i (order_by is)

-- `$2::text IS NULL OR account_type = $2::text`
abbrev pub of_type : Option AccountType → StoredIdentity → Bool
of_type none i = true
of_type (some t) i = same_type i.account_type t

module _ (sql_lower : String → String) where
  -- One SELECT of the union: the rows of a table `WHERE lower(email) = $1`.
  unfoldable pub select : String → AccountType → Tables → List StoredIdentity
  unfolding row_to_identity
  select email t tables =
      map (row_to_identity t) (those (λ r. sql_lower r.email == email) (table t tables))

  -- `_FIND_IDENTITIES_SQL`
  unfoldable pub find_identities : String → Option AccountType → Tables → List StoredIdentity
  unfolding select order_by
  find_identities email account_type tables = order_by (
      those (of_type account_type) (
        select email AccountType.farm_owner tables
        ++ select email AccountType.company_employee tables
        ++ select email AccountType.admin tables))

  -- `find_by_email`; the connection may raise instead of answering.
  unfoldable pub find_by_email :
      Result Tables → String → Option AccountType → Result (List StoredIdentity)
  unfolding find_identities normalize_email
  find_by_email (raise e) email account_type = raise e
  find_by_email (ok tables) email account_type =
      ok (find_identities (normalize_email email) account_type tables)

-- `fetchrow`: the first row that the query finds.
abbrev first_row : ℕ → List Row → Option Row
first_row id [] = none
first_row id (r ∷ rs) = let rest = first_row id rs in if eqb r.id id then some r else rest

-- `find_by_external_id` with `_FIND_BY_ID_SQL`
unfoldable pub find_by_external_id :
    Result Tables → AccountType → ℕ → Result (Option StoredIdentity)
unfolding row_to_identity
find_by_external_id (raise e) t id = raise e
find_by_external_id (ok tables) t id = elim (first_row id (table t tables)) [
  | none ↦ ok none
  | some r ↦ ok (some (row_to_identity t r))
]
