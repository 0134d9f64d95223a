-- ===== src/Py/Value.antt =====
-- The dynamic values that come from `json.loads`, a JWT payload or a stored record. Numbers are
-- integers: nothing that the service stores or reads by name is a fraction.
use ms_auth_service.Prelude.{
  String, ◌≡◌, refl, ap, Bool, true, false, Option, none, some, List, [], ◌∷◌,
}
use ms_auth_service.Py.Int.{ℤ, pos}
use ms_auth_service.Py.Dict.{Dict, lookup}

mutual
  pub data Value : Type 0 where
    null : Value
    bool : Bool → Value
    int : ℤ → Value
    str : String → Value
    list : Items → Value
    dict : Entries → Value

  pub data Items : Type 0 where
    nil : Items
    cons : Value → Items → Items

  pub data Entries : Type 0 where
    end : Entries
    entry : String → Value → Entries → Entries

abbrev pub items : Items → List Value
items nil = []
items (cons v vs) = v ∷ items vs

abbrev pub entries : Entries → Dict Value
entries end = []
entries (entry k v es) = (k, v) ∷ entries es

abbrev pub of_dict : Dict Value → Entries
of_dict [] = end
of_dict ((k, v) ∷ d) = entry k v (of_dict d)

pub entries-of_dict : (d : Dict Value) → entries (of_dict d) ≡ d
entries-of_dict [] = refl
entries-of_dict ((k, v) ∷ d) = ap (◌∷◌ (k, v)) (entries-of_dict d)

-- `isinstance(v, str)`, and the text
abbrev pub as_str : Value → Option String
as_str (str s) = some s
as_str _ = none

-- `isinstance(v, int)`, and the number: a `bool` is an `int`.
abbrev pub as_int : Value → Option ℤ
as_int (int n) = some n
as_int (bool true) = some (pos 1)
as_int (bool false) = some (pos 0)
as_int _ = none

-- `d.get(k)`: `None` for a missing key.
abbrev or_null : Option Value → Value
or_null none = null
or_null (some v) = v

abbrev pub get : Dict Value → String → Value
get d k = or_null (lookup k d)
