-- ===== src/Secrets/Laws.antt =====
-- The outcomes of `load_infisical_secrets` of app/core/infisical.py.
use ms_auth_service.Prelude.{
  String, ◌≡◌, ◌⊎◌, true, false, Option, some, List, [], ◌∷◌, ◌==◌, if◌then◌else◌,
}
use ms_auth_service.Py.Dict.{lookup}
use ms_auth_service.Py.Exec.{Exn, Result, ok, raise, Exec}
use ms_auth_service.Secrets.{Environ, Secret, Query, has_text, required_infisical_keys, query_of}

abbrev pub Every : (String → Type 0) → List String → Type 0
Every P [] = Unit {0}
Every P (key ∷ keys) = P key × Every P keys

abbrev pub Any : (String → Type 0) → List String → Type 0
Any P [] = ⊥
Any P (key ∷ keys) = P key ⊎ Any P keys

-- The variable has a text that is not empty.
abbrev pub HasText : Environ → String → Type 0
HasText env key = has_text (lookup key env) ≡ true

abbrev pub LacksText : Environ → String → Type 0
LacksText env key = has_text (lookup key env) ≡ false

-- The last of the secrets with this name, or what is there without one.
abbrev pub latest : String → List Secret → Option String → Option String
latest key [] old = old
latest key (s ∷ secrets) old =
    latest key secrets (if s.secret_key == key then some s.secret_value else old)

module _ (load_dotenv : Exec Environ (Unit {0})) (login : Query → Result (Unit {0}))
    (list_secrets : Query → Result (List Secret)) where
  -- What a call that has read the dotenv file, with this environment after it, comes to.
  abbrev pub Outcome : Environ → Result (Unit {0}) × Environ → Type 0
  Outcome env v =
      (Every (LacksText env) required_infisical_keys × (v.0 ≡ ok tt) × (v.1 ≡ env))
      ⊎ (Any (HasText env) required_infisical_keys
          × Any (LacksText env) required_infisical_keys
          × (v.0 ≡ raise Exn.runtime_error)
          × (v.1 ≡ env))
      ⊎ ((e : Exn) × Every (HasText env) required_infisical_keys
          × ((login (query_of env) ≡ raise e)
              ⊎ ((login (query_of env) ≡ ok tt) × (list_secrets (query_of env) ≡ raise e)))
          × (v.0 ≡ raise e)
          × (v.1 ≡ env))
      ⊎ ((secrets : List Secret) × Every (HasText env) required_infisical_keys
          × (login (query_of env) ≡ ok tt)
          × (list_secrets (query_of env) ≡ ok secrets)
          × (v.0 ≡ ok tt)
          × ((key : String) → lookup key v.1 ≡ latest key secrets (lookup key env)))
