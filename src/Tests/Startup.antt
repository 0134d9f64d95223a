-- ===== src/Tests/Startup.antt =====
-- The secrets of a small environment, and two calls that make the database's pool.
use ms_auth_service.Prelude.{◌≡◌, refl, true, false, if◌then◌else◌, List, [], ◌∷◌, update}
use ms_auth_service.Py.Exec.{Result, ok, Exec}
use ms_auth_service.Secrets.{Environ, Secret, Query}
use ms_auth_service.Database.Connect.{Pc, Pool, Step, Reach, connect_once}

abbrev environ : Environ
environ =
    ("INFISICAL_CLIENT_ID", "i")
    ∷ ("INFISICAL_CLIENT_SECRET", "s")
    ∷ ("INFISICAL_PROJECT_ID", "p")
    ∷ ("INFISICAL_ENVIRONMENT", "e")
    ∷ ("INFISICAL_SECRET_PATH", "/")
    ∷ ("REDIS_URL", "old")
    ∷ []

abbrev load_dotenv : Exec Environ (Unit {0})
load_dotenv env = (ok tt, env)

abbrev login : Query → Result (Unit {0})
login q = ok tt

abbrev list_secrets : Query → Result (List Secret)
list_secrets q = ok (record { secret_key = "REDIS_URL"; secret_value = "new" } ∷ [])

-- The first call makes the pool while the second one waits for the lock.
abbrev one_waits : Pool
one_waits = record {
  pooled = false;
  locked = true;
  created = 0;
  pc = update (update (λ i. Pc.entered) 0 Pc.creating) 1 Pc.waiting;
}

abbrev one_made : Pool
one_made = record { pooled = true; locked = false; created = 1; pc = update one_waits.pc 0 Pc.done }

reached : Reach one_made
reached =
    Reach.later
      (Reach.later (Reach.later Reach.start (Step.locks 0 refl refl refl)) (Step.waits 1 refl refl))
      (Step.creates 0 refl)

connect_once_example : one_made.created ≡ (if one_made.pooled then 1 else 0)
connect_once_example = connect_once one_made reached
