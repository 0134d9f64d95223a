-- ===== src/EmailOtp/Store.antt =====
-- `_save`, `_load`, `_delete` and `_cleanup_memory` of `EmailOtpService`: the challenges of logins
-- and of password resets, kept apart by the prefix of their keys.
use ms_auth_service.Prelude.{ℕ, String, Option, none, some, if◌then◌else◌, is_some, max}
use ms_auth_service.Py.Str.{◌++◌}
use ms_auth_service.Py.Dict.{Dict, lookup, insert, erase, keep}
use ms_auth_service.Py.Value.{Value, entries, of_dict}
use ms_auth_service.Py.Exec.{Exec, ok, pure, ◌>>=◌, ◌>>◌}
use ms_auth_service.Redis.{Redis, Raw}
use ms_auth_service.EmailOtp.{Otp, Record, is_unexpired, redis_command}

-- The values that the parameter `prefix` takes: `None`, which means `_KEY_PREFIX`, and
-- `_KEY_PREFIX_RESET`.
pub data Prefix : Type 0 where
  login reset : Prefix

abbrev pub key_prefix : Prefix → String
key_prefix Prefix.login = "ouros:auth:email-otp:"
key_prefix Prefix.reset = "ouros:auth:password-reset-otp:"

unfoldable pub full_key : Prefix → String → String
full_key prefix challenge_id = key_prefix prefix ++ challenge_id

unfoldable pub mem_key : Prefix → String → String
mem_key Prefix.login challenge_id = challenge_id
mem_key Prefix.reset challenge_id = "reset:" ++ challenge_id

-- `_cleanup_memory` at `now = int(time.time())`
unfoldable pub cleanup_memory : ℕ → Dict Record → Dict Record
cleanup_memory now memory = keep (is_unexpired now) memory

-- `json.dumps(record)`
abbrev pub dumps : Record → Raw
dumps r = Raw.json (Value.dict (of_dict r))

-- `json.loads(raw)` and `data if isinstance(data, dict) else None`
abbrev pub dict_or_none : Value → Option Record
dict_or_none (Value.dict es) = some (entries es)
dict_or_none _ = none

module _ {Server : Type 0} (redis : Redis Server) where
  -- `_save`, with `now` the time that its cleanup reads.
  unfoldable pub save : ℕ → String → Record → ℕ → Prefix → Exec (Otp Server) (Unit {0})
  unfolding full_key mem_key cleanup_memory redis_command
  save now challenge_id r ttl prefix s =
      if is_some s.redis_url
      then redis_command redis "Redis write failed"
          (redis.set (full_key prefix challenge_id) (dumps r) (max ttl 1)) s
      else (
        ok tt,
        record s { memory = insert (mem_key prefix challenge_id) r (cleanup_memory now s.memory) },
      )

  -- `_delete`
  unfoldable pub delete : String → Prefix → Exec (Otp Server) (Unit {0})
  unfolding full_key mem_key redis_command
  delete challenge_id prefix s =
      if is_some s.redis_url
      then redis_command redis "Redis delete failed" (redis.delete (full_key prefix challenge_id)) s
      else (ok tt, record s { memory = erase (mem_key prefix challenge_id) s.memory })

  -- What `_load` makes of the text that Redis holds: a text that is no JSON is deleted.
  unfoldable pub read_raw : String → Prefix → Option Raw → Exec (Otp Server) (Option Record)
  unfolding delete
  read_raw challenge_id prefix none = pure none
  read_raw challenge_id prefix (some Raw.malformed) = delete challenge_id prefix >> pure none
  read_raw challenge_id prefix (some (Raw.json v)) = pure (dict_or_none v)

  -- `_load`, with `now` the time that its cleanup reads.
  unfoldable pub load : ℕ → String → Prefix → Exec (Otp Server) (Option Record)
  unfolding full_key mem_key cleanup_memory redis_command read_raw
  load now challenge_id prefix s =
      if is_some s.redis_url
      then (do
        raw ← redis_command redis "Redis read failed" (redis.get (full_key prefix challenge_id))
        read_raw challenge_id prefix raw)
          s
      else (let memory = cleanup_memory now s.memory in
          (ok (lookup (mem_key prefix challenge_id) memory), record s { memory = memory }))
