-- ===== src/RateLimit/Attempts.antt =====
-- `check_credentials_attempt` and `check_password_reset_attempt` of app/core/rate_limit.py, with the
-- service's own rules.
use text.Mathlib.TextLemmas.{append_cancel_left}
use ms_auth_service.Prelude.{
  ℕ, ◌+◌, ◌≤◌, ◌<◌, String, ◌≡◌, ◌≢◌, refl, arith, Option, List, [], ◌∷◌, Bool, true, false, not,
  ◌&&◌, length, ltb, eqb, ◌⊎◌, inl, inr,
}
use ms_auth_service.Py.Str
use ms_auth_service.Py.Str.Laws.{nth, append_ne}
use ms_auth_service.Py.Exec.{Exn, ok, raise}
use ms_auth_service.Redis.{Redis}
use ms_auth_service.RateLimit.{
  Rule, Limits, Limiter, Digests, digests, rule_key, credential_rules, password_reset_rules,
  check_credentials_attempt,
}
use ms_auth_service.RateLimit.Memory.{memory_max_entries}
use ms_auth_service.RateLimit.Memory.Bounds.{IsBounded}
use ms_auth_service.RateLimit.Fallback.{IsIsolated}
use ms_auth_service.RateLimit.Check.{NoKey, AreDistinct, exceeded, check_rules-exceeded}

rule_key_ne :
    (n : ℕ) (d : Digests) (r r' : Rule)
    → n < Str.length r.name
    → n < Str.length r'.name
    → nth n r.name ≢ nth n r'.name
    → rule_key d r ≢ rule_key d r'
unfolding rule_key
rule_key_ne n d r r' h h' ne e =
    append_ne n r.name r'.name _ _ h h' ne (append_cancel_left "ouros:auth:rate-limit:" _ _ e)

-- The names differ in their n-th character.
differ : ℕ → Rule → Rule → Bool
differ n r r' =
    ltb n (Str.length r.name)
    && (ltb n (Str.length r'.name) && not (eqb (nth n r.name) (nth n r'.name)))

differ_from : ℕ → Rule → List Rule → Bool
differ_from n r [] = true
differ_from n r (r' ∷ rules) = differ n r r' && differ_from n r rules

all_differ : ℕ → List Rule → Bool
all_differ n [] = true
all_differ n (r ∷ rules) = ltb 0 r.window_seconds && (differ_from n r rules && all_differ n rules)

NoKey-of_differ_from :
    (n : ℕ) (d : Digests) (r : Rule) (rules : List Rule)
    → differ_from n r rules ≡ true
    → NoKey d (rule_key d r) rules
unfolding differ_from differ
NoKey-of_differ_from n d r [] h = tt
NoKey-of_differ_from n d r (r' ∷ rules) h = (
  rule_key_ne n d r r' (ground arith) (ground arith) (ground arith),
  NoKey-of_differ_from n d r rules (ground arith),
)

AreDistinct-of_all_differ :
    (n : ℕ) (d : Digests) (rules : List Rule) → all_differ n rules ≡ true → AreDistinct d rules
unfolding all_differ
AreDistinct-of_all_differ n d [] h = tt
AreDistinct-of_all_differ n d (r ∷ rules) h = (
  ground arith,
  NoKey-of_differ_from n d r rules (ground arith),
  AreDistinct-of_all_differ n d rules (ground arith),
)

pub credential_rules-AreDistinct :
    (d : Digests) (l : Limits) → 0 < l.ip_burst_window_seconds → AreDistinct d (credential_rules l)
unfolding credential_rules all_differ differ_from differ nth Str.length
credential_rules-AreDistinct d l h =
    AreDistinct-of_all_differ 3 d (credential_rules l) (ground arith)

pub password_reset_rules-AreDistinct : (d : Digests) → AreDistinct d password_reset_rules
unfolding password_reset_rules all_differ differ_from differ nth Str.length
password_reset_rules-AreDistinct d = AreDistinct-of_all_differ 15 d password_reset_rules refl

decided :
    {X Y : Type 0}
    → (b : Bool) → (b ≡ false → X) × (b ≡ true → Y)
    → ((b ≡ false) × X) ⊎ ((b ≡ true) × Y)
decided true h = inr (refl, h.1 refl)
decided false h = inl (refl, h.0 refl)

module _ {Server : Type 0} (redis : Redis Server) (sha256 : String → String) (clock : ℕ → ℕ)
    (grows : (i j : ℕ) → i ≤ j → clock i ≤ clock j) where
  -- A login attempt without Redis is refused exactly when some rule's open window, of the
  -- caller's address or of the normalized email, already holds as many attempts as its limit,
  -- and then with a `Retry-After` of a second at least. This needs room for four counters, a
  -- clock that does not go back, and a burst window that is not empty.
  pub check_credentials_attempt-exceeded :
      (client : Option String) (email : String) (s : Limiter Server)
      → IsIsolated redis s
      → IsBounded s.memory
      → length s.memory.counters + 4 ≤ memory_max_entries
      → 0 < s.limits.ip_burst_window_seconds
      → let r = (check_credentials_attempt redis sha256 clock client email s).0 in
        let full =
          exceeded (digests sha256 client email) clock 0 (credential_rules s.limits) s.memory in
        ((full ≡ false) × (r ≡ ok tt))
        ⊎ ((full ≡ true) × ((n : ℕ) × (r ≡ raise (Exn.rate_limit_exceeded n)) × (1 ≤ n)))
  unfolding check_credentials_attempt
  check_credentials_attempt-exceeded client email s iso b room pos =
      let d = digests sha256 client email in
      decided (exceeded d clock 0 (credential_rules s.limits) s.memory) (
        check_rules-exceeded d clock grows redis (credential_rules s.limits) s iso b
          (unfold credential_rules in room) (credential_rules-AreDistinct d s.limits pos))
