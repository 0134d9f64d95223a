-- ===== src/EmailOtp/Reset/Decide.antt =====
-- What the verification of a password reset code decides about one stored record: the answer, and
-- what is stored after it. `_VERIFY_PASSWORD_RESET_SCRIPT` and the branch for `_memory` are two
-- implementations of it.
use ms_auth_service.Prelude.{
  ℕ, String, ◌≡◌, refl, true, false, ◌&&◌, Option, none, some, arith, eq_refl, ◌==◌, if◌then◌else◌,
  Bool-cases, Option-cases, and_left, and_right, sym, ap, eq_iff, inl, inr, ◌∙◌,
}
use mathlib.Core.Option
use ms_auth_service.Py.Int.{add_one, le_nat, ge_nat}
use ms_auth_service.Py.Str.{is_ascii}
use ms_auth_service.Py.Dict.{Dict, lookup, insert}
use ms_auth_service.Py.Dict.Laws.{lookup-insert_self, lookup-erase_self}
use ms_auth_service.Py.Value.{Value, entries-of_dict}
use ms_auth_service.Py.Exec.{Result, ok, ◌>>=◌}
use ms_auth_service.Redis.{Redis}
use ms_auth_service.Redis.Laws.{IsReachable}
use ms_auth_service.EmailOtp.{Record}
use ms_auth_service.EmailOtp.Store.{dumps}
use ms_auth_service.EmailOtp.Login.{Fields}
use ms_auth_service.EmailOtp.Reset.{
  Answer, invalid, exceeded, valid, answered, script_record, script_table, verify_script,
  lua_fields, judge, judge_fields, reset_fields,
}

-- What cjson documents of a record whose integers a double holds: decoding gives its fields.
abbrev pub LuaDecodes : {Server : Type 0} → Redis Server → Record → Type 0
LuaDecodes redis r = redis.cjson_decode (dumps r) ≡ some r

module _ (most now : ℕ) (email digest : String) where
  -- A record whose fields are typed and that has neither expired nor used up its attempts.
  pub decide_open : Record → Fields → Answer × Option Record
  decide_open r f =
      if (f.email == email) && (f.code_digest == digest)
      then (valid r, none)
      else if ge_nat (add_one f.attempts) most
      then (exceeded, none)
      else (invalid, some (insert "attempts" (Value.int (add_one f.attempts)) r))

  pub decide_fields : Record → Option Fields → Answer × Option Record
  unfolding decide_open
  decide_fields r none = (invalid, none)
  decide_fields r (some f) =
      if le_nat f.expires_at now
      then (invalid, none)
      else if ge_nat f.attempts most
      then (exceeded, none)
      else decide_open r f

  -- What is decided about what is stored.
  pub decide : Option Record → Answer × Option Record
  unfolding decide_fields
  decide none = (invalid, none)
  decide (some r) = decide_fields r (reset_fields r)

  module _ {Server : Type 0} (redis : Redis Server) (law : IsReachable redis) (key : String) where
    -- The script answers `d.0` and leaves `d.1` under the key.
    abbrev Does : (Answer × Option Record) → Result Answer × Server → Type 0
    Does d (a, t) = (a ≡ ok d.0) × (law.contents t key ≡ Option.map redis.cjson_encode d.1)

    delete_Does :
        (a : Answer) (t : Server) → Does (a, none) ((redis.delete key >>= λ _. λ u. (ok a, u)) t)
    delete_Does a t = let (t', e, c) = law.delete_lem key t in rw e (refl, c key ∙ rw (eq_refl key))

    keep_Does :
        (a : Answer) (r : Record) (t : Server)
        → Does
            (a, some r)
            ((redis.set_keepttl key (redis.cjson_encode r) >>= λ _. λ u. (ok a, u)) t)
    keep_Does a r t =
        let (t', e, c) = law.set_keepttl_lem key (redis.cjson_encode r) t in
        rw e (refl, c key ∙ rw (eq_refl key))

    script_record-Does :
        (r : Record) (f : Fields) (t : Server)
        → Does (decide_fields r (some f)) (script_record redis key email digest now most r r f t)
    unfolding decide_fields script_record
    script_record-Does r f t = elim (Bool-cases (le_nat f.expires_at now)) [
      | inl x ↦ rw x (delete_Does invalid t)
      | inr x ↦ elim (Bool-cases (ge_nat f.attempts most)) [
        | inl y ↦ rw (x, y) (delete_Does exceeded t)
        | inr y ↦ elim (Bool-cases (f.email == email)) [
          | inl u ↦ elim (Bool-cases (f.code_digest == digest)) [
            | inl v ↦ rw (x, y, u, v) (delete_Does (valid r) t)
            | inr v ↦ elim (Bool-cases (ge_nat (add_one f.attempts) most)) [
              | inl z ↦ rw (x, y, u, v, z) (delete_Does exceeded t)
              | inr z ↦ rw (x, y, u, v, z) (keep_Does invalid _ t)
            ]
          ]
          | inr u ↦ elim (Bool-cases (ge_nat (add_one f.attempts) most)) [
            | inl z ↦ rw (x, y, u, z) (delete_Does exceeded t)
            | inr z ↦ rw (x, y, u, z) (keep_Does invalid _ t)
          ]
        ]
      ]
    ]

    script_fields_Does :
        (r : Record) (o : Option Fields) (t : Server)
        → Does (decide_fields r o) (script_table redis key email digest now most r r o t)
    unfolding decide_fields
    script_fields_Does r none t = delete_Does invalid t
    script_fields_Does r (some f) t = unfold decide_fields in script_record-Does r f t

    -- The script does what is decided, for a record that Lua decodes as it is and whose numbers are
    -- numbers there too.
    pub verify_script-Does :
        (r : Record) (t : Server)
        → law.contents t key ≡ some (dumps r)
        → LuaDecodes redis r
        → lua_fields r ≡ reset_fields r
        → Does (decide (some r)) (verify_script redis key email digest now most t)
    unfolding verify_script decide
    verify_script-Does r t e decoded same =
        rw (law.get_lem key t, e, decoded, entries-of_dict r, same)
          (script_fields_Does r (reset_fields r) t)

  module _ (key : String) (memory : Dict Record) where
    judge_fields-decide :
        (r : Record) (o : Option Fields)
        → is_ascii digest ≡ true
        → lookup key memory ≡ some r
        → ((f : Fields)
            → o ≡ some f
            → (le_nat f.expires_at now ≡ false) × (is_ascii f.code_digest ≡ true))
        → let d = decide_fields r o in
          let j = judge_fields most key email digest memory r o in
          (j.0 ≡ answered d.0) × (lookup key j.1 ≡ d.1)
    unfolding decide_fields judge_fields
    judge_fields-decide r none ascii found h = (refl, lookup-erase_self key memory)
    judge_fields-decide r (some f) ascii found h =
        let r' = insert "attempts" (Value.int (add_one f.attempts)) r in
        ground (arith, h f refl, lookup-erase_self key memory, lookup-insert_self key r' memory)

    -- The branch for `_memory` does what is decided, when the cleanup has left the record there.
    pub judge-decide :
        (r : Record)
        → is_ascii digest ≡ true
        → lookup key memory ≡ some r
        → ((f : Fields)
            → reset_fields r ≡ some f
            → (le_nat f.expires_at now ≡ false) × (is_ascii f.code_digest ≡ true))
        → let d = decide (some r) in
          let j = judge most key email digest memory (some r) in
          (j.0 ≡ answered d.0) × (lookup key j.1 ≡ d.1)
    unfolding decide judge
    judge-decide r ascii found h = judge_fields-decide r (reset_fields r) ascii found h

valid_inj : (r r' : Record) → valid r' ≡ valid r → r ≡ r'
valid_inj r r' e = ap (λ a. elim a [ invalid ↦ r | exceeded ↦ r | valid x ↦ x ]) (sym e)

decide_fields-valid :
    (most now : ℕ) (email digest : String) (r r' : Record) (f : Fields)
    → (decide_fields most now email digest r (some f)).0 ≡ valid r'
    → (r' ≡ r)
      × (f.email ≡ email)
      × (f.code_digest ≡ digest)
      × (le_nat f.expires_at now ≡ false)
      × (ge_nat f.attempts most ≡ false)
      × ((decide_fields most now email digest r (some f)).1 ≡ none)
unfolding decide_fields decide_open
decide_fields-valid most now email digest r r' f h = elim (Bool-cases (le_nat f.expires_at now)) [
  | inl x ↦ ground (arith, rw (x, decide_fields) at h)
  | inr x ↦ elim (Bool-cases (ge_nat f.attempts most)) [
    | inl y ↦ ground (arith, rw (x, y, decide_fields) at h)
    | inr y ↦ elim (Bool-cases ((f.email == email) && (f.code_digest == digest))) [
      | inr m ↦ elim (Bool-cases (ge_nat (add_one f.attempts) most)) [
        | inl z ↦ ground (arith, rw (x, y, m, z, decide_fields, decide_open) at h)
        | inr z ↦ ground (arith, rw (x, y, m, z, decide_fields, decide_open) at h)
      ]
      | inl m ↦
          let same : valid r ≡ valid r' = rw (x, y, m, decide_fields, decide_open) at h in
          rw (x, y, m)
            (
              valid_inj r' r same,
              (eq_iff f.email email).0 (and_left (f.email == email) (f.code_digest == digest) m),
              (eq_iff f.code_digest digest).0
                  (and_right (f.email == email) (f.code_digest == digest) m),
              refl,
              refl,
              refl,
            )
    ]
  ]
]

-- A record is accepted only for its own email and code, before it expires, and with an attempt
-- left; and it is given away then.
pub decide-valid :
    (most now : ℕ) (email digest : String) (r r' : Record)
    → (decide most now email digest (some r)).0 ≡ valid r'
    → (f : Fields) × (reset_fields r ≡ some f)
      × (r' ≡ r)
      × (f.email ≡ email)
      × (f.code_digest ≡ digest)
      × (le_nat f.expires_at now ≡ false)
      × (ge_nat f.attempts most ≡ false)
      × ((decide most now email digest (some r)).1 ≡ none)
unfolding decide decide_fields decide_open
decide-valid most now email digest r r' h = elim (Option-cases (reset_fields r)) [
  | inl e ↦ ground (arith, rw (e, decide, decide_fields) at h)
  | inr (f, e) ↦
      let (same, c, d, x, y, gone) =
        decide_fields-valid most now email digest r r' f (rw (e, decide) at h) in
      (f, e, same, c, d, x, y, rw e gone)
]

-- And for those it is accepted.
pub decide_match :
    (most now : ℕ) (email digest : String) (r : Record) (f : Fields)
    → reset_fields r ≡ some f
    → f.email ≡ email
    → f.code_digest ≡ digest
    → le_nat f.expires_at now ≡ false
    → ge_nat f.attempts most ≡ false
    → (decide most now email digest (some r)).0 ≡ valid r
unfolding decide decide_fields decide_open
decide_match most now email digest r f typed owner right fresh left =
    rw (typed, owner, right, fresh, left, eq_refl email, eq_refl digest) refl
