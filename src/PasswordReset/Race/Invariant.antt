-- ===== src/PasswordReset/Race/Invariant.antt =====
-- Who holds which token's key, in every state that overlapping calls of `confirm_reset` come to.
use ms_auth_service.Prelude.{
  ℕ, String, ◌≡◌, ◌≢◌, refl, sym, ap, ◌∙◌, inl, inr, true, false, Option, none, some, ◌==◌,
  if◌then◌else◌, eqb, update, is_some, arith, eq_iff, Bool-cases,
}
use ms_auth_service.Py.Exec.{Exec}
use ms_auth_service.Redis.{Redis, Raw}
use ms_auth_service.Redis.Laws.{IsReachable, flag}
use ms_auth_service.PasswordReset.{Settings, Service, Update}
use ms_auth_service.PasswordReset.Race.{Call, Pc, holds, turn, System, Step, initial, Reach}
use ms_auth_service.PasswordReset.Race.Remote.{token_key, Turned, turn-Turns}
use ms_auth_service.PasswordReset.Race.{IsConnected}

module _ (key : ℕ → String) where
  same_key : (i j : ℕ) → eqb i j ≡ true → key i ≡ key j
  same_key i j e = let same : i ≡ j = ground arith in ap key same

  -- The key is in Redis for every holder, no two calls hold one key, and a key that was free at
  -- the start is there for a holder only.
  pub record Inv (zero_map m : String → Option Raw) (pc : ℕ → Pc) : Type 0 where
    pub present : (i : ℕ) → holds (pc i) ≡ true → is_some (m (key i)) ≡ true
    pub unique : (i j : ℕ) → holds (pc i) ≡ true → holds (pc j) ≡ true → key i ≡ key j → i ≡ j
    pub held :
        (k : String)
        → zero_map k ≡ none
        → is_some (m k) ≡ true
        → (j : ℕ) × (key j ≡ k) × (holds (pc j) ≡ true)

  module _ (zero_map m n : String → Option Raw) (pc : ℕ → Pc) (i : ℕ)
      (inv : Inv zero_map m pc) where
    -- A turn that leaves the map alone, and whether the call holds its key.
    keeps :
        (p : Pc)
        → holds p ≡ holds (pc i)
        → ((k : String) → n k ≡ m k)
        → Inv zero_map n (update pc i p)
    keeps p same after =
        let at : (j : ℕ) → holds (update pc i p j) ≡ holds (pc j) = λ j. ground arith in
        record {
          present = λ j h. rw (after (key j)) (inv.present j (sym (at j) ∙ h));
          unique = λ j l hj hl e. inv.unique j l (sym (at j) ∙ hj) (sym (at l) ∙ hl) e;
          held = λ k free there.
              let (j, e, h) = inv.held k free (rw (after k) at there) in (j, e, at j ∙ h);
        }

    -- A call takes its key, which nobody held.
    takes :
        (p : Pc)
        → holds p ≡ true
        → m (key i) ≡ none
        → ((k : String) → n k ≡ (if key i == k then some flag else m k))
        → Inv zero_map n (update pc i p)
    takes p holding free after =
        let other : (j : ℕ) → holds (pc j) ≡ true → key j ≢ key i =
          λ j h e. let there = inv.present j h in ground (arith, ap m e) in
        record {
          present = λ j h.
              ground (arith, after (key j), inv.present j, eq_iff (key i) (key j), same_key i j);
          unique = λ j l hj hl e. ground (arith, inv.unique j l, other j, other l);
          held = λ k zero_free there. elim (Bool-cases (key i == k)) [
            | inl same ↦ (i, ground (arith, eq_iff (key i) k), ground arith)
            | inr differ ↦
                let (j, e, h) = inv.held k zero_free (ground (arith, after k)) in
                (j, e, ground arith)
          ];
        }

    -- A holder gives its key back.
    gives :
        (p : Pc)
        → holds p ≡ false
        → holds (pc i) ≡ true
        → ((k : String) → n k ≡ (if key i == k then none else m k))
        → Inv zero_map n (update pc i p)
    gives p idle holding after = record {
      present = λ j h.
          ground (arith, after (key j), inv.present j, eq_iff (key i) (key j), inv.unique i j);
      unique = λ j l hj hl e. ground (arith, inv.unique j l);
      held = λ k zero_free there.
          let (j, e, h) = inv.held k zero_free (ground (arith, after k)) in
          (j, e, ground (arith, after k, eq_iff (key i) k, same_key i j));
    }

    turned_from : (q p : Pc) → pc i ≡ q → Turned (key i) m n q p → Inv zero_map n (update pc i p)
    turned_from q p e (Turned.reserves free after) = takes Pc.reserved refl free after
    turned_from q p e (Turned.refuses v taken after) = keeps p (ap holds (sym e)) after
    turned_from q p e (Turned.calls after) = keeps p (ap holds (sym e)) after
    turned_from q p e (Turned.fails x after) = keeps p (ap holds (sym e)) after
    turned_from q p e (Turned.releases x after) = gives p refl (ap holds e) after

module _ {Server Spring : Type 0} (redis : Redis Server) (law : IsReachable redis) (c : Settings)
    (post : Update → Exec Spring ℕ) (calls : ℕ → Call) where
  abbrev pub key_of : ℕ → String
  key_of i = token_key (calls i)

  -- There is a client, and the invariant holds of the keys in the server.
  abbrev pub IsSound : Service Server Spring → System Server Spring → Type 0
  IsSound service s =
      IsConnected s.service
      × Inv key_of (law.contents service.server) (law.contents s.service.server) s.pc

  initial-IsSound :
      (service : Service Server Spring)
      → IsConnected service
      → IsSound service (initial redis c post calls service)
  initial-IsSound service h = (
    h,
    record {
      present = λ i hold. ground arith;
      unique = λ i j hold. ground arith;
      held = λ k free there. ground arith;
    },
  )

  Step-IsSound :
      (service : Service Server Spring) (s t : System Server Spring)
      → Step redis c post calls s t
      → IsSound service s
      → IsSound service t
  Step-IsSound service s t (Step.pick i active _) (h, inv) =
      let (turned, h') = turn-Turns redis law c post (calls i) s.service h (s.pc i) active in
      (
        h',
        turned_from key_of (law.contents service.server) (law.contents s.service.server)
            (law.contents (turn redis c post (calls i) (s.pc i) s.service).1.server) s.pc i inv
            (s.pc i) (turn redis c post (calls i) (s.pc i) s.service).0 refl turned,
      )

  pub Reach-IsSound :
      (service : Service Server Spring) (s : System Server Spring)
      → IsConnected service
      → Reach redis c post calls service s
      → IsSound service s
  Reach-IsSound service s h Reach.start = initial-IsSound service h
  Reach-IsSound service t h (Reach.later {s = r} reach step) =
      Step-IsSound service r t step (Reach-IsSound service r h reach)
