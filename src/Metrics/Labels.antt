-- ===== src/Metrics/Labels.antt =====
-- `metric_path` and `auth_operation` of app/core/metrics.py.
use ms_auth_service.Prelude.{
  ℕ, String, ◌≡◌, refl, Bool, true, false, ◌&&◌, some, List, [], ◌∷◌, ◌==◌, arith, and_left,
  and_right, Bool-cases, inl, inr, eq_iff, eq_refl, ap, ◌∙◌,
}
use ms_auth_service.Py.Str.{upper}
use ms_auth_service.Metrics.{
  known_metric_paths, is_member, is_identity_path, identity_template, unknown_template, metric_path,
  auth_operations_by_path, operation_in, auth_operation,
}

is_member-head : (s : String) (ns : List String) → is_member s (s ∷ ns) ≡ true
unfolding is_member
is_member-head s ns = rw (eq_refl s) refl

is_member-tail :
    (s n : String) (ns : List String) → is_member s ns ≡ true → is_member s (n ∷ ns) ≡ true
unfolding is_member
is_member-tail s n ns h = ground arith

-- The labels that a path may have.
abbrev pub labels : List String
labels = identity_template ∷ unknown_template ∷ known_metric_paths

-- Every path has a label out of the nineteen.
pub metric_path_bounded :
    (decimal : ℕ → Bool) (path : String) → is_member (metric_path decimal path) labels ≡ true
unfolding metric_path
metric_path_bounded decimal path = elim (Bool-cases (is_member path known_metric_paths)) [
  | inl e ↦ rw e (
      is_member-tail path identity_template (unknown_template ∷ known_metric_paths)
        (is_member-tail path unknown_template known_metric_paths e))
  | inr e ↦ elim (Bool-cases (is_identity_path decimal path)) [
    | inl i ↦ rw (e, i) (is_member-head identity_template (unknown_template ∷ known_metric_paths))
    | inr i ↦
        rw (e, i)
          (is_member-tail unknown_template identity_template (unknown_template ∷ known_metric_paths)
            (is_member-head unknown_template known_metric_paths))
  ]
]

label_ne :
    (s : String)
    → is_member s known_metric_paths ≡ false
    → ¬ (is_member s known_metric_paths ≡ true)
label_ne s e h = ground arith

label_listed :
    (decimal : ℕ → Bool) (path : String)
    → is_member (metric_path decimal path) known_metric_paths ≡ true
    → metric_path decimal path ≡ path
unfolding metric_path is_member
label_listed decimal path h = elim (Bool-cases (is_member path known_metric_paths)) [
  | inl e ↦ rw e refl
  | inr e ↦ elim (Bool-cases (is_identity_path decimal path)) [
    | inl i ↦ absurd (label_ne identity_template refl (rw (e, i, metric_path) at h))
    | inr i ↦ absurd (label_ne unknown_template refl (rw (e, i, metric_path) at h))
  ]
]

-- Every row of a table is for POST and for a listed path.
all_rows_listed : List ((String × String) × String) → Bool
all_rows_listed [] = true
all_rows_listed (((m, p), name) ∷ rows) =
    (m == "POST") && (is_member p known_metric_paths && all_rows_listed rows)

others :
    (m p : String) (rows : List ((String × String) × String))
    → (m == "POST") && (is_member p known_metric_paths && all_rows_listed rows) ≡ true
    → all_rows_listed rows ≡ true
others m p rows l =
    and_right (is_member p known_metric_paths) (all_rows_listed rows)
      (and_right (m == "POST") (is_member p known_metric_paths && all_rows_listed rows) l)

operation_in-listed :
    (method path name : String) (rows : List ((String × String) × String))
    → all_rows_listed rows ≡ true
    → operation_in method path rows ≡ some name
    → (method ≡ "POST") × (is_member path known_metric_paths ≡ true)
unfolding all_rows_listed
operation_in-listed method path name [] l h = ground arith
operation_in-listed method path name (((m, p), n) ∷ rows) l h = elim (Bool-cases (method == m)) [
  | inr e ↦ operation_in-listed method path name rows (others m p rows l) (rw e at h)
  | inl e ↦ elim (Bool-cases (path == p)) [
    | inr f ↦ operation_in-listed method path name rows (others m p rows l) (rw (e, f) at h)
    | inl f ↦ (
      (eq_iff method m).0 e
          ∙ (eq_iff m "POST").0
              (and_left (m == "POST") (is_member p known_metric_paths && all_rows_listed rows) l),
      ap (λ x. is_member x known_metric_paths) ((eq_iff path p).0 f)
          ∙ and_left (is_member p known_metric_paths) (all_rows_listed rows)
              (and_right (m == "POST") (is_member p known_metric_paths && all_rows_listed rows) l),
    )
  ]
]

all_listed : all_rows_listed auth_operations_by_path ≡ true
unfolding all_rows_listed is_member
all_listed = refl

-- An operation is counted for POST requests to a listed path alone: the label of any other path
-- counts none, so a path cannot pass for an operation that it is not.
pub auth_operation-listed :
    (decimal : ℕ → Bool) (method path name : String)
    → auth_operation method (metric_path decimal path) ≡ some name
    → (upper method ≡ "POST") × (metric_path decimal path ≡ path)
unfolding auth_operation
auth_operation-listed decimal method path name h =
    let (post, listed) =
      operation_in-listed (upper method) (metric_path decimal path) name auth_operations_by_path
        all_listed h in
    (post, label_listed decimal path listed)
