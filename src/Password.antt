-- ===== src/Password.antt =====
-- The validators of app/schemas/auth.py: the shape of an address, the length of a password, and
-- `CREDENTIAL_COMPLEXITY_PATTERN`.
use ms_auth_service.Prelude.{
  ℕ, String, Bool, false, not, ◌&&◌, ◌||◌, Option, none, some, ◌==◌, if◌then◌else◌, eqb, leb, ltb,
}
use ms_auth_service.Py.Str.{
  normalize_email, count_char, contains_char, partition, length, any_char, is_digit,
}

abbrev pub is_lower : ℕ → Bool
is_lower n = leb b'a' n && leb n b'z'

abbrev pub is_upper : ℕ → Bool
is_upper n = leb b'A' n && leb n b'Z'

-- `[^a-zA-Z0-9]`
abbrev pub is_special : ℕ → Bool
is_special n = not (is_lower n || is_upper n || is_digit n)

-- `CREDENTIAL_COMPLEXITY_PATTERN.fullmatch(s)`, with `decimal` for `\d`. `.` is any character but
-- a line feed, which the whole text is then free of, so each lookahead looks at all of it.
unfoldable pub is_complex : (ℕ → Bool) → String → Bool
unfolding any_char length contains_char
is_complex decimal s =
    not (contains_char 10 s)
    && any_char is_lower s
    && any_char is_upper s
    && any_char decimal s
    && any_char is_special s
    && leb 8 (length s)
    && leb (length s) 20

-- `split("@", maxsplit=1)` of a text with an `@`: neither part is empty.
abbrev has_parts : Option (String × String) → Bool
has_parts none = false
has_parts (some (local_part, domain)) = not (local_part == "") && not (domain == "")

-- `validate_email_shape`: the normalized address, or `none` for a `ValueError`.
unfoldable pub validate_email_shape : String → Option String
unfolding normalize_email count_char contains_char partition
validate_email_shape value =
    let normalized = normalize_email value in
    if not (eqb (count_char b'@' normalized) 1) || contains_char b' ' normalized
    then none
    else if has_parts (partition b'@' normalized)
    then some normalized
    else none

-- `validate_password_length`
unfoldable pub validate_password_length : String → Option String
unfolding length
validate_password_length value =
    if eqb (length value) 0 || ltb 128 (length value) then none else some value
