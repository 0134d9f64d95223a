-- ===== src/Py/Str.antt =====
-- Python's `str` as the native text: the methods that the service calls. Whitespace is Python's
-- (`str.isspace`) in full; `lower` maps ASCII and Latin-1 letters and leaves other characters.
pub mod Laws
use Prim.Native.Char.{Char, code}
use Prim.Native.String.{[], ◌∷◌}
use Prim.Native.String
use ms_auth_service.Prelude.{
  ℕ, suc, ◌+◌, ◌-◌, ◌*◌, String, Bool, true, false, ◌&&◌, ◌||◌, Option, none, some, ◌==◌, ◌≡◌, refl,
  leb, ltb, eqb, if◌then◌else◌,
}

infixl 65 ◌++◌
abbrev pub ◌++◌ : String → String → String
s ++ t = String.◌++◌ s t

-- `c.isspace()`
unfoldable pub is_space : Char → Bool
is_space c =
    let n = code c in
    (leb 9 n && leb n 13)
    || (leb 28 n && leb n 32)
    || eqb n 133
    || eqb n 160
    || eqb n 5760
    || (leb 8192 n && leb n 8202)
    || eqb n 8232
    || eqb n 8233
    || eqb n 8239
    || eqb n 8287
    || eqb n 12288

unfoldable pub lstrip : String → String
unfolding is_space
lstrip [] = []
lstrip (c ∷ s) = let rest = lstrip s in if is_space c then rest else c ∷ s

unfoldable pub rstrip : String → String
unfolding is_space
rstrip [] = []
rstrip (c ∷ s) = let rest = rstrip s in if rest == "" && is_space c then [] else c ∷ rest

-- `s.strip()`
unfoldable pub strip : String → String
unfolding lstrip rstrip
strip s = rstrip (lstrip s)

-- `s.rstrip(ch)` for one character.
unfoldable pub rstrip_char : ℕ → String → String
rstrip_char ch [] = []
rstrip_char ch (c ∷ s) =
    let rest = rstrip_char ch s in if rest == "" && eqb (code c) ch then [] else c ∷ rest

-- The character that stands in `to` where `c` stands in `from`, or `c`.
unfoldable pub translate : String → String → Char → Char
translate (f ∷ from) (t ∷ to) c = if eqb (code f) (code c) then t else translate from to c
translate _ _ c = c

abbrev upper_letters : String
upper_letters = "ABCDEFGHIJKLMNOPQRSTUVWXYZÀÁÂÃÄÅÆÇÈÉÊËÌÍÎÏÐÑÒÓÔÕÖØÙÚÛÜÝÞ"

abbrev lower_letters : String
lower_letters = "abcdefghijklmnopqrstuvwxyzàáâãäåæçèéêëìíîïðñòóôõöøùúûüýþ"

-- `s.lower()`
unfoldable pub lower : String → String
unfolding translate
lower [] = []
lower (c ∷ s) = translate upper_letters lower_letters c ∷ lower s

-- `s.upper()`
unfoldable pub upper : String → String
unfolding translate
upper [] = []
upper (c ∷ s) = translate lower_letters upper_letters c ∷ upper s

-- `len(s)`
unfoldable pub length : String → ℕ
length [] = 0
length (_ ∷ s) = suc (length s)

-- `s.count(ch)` for one character.
unfoldable pub count_char : ℕ → String → ℕ
count_char ch [] = 0
count_char ch (c ∷ s) = let rest = count_char ch s in if eqb (code c) ch then suc rest else rest

-- `ch in s`
unfoldable pub contains_char : ℕ → String → Bool
contains_char ch [] = false
contains_char ch (c ∷ s) = eqb (code c) ch || contains_char ch s

-- `s.partition(ch)` for one character: the text before it and the text after it, or `none` where
-- Python answers `(s, "", "")`.
unfoldable pub partition : ℕ → String → Option (String × String)
partition ch [] = none
partition ch (c ∷ s) =
    let rest = partition ch s in
    if eqb (code c) ch
    then some ([], s)
    else elim rest [ none ↦ none | some (before, after) ↦ some (c ∷ before, after) ]

-- Every character passes.
unfoldable pub all_chars : (ℕ → Bool) → String → Bool
all_chars p [] = true
all_chars p (c ∷ s) = p (code c) && all_chars p s

-- Some character passes.
unfoldable pub any_char : (ℕ → Bool) → String → Bool
any_char p [] = false
any_char p (c ∷ s) = p (code c) || any_char p s

-- `s.isascii()`
unfoldable pub is_ascii : String → Bool
unfolding all_chars
is_ascii s = all_chars (λ n. ltb n 128) s

-- `0` to `9`
abbrev pub is_digit : ℕ → Bool
is_digit n = leb b'0' n && leb n b'9'

-- `s.isascii() and s.isdecimal()`
unfoldable pub is_ascii_decimal : String → Bool
unfolding all_chars
is_ascii_decimal s = (if s == "" then false else true) && all_chars is_digit s

-- `int(s)` of a text of ASCII digits, with the value of the digits before.
unfoldable pub int_from : ℕ → String → ℕ
int_from n [] = n
int_from n (c ∷ s) = int_from (n * 10 + (code c - b'0')) s

-- `email.strip().lower()`
unfoldable pub normalize_email : String → String
unfolding strip lower
normalize_email email = lower (strip email)

test_strip : strip "  a b " ≡ "a b"
unfolding strip
test_strip = refl

test_lower : normalize_email " ÀB@x.Com" ≡ "àb@x.com"
unfolding normalize_email
test_lower = refl
