-- ===== src/Py/Str/Laws.antt =====
-- Texts that are joined: where they differ, and what they have in common.
use Prim.Native.Char.{code}
use Prim.Native.String.{[], ◌∷◌}
use text.Mathlib.TextLemmas.{cons-append}
use ms_auth_service.Prelude.{ℕ, zero, suc, ◌<◌, String, ◌≡◌, ◌≢◌, ◌∙◌, sym, refl, ap, arith}
use ms_auth_service.Py.Str.{◌++◌, length}

-- The code of the n-th character.
unfoldable pub nth : ℕ → String → ℕ
nth n [] = 0
nth zero (c ∷ s) = code c
nth (suc n) (c ∷ s) = nth n s

pub nth-append : (n : ℕ) (s t : String) → n < length s → nth n (s ++ t) ≡ nth n s
unfolding nth length
nth-append n [] t h = absurd (omega arith)
nth-append zero (c ∷ s) t h = rw cons-append refl
nth-append (suc n) (c ∷ s) t h = rw cons-append (nth-append n s t (omega arith))

-- Two texts that differ in their n-th character differ whatever follows them.
pub append_ne :
    (n : ℕ) (s s' t t' : String)
    → n < length s
    → n < length s'
    → nth n s ≢ nth n s'
    → s ++ t ≢ s' ++ t'
append_ne n s s' t t' h h' ne e =
    ne (sym (nth-append n s t h) ∙ ap (nth n) e ∙ nth-append n s' t' h')
