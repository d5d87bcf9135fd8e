-- ===== src/Rails/Cato/Digest.antt =====
-- `_DIGEST` of atreides/rails/cato_cash.py, `^sha256:[0-9a-f]{64}$` under `match`. The `$` also stands
-- before one newline that ends the text.
use Prim.Native.Char.{Char, code}
use Prim.Native.String.{String, [], ◌∷◌}
use project_atreides.Common.{
  ℕ, zero, suc, Bool, true, false, Option, none, some, leb, nat_eq, ◌&&◌, ◌||◌, if◌then◌else◌,
}

abbrev is_hex : Char → Bool
is_hex c = leb 48 (code c) && leb (code c) 57 || leb 97 (code c) && leb (code c) 102

-- What is left of a text that begins with a prefix
unfoldable after : String → String → Option String
after [] s = some s
after (c ∷ prefix) [] = none
after (c ∷ prefix) (d ∷ s) =
    let rest = after prefix s in if nat_eq (code c) (code d) then rest else none

unfoldable at_end : String → Bool
at_end [] = true
at_end (c ∷ []) = nat_eq (code c) 10
at_end (c ∷ d ∷ s) = false

-- As many digits, and the end
unfoldable hex_digits : ℕ → String → Bool
unfolding at_end
hex_digits zero s = at_end s
hex_digits (suc n) [] = false
hex_digits (suc n) (c ∷ s) = is_hex c && hex_digits n s

unfoldable pub is_digest : String → Bool
unfolding after hex_digits
is_digest s = elim (after "sha256:" s) [ none ↦ false | some rest ↦ hex_digits 64 rest ]
