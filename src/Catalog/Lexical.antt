-- ===== src/Catalog/Lexical.antt =====
-- packages/core/src/v2/protocol/product.ts: the forms of slugs, series and versions.
use Prim.Native.Char.{Char, code}
use Prim.Native.String.{len, [] as ε, ◌∷◌ as ◌⋯◌, compare}
use text.Mathlib.Text.{is_lt}
use latticeag_gateway.Base.{
  ℕ, String, Bool, true, false, not, ◌&&◌, ◌||◌, Option, none, some, List, [], ◌∷◌, leb, ◌==◌, ◌=ₛ◌,
  if◌then◌else◌, all, length,
}

-- `a < b` on texts; those that are compared are of ASCII characters.
abbrev pub text_before : String → String → Bool
text_before a b = is_lt (compare a b)

abbrev digit : Char → Bool
digit c = leb b'0' (code c) && leb (code c) b'9'

abbrev lower : Char → Bool
lower c = leb b'a' (code c) && leb (code c) b'z'

abbrev upper : Char → Bool
upper c = leb b'A' (code c) && leb (code c) b'Z'

abbrev dash : Char → Bool
dash c = code c == b'-'

abbrev every : (Char → Bool) → String → Bool
every p ε = true
every p (c ⋯ s) = p c && every p s

-- SLUG_RE: `/^[a-z][a-z0-9-]{0,63}$/`
unfoldable pub is_slug : String → Bool
is_slug ε = false
is_slug (c ⋯ s) = lower c && every (λ d. lower d || digit d || dash d) s && leb (len s) 63

-- SERIES
abbrev pub series_names : List String
series_names = "poly" ∷ "lex" ∷ "vek" ∷ "axi" ∷ "vis" ∷ "forge" ∷ []

-- What stands before and behind the first character of a code.
unfoldable pub split_at : ℕ → String → String × Option String
split_at n ε = ("", none)
split_at n (c ⋯ s) =
    let rest = split_at n s in if code c == n then ("", some s) else (c ⋯ rest.0, rest.1)

-- The parts between the characters of a code.
abbrev add_to_first : Char → List String → List String
add_to_first c [] = (c ⋯ ε) ∷ []
add_to_first c (p ∷ ps) = (c ⋯ p) ∷ ps

unfoldable pub parts : ℕ → String → List String
parts n ε = "" ∷ []
parts n (c ⋯ s) = let rest = parts n s in if code c == n then "" ∷ rest else add_to_first c rest

-- `0|[1-9]\d*`
unfoldable pub is_numeric : String → Bool
is_numeric ε = false
is_numeric (c ⋯ s) = (code c == b'0' && s =ₛ "") || (leb b'1' (code c) && digit c && every digit s)

-- `[0-9a-zA-Z-]+`
abbrev is_identifier : String → Bool
is_identifier s = not (s =ₛ "") && every (λ d. digit d || lower d || upper d || dash d) s

-- `0|[1-9]\d*|\d*[a-zA-Z-][0-9a-zA-Z-]*`
abbrev is_prerelease : String → Bool
is_prerelease s = is_numeric s || (is_identifier s && not (every digit s))

abbrev all_of : (String → Bool) → Option String → Bool
all_of p none = true
all_of p (some s) = all p (parts b'.' s)

abbrev is_core : String → Bool
is_core s = all is_numeric (parts b'.' s) && length (parts b'.' s) == 3

-- SEMVER_RE: the build stands behind the first `+`, the prerelease behind the first `-` before it.
unfoldable pub is_semver : String → Bool
unfolding split_at parts is_numeric
is_semver s =
    let (before, build) = split_at b'+' s in
    let (core, prerelease) = split_at b'-' before in
    is_core core && all_of is_prerelease prerelease && all_of is_identifier build
