-- ===== src/Protocol/Lexical.antt =====
-- The regular expressions of packages/core/src/v2/crypto/ids.ts, crypto/hash.ts and of the
-- validators, as tests on the characters of a text.
use Prim.Native.Char.{Char, code}
use Prim.Native.String.{len, [], ◌∷◌}
use latticeag_gateway.Base.{
  ℕ, ◌+◌, ◌-◌, ◌*◌, String, Bool, true, false, not, ◌&&◌, ◌||◌, Option, none, some, leb, ltb, ◌==◌,
  if◌then◌else◌,
}

abbrev between : ℕ → ℕ → Char → Bool
between lo hi c = leb lo (code c) && leb (code c) hi

abbrev digit : Char → Bool
digit = between b'0' b'9'

abbrev lower : Char → Bool
lower = between b'a' b'z'

abbrev upper : Char → Bool
upper = between b'A' b'Z'

abbrev letter : Char → Bool
letter c = lower c || upper c

abbrev is : ℕ → Char → Bool
is n c = code c == n

-- Every character passes.
abbrev every : (Char → Bool) → String → Bool
every p [] = true
every p (c ∷ s) = p c && every p s

-- `Buffer.byteLength(s, "utf8")`
abbrev pub byte_length : String → ℕ
byte_length = len

-- `/^[A-Za-z][A-Za-z0-9_-]{0,63}$/`
unfoldable pub is_id : String → Bool
is_id [] = false
is_id (c ∷ s) =
    letter c && every (λ d. letter d || digit d || is b'_' d || is b'-' d) s && leb (len s) 63

-- `/^[0-9a-f]{64}$/`
unfoldable pub is_hash64 : String → Bool
is_hash64 s = every (λ c. digit c || between b'a' b'f' c) s && len s == 64

-- `/^(0|[1-9][0-9]*)$/`
unfoldable pub is_count : String → Bool
is_count [] = false
is_count (c ∷ []) = digit c
is_count (c ∷ s) = between b'1' b'9' c && every digit s

-- `/^[\x20-\x7e]+$/`
unfoldable pub is_ascii : String → Bool
is_ascii [] = false
is_ascii s = every (between 0x20 0x7e) s

-- `/^[0-9A-HJKMNP-TV-Z]{10}$/`
unfoldable pub is_pair_code : String → Bool
is_pair_code s = every crockford s && len s == 10
  where
    crockford : Char → Bool
    crockford c =
        digit c
        || between b'A' b'H' c
        || is b'J' c
        || is b'K' c
        || is b'M' c
        || is b'N' c
        || between b'P' b'T' c
        || between b'V' b'Z' c

-- `/^[0-9]+$/`
unfoldable pub is_digits : String → Bool
is_digits [] = false
is_digits s = every digit s

-- The number that decimal digits write, behind what was read before. `Number` rounds it only above the
-- safe integers, where `Number.isSafeInteger` refuses it all the same.
unfoldable pub decimal : ℕ → String → ℕ
decimal n [] = n
decimal n (c ∷ s) = decimal (n * 10 + (code c - b'0')) s

-- What stands behind a prefix.
unfoldable pub behind : String → String → Option String
behind [] s = some s
behind (c ∷ p) [] = none
behind (c ∷ p) (d ∷ s) = let rest = behind p s in if is (code c) d then rest else none

-- `/[A-Za-z0-9_-]+/`, all of the text.
abbrev is_token : String → Bool
is_token s = every (λ d. letter d || digit d || is b'_' d || is b'-' d) s && not (len s == 0)

abbrev token_of : Option String → Option String
token_of none = none
token_of (some s) = if is_token s then some s else none

-- `/^Bearer ([A-Za-z0-9_-]+)$/.exec(s)`: the token.
unfoldable pub bearer : String → Option String
unfolding behind
bearer s = token_of (behind "Bearer " s)

-- The bytes of a code point in UTF-8.
abbrev width : ℕ → ℕ
width c = if ltb c 0x80 then 1 else if ltb c 0x800 then 2 else if ltb c 0x10000 then 3 else 4

-- `utf8Bytes` of packages/core/src/v2/protocol/envelope.ts
unfoldable pub utf8_bytes : String → ℕ
utf8_bytes [] = 0
utf8_bytes (c ∷ s) = width (code c) + utf8_bytes s
