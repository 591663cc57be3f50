-- ===== src/Uuid/Gateway.antt =====
-- canonicalUUID in backend/internal/gateway/handler.go, with the hex.Decode, strings.ReplaceAll and
-- strings.ToLower that it calls.
use Prim.Native.Nat.{bit_and}
use live_route.Base.{
  ℕ, zero, suc, ◌+◌, ◌-◌, ◌*◌, String, Bool, true, false, ◌&&◌, ◌||◌, not, List, [], ◌∷◌, Option,
  none, some, leb, ◌==◌, if◌then◌else◌, length, codes,
}

-- value[index], read only where the index is in range.
abbrev pub char_at : List ℕ → ℕ → ℕ
char_at [] index = 0
char_at (c ∷ cs) zero = c
char_at (c ∷ cs) (suc index) = char_at cs index

-- strings.ReplaceAll(value, "-", "")
unfoldable pub without_hyphens : List ℕ → List ℕ
without_hyphens [] = []
without_hyphens (c ∷ cs) = let rest = without_hyphens cs in if c == b'-' then rest else c ∷ rest

-- A digit of hex.Decode, which takes both cases.
unfoldable pub hex_digit : ℕ → Option ℕ
hex_digit c =
    if leb b'0' c && leb c b'9'
    then some (c - b'0')
    else if leb b'a' c && leb c b'f'
    then some (c - b'a' + 10)
    else if leb b'A' c && leb c b'F'
    then some (c - b'A' + 10)
    else none

abbrev pub pair_byte : Option ℕ → Option ℕ → Option (List ℕ) → Option (List ℕ)
pair_byte (some a) (some b) (some bytes) = some ((a * 16 + b) ∷ bytes)
pair_byte _ _ _ = none

-- hex.Decode: none is its error, on a character that is no digit or on an odd length.
unfoldable pub hex_decode : List ℕ → Option (List ℕ)
unfolding hex_digit
hex_decode [] = some []
hex_decode (a ∷ []) = none
hex_decode (a ∷ b ∷ cs) = pair_byte (hex_digit a) (hex_digit b) (hex_decode cs)

-- strings.ToLower(value) == value, on an ASCII text.
unfoldable pub is_lower : List ℕ → Bool
is_lower [] = true
is_lower (c ∷ cs) = not (leb b'A' c && leb c b'Z') && is_lower cs

-- The version and variant of the decoded bytes. A byte that was not decoded is 0.
abbrev pub versioned : Option (List ℕ) → Bool
versioned none = false
versioned (some decoded) =
    leb 0x10 (bit_and (char_at decoded 6) 0xf0)
    && leb (bit_and (char_at decoded 6) 0xf0) 0x50
    && bit_and (char_at decoded 8) 0xc0 == 0x80

unfoldable pub gateway_uuid : String → Bool
unfolding without_hyphens hex_decode is_lower
gateway_uuid value =
    let cs = codes value in
    if not (length cs == 36)
      || not (char_at cs 8 == b'-')
      || not (char_at cs 13 == b'-')
      || not (char_at cs 18 == b'-')
      || not (char_at cs 23 == b'-')
    then false
    else versioned (hex_decode (without_hyphens cs)) && is_lower cs

unfoldable pub hyphens : List ℕ → ℕ
hyphens [] = 0
hyphens (c ∷ cs) = let rest = hyphens cs in if c == b'-' then suc rest else rest
