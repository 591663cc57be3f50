-- ===== src/Uuid.antt =====
-- The three validators of identifiers: canonicalUUID of backend/internal/dispatch,
-- validCanonicalUUID of backend/internal/persistence and canonicalUUID of backend/internal/gateway.
-- A text is walked by its code points. On an ASCII text these are its bytes; each validator refuses
-- every other text in Go (no byte of a multi-byte character passes its tests) and here.
pub mod Shape
pub mod Gateway
pub mod Hyphens
mod Tests
use live_route.Base.{
  ℕ, ◌+◌, String, Bool, true, false, ◌&&◌, ◌||◌, not, List, [], ◌∷◌, ltb, leb, ◌==◌, if◌then◌else◌,
  length, codes,
}

-- The loop of dispatch.canonicalUUID from `index` on.
scan : ℕ → List ℕ → Bool
scan index [] = true
scan index (c ∷ cs) =
    let rest = scan (index + 1) cs in
    if index == 8 || index == 13 || index == 18 || index == 23
    then (if not (c == b'-') then false else rest)
    else if (ltb c b'0' || ltb b'9' c) && (ltb c b'a' || ltb b'f' c)
    then false
    else rest

-- canonicalUUID in dispatch/proposal_consumer.go
unfoldable pub canonical_uuid : String → Bool
unfolding scan
canonical_uuid value = if not (length (codes value) == 36) then false else scan 0 (codes value)

-- The loop of validCanonicalUUID from `index` on.
unfoldable pub valid_scan : ℕ → List ℕ → Bool
valid_scan index [] = true
valid_scan index (character ∷ cs) =
    let rest = valid_scan (index + 1) cs in
    if index == 8 || index == 13 || index == 18 || index == 23
    then (if not (character == b'-') then false else rest)
    else if not
        ((leb b'0' character && leb character b'9') || (leb b'a' character && leb character b'f'))
    then false
    else rest

-- validCanonicalUUID in persistence/commands.go
unfoldable pub valid_canonical_uuid : String → Bool
unfolding valid_scan
valid_canonical_uuid value =
    if not (length (codes value) == 36) then false else valid_scan 0 (codes value)
