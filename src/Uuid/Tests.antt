-- ===== src/Uuid/Tests.antt =====
-- Identifiers that the validators take and refuse.
use live_route.Base.{◌≡◌, refl, ◌↔◌, true, false, codes}
use live_route.Uuid.{canonical_uuid, valid_canonical_uuid, valid_scan}
use live_route.Uuid.Gateway.{
  gateway_uuid, hyphens, without_hyphens, hex_decode, hex_digit, is_lower,
}
use live_route.Uuid.Shape.{Fits, uuid_shape, canonical_uuid_iff}
use live_route.Uuid.Hyphens.{gateway_uuid-valid_iff}

canonical_uuid_iff_example :
    (canonical_uuid "0197f3a2-0000-7000-8000-00000000000a" ≡ true)
    ↔ Fits uuid_shape (codes "0197f3a2-0000-7000-8000-00000000000a")
canonical_uuid_iff_example = canonical_uuid_iff "0197f3a2-0000-7000-8000-00000000000a"

accepts_two_more : gateway_uuid "00000000-0000-1000-8000-0000000000--" ≡ true
unfolding gateway_uuid without_hyphens hex_decode hex_digit is_lower
accepts_two_more = refl

refuses_two_more : valid_canonical_uuid "00000000-0000-1000-8000-0000000000--" ≡ false
unfolding valid_canonical_uuid valid_scan
refuses_two_more = refl

gateway_uuid-valid_iff_example :
    (valid_canonical_uuid "00000000-0000-1000-8000-0000000000--" ≡ true)
    ↔ (hyphens (codes "00000000-0000-1000-8000-0000000000--") ≡ 4)
gateway_uuid-valid_iff_example =
    gateway_uuid-valid_iff "00000000-0000-1000-8000-0000000000--" accepts_two_more
