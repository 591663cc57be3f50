-- ===== src/Uuid/Shape.antt =====
-- The texts that the validators of dispatch and persistence accept.
use live_route.Base.{
  ℕ, zero, suc, ◌+◌, ◌≤◌, String, ◌≡◌, refl, ◌∙◌, ◌↔◌, ◌⊎◌, inl, inr, Bool, true, false, ◌&&◌, ◌||◌,
  leb, List, [], ◌∷◌, arith, ◌==◌, if◌then◌else◌, length, codes, Bool-cases,
}
use live_route.Uuid.{scan, canonical_uuid, valid_scan, valid_canonical_uuid}

-- A place of an identifier holds a hyphen or a lowercase hexadecimal digit.
pub data Slot : Type 0 where
  hyphen digit : Slot

abbrev pub IsHex : ℕ → Type 0
IsHex c = ((b'0' ≤ c) × (c ≤ b'9')) ⊎ ((b'a' ≤ c) × (c ≤ b'f'))

-- What a place may hold.
abbrev pub Holds : Slot → ℕ → Type 0
Holds hyphen c = c ≡ b'-'
Holds digit c = IsHex c

abbrev pub Fits : List Slot → List ℕ → Type 0
Fits [] [] = Unit
Fits [] (c ∷ cs) = ⊥
Fits (s ∷ ss) [] = ⊥
Fits (s ∷ ss) (c ∷ cs) = Holds s c × Fits ss cs

abbrev digits : ℕ → List Slot → List Slot
digits zero rest = rest
digits (suc n) rest = digit ∷ digits n rest

-- Groups of 8, 4, 4, 4 and 12 digits, with a hyphen between two groups.
abbrev pub uuid_shape : List Slot
uuid_shape =
    digits 8 (hyphen ∷ digits 4 (hyphen ∷ digits 4 (hyphen ∷ digits 4 (hyphen ∷ digits 12 []))))

abbrev pub slot_at : ℕ → Slot
slot_at index = if index == 8 || index == 13 || index == 18 || index == 23 then hyphen else digit

unfoldable pub slots_from : ℕ → ℕ → List Slot
slots_from index zero = []
slots_from index (suc n) = slot_at index ∷ slots_from (index + 1) n

scan-eq-valid_scan : (index : ℕ) (cs : List ℕ) → scan index cs ≡ valid_scan index cs
unfolding scan valid_scan
scan-eq-valid_scan index [] = refl
scan-eq-valid_scan index (c ∷ cs) = ground (arith, scan-eq-valid_scan (index + 1) cs)

-- The validators of dispatch and of persistence accept the same texts.
pub canonical_uuid-eq-valid : (value : String) → canonical_uuid value ≡ valid_canonical_uuid value
unfolding canonical_uuid valid_canonical_uuid
canonical_uuid-eq-valid value = ground (arith, scan-eq-valid_scan 0 (codes value))

abbrev accepts : Slot → ℕ → Bool
accepts hyphen c = c == b'-'
accepts digit c = (leb b'0' c && leb c b'9') || (leb b'a' c && leb c b'f')

accepts_iff : (s : Slot) (c : ℕ) → (accepts s c ≡ true) ↔ Holds s c
accepts_iff hyphen c = ground arith
accepts_iff digit c = ground arith

scan_step :
    (index c : ℕ) (cs : List ℕ)
    → scan index (c ∷ cs) ≡ (if accepts (slot_at index) c then scan (index + 1) cs else false)
unfolding scan
scan_step index c cs = ground arith

scan_sound :
    (index n : ℕ) (cs : List ℕ)
    → length cs ≡ n
    → scan index cs ≡ true
    → Fits (slots_from index n) cs
unfolding slots_from
scan_sound index zero [] l h = tt
scan_sound index zero (c ∷ cs) l h = absurd (cc)
scan_sound index (suc n) [] l h = absurd (cc)
scan_sound index (suc n) (c ∷ cs) l h = elim (Bool-cases (accepts (slot_at index) c)) [
  | inl e ↦ (
    (accepts_iff (slot_at index) c).0 e,
    scan_sound (index + 1) n cs (omega arith) (rw (scan_step, e) at h),
  )
  | inr e ↦ absurd (let f : false ≡ true = (rw (scan_step, e) at h) in cc)
]

scan_complete :
    (index n : ℕ) (cs : List ℕ)
    → Fits (slots_from index n) cs
    → (length cs ≡ n) × (scan index cs ≡ true)
unfolding slots_from scan
scan_complete index zero [] h = (refl, refl)
scan_complete index zero (c ∷ cs) h = absurd h
scan_complete index (suc n) [] h = absurd h
scan_complete index (suc n) (c ∷ cs) h =
    let (l, r) = scan_complete (index + 1) n cs h.1 in
    (omega (arith, l), (scan_step index c cs ∙ rw ((accepts_iff (slot_at index) c).1 h.0) r))

-- A text is accepted by dispatch exactly if it is five groups of 8, 4, 4, 4 and 12 lowercase
-- hexadecimal digits with a hyphen between two groups.
pub canonical_uuid_iff :
    (value : String) → (canonical_uuid value ≡ true) ↔ Fits uuid_shape (codes value)
unfolding canonical_uuid slots_from
canonical_uuid_iff value = (sound, complete)
  where
    sound : canonical_uuid value ≡ true → Fits uuid_shape (codes value)
    sound h = scan_sound 0 36 (codes value) (ground arith) (ground arith)

    complete : Fits uuid_shape (codes value) → canonical_uuid value ≡ true
    complete h = let (l, r) = scan_complete 0 36 (codes value) h in rw (l, r)
