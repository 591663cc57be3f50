-- ===== src/Uuid/Hyphens.antt =====
-- How the gateway's validator differs from the other two: it also takes extra hyphens.
use mathlib.Core.Path.{subst}
use live_route.Base.{
  ℕ, zero, suc, ◌+◌, ◌≤◌, ◌<◌, String, ◌≡◌, ◌≢◌, refl, ◌∙◌, sym, ◌↔◌, ◌⊎◌, inl, inr, Bool, true,
  false, List, [], ◌∷◌, none, arith, not, ◌&&◌, ◌||◌, ◌==◌, ==_iff, if◌then◌else◌, length, codes,
  Bool-cases,
}
use live_route.Uuid.{valid_canonical_uuid}
use live_route.Uuid.Shape.{
  Slot, hyphen, digit, IsHex, Fits, slot_at, slots_from, uuid_shape, canonical_uuid_iff,
  canonical_uuid-eq-valid,
}
use live_route.Uuid.Gateway.{
  char_at, without_hyphens, hex_digit, hex_decode, is_lower, versioned, gateway_uuid, hyphens,
}

-- Each character is a hyphen or a lowercase digit.
abbrev Clean : List ℕ → Type 0
Clean [] = Unit
Clean (c ∷ cs) = (c ≢ b'-' → IsHex c) × Clean cs

abbrev Decodes : List ℕ → Type 0
Decodes [] = Unit
Decodes (c ∷ cs) = (hex_digit c ≢ none) × Decodes cs

hex_decode-Decodes : (cs : List ℕ) → hex_decode cs ≢ none → Decodes cs
unfolding hex_decode
hex_decode-Decodes [] h = tt
hex_decode-Decodes (a ∷ []) h = absurd (h refl)
hex_decode-Decodes (a ∷ b ∷ cs) h =
    (λ e. h (ground arith), (λ e. h (ground arith), hex_decode-Decodes cs (λ e. h (ground arith))))

hex_digit-IsHex : (c : ℕ) → hex_digit c ≢ none → (b'A' ≤ c → c ≤ b'Z' → ⊥) → IsHex c
unfolding hex_digit
hex_digit-IsHex c h l = ground arith

Clean-of_digits : (cs : List ℕ) → Decodes (without_hyphens cs) → is_lower cs ≡ true → Clean cs
unfolding without_hyphens is_lower
Clean-of_digits [] d l = tt
Clean-of_digits (c ∷ cs) d l = elim (Bool-cases (c == b'-')) [
  | inl e ↦ (λ n. absurd (n (ground arith)), Clean-of_digits cs (rw e at d) (ground arith))
  | inr e ↦
      let d' : (hex_digit c ≢ none) × Decodes (without_hyphens cs) = (rw e at d) in
      (λ n. hex_digit-IsHex c d'.0 (ground arith), Clean-of_digits cs d'.1 (ground arith))
]

marks : List Slot → ℕ
marks [] = 0
marks (hyphen ∷ ss) = suc (marks ss)
marks (digit ∷ ss) = marks ss

hyphens-Fits : (ss : List Slot) (cs : List ℕ) → Fits ss cs → hyphens cs ≡ marks ss
unfolding hyphens marks
hyphens-Fits [] [] h = refl
hyphens-Fits [] (c ∷ cs) h = absurd h
hyphens-Fits (s ∷ ss) [] h = absurd h
hyphens-Fits (hyphen ∷ ss) (c ∷ cs) h = ground (arith, hyphens-Fits ss cs h.1)
hyphens-Fits (digit ∷ ss) (c ∷ cs) h = ground (arith, hyphens-Fits ss cs h.1)

-- The hyphens that a shape asks for are in place.
abbrev Marked : List Slot → List ℕ → Type 0
Marked [] [] = Unit
Marked [] (c ∷ cs) = ⊥
Marked (s ∷ ss) [] = ⊥
Marked (hyphen ∷ ss) (c ∷ cs) = (c ≡ b'-') × Marked ss cs
Marked (digit ∷ ss) (c ∷ cs) = Marked ss cs

marks-le-hyphens : (ss : List Slot) (cs : List ℕ) → Marked ss cs → marks ss ≤ hyphens cs
unfolding hyphens marks
marks-le-hyphens [] [] m = omega arith
marks-le-hyphens [] (c ∷ cs) m = absurd m
marks-le-hyphens (s ∷ ss) [] m = absurd m
marks-le-hyphens (hyphen ∷ ss) (c ∷ cs) m = ground (arith, marks-le-hyphens ss cs m.1)
marks-le-hyphens (digit ∷ ss) (c ∷ cs) m = ground (arith, marks-le-hyphens ss cs m)

Fits-of_hyphens :
    (ss : List Slot) (cs : List ℕ) → Marked ss cs → Clean cs → hyphens cs ≡ marks ss → Fits ss cs
unfolding hyphens marks
Fits-of_hyphens [] [] m k e = tt
Fits-of_hyphens [] (c ∷ cs) m k e = absurd m
Fits-of_hyphens (s ∷ ss) [] m k e = absurd m
Fits-of_hyphens (hyphen ∷ ss) (c ∷ cs) m k e = (m.0, Fits-of_hyphens ss cs m.1 k.1 (ground arith))
Fits-of_hyphens (digit ∷ ss) (c ∷ cs) m k e =
    let p : c ≢ b'-' = (λ q. ground (arith, marks-le-hyphens ss cs m)) in
    (k.0 p, Fits-of_hyphens ss cs m k.1 (ground arith))

cons-Marked :
    (index n c : ℕ) (cs : List ℕ)
    → (slot_at index ≡ hyphen → c ≡ b'-')
    → Marked (slots_from (index + 1) n) cs
    → Marked (slots_from index (suc n)) (c ∷ cs)
unfolding slots_from
cons-Marked index n c cs h m =
    let place : (s : Slot) → slot_at index ≡ s → Marked (s ∷ slots_from (index + 1) n) (c ∷ cs) =
      elim [ hyphen ↦ λ e. (h e, m) | digit ↦ λ e. m ] in
    place (slot_at index) refl

slot_at-move : (i j : ℕ) → i ≡ j → slot_at i ≡ hyphen → slot_at j ≡ hyphen
slot_at-move i j p e = subst (λ k. slot_at k ≡ hyphen) p e

chars-Marked :
    (index n : ℕ) (cs : List ℕ)
    → length cs ≡ n
    → ((i : ℕ) → i < n → slot_at (index + i) ≡ hyphen → char_at cs i ≡ b'-')
    → Marked (slots_from index n) cs
unfolding slots_from
chars-Marked index zero [] l h = tt
chars-Marked index zero (c ∷ cs) l h = absurd (cc)
chars-Marked index (suc n) [] l h = absurd (cc)
chars-Marked index (suc n) (c ∷ cs) l h =
    cons-Marked index n c cs
      (λ e. h 0 (omega arith) (slot_at-move index (index + 0) (omega arith) e))
      (chars-Marked (index + 1) n cs (omega arith) λ i lt e.
        h (suc i) (omega arith) (slot_at-move (index + 1 + i) (index + suc i) (omega arith) e))

slot_at-hyphen : (i : ℕ) → slot_at i ≡ hyphen → (i ≡ 8) ⊎ ((i ≡ 13) ⊎ ((i ≡ 18) ⊎ (i ≡ 23)))
slot_at-hyphen i e = ground arith

module _ (cs : List ℕ) (c8 : char_at cs 8 ≡ b'-') (c13 : char_at cs 13 ≡ b'-') where
  hyphen_chars :
      char_at cs 18 ≡ b'-'
      → char_at cs 23 ≡ b'-'
      → (i : ℕ) → (i ≡ 8) ⊎ ((i ≡ 13) ⊎ ((i ≡ 18) ⊎ (i ≡ 23)))
      → char_at cs i ≡ b'-'
  hyphen_chars c18 c23 i (inl e) = rw e c8
  hyphen_chars c18 c23 i (inr (inl e)) = rw e c13
  hyphen_chars c18 c23 i (inr (inr (inl e))) = rw e c18
  hyphen_chars c18 c23 i (inr (inr (inr e))) = rw e c23

and_right : (a b : Bool) → (a && b) ≡ true → b ≡ true
and_right a b h = ground arith

-- What the guard and the rest of a validator say when it accepts.
accepted :
    (a b c d e x : Bool)
    → (if not a || not b || not c || not d || not e then false else x) ≡ true
    → (a ≡ true) × (b ≡ true) × (c ≡ true) × (d ≡ true) × (e ≡ true) × (x ≡ true)
accepted a b c d e x h = ground arith

module _ (value : String) (h : gateway_uuid value ≡ true) where
  abbrev cs : List ℕ
  cs = codes value

  parts :
      ((length cs == 36) ≡ true)
      × ((char_at cs 8 == b'-') ≡ true)
      × ((char_at cs 13 == b'-') ≡ true)
      × ((char_at cs 18 == b'-') ≡ true)
      × ((char_at cs 23 == b'-') ≡ true)
      × ((versioned (hex_decode (without_hyphens cs)) && is_lower cs) ≡ true)
  unfolding gateway_uuid
  parts = accepted _ _ _ _ _ _ h

  gateway_uuid-Marked : Marked (slots_from 0 36) cs
  gateway_uuid-Marked = chars-Marked 0 36 cs ((==_iff _ _).0 parts.0) λ i lt e.
      hyphen_chars cs ((==_iff _ _).0 parts.1) ((==_iff _ _).0 parts.2) ((==_iff _ _).0 parts.3)
        ((==_iff _ _).0 parts.4) i (slot_at-hyphen i (slot_at-move (0 + i) i (omega arith) e))

  gateway_uuid-Clean : Clean cs
  gateway_uuid-Clean =
      Clean-of_digits cs (hex_decode-Decodes (without_hyphens cs) (λ e. decoded e parts.5))
        (lower parts.5)
    where
      decoded :
          hex_decode (without_hyphens cs) ≡ none
          → (versioned (hex_decode (without_hyphens cs)) && is_lower cs) ≡ true
          → ⊥
      decoded e v = let f : false ≡ true = (rw e at v) in cc

      lower :
          (versioned (hex_decode (without_hyphens cs)) && is_lower cs) ≡ true → is_lower cs ≡ true
      lower v = and_right (versioned (hex_decode (without_hyphens cs))) (is_lower cs) v

-- Of the texts that the gateway accepts, persistence accepts exactly those with four hyphens.
pub gateway_uuid-valid_iff :
    (value : String)
    → gateway_uuid value ≡ true
    → (valid_canonical_uuid value ≡ true) ↔ (hyphens (codes value) ≡ 4)
unfolding slots_from marks
gateway_uuid-valid_iff value h = (four, valid)
  where
    four : valid_canonical_uuid value ≡ true → hyphens (codes value) ≡ 4
    four v =
        hyphens-Fits uuid_shape (codes value)
          ((canonical_uuid_iff value).0 (canonical_uuid-eq-valid value ∙ v))

    valid : hyphens (codes value) ≡ 4 → valid_canonical_uuid value ≡ true
    valid e =
        sym (canonical_uuid-eq-valid value)
        ∙ (canonical_uuid_iff value).1 (
            Fits-of_hyphens uuid_shape (codes value) (gateway_uuid-Marked value h)
              (gateway_uuid-Clean value h) e)
