-- ===== src/Base/Table/Keyed.antt =====
-- Tables whose rows have different keys, and searches that find nothing.
use live_route.Base.Tests.{if◌then◌else◌, Bool-cases, ◌==◌}
use live_route.Base.Lists.{All, All-map, All-both, All-append}
use mathlib.Core.Path.{◌≡◌, refl, ◌∙◌}
use mathlib.Core.Logic.{inl, inr}
use mathlib.Core.Bool.{Bool, true, false}
use mathlib.Core.Option.{none, some}
use mathlib.Core.List.{List, [], ◌∷◌, ◌++◌}
use native.Mathlib.Omega.{arith}
use live_route.Base.Table.{
  find_where, update_where, delete_where, count_where, any_where, find_where-holds, find_where-All,
  All-update_where, All-delete_where,
}

-- The rows of a table have different keys.
module _ {ℓ} {A : Type ℓ} where
  abbrev pub Keyed : (A → A → Bool) → List A → Type ℓ
  Keyed clash [] = Unit
  Keyed clash (x ∷ xs) = All (λ y. clash x y ≡ false) xs × Keyed clash xs

  pub Keyed-update_where :
      (clash : A → A → Bool) (p : A → Bool) (f : A → A) (xs : List A)
      → ((x y : A) → clash (f x) y ≡ clash x y)
      → ((x y : A) → clash x (f y) ≡ clash x y)
      → Keyed clash xs
      → Keyed clash (update_where p f xs)
  unfolding update_where
  Keyed-update_where clash p f [] left right k = tt
  Keyed-update_where clash p f (x ∷ xs) left right k = (
    All-update_where _ p f xs (λ y _ e. right _ y ∙ e) (All-map _ _ xs (λ y e. head y ∙ e) k.0),
    Keyed-update_where clash p f xs left right k.1,
  )
    where
      head : (y : A) → clash (if p x then f x else x) y ≡ clash x y
      head y = elim (Bool-cases (p x)) [ inl e ↦ rw e (left x y) | inr e ↦ rw e refl ]

  pub Keyed-delete_where :
      (clash : A → A → Bool) (p : A → Bool) (xs : List A)
      → Keyed clash xs
      → Keyed clash (delete_where p xs)
  unfolding delete_where
  Keyed-delete_where clash p [] k = tt
  Keyed-delete_where clash p (x ∷ xs) k = elim (Bool-cases (p x)) [
    | inl e ↦ rw e (Keyed-delete_where clash p xs k.1)
    | inr e ↦ rw e (All-delete_where _ p xs k.0, Keyed-delete_where clash p xs k.1)
  ]

  pub Keyed-append_new :
      (clash : A → A → Bool) (xs : List A) (z : A)
      → All (λ x. clash x z ≡ false) xs
      → Keyed clash xs
      → Keyed clash (xs ++ z ∷ [])
  Keyed-append_new clash [] z h k = (tt, tt)
  Keyed-append_new clash (x ∷ xs) z h k =
      (All-append _ xs (z ∷ []) k.0 (h.0, tt), Keyed-append_new clash xs z h.1 k.1)

  pub find_where-none :
      (p : A → Bool) (xs : List A) → find_where p xs ≡ none → All (λ x. p x ≡ false) xs
  unfolding find_where
  find_where-none p [] h = tt
  find_where-none p (x ∷ xs) h = (ground arith, find_where-none p xs (ground arith))

  pub find_where-append_new :
      (p : A → Bool) (xs : List A) (z : A)
      → p z ≡ false
      → find_where p (xs ++ z ∷ []) ≡ find_where p xs
  unfolding find_where
  find_where-append_new p [] z h = ground arith
  find_where-append_new p (x ∷ xs) z h = ground (arith, find_where-append_new p xs z h)

  pub find_where-append_found :
      (p : A → Bool) (xs : List A) (z : A)
      → find_where p xs ≡ none
      → p z ≡ true
      → find_where p (xs ++ z ∷ []) ≡ some z
  unfolding find_where
  find_where-append_found p [] z n h = ground arith
  find_where-append_found p (x ∷ xs) z n h = ground (arith, find_where-append_found p xs z)

  -- Two searches for rows of one key find one row.
  pub Keyed-find_where :
      (clash : A → A → Bool) (p q : A → Bool) (xs : List A) {a b : A}
      → ((x y : A) → p x ≡ true → q y ≡ true → (clash x y ≡ true) × (clash y x ≡ true))
      → Keyed clash xs
      → find_where p xs ≡ some a
      → find_where q xs ≡ some b
      → a ≡ b
  unfolding find_where
  Keyed-find_where clash p q [] c k ha hb = absurd (cc)
  Keyed-find_where clash p q (x ∷ xs) {a} {b} c k ha hb = elim (Bool-cases (p x)) [
    | inl px ↦ elim (Bool-cases (q x)) [
      | inl qx ↦ ground arith
      | inr qx ↦
          let hb' : find_where q xs ≡ some b = ground arith in
          absurd (
            ground (
              arith,
              c x b px (find_where-holds q xs hb'),
              find_where-All (λ y. clash x y ≡ false) q xs hb' k.0,
            ))
    ]
    | inr px ↦
        let ha' : find_where p xs ≡ some a = ground arith in
        elim (Bool-cases (q x)) [
          | inl qx ↦ absurd (
              ground (
                arith,
                c a x (find_where-holds p xs ha') qx,
                find_where-All (λ y. clash x y ≡ false) p xs ha' k.0,
              ))
          | inr qx ↦ Keyed-find_where clash p q xs c k.1 ha' (ground arith)
        ]
  ]

module _ {ℓ} {A : Type ℓ} where
  pub find_where-none_of_All :
      (p : A → Bool) (xs : List A) → All (λ x. p x ≡ false) xs → find_where p xs ≡ none
  unfolding find_where
  find_where-none_of_All p [] h = refl
  find_where-none_of_All p (x ∷ xs) h = ground (arith, find_where-none_of_All p xs h.1)

  -- count(*) = 1 says that there is a row.
  pub find_where_of_count :
      (p : A → Bool) (xs : List A)
      → (count_where p xs == 1) ≡ true
      → (a : A) × (find_where p xs ≡ some a)
  unfolding find_where count_where
  find_where_of_count p [] h = absurd (cc)
  find_where_of_count p (x ∷ xs) h = elim (Bool-cases (p x)) [
    | inl e ↦ (x, rw e)
    | inr e ↦ let (a, f) = find_where_of_count p xs (ground arith) in (a, rw e f)
  ]

  pub any_where-none :
      (p : A → Bool) (xs : List A) → any_where p xs ≡ false → All (λ x. p x ≡ false) xs
  unfolding any_where
  any_where-none p [] h = tt
  any_where-none p (x ∷ xs) h = (ground arith, any_where-none p xs (ground arith))

  -- In a keyed table a row is the only one with its key.
  pub Keyed-only :
      (clash : A → A → Bool) (xs : List A)
      → ((x y : A) → clash x y ≡ true → clash y x ≡ true)
      → Keyed clash xs
      → All (λ c. All (λ x. clash c x ≡ true → x ≡ c) xs) xs
  Keyed-only clash [] s k = tt
  Keyed-only clash (x ∷ xs) s k = (
    (λ _. refl, All-map _ _ xs (λ y e e'. absurd (ground (arith, e, e'))) k.0),
    All-map _ _ xs (λ c h. (λ e. absurd (ground (arith, h.0, s c x e)), h.1))
        (All-both _ _ xs k.0 (Keyed-only clash xs s k.1)),
  )

  pub find_where-none_of_any :
      (p q : A → Bool) (xs : List A)
      → ((x : A) → q x ≡ false → p x ≡ false)
      → any_where q xs ≡ false
      → find_where p xs ≡ none
  find_where-none_of_any p q xs k h =
      find_where-none_of_All p xs (All-map _ _ xs k (any_where-none q xs h))
