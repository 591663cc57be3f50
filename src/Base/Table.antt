-- ===== src/Base/Table.antt =====
-- A database table as the list of its rows: what SELECT, UPDATE, DELETE and count(*) do with a
-- WHERE clause, which is a test on a row.
pub mod Keyed
pub mod Selected
use live_route.Base.Tests.{if◌then◌else◌, Bool-cases, ◌==◌}
use live_route.Base.Lists.{All, All-map, All-both, All-append}
use Prim.Native.Nat.{ℕ, suc}
use mathlib.Core.Path.{◌≡◌, refl, subst, ◌∙◌}
use mathlib.Core.Logic.{inl, inr}
use mathlib.Core.Bool.{Bool, true, false}
use mathlib.Core.Option.{Option, none, some}
use mathlib.Core.List.{List, [], ◌∷◌, ◌++◌}
use native.Mathlib.Omega.{arith}

module _ {ℓ} {A : Type ℓ} where
  unfoldable pub find_where : (A → Bool) → List A → Option A
  find_where p [] = none
  find_where p (x ∷ xs) = if p x then some x else find_where p xs

  unfoldable pub select_where : (A → Bool) → List A → List A
  select_where p [] = []
  select_where p (x ∷ xs) = let rest = select_where p xs in if p x then x ∷ rest else rest

  unfoldable pub update_where : (A → Bool) → (A → A) → List A → List A
  update_where p f [] = []
  update_where p f (x ∷ xs) = (if p x then f x else x) ∷ update_where p f xs

  unfoldable pub delete_where : (A → Bool) → List A → List A
  delete_where p [] = []
  delete_where p (x ∷ xs) = let rest = delete_where p xs in if p x then rest else x ∷ rest

  unfoldable pub count_where : (A → Bool) → List A → ℕ
  count_where p [] = 0
  count_where p (x ∷ xs) = let rest = count_where p xs in if p x then suc rest else rest

  unfoldable pub any_where : (A → Bool) → List A → Bool
  any_where p [] = false
  any_where p (x ∷ xs) = let rest = any_where p xs in if p x then true else rest

  pub find_where-holds :
      (p : A → Bool) (xs : List A) {a : A} → find_where p xs ≡ some a → p a ≡ true
  unfolding find_where
  find_where-holds p [] h = ground arith
  find_where-holds p (x ∷ xs) {a} h = ground (arith, find_where-holds p xs {a = a})

  pub find_where-All {κ} :
      (P : A → Type κ) (p : A → Bool) (xs : List A) {a : A}
      → find_where p xs ≡ some a
      → All P xs
      → P a
  unfolding find_where
  find_where-All P p [] h g = absurd (cc)
  find_where-All P p (x ∷ xs) {a} h g = elim (Bool-cases (p x)) [
    | inl hit ↦ let e : x ≡ a = ground arith in subst P e g.0
    | inr miss ↦ find_where-All P p xs (ground arith) g.1
  ]

  pub All-update_where {κ} :
      (P : A → Type κ) (p : A → Bool) (f : A → A) (xs : List A)
      → ((x : A) → p x ≡ true → P x → P (f x))
      → All P xs
      → All P (update_where p f xs)
  unfolding update_where
  All-update_where P p f [] h g = tt
  All-update_where P p f (x ∷ xs) h g = (keep, All-update_where P p f xs h g.1)
    where
      keep : P (if p x then f x else x)
      keep = elim (Bool-cases (p x)) [ inl e ↦ rw e (h x e g.0) | inr e ↦ rw e g.0 ]

  -- After an UPDATE the rows that matched are as the SET clause makes them.
  pub All-update_where_new {κ} :
      (P : A → Type κ) (p : A → Bool) (f : A → A) (xs : List A)
      → ((x : A) → p x ≡ true → P (f x))
      → ((x : A) → p x ≡ false → P x)
      → All P (update_where p f xs)
  unfolding update_where
  All-update_where_new P p f [] h g = tt
  All-update_where_new P p f (x ∷ xs) h g = (fresh, All-update_where_new P p f xs h g)
    where
      fresh : P (if p x then f x else x)
      fresh = elim (Bool-cases (p x)) [ inl e ↦ rw e (h x e) | inr e ↦ rw e (g x e) ]

  pub All-delete_where {κ} :
      (P : A → Type κ) (p : A → Bool) (xs : List A) → All P xs → All P (delete_where p xs)
  unfolding delete_where
  All-delete_where P p [] g = tt
  All-delete_where P p (x ∷ xs) g = elim (Bool-cases (p x)) [
    | inl e ↦ rw e (All-delete_where P p xs g.1)
    | inr e ↦ rw e (g.0, All-delete_where P p xs g.1)
  ]

  -- What an UPDATE makes of the rows, given what they were.
  pub All-update_where_to {κ μ} :
      (P : A → Type κ) (Q : A → Type μ) (p : A → Bool) (f : A → A) (xs : List A)
      → ((x : A) → p x ≡ true → P x → Q (f x))
      → ((x : A) → p x ≡ false → P x → Q x)
      → All P xs
      → All Q (update_where p f xs)
  unfolding update_where
  All-update_where_to P Q p f [] h g k = tt
  All-update_where_to P Q p f (x ∷ xs) h g k = (moved, All-update_where_to P Q p f xs h g k.1)
    where
      moved : Q (if p x then f x else x)
      moved = elim (Bool-cases (p x)) [ inl e ↦ rw e (h x e k.0) | inr e ↦ rw e (g x e k.0) ]

  pub All-select_where {κ} :
      (P : A → Type κ) (p : A → Bool) (xs : List A)
      → All (λ x. p x ≡ true → P x) xs
      → All P (select_where p xs)
  unfolding select_where
  All-select_where P p [] h = tt
  All-select_where P p (x ∷ xs) h = elim (Bool-cases (p x)) [
    | inl e ↦ rw e (h.0 e, All-select_where P p xs h.1)
    | inr e ↦ rw e (All-select_where P p xs h.1)
  ]

  pub All-of_select_where {κ} :
      (P : A → Type κ) (p : A → Bool) (xs : List A)
      → All P (select_where p xs)
      → All (λ x. p x ≡ true → P x) xs
  unfolding select_where
  All-of_select_where P p [] h = tt
  All-of_select_where P p (x ∷ xs) h = elim (Bool-cases (p x)) [
    | inl e ↦
        let h' : All P (x ∷ select_where p xs) = (rw e at h) in
        (λ _. h'.0, All-of_select_where P p xs h'.1)
    | inr e ↦
        let h' : All P (select_where p xs) = (rw e at h) in
        (λ hit. absurd (ground arith), All-of_select_where P p xs h')
  ]

  -- A search that skips every row that an UPDATE touches sees the rows as they were.
  pub find_where-update_where_ne :
      (q p : A → Bool) (f : A → A) (xs : List A)
      → ((x : A) → p x ≡ true → (q x ≡ false) × (q (f x) ≡ false))
      → find_where q (update_where p f xs) ≡ find_where q xs
  unfolding find_where update_where
  find_where-update_where_ne q p f [] h = refl
  find_where-update_where_ne q p f (x ∷ xs) h = elim (Bool-cases (p x)) [
    | inl e ↦ rw (e, (h x e).0, (h x e).1) (find_where-update_where_ne q p f xs h)
    | inr e ↦ rw (e, find_where-update_where_ne q p f xs h)
  ]

  -- An UPDATE of the rows that a search looks for, which keeps them in view of the search.
  pub find_where-update_where_self :
      (p : A → Bool) (f : A → A) (xs : List A) {a : A}
      → ((x : A) → p x ≡ true → p (f x) ≡ true)
      → find_where p xs ≡ some a
      → find_where p (update_where p f xs) ≡ some (f a)
  unfolding find_where update_where
  find_where-update_where_self p f [] h e = absurd (cc)
  find_where-update_where_self p f (x ∷ xs) {a} h e = elim (Bool-cases (p x)) [
    | inl hit ↦ let e' : x ≡ a = ground arith in rw (hit, h x hit, e')
    | inr miss ↦ rw (miss, miss) (find_where-update_where_self p f xs h (ground arith))
  ]

  -- An UPDATE that takes in the row which a search finds, and changes no row's place in the search.
  pub find_where-update_where_hit :
      (q p : A → Bool) (f : A → A) (xs : List A) {a : A}
      → ((x : A) → q (f x) ≡ q x)
      → p a ≡ true
      → find_where q xs ≡ some a
      → find_where q (update_where p f xs) ≡ some (f a)
  unfolding find_where update_where
  find_where-update_where_hit q p f [] keeps hits e = absurd (cc)
  find_where-update_where_hit q p f (x ∷ xs) {a} keeps hits e = elim (Bool-cases (q x)) [
    | inl hit ↦
        let e' : x ≡ a = ground arith in
        let px : p x ≡ true = ground arith in rw (px, keeps x, hit, e')
    | inr miss ↦
        let rest : find_where q (update_where p f xs) ≡ some (f a) =
          find_where-update_where_hit q p f xs keeps hits (ground arith) in
        elim (Bool-cases (p x)) [
          | inl e1 ↦ rw (e1, keeps x, miss) rest
          | inr e1 ↦ rw (e1, miss) rest
        ]
  ]

  pub find_where-delete_where :
      (p : A → Bool) (xs : List A) → find_where p (delete_where p xs) ≡ none
  unfolding find_where delete_where
  find_where-delete_where p [] = refl
  find_where-delete_where p (x ∷ xs) = ground (arith, find_where-delete_where p xs)
