-- ===== src/Base/Table/Selected.antt =====
-- What a SELECT sees after an UPDATE, an INSERT or a DELETE.
use live_route.Base.Tests.{Bool-cases}
use mathlib.Core.Path.{◌≡◌, refl, ap}
use mathlib.Core.Logic.{inl, inr}
use mathlib.Core.Bool.{Bool, true, false}
use mathlib.Core.List.{List, [], ◌∷◌, ◌++◌}
use native.Mathlib.Omega.{arith}
use live_route.Base.Table.{select_where, update_where, delete_where, count_where}

module _ {ℓ} {A : Type ℓ} where
  pub select_where-append :
      (q : A → Bool) (xs ys : List A)
      → select_where q (xs ++ ys) ≡ select_where q xs ++ select_where q ys
  unfolding select_where
  select_where-append q [] ys = refl
  select_where-append q (x ∷ xs) ys = elim (Bool-cases (q x)) [
    | inl e ↦ rw e (ap (λ zs. x ∷ zs) (select_where-append q xs ys))
    | inr e ↦ rw e (select_where-append q xs ys)
  ]

  -- An UPDATE whose rows the SELECT skips, before and after.
  pub select_where-update_where_ne :
      (q p : A → Bool) (f : A → A) (xs : List A)
      → ((x : A) → p x ≡ true → (q x ≡ false) × (q (f x) ≡ false))
      → select_where q (update_where p f xs) ≡ select_where q xs
  unfolding select_where update_where
  select_where-update_where_ne q p f [] h = refl
  select_where-update_where_ne q p f (x ∷ xs) h = elim (Bool-cases (p x)) [
    | inl e ↦ rw (e, (h x e).0, (h x e).1) (select_where-update_where_ne q p f xs h)
    | inr e ↦ rw (e, select_where-update_where_ne q p f xs h)
  ]

  pub select_where-delete_where_ne :
      (q p : A → Bool) (xs : List A)
      → ((x : A) → p x ≡ true → q x ≡ false)
      → select_where q (delete_where p xs) ≡ select_where q xs
  unfolding select_where delete_where
  select_where-delete_where_ne q p [] h = refl
  select_where-delete_where_ne q p (x ∷ xs) h = elim (Bool-cases (p x)) [
    | inl e ↦ rw (e, h x e) (select_where-delete_where_ne q p xs h)
    | inr e ↦ rw (e, select_where-delete_where_ne q p xs h)
  ]

  pub select_where-delete_where_self :
      (p : A → Bool) (xs : List A) → select_where p (delete_where p xs) ≡ []
  unfolding select_where delete_where
  select_where-delete_where_self p [] = refl
  select_where-delete_where_self p (x ∷ xs) = elim (Bool-cases (p x)) [
    | inl e ↦ rw e (select_where-delete_where_self p xs)
    | inr e ↦ rw (e, e) (select_where-delete_where_self p xs)
  ]

  -- An UPDATE after which no row passes its own test.
  pub count_where-update_where_zero :
      (p : A → Bool) (f : A → A) (xs : List A)
      → ((x : A) → p (f x) ≡ false)
      → count_where p (update_where p f xs) ≡ 0
  unfolding count_where update_where
  count_where-update_where_zero p f [] h = refl
  count_where-update_where_zero p f (x ∷ xs) h =
      ground (arith, h x, count_where-update_where_zero p f xs h)
