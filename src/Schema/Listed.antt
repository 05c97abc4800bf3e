-- ===== src/Schema/Listed.antt =====
-- Lists to which a name is added if it is not there: `IF NOT EXISTS`.
use proyecto_1_sopes.Prelude.{
  ◌≡◌, refl, sym, subst, ◌∙◌, Bool, true, false, List, [], ◌∷◌, ◌++◌, arith,
}
use proyecto_1_sopes.Database.{add_new}

abbrev pub is_listed {ℓ} : {A : Type ℓ} → Discrete A → A → List A → Bool
is_listed dec a [] = false
is_listed dec a (x ∷ xs) = elim (dec x a) [ yes _ ↦ true | no _ ↦ is_listed dec a xs ]

abbrev pub add_all {ℓ} : {A : Type ℓ} → Discrete A → List A → List A → List A
add_all dec [] ys = ys
add_all dec (x ∷ xs) ys = add_all dec xs (add_new dec x ys)

module _ {A : Type 0} (dec : Discrete A) (a : A) where
  pub listed-tail :
      (x : A) (xs : List A) → is_listed dec a xs ≡ true → is_listed dec a (x ∷ xs) ≡ true
  listed-tail x xs h =
      elim (dec x a) as (λ d. elim d [ yes _ ↦ true | no _ ↦ is_listed dec a xs ] ≡ true) [
        | yes _ ↦ refl
        | no _ ↦ h
      ]

  pub listed-head : (x : A) (xs : List A) → x ≡ a → is_listed dec a (x ∷ xs) ≡ true
  listed-head x xs e =
      elim (dec x a) as (λ d. elim d [ yes _ ↦ true | no _ ↦ is_listed dec a xs ] ≡ true) [
        | yes _ ↦ refl
        | no n ↦ absurd (n e)
      ]

  pub listed-middle : (xs ys : List A) → is_listed dec a (xs ++ a ∷ ys) ≡ true
  listed-middle [] ys = listed-head a ys refl
  listed-middle (x ∷ xs) ys = listed-tail x (xs ++ a ∷ ys) (listed-middle xs ys)

  pub listed-next :
      (x : A) (xs : List A) → (x ≡ a → ⊥) → is_listed dec a (x ∷ xs) ≡ is_listed dec a xs
  listed-next x xs n =
      elim (dec x a)
        as (λ d. elim d [ yes _ ↦ true | no _ ↦ is_listed dec a xs ] ≡ is_listed dec a xs) [
          | yes e ↦ absurd (n e)
          | no _ ↦ refl
        ]

  pub listed-add_new : (xs : List A) → is_listed dec a (add_new dec a xs) ≡ true
  listed-add_new [] = listed-head a [] refl
  listed-add_new (x ∷ xs) =
      elim (dec x a)
        as (λ d. is_listed dec a (elim d [ yes _ ↦ x ∷ xs | no _ ↦ x ∷ add_new dec a xs ]) ≡ true) [
          | yes e ↦ listed-head x xs e
          | no _ ↦ listed-tail x (add_new dec a xs) (listed-add_new xs)
        ]

  -- A name that is listed stays listed.
  pub listed-add_other :
      (b : A) (xs : List A) → is_listed dec a xs ≡ true → is_listed dec a (add_new dec b xs) ≡ true
  listed-add_other b [] h = cc
  listed-add_other b (x ∷ xs) h = ground (arith, listed-add_other b xs)

  pub listed-add_all_kept :
      (xs ys : List A) → is_listed dec a ys ≡ true → is_listed dec a (add_all dec xs ys) ≡ true
  listed-add_all_kept [] ys h = h
  listed-add_all_kept (x ∷ xs) ys h =
      listed-add_all_kept xs (add_new dec x ys) (listed-add_other x ys h)

  pub listed-add_all :
      (xs ys : List A) → is_listed dec a xs ≡ true → is_listed dec a (add_all dec xs ys) ≡ true
  listed-add_all [] ys h = cc
  listed-add_all (x ∷ xs) ys h = elim (dec x a) [
    | yes e ↦
        listed-add_all_kept xs (add_new dec x ys)
          (subst (λ b. is_listed dec a (add_new dec b ys) ≡ true) (sym e) (listed-add_new ys))
    | no n ↦ listed-add_all xs (add_new dec x ys) (sym (listed-next x xs n) ∙ h)
  ]

pub add_all-append :
    {A : Type 0} (dec : Discrete A) (xs ys zs : List A)
    → add_all dec (xs ++ ys) zs ≡ add_all dec ys (add_all dec xs zs)
add_all-append dec [] ys zs = refl
add_all-append dec (x ∷ xs) ys zs = add_all-append dec xs ys (add_new dec x zs)
