-- ===== src/Database/Visited.antt =====
-- Searches do not depend on the order in which rows are returned.
use mathlib.Core.List.{Memᴰ, Perm}
use mathlib.Core.List.Perm
use mathlib.Core.Logic.{∥∥₁_elim}
use mathlib.Core.Bool.{Bool-set}
use native.Mathlib.Omega.{arith}
use address_quality.Prelude.{
  [], ◌∷◌, true, false, inl, inr, ◌≡◌, refl, Bool, List, any, All, map, select, Bool-cases, not,
  ◌∙◌, sym,
}
use address_quality.GoMap.{RangeOrder}

pub any-Mem :
    {A : Type 0} (p : A → Bool) (l : List A) (a : A) → Memᴰ a l → p a ≡ true → any p l ≡ true
any-Mem p [] a m h = elim m [ ]
any-Mem p (x ∷ xs) a (Memᴰ.head e) h = rw (← e, h) refl
any-Mem p (x ∷ xs) a (Memᴰ.tail m) h = ground (arith, any-Mem p xs a m h)

pub Mem-any :
    {A : Type 0} (p : A → Bool) (l : List A) → any p l ≡ true → (a : A) × Memᴰ a l × (p a ≡ true)
Mem-any p [] h = cc
Mem-any p (x ∷ xs) h = elim (Bool-cases (p x)) [
  | inl here ↦ (x, Memᴰ.head refl, here)
  | inr there ↦ let (a, m, found) = Mem-any p xs (rw there at h) in (a, Memᴰ.tail m, found)
]

pub any-Perm :
    {A : Type 0} (p : A → Bool) (l l' : List A) → Perm l l' → any p l ≡ true → any p l' ≡ true
any-Perm p l l' perm h =
    let (a, m, found) = Mem-any p l h in
    ∥∥₁_elim ((Perm.mem_iff perm).0 ∣ m ∣₁) (Bool-set _ _) (λ d. any-Mem p l' a d found)

pub any-visit :
    {A : Type 0} (order : RangeOrder) (p : A → Bool) (l : List A)
    → any p (order.visit A l) ≡ any p l
any-visit {A = A} order p l = elim (Bool-cases (any p l)) [
  | inl found ↦ any-Perm p l (order.visit A l) (Perm.symm (order.visit_perm A l)) found ∙ sym found
  | inr missing ↦ elim (Bool-cases (any p (order.visit A l))) [
    | inl found ↦ cc (any-Perm p (order.visit A l) l (order.visit_perm A l) found)
    | inr still ↦ still ∙ sym missing
  ]
]

-- Each element passes the test.
abbrev pub AllPass : {A : Type 0} → (A → Bool) → List A → Type 0
AllPass p = All (λ a. p a ≡ true)

pub AllPass-any :
    {A : Type 0} (p : A → Bool) (l : List A) → any (λ a. not (p a)) l ≡ false → AllPass p l
AllPass-any p [] h = tt
AllPass-any p (x ∷ l) h = elim (Bool-cases (p x)) [
  | inl here ↦ (here, AllPass-any p l (rw here at h))
  | inr fails ↦ cc (rw fails at h)
]

pub any-AllPass :
    {A : Type 0} (p : A → Bool) (l : List A) → AllPass p l → any (λ a. not (p a)) l ≡ false
any-AllPass p [] h = refl
any-AllPass p (x ∷ l) (here, h) = rw here (any-AllPass p l h)

pub AllPass-visit :
    {A : Type 0} (order : RangeOrder) (p : A → Bool) (l : List A)
    → AllPass p l
    → AllPass p (order.visit A l)
AllPass-visit order p l h = AllPass-any p _ (any-visit order (λ a. not (p a)) l ∙ any-AllPass p l h)

-- What passes a test that is implied.
pub any-le :
    {A B : Type 0} (f : A → B) (p : B → Bool) (q : A → Bool) (t : A → Bool) (l : List A)
    → ((a : A) → t a ≡ true → p (f a) ≡ true → q a ≡ true)
    → any p (map f (select t l)) ≡ true
    → any q l ≡ true
any-le f p q t [] h e = cc
any-le f p q t (x ∷ l) h e = elim (Bool-cases (q x)) [
  | inl yes_here ↦ rw yes_here refl
  | inr no_here ↦ rw no_here (elim (Bool-cases (t x)) [
    | inl kept ↦ elim (Bool-cases (p (f x))) [
      | inl passes ↦ cc (h x kept passes)
      | inr fails ↦ any-le f p q t l h (rw (kept, fails) at e)
    ]
    | inr dropped ↦ any-le f p q t l h (rw dropped at e)
  ])
]

-- Each selected row passes a test that every row of the table with its values passes.
pub AllPass-select :
    {A B : Type 0} (f : A → B) (p : B → Bool) (t : A → Bool) (l : List A)
    → All (λ a. t a ≡ true → p (f a) ≡ true) l
    → AllPass p (map f (select t l))
AllPass-select f p t [] h = tt
AllPass-select f p t (x ∷ l) (here, h) = elim (Bool-cases (t x)) [
  | inl kept ↦ rw kept (here kept, AllPass-select f p t l h)
  | inr dropped ↦ rw dropped (AllPass-select f p t l h)
]

pub All-map_le :
    {A : Type 0} (P Q : A → Type 0) → ((a : A) → P a → Q a) → (l : List A) → All P l → All Q l
All-map_le P Q f [] h = tt
All-map_le P Q f (x ∷ l) (here, h) = (f x here, All-map_le P Q f l h)

-- Each row of a table is found in the table.
pub All-any :
    {A : Type 0} (same : A → A → Bool)
    → ((a : A) → same a a ≡ true)
    → (l : List A) → All (λ a. any (same a) l ≡ true) l
All-any same self [] = tt
All-any same self (x ∷ l) =
    (rw (self x) refl, All-map_le _ _ (λ a h. ground (arith, h)) l (All-any same self l))

pub AllPass-kept :
    {A : Type 0} (q t : A → Bool) (l : List A)
    → All (λ a. t a ≡ true → q a ≡ true) l
    → AllPass q (select t l)
AllPass-kept q t [] h = tt
AllPass-kept q t (x ∷ l) (here, h) = elim (Bool-cases (t x)) [
  | inl kept ↦ rw kept (here kept, AllPass-kept q t l h)
  | inr dropped ↦ rw dropped (AllPass-kept q t l h)
]
