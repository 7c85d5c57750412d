-- ===== src/Base/Lists.antt =====
-- Lists measured by native numbers, with the array methods of the source as recursive functions.
use Prim.Native.Nat.{ℕ, zero, suc, ◌+◌, ◌≤◌}
use mathlib.Core.Path.{◌≡◌, refl, sym, ap, ◌∙◌, subst}
use mathlib.Core.Logic.{◌⊎◌, inl, inr}
use mathlib.Core.Bool.{Bool, true, false, ◌&&◌, ◌||◌}
use mathlib.Core.List.{List, [], ◌∷◌, ◌++◌}
use mathlib.Core.Option.{Option, none, some}
use native.Mathlib.Omega.{arith}
use scholarmatch_ai.Base.Tests.{some_inj, if◌then◌else◌, Bool-cases}

module _ {ℓ} {A : Type ℓ} where
  abbrev pub length : List A → ℕ
  length [] = 0
  length (x ∷ xs) = suc (length xs)

  abbrev pub get_elem? : List A → ℕ → Option A
  get_elem? [] i = none
  get_elem? (x ∷ xs) zero = some x
  get_elem? (x ∷ xs) (suc i) = get_elem? xs i

  -- `xs[0]`
  abbrev pub first? : List A → Option A
  first? [] = none
  first? (x ∷ xs) = some x

  -- `filter`, `some`, `every` and `find` of the source's arrays, over Boolean tests.
  abbrev pub keep : (A → Bool) → List A → List A
  keep p [] = []
  keep p (x ∷ xs) = if p x then x ∷ keep p xs else keep p xs

  abbrev pub any : (A → Bool) → List A → Bool
  any p [] = false
  any p (x ∷ xs) = p x || any p xs

  abbrev pub all : (A → Bool) → List A → Bool
  all p [] = true
  all p (x ∷ xs) = p x && all p xs

  abbrev pub find : (A → Bool) → List A → Option A
  find p [] = none
  find p (x ∷ xs) = if p x then some x else find p xs

  pub length-append : (xs ys : List A) → length (xs ++ ys) ≡ length xs + length ys
  length-append [] ys = omega arith
  length-append (x ∷ xs) ys = omega (arith, length-append xs ys)

  pub length-keep-le : (p : A → Bool) (xs : List A) → length (keep p xs) ≤ length xs
  length-keep-le p [] = omega arith
  length-keep-le p (x ∷ xs) = ground (arith, length-keep-le p xs)

  pub append-nil_eq : (xs ys : List A) → xs ++ ys ≡ [] → (xs ≡ []) × (ys ≡ [])
  append-nil_eq [] ys e = (refl, e)
  append-nil_eq (x ∷ xs) ys e = cc

  pub length-eq-zero : (xs : List A) → length xs ≡ 0 → xs ≡ []
  length-eq-zero [] e = refl
  length-eq-zero (x ∷ xs) e = absurd (omega arith)

module _ {ℓ κ} {A : Type ℓ} (P : A → Type κ) where
  -- Every item has the property.
  abbrev pub All : List A → Type κ
  All [] = Unit
  All (x ∷ xs) = P x × All xs

  -- Some item has the property, with its place.
  pub data Some : List A → Type (ℓ ⊔ κ) where
    here : {x : A} {xs : List A} → P x → Some (x ∷ xs)
    there : {x : A} {xs : List A} → Some xs → Some (x ∷ xs)

  pub All-append : (xs ys : List A) → All xs → All ys → All (xs ++ ys)
  All-append [] ys hx hy = hy
  All-append (x ∷ xs) ys (p, hx) hy = (p, All-append xs ys hx hy)

  pub All-middle : (xs ys : List A) {a : A} → All (xs ++ (a ∷ ys)) → P a
  All-middle [] ys h = h.0
  All-middle (x ∷ xs) ys h = All-middle xs ys h.1

  pub All-keep : (p : A → Bool) (xs : List A) → All xs → All (keep p xs)
  All-keep p [] h = tt
  All-keep p (x ∷ xs) (px, h) = ground (arith, All-keep p xs h)

-- An item is in a list, with its place.
abbrev pub In {ℓ} : {A : Type ℓ} → A → List A → Type ℓ
In a = Some (λ x. a ≡ x)

pub All-In {ℓ κ} : {A : Type ℓ} (P : A → Type κ) (xs : List A) {a : A} → All P xs → In a xs → P a
All-In P [] h m = elim m [ ]
All-In P (x ∷ xs) (p, h) (here e) = rw e p
All-In P (x ∷ xs) (p, h) (there m) = All-In P xs h m

pub In_of_any {ℓ} :
    {A : Type ℓ} (p : A → Bool) (xs : List A) → any p xs ≡ true → Some (λ x. p x ≡ true) xs
In_of_any p [] h = absurd (cc)
In_of_any p (x ∷ xs) h = elim (Bool-cases (p x)) [
  | inl yes_x ↦ here yes_x
  | inr no_x ↦ there (In_of_any p xs (ground arith))
]

pub any_of_In {ℓ} :
    {A : Type ℓ} (p : A → Bool) (xs : List A) → Some (λ x. p x ≡ true) xs → any p xs ≡ true
any_of_In p [] m = elim m [ ]
any_of_In p (x ∷ xs) (here e) = rw e
any_of_In p (x ∷ xs) (there m) = ground (arith, any_of_In p xs m)

pub Some-map {ℓ κ κ'} :
    {A : Type ℓ} (P : A → Type κ) (Q : A → Type κ') (xs : List A)
    → ((x : A) → P x → Q x)
    → Some P xs
    → Some Q xs
Some-map P Q [] f m = elim m [ ]
Some-map P Q (x ∷ xs) f (here p) = here (f x p)
Some-map P Q (x ∷ xs) f (there m) = there (Some-map P Q xs f m)

pub All-map {ℓ κ κ'} :
    {A : Type ℓ} (P : A → Type κ) (Q : A → Type κ') (xs : List A)
    → ((x : A) → P x → Q x)
    → All P xs
    → All Q xs
All-map P Q [] f h = tt
All-map P Q (x ∷ xs) f (p, h) = (f x p, All-map P Q xs f h)

pub In-append_left : {A : Type 0} (xs ys : List A) {x : A} → In x xs → In x (xs ++ ys)
In-append_left [] ys m = elim m [ ]
In-append_left (y ∷ xs) ys (here e) = here e
In-append_left (y ∷ xs) ys (there m) = there (In-append_left xs ys m)

pub In-append_right : {A : Type 0} (xs ys : List A) {x : A} → In x ys → In x (xs ++ ys)
In-append_right [] ys m = m
In-append_right (y ∷ xs) ys m = there (In-append_right xs ys m)

pub In-append_cases :
    {A : Type 0} (xs : List A) {ys : List A} {x : A} → In x (xs ++ ys) → In x xs ⊎ In x ys
In-append_cases [] m = inr m
In-append_cases (y ∷ xs) (here e) = inl (here e)
In-append_cases (y ∷ xs) (there m) = elim (In-append_cases xs m) [
  | inl n ↦ inl (there n)
  | inr n ↦ inr n
]

pub In-All : {A : Type 0} (P : A → Type 0) (xs : List A) → ((x : A) → In x xs → P x) → All P xs
In-All P [] h = tt
In-All P (x ∷ xs) h = (h x (here refl), In-All P xs (λ y m. h y (there m)))

pub get_elem?-In : {A : Type 0} (xs : List A) (i : ℕ) {x : A} → get_elem? xs i ≡ some x → In x xs
get_elem?-In [] i e = absurd (cc)
get_elem?-In (y ∷ xs) zero e = here (sym (some_inj e))
get_elem?-In (y ∷ xs) (suc i) e = there (get_elem?-In xs i e)

-- `filter` keeps exactly the items of a list that pass the test.
pub In-keep :
    {A : Type 0} (p : A → Bool) (xs : List A) {a : A} → In a (keep p xs) → In a xs × (p a ≡ true)
In-keep p [] m = elim m [ ]
In-keep {A} p (x ∷ xs) {a} m = elim (Bool-cases (p x)) [
  | inl passes ↦
      kept passes (subst (λ b. In a (if b then x ∷ keep p xs else keep p xs)) passes m)
        (In-keep p xs)
  | inr fails ↦
      let (n, q) =
        In-keep p xs (subst (λ b. In a (if b then x ∷ keep p xs else keep p xs)) fails m) in
      (there n, q)
]
  where
    kept :
        p x ≡ true
        → In a (x ∷ keep p xs)
        → (In a (keep p xs) → In a xs × (p a ≡ true))
        → In a (x ∷ xs) × (p a ≡ true)
    kept passes (here e) later = (here e, ap p e ∙ passes)
    kept passes (there n) later = let (k, q) = later n in (there k, q)

pub keep-In :
    {A : Type 0} (p : A → Bool) (xs : List A) {a : A} → In a xs → p a ≡ true → In a (keep p xs)
keep-In p [] m q = elim m [ ]
keep-In p (x ∷ xs) (here e) q = rw (sym (ap p e) ∙ q) (here e)
keep-In p (x ∷ xs) (there m) q = elim (Bool-cases (p x)) [
  | inl passes ↦ rw passes (there (keep-In p xs m q))
  | inr fails ↦ rw fails (keep-In p xs m q)
]
