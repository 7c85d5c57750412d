-- ===== src/Dashboard/Sorting.antt =====
-- `sort` of the source's arrays, which is stable: an item goes before the first one of the rest
-- that the comparison does not put before it.
use scholarmatch_ai.Base.{
  Bool, true, false, List, [], ◌∷◌, ◌≡◌, if◌then◌else◌, In, here, there, All, Bool-cases, inl, inr,
}
use mathlib.Core.Path.{subst}
use mathlib.Core.List.{Perm}
use mathlib.Core.List.Perm

module _ {A : Type 0} (le : A → A → Bool) where
  abbrev pub insert : A → List A → List A
  insert x [] = x ∷ []
  insert x (y ∷ ys) = if le x y then x ∷ (y ∷ ys) else y ∷ insert x ys

  abbrev pub sort : List A → List A
  sort [] = []
  sort (x ∷ xs) = insert x (sort xs)

  pub insert-Perm : (x : A) (ys : List A) → Perm (insert x ys) (x ∷ ys)
  insert-Perm x [] = Perm.refl (x ∷ [])
  insert-Perm x (y ∷ ys) = elim (Bool-cases (le x y)) [
    | inl before ↦ rw before (Perm.refl (x ∷ y ∷ ys))
    | inr after ↦ rw after (Perm.trans (Perm.cons y (insert-Perm x ys)) (Perm.swap x y ys))
  ]

  pub sort-Perm : (xs : List A) → Perm (sort xs) xs
  sort-Perm [] = Perm.nil
  sort-Perm (x ∷ xs) = Perm.trans (insert-Perm x (sort xs)) (Perm.cons x (sort-Perm xs))

  In-insert : {a : A} (x : A) (ys : List A) → In a (insert x ys) → In a (x ∷ ys)
  In-insert x [] m = m
  In-insert {a} x (y ∷ ys) m = elim (Bool-cases (le x y)) [
    | inl before ↦ subst (λ b. In a (if b then x ∷ (y ∷ ys) else y ∷ insert x ys)) before m
    | inr after ↦
        past (subst (λ b. In a (if b then x ∷ (y ∷ ys) else y ∷ insert x ys)) after m)
          (In-insert x ys)
  ]
    where
      past : In a (y ∷ insert x ys) → (In a (insert x ys) → In a (x ∷ ys)) → In a (x ∷ (y ∷ ys))
      past (here e) ih = there (here e)
      past (there n) ih = elim (ih n) [ here e ↦ here e | there k ↦ there (there k) ]

  pub In-sort : {a : A} (xs : List A) → In a (sort xs) → In a xs
  In-sort [] m = m
  In-sort (x ∷ xs) m = elim (In-insert x (sort xs) m) [
    | here e ↦ here e
    | there n ↦ there (In-sort xs n)
  ]

  insert-In : {a : A} (x : A) (ys : List A) → In a (x ∷ ys) → In a (insert x ys)
  insert-In x [] m = m
  insert-In {a} x (y ∷ ys) m = elim (Bool-cases (le x y)) [
    | inl before ↦ rw before m
    | inr after ↦ rw after (past m (insert-In x ys))
  ]
    where
      past : In a (x ∷ (y ∷ ys)) → (In a (x ∷ ys) → In a (insert x ys)) → In a (y ∷ insert x ys)
      past (here e) ih = there (ih (here e))
      past (there (here e)) ih = here e
      past (there (there k)) ih = there (ih (there k))

  pub sort-In : {a : A} (xs : List A) → In a xs → In a (sort xs)
  sort-In [] m = m
  sort-In (x ∷ xs) (here e) = insert-In x (sort xs) (here e)
  sort-In (x ∷ xs) (there m) = insert-In x (sort xs) (there (sort-In xs m))

  -- Every item stands before all the later ones.
  abbrev pub IsOrdered : List A → Type 0
  IsOrdered [] = Unit
  IsOrdered (x ∷ xs) = All (λ y. le x y ≡ true) xs × IsOrdered xs

  pub insert-All : (Q : A → Type 0) (x : A) (ys : List A) → Q x → All Q ys → All Q (insert x ys)
  insert-All Q x [] q h = (q, tt)
  insert-All Q x (y ∷ ys) q (p, h) = elim (Bool-cases (le x y)) [
    | inl before ↦ rw before (q, (p, h))
    | inr after ↦ rw after (p, insert-All Q x ys q h)
  ]

  sort-All : (Q : A → Type 0) (xs : List A) → All Q xs → All Q (sort xs)
  sort-All Q [] h = tt
  sort-All Q (x ∷ xs) (q, h) = insert-All Q x (sort xs) q (sort-All Q xs h)

  -- The comparison is transitive on the items that have a property, and total.
  module _ (P : A → Type 0) (total : (x y : A) → le x y ≡ false → le y x ≡ true)
      (trans : (x y z : A) → P x → P y → P z → le x y ≡ true → le y z ≡ true → le x z ≡ true) where
    below-All :
        (x y : A) (ys : List A)
        → P x
        → P y
        → All P ys
        → le x y ≡ true
        → All (λ z. le y z ≡ true) ys
        → All (λ z. le x z ≡ true) ys
    below-All x y [] px py ps xy h = tt
    below-All x y (z ∷ ys) px py (pz, ps) xy (yz, h) =
        (trans x y z px py pz xy yz, below-All x y ys px py ps xy h)

    insert-IsOrdered :
        (x : A) (ys : List A) → P x → All P ys → IsOrdered ys → IsOrdered (insert x ys)
    insert-IsOrdered x [] px ps h = (tt, tt)
    insert-IsOrdered x (y ∷ ys) px (py, ps) (first, h) = elim (Bool-cases (le x y)) [
      | inl before ↦ rw before ((before, below-All x y ys px py ps before first), (first, h))
      | inr after ↦ rw after (
        insert-All (λ z. le y z ≡ true) x ys (total x y after) first,
        insert-IsOrdered x ys px ps h,
      )
    ]

    pub sort-IsOrdered : (xs : List A) → All P xs → IsOrdered (sort xs)
    sort-IsOrdered [] h = tt
    sort-IsOrdered (x ∷ xs) (p, h) =
        insert-IsOrdered x (sort xs) p (sort-All P xs h) (sort-IsOrdered xs h)
