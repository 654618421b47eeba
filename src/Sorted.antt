-- ===== src/Sorted.antt =====
-- `BTreeMap` and `BTreeSet` of the standard library: lists in the strict order of their keys. An
-- entry of a map is a pair that is compared by its key.
use vibesurfer.Prelude.{
  Bool, true, false, List, [], ◌∷◌, ◌++◌, ◌≡◌, refl, ◌∙◌, if◌then◌else◌, All, append_assoc,
  append-nil,
}

module _ {ℓ} {A : Type ℓ} (lt : A → A → Bool) where
  -- An entry with an equal key is replaced.
  unfoldable pub insert : A → List A → List A
  insert x [] = x ∷ []
  insert x (y ∷ ys) =
      let later = y ∷ insert x ys in if lt x y then x ∷ y ∷ ys else if lt y x then later else x ∷ ys

  unfoldable pub insert_all : List A → List A → List A
  insert_all [] ys = ys
  insert_all (x ∷ xs) ys = insert_all xs (insert x ys)

  abbrev pub IsSorted : List A → Type ℓ
  IsSorted [] = Unit
  IsSorted (x ∷ xs) = All (λ y. lt x y ≡ true) xs × IsSorted xs

  abbrev pub Asymmetric : Type ℓ
  Asymmetric = (x y : A) → lt x y ≡ true → lt y x ≡ false

module _ {ℓ} {A : Type ℓ} (lt : A → A → Bool) (asym : Asymmetric lt) where
  insert-last : (x : A) (ys : List A) → All (λ y. lt y x ≡ true) ys → insert lt x ys ≡ ys ++ x ∷ []
  unfolding insert
  insert-last x [] h = refl
  insert-last x (y ∷ ys) h = rw (asym y x h.0, h.0, insert-last x ys h.1)

  All-here : (x y : A) (xs ys : List A) → All (λ z. lt x z ≡ true) (xs ++ y ∷ ys) → lt x y ≡ true
  All-here x y [] ys h = h.0
  All-here x y (z ∷ xs) ys h = All-here x y xs ys h.1

  IsSorted-before :
      (x : A) (xs ys : List A) → IsSorted lt (xs ++ x ∷ ys) → All (λ y. lt y x ≡ true) xs
  IsSorted-before x [] ys h = tt
  IsSorted-before x (y ∷ xs) ys h = (All-here y x xs ys h.0, IsSorted-before x xs ys h.1)

  insert_all-append : (xs ys : List A) → IsSorted lt (ys ++ xs) → insert_all lt xs ys ≡ ys ++ xs
  unfolding insert_all
  insert_all-append [] ys h = rw append-nil
  insert_all-append (x ∷ xs) ys h =
      rw (insert-last x ys (IsSorted-before x ys xs h))
        (insert_all-append xs (ys ++ x ∷ []) (rw append_assoc h) ∙ rw append_assoc)

  -- Inserting the entries of a sorted list one after the other rebuilds it.
  pub insert_all_sorted : (xs : List A) → IsSorted lt xs → insert_all lt xs [] ≡ xs
  insert_all_sorted xs h = insert_all-append xs [] h
