-- ===== src/Common/Sort.antt =====
-- sort.Slice as an interface: it promises a permutation that its order sorts, and no order among
-- equals. An insertion sort shows that the promise can be kept.
use Prim.Native.Nat.{suc}
use catalyst_forge_libs.Common.Lists.{All, In, length}
use catalyst_forge_libs.Common.Tests.{if◌then◌else◌, Bool-cases}
use mathlib.Core.Bool.{Bool, true, false, false≢true}
use mathlib.Core.List.{List, [], ◌∷◌}
use mathlib.Core.Logic.{inl, inr}
use mathlib.Core.Path.{◌≡◌, refl, sym, ap, ◌∙◌}

-- One list is a rearrangement of the other.
pub data Shuffle {A : Type 0} : List A → List A → Type 0 where
  done : Shuffle [] []
  keep : {xs ys : List A} (x : A) → Shuffle xs ys → Shuffle (x ∷ xs) (x ∷ ys)
  swap : (x y : A) (xs : List A) → Shuffle (x ∷ y ∷ xs) (y ∷ x ∷ xs)
  chain : {xs ys zs : List A} → Shuffle xs ys → Shuffle ys zs → Shuffle xs zs

-- No element is less than one before it.
abbrev pub IsOrdered : {A : Type 0} → (A → A → Bool) → List A → Type 0
IsOrdered less [] = Unit
IsOrdered less (x ∷ xs) = All (λ y. less y x ≡ false) xs × IsOrdered less xs

-- What sort.Slice asks of its order.
pub record IsOrder {A : Type 0} (less : A → A → Bool) : Type 0 where
  pub irreflexive : (a : A) → less a a ≡ false
  pub transitive : (a b c : A) → less a b ≡ true → less b c ≡ true → less a c ≡ true
  pub negative : (a b c : A) → less a b ≡ false → less b c ≡ false → less a c ≡ false

-- sort.Slice at the elements `A`.
pub record SortSlice (A : Type 0) : Type 0 where
  pub sort : (A → A → Bool) → List A → List A
  pub shuffles : (less : A → A → Bool) (xs : List A) → Shuffle (sort less xs) xs
  pub orders : (less : A → A → Bool) → IsOrder less → (xs : List A) → IsOrdered less (sort less xs)

module _ {A : Type 0} where
  pub Shuffle-refl : (xs : List A) → Shuffle xs xs
  Shuffle-refl [] = done
  Shuffle-refl (x ∷ xs) = keep x (Shuffle-refl xs)

  pub Shuffle-sym : {xs ys : List A} → Shuffle xs ys → Shuffle ys xs
  Shuffle-sym done = done
  Shuffle-sym (keep x s) = keep x (Shuffle-sym s)
  Shuffle-sym (swap x y xs) = swap y x xs
  Shuffle-sym (chain s t) = chain (Shuffle-sym t) (Shuffle-sym s)

  pub Shuffle-In : {xs ys : List A} (a : A) → Shuffle xs ys → In a xs → In a ys
  Shuffle-In a done h = h
  Shuffle-In a (keep x s) (inl e) = inl e
  Shuffle-In a (keep x s) (inr h) = inr (Shuffle-In a s h)
  Shuffle-In a (swap x y xs) (inl e) = inr (inl e)
  Shuffle-In a (swap x y xs) (inr (inl e)) = inl e
  Shuffle-In a (swap x y xs) (inr (inr h)) = inr (inr h)
  Shuffle-In a (chain s t) h = Shuffle-In a t (Shuffle-In a s h)

  pub All-In : (P : A → Type 0) (xs : List A) (a : A) → All P xs → In a xs → P a
  All-In P [] a h m = elim m [ ]
  All-In P (x ∷ xs) a h (inl e) = rw e h.0
  All-In P (x ∷ xs) a h (inr m) = All-In P xs a h.1 m

  pub All-of_In : (P : A → Type 0) (xs : List A) → ((a : A) → In a xs → P a) → All P xs
  All-of_In P [] h = tt
  All-of_In P (x ∷ xs) h = (h x (inl refl), All-of_In P xs (λ a m. h a (inr m)))

  pub length-Shuffle : {xs ys : List A} → Shuffle xs ys → length xs ≡ length ys
  length-Shuffle done = refl
  length-Shuffle (keep x s) = ap suc (length-Shuffle s)
  length-Shuffle (swap x y xs) = refl
  length-Shuffle (chain s t) = length-Shuffle s ∙ length-Shuffle t

  pub Shuffle-All : (P : A → Type 0) {xs ys : List A} → Shuffle xs ys → All P xs → All P ys
  Shuffle-All P {xs} {ys} s h =
      All-of_In P ys (λ a m. All-In P xs a h (Shuffle-In a (Shuffle-sym s) m))

module _ {A : Type 0} (less : A → A → Bool) where
  unfoldable pub insert_sorted : A → List A → List A
  insert_sorted x [] = x ∷ []
  insert_sorted x (y ∷ ys) = if less y x then y ∷ insert_sorted x ys else x ∷ y ∷ ys

  unfoldable pub insertion_sort : List A → List A
  unfolding insert_sorted
  insertion_sort [] = []
  insertion_sort (x ∷ xs) = insert_sorted x (insertion_sort xs)

  insert_sorted-Shuffle : (x : A) (ys : List A) → Shuffle (insert_sorted x ys) (x ∷ ys)
  unfolding insert_sorted
  insert_sorted-Shuffle x [] = Shuffle-refl (x ∷ [])
  insert_sorted-Shuffle x (y ∷ ys) = elim (Bool-cases (less y x)) [
    | inl before ↦ rw before (chain (keep y (insert_sorted-Shuffle x ys)) (swap y x ys))
    | inr after ↦ rw after (Shuffle-refl (x ∷ y ∷ ys))
  ]

  pub insertion_sort-Shuffle : (xs : List A) → Shuffle (insertion_sort xs) xs
  unfolding insertion_sort
  insertion_sort-Shuffle [] = done
  insertion_sort-Shuffle (x ∷ xs) =
      chain (insert_sorted-Shuffle x (insertion_sort xs)) (keep x (insertion_sort-Shuffle xs))

  module _ (order : IsOrder less) where
    asymmetric : (a b : A) → less a b ≡ true → less b a ≡ false
    asymmetric a b h = elim (Bool-cases (less b a)) [
      | inl back ↦ absurd (false≢true (sym (order.irreflexive a) ∙ order.transitive a b a h back))
      | inr fine ↦ fine
    ]

    All-weaken :
        (x y : A) (ys : List A)
        → less y x ≡ false
        → All (λ z. less z y ≡ false) ys
        → All (λ z. less z x ≡ false) ys
    All-weaken x y [] h all = tt
    All-weaken x y (z ∷ ys) h all = (order.negative z y x all.0 h, All-weaken x y ys h all.1)

    insert_sorted-IsOrdered :
        (x : A) (ys : List A) → IsOrdered less ys → IsOrdered less (insert_sorted x ys)
    unfolding insert_sorted
    insert_sorted-IsOrdered x [] h = (tt, tt)
    insert_sorted-IsOrdered x (y ∷ ys) h = elim (Bool-cases (less y x)) [
      | inl before ↦ rw before (
        Shuffle-All (λ z. less z y ≡ false) (Shuffle-sym (insert_sorted-Shuffle x ys))
            (asymmetric y x before, h.0),
        insert_sorted-IsOrdered x ys h.1,
      )
      | inr after ↦ rw after ((after, All-weaken x y ys after h.0), h)
    ]

    pub insertion_sort-IsOrdered : (xs : List A) → IsOrdered less (insertion_sort xs)
    unfolding insertion_sort
    insertion_sort-IsOrdered [] = tt
    insertion_sort-IsOrdered (x ∷ xs) =
        insert_sorted-IsOrdered x (insertion_sort xs) (insertion_sort-IsOrdered xs)

abbrev pub by_insertion : (A : Type 0) → SortSlice A
by_insertion A = record {
  sort = insertion_sort;
  shuffles = insertion_sort-Shuffle;
  orders = insertion_sort-IsOrdered;
}
