-- ===== src/Ports/Sort.antt =====
-- sort.Ints by insertion, and ascending lists of ports told apart by their members alone.
use rtp_stream_cleaner.Prelude.{
  ℕ, suc, ◌≤◌, ◌<◌, ◌≡◌, refl, ◌∙◌, Bool, false, ◌||◌, List, [], ◌∷◌, ◌++◌, leb, ◌==◌,
  if◌then◌else◌, arith,
}

unfoldable pub insert : ℕ → List ℕ → List ℕ
insert x [] = x ∷ []
insert x (y ∷ ys) = if leb x y then x ∷ y ∷ ys else y ∷ insert x ys

unfoldable pub sort_ints : List ℕ → List ℕ
unfolding insert
sort_ints [] = []
sort_ints (x ∷ xs) = insert x (sort_ints xs)

abbrev pub elem : ℕ → List ℕ → Bool
elem a [] = false
elem a (x ∷ xs) = a == x || elem a xs

-- Strictly ascending, from `low` on.
abbrev pub Ascending : ℕ → List ℕ → Type 0
Ascending low [] = Unit {0}
Ascending low (x ∷ xs) = (low ≤ x) × Ascending (suc x) xs

abbrev pub Distinct : List ℕ → Type 0
Distinct [] = Unit {0}
Distinct (x ∷ xs) = (elem x xs ≡ false) × Distinct xs

-- Every member is at least `low`.
abbrev pub From : ℕ → List ℕ → Type 0
From low [] = Unit {0}
From low (x ∷ xs) = (low ≤ x) × From low xs

pub elem-append : (a : ℕ) (xs ys : List ℕ) → elem a (xs ++ ys) ≡ (elem a xs || elem a ys)
elem-append a [] ys = refl
elem-append a (x ∷ xs) ys = ground (arith, elem-append a xs ys)

elem-insert : (a x : ℕ) (xs : List ℕ) → elem a (insert x xs) ≡ (a == x || elem a xs)
unfolding insert
elem-insert a x [] = refl
elem-insert a x (y ∷ ys) = ground (arith, elem-insert a x ys)

pub elem-sort_ints : (a : ℕ) (xs : List ℕ) → elem a (sort_ints xs) ≡ elem a xs
unfolding sort_ints
elem-sort_ints a [] = refl
elem-sort_ints a (x ∷ xs) = ground (arith, elem-insert a x (sort_ints xs), elem-sort_ints a xs)

pub Ascending-mono : (m n : ℕ) (xs : List ℕ) → m ≤ n → Ascending n xs → Ascending m xs
Ascending-mono m n [] h s = tt
Ascending-mono m n (x ∷ xs) h s = (omega arith, s.1)

pub elem_below : (a low : ℕ) (xs : List ℕ) → Ascending low xs → a < low → elem a xs ≡ false
elem_below a low [] s h = refl
elem_below a low (x ∷ xs) s h = ground (arith, elem_below a (suc x) xs s.1)

insert-Ascending :
    (low x : ℕ) (xs : List ℕ)
    → low ≤ x
    → elem x xs ≡ false
    → Ascending low xs
    → Ascending low (insert x xs)
unfolding insert
insert-Ascending low x [] h new s = (h, tt)
insert-Ascending low x (y ∷ ys) h new s =
    ground (arith, insert-Ascending (suc y) x ys, Ascending-mono (suc x) (suc y) ys)

-- Sorting distinct numbers gives a strictly ascending list.
pub sort_ints-Ascending :
    (low : ℕ) (xs : List ℕ) → From low xs → Distinct xs → Ascending low (sort_ints xs)
unfolding sort_ints
sort_ints-Ascending low [] f d = tt
sort_ints-Ascending low (x ∷ xs) f d =
    insert-Ascending low x (sort_ints xs) f.0 (elem-sort_ints x xs ∙ d.0)
      (sort_ints-Ascending low xs f.1 d.1)

pub Ascending-Distinct : (low : ℕ) (xs : List ℕ) → Ascending low xs → Distinct xs
Ascending-Distinct low [] s = tt
Ascending-Distinct low (x ∷ xs) s =
    (elem_below x (suc x) xs s.1 (omega arith), Ascending-Distinct (suc x) xs s.1)

pub Ascending-From : (low n : ℕ) (xs : List ℕ) → low ≤ n → Ascending n xs → From low xs
Ascending-From low n [] h s = tt
Ascending-From low n (x ∷ xs) h s = (omega arith, Ascending-From low (suc x) xs (omega arith) s.1)

-- An ascending list is determined by its members.
pub Ascending-ext :
    (low : ℕ) (xs ys : List ℕ)
    → Ascending low xs
    → Ascending low ys
    → ((a : ℕ) → elem a xs ≡ elem a ys)
    → xs ≡ ys
Ascending-ext low [] [] s t h = refl
Ascending-ext low [] (y ∷ ys) s t h = ground (arith, h y)
Ascending-ext low (x ∷ xs) [] s t h = ground (arith, h x)
Ascending-ext low (x ∷ xs) (y ∷ ys) s t h =
    let e : x ≡ y =
      ground (arith, h x, h y, elem_below x (suc y) ys t.1, elem_below y (suc x) xs s.1) in
    let rest : xs ≡ ys =
      Ascending-ext (suc x) xs ys s.1 (Ascending-mono (suc x) (suc y) ys (omega arith) t.1)
        (λ a. ground (arith, h a, elem_below a (suc x) xs s.1, elem_below a (suc y) ys t.1)) in
    cc
