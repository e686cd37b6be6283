-- ===== src/Prelude/Counts.antt =====
-- Lists of numbers that hold the same items, by counting.
use Prim.Native.Nat.{ℕ, suc, ◌+◌, ◌≤◌}
use mathlib.Core.Path.{◌≡◌, refl, ap}
use mathlib.Core.Bool.{◌&&◌}
use mathlib.Core.Logic.{inl, inr}
use mathlib.Core.List.{List, [], ◌∷◌, map}
use native.Mathlib.Omega.{arith}
use python_fastapi_poc.Prelude.Tests.{◌==◌, ltb, leb, if◌then◌else◌, ==_iff, Bool-cases}
use python_fastapi_poc.Prelude.Lists.{length, count}

-- One occurrence taken out.
unfoldable pub erase : ℕ → List ℕ → List ℕ
erase x [] = []
erase x (y ∷ ys) = let rest = erase x ys in if y == x then ys else y ∷ rest

count-erase :
    (k x : ℕ) (ys : List ℕ)
    → 1 ≤ count x ys
    → count k (erase x ys) + (if x == k then 1 else 0) ≡ count k ys
unfolding count erase
count-erase k x [] h = omega arith
count-erase k x (y ∷ ys) h = ground (arith, count-erase k x ys)

length-erase : (x : ℕ) (ys : List ℕ) → 1 ≤ count x ys → length (erase x ys) + 1 ≡ length ys
unfolding count erase
length-erase x [] h = omega arith
length-erase x (y ∷ ys) h = ground (arith, length-erase x ys)

count-map-erase :
    (f : ℕ → ℕ) (k x : ℕ) (ys : List ℕ)
    → 1 ≤ count x ys
    → count k (map f (erase x ys)) + (if f x == k then 1 else 0) ≡ count k (map f ys)
unfolding count erase
count-map-erase f k x [] h = omega arith
count-map-erase f k x (y ∷ ys) h = elim (Bool-cases (y == x)) [
  | inl same ↦ ground (arith, ap f ((==_iff y x).0 same))
  | inr other ↦ ground (arith, count-map-erase f k x ys)
]

-- The index of a number in a list, counted from p.
unfoldable pub index_from : ℕ → List ℕ → ℕ → ℕ
index_from p [] x = p
index_from p (y ∷ ys) x = let rest = index_from (suc p) ys x in if y == x then p else rest

map-index_from-skip :
    (p y : ℕ) (ys xs : List ℕ)
    → count y xs ≡ 0
    → map (index_from p (y ∷ ys)) xs ≡ map (index_from (suc p) ys) xs
unfolding count index_from
map-index_from-skip p y ys [] h = refl
map-index_from-skip p y ys (x ∷ xs) h = ground (arith, map-index_from-skip p y ys xs)

-- The indices of a list without repetitions run from p.
pub count-map-index_from :
    (k p : ℕ) (xs : List ℕ)
    → ((j : ℕ) → count j xs ≤ 1)
    → count k (map (index_from p xs) xs) ≡ (if leb p k && ltb k (p + length xs) then 1 else 0)
unfolding count index_from
count-map-index_from k p [] h = ground arith
count-map-index_from k p (x ∷ xs) h = ground (
  arith,
  ap (count k) (map-index_from-skip p x xs xs (ground (arith, h x))),
  count-map-index_from k (suc p) xs (λ j. ground (arith, h j)),
)

-- A list that holds as much of everything, and is no longer, holds the same.
pub count-eq_of_le :
    (xs ys : List ℕ)
    → ((k : ℕ) → count k xs ≤ count k ys)
    → length ys ≡ length xs
    → (k : ℕ) → count k xs ≡ count k ys
unfolding count
count-eq_of_le [] [] h len k = refl
count-eq_of_le [] (y ∷ ys) h len k = omega arith
count-eq_of_le (x ∷ xs) ys h len k =
    let present : 1 ≤ count x ys = ground (arith, h x) in
    ground (
      arith,
      count-erase k x ys present,
      count-eq_of_le xs (erase x ys) (λ j. ground (arith, h j, count-erase j x ys present))
          (ground (arith, length-erase x ys present)) k,
    )

-- So do their images.
pub count-map_of_count :
    (f : ℕ → ℕ) (xs ys : List ℕ)
    → ((k : ℕ) → count k xs ≡ count k ys)
    → (k : ℕ) → count k (map f xs) ≡ count k (map f ys)
unfolding count
count-map_of_count f [] [] h k = refl
count-map_of_count f [] (y ∷ ys) h k = absurd (ground (arith, h y))
count-map_of_count f (x ∷ xs) ys h k =
    let present : 1 ≤ count x ys = ground (arith, h x) in
    ground (
      arith,
      count-map-erase f k x ys present,
      count-map_of_count f xs (erase x ys) (λ j. ground (arith, h j, count-erase j x ys present)) k,
    )
