-- ===== src/Samples/Server.antt =====
-- A server to run the model on: insertion sort, keys above all that are in use, a clock that counts
-- its readings, no failures, and crontabs of one form.
use Prim.Native.Char.{code}
use mathlib.Core.HLevel.{⊥_prop}
use mathlib.Core.Logic.Or
use mathlib.Core.List.Perm
use mathlib.Core.List.{Perm, Mem, eq-or-mem_of_mem-cons, not-mem-nil}
use python_fastapi_poc.Prelude.{
  ℕ, suc, ◌+◌, ◌≤◌, Bool, false, none, List, [], ◌∷◌, map, leb, if◌then◌else◌, str_eq, ◌==◌, String,
  All, arith, Bool-cases, inl, inr,
}
use python_fastapi_poc.Env.{Env, IsSorted, IsSortedDesc}

module _ {A : Type 0} (before : A → A → Bool) where
  abbrev place : A → List A → List A
  place x [] = x ∷ []
  place x (y ∷ ys) = let rest = place x ys in if before x y then x ∷ y ∷ ys else y ∷ rest

  abbrev pub sort : List A → List A
  sort [] = []
  sort (x ∷ xs) = place x (sort xs)

  place-Perm : (x : A) (ys : List A) → Perm (place x ys) (x ∷ ys)
  place-Perm x [] = Perm.refl (x ∷ [])
  place-Perm x (y ∷ ys) = elim (Bool-cases (before x y)) [
    | inl e ↦ rw e (Perm.refl (x ∷ y ∷ ys))
    | inr e ↦ rw e (Perm.trans (Perm.cons y (place-Perm x ys)) (Perm.swap x y ys))
  ]

  pub sort-Perm : (xs : List A) → Perm (sort xs) xs
  sort-Perm [] = Perm.nil
  sort-Perm (x ∷ xs) = Perm.trans (place-Perm x (sort xs)) (Perm.cons x (sort-Perm xs))

module _ {A : Type 0} (key : A → ℕ) where
  abbrev pub up : A → A → Bool
  up x y = leb (key x) (key y)

  abbrev pub down : A → A → Bool
  down x y = leb (key y) (key x)

  All-place-up :
      (b : ℕ) (x : A) (ys : List A)
      → b ≤ key x
      → All (λ n. b ≤ n) (map key ys)
      → All (λ n. b ≤ n) (map key (place up x ys))
  All-place-up b x [] h hs = (h, tt)
  All-place-up b x (y ∷ ys) h hs = elim (Bool-cases (up x y)) [
    | inl e ↦ rw e (h, hs)
    | inr e ↦ rw e (hs.0, All-place-up b x ys h hs.1)
  ]

  All-weaken_up : (b c : ℕ) (ns : List ℕ) → b ≤ c → All (λ n. c ≤ n) ns → All (λ n. b ≤ n) ns
  All-weaken_up b c [] h hs = tt
  All-weaken_up b c (n ∷ ns) h hs = (ground arith, All-weaken_up b c ns h hs.1)

  place-up-IsSorted :
      (x : A) (ys : List A) → IsSorted (map key ys) → IsSorted (map key (place up x ys))
  place-up-IsSorted x [] h = (tt, tt)
  place-up-IsSorted x (y ∷ ys) h = elim (Bool-cases (up x y)) [
    | inl e ↦
        rw e ((ground arith, All-weaken_up (key x) (key y) (map key ys) (ground arith) h.0), h)
    | inr e ↦ rw e (All-place-up (key y) x ys (ground arith) h.0, place-up-IsSorted x ys h.1)
  ]

  pub sort-up-IsSorted : (xs : List A) → IsSorted (map key (sort up xs))
  sort-up-IsSorted [] = tt
  sort-up-IsSorted (x ∷ xs) = place-up-IsSorted x (sort up xs) (sort-up-IsSorted xs)

  All-place-down :
      (b : ℕ) (x : A) (ys : List A)
      → key x ≤ b
      → All (λ n. n ≤ b) (map key ys)
      → All (λ n. n ≤ b) (map key (place down x ys))
  All-place-down b x [] h hs = (h, tt)
  All-place-down b x (y ∷ ys) h hs = elim (Bool-cases (down x y)) [
    | inl e ↦ rw e (h, hs)
    | inr e ↦ rw e (hs.0, All-place-down b x ys h hs.1)
  ]

  All-weaken_down : (b c : ℕ) (ns : List ℕ) → c ≤ b → All (λ n. n ≤ c) ns → All (λ n. n ≤ b) ns
  All-weaken_down b c [] h hs = tt
  All-weaken_down b c (n ∷ ns) h hs = (ground arith, All-weaken_down b c ns h hs.1)

  place-down-IsSortedDesc :
      (x : A) (ys : List A) → IsSortedDesc (map key ys) → IsSortedDesc (map key (place down x ys))
  place-down-IsSortedDesc x [] h = (tt, tt)
  place-down-IsSortedDesc x (y ∷ ys) h = elim (Bool-cases (down x y)) [
    | inl e ↦
        rw e ((ground arith, All-weaken_down (key x) (key y) (map key ys) (ground arith) h.0), h)
    | inr e ↦
        rw e (All-place-down (key y) x ys (ground arith) h.0, place-down-IsSortedDesc x ys h.1)
  ]

  pub sort-down-IsSortedDesc : (xs : List A) → IsSortedDesc (map key (sort down xs))
  sort-down-IsSortedDesc [] = tt
  sort-down-IsSortedDesc (x ∷ xs) =
      place-down-IsSortedDesc x (sort down xs) (sort-down-IsSortedDesc xs)

-- One more than the sum of the keys in use is no key in use.
abbrev pub above : ℕ → List ℕ → ℕ
above b [] = suc b
above b (n ∷ ns) = above (b + n) ns

above-lt : (b : ℕ) (ns : List ℕ) → suc b ≤ above b ns
above-lt b [] = ground arith
above-lt b (n ∷ ns) = ground (arith, above-lt (b + n) ns)

pub above-fresh : (b : ℕ) (ns : List ℕ) → ¬ Mem (above b ns) ns
above-fresh b [] m = not-mem-nil m
above-fresh b (n ∷ ns) m =
    Or.elim ⊥_prop (eq-or-mem_of_mem-cons m) (λ e. ground (arith, above-lt (b + n) ns))
      (above-fresh (b + n) ns)

-- A text that begins with a star.
unfoldable pub is_starred : String → Bool
is_starred String.[] = false
is_starred (String.◌∷◌ c s) = code c == 42

abbrev pub server : Env
server = record {
  asc = λ A key. sort (up key);
  desc = λ A key. sort (down key);
  asc-perm = λ A key. sort-Perm (up key);
  asc-IsSorted = λ A key. sort-up-IsSorted key;
  desc-perm = λ A key. sort-Perm (down key);
  desc-IsSortedDesc = λ A key. sort-down-IsSortedDesc key;
  new_id = λ n. above 0;
  new_id-fresh = λ n. above-fresh 0;
  fails = λ n. false;
  now = λ n. 1000 + n;
  is_crontab = is_starred;
  timedelta_overflows = λ n. false;
  sleep_overflows = λ n. false;
  int_of_str = λ s. none;
  float_str = λ f. "0.5";
  float_eq = ◌==◌;
  float_eq_int = λ f n. false;
  lower = λ s. s;
  ilike = str_eq;
}
