-- ===== src/Prelude/Members.antt =====
-- Members of filtered lists, and what holds of the members of a list that passes a test.
use mathlib.Core.Bool.{false≢true}
use mathlib.Core.List.{Mem, mem-cons_self, mem-cons_of_mem, eq-or-mem_of_mem-cons, not-mem-nil}
use mathlib.Core.Logic.Or
use python_fastapi_poc.Prelude.{
  ◌≡◌, refl, sym, ap, ◌∙◌, subst, Bool, true, false, List, [], ◌∷◌, rows_where, all, if◌then◌else◌,
  ◌&&◌, ◌||◌, any, Bool-cases, inl, inr,
}

and-true : (b c : Bool) → (b && c) ≡ true → (b ≡ true) × (c ≡ true)
and-true true c h = (refl, h)
and-true false c h = absurd (false≢true h)

or-true : (b c : Bool) → c ≡ true → (b || c) ≡ true
or-true true c h = refl
or-true false c h = h

module _ {A : Type 0} where
  -- Membership of a filtered list, given the test of its head.
  Mem-kept :
      (p : A → Bool) (x y : A) (xs ys : List A) (b : Bool)
      → p y ≡ b
      → (Mem x ys → Mem x xs × (p x ≡ true))
      → Mem x (if b then y ∷ ys else ys)
      → Mem x (y ∷ xs) × (p x ≡ true)
  Mem-kept p x y xs ys true h rest m =
      Or.elim (hlevel) (eq-or-mem_of_mem-cons m)
        (λ e. (subst (λ z. Mem x (z ∷ xs)) e mem-cons_self, ap p e ∙ h))
        λ later. (mem-cons_of_mem y (rest later).0, (rest later).1)
  Mem-kept p x y xs ys false h rest m = (mem-cons_of_mem y (rest m).0, (rest m).1)

  pub Mem-rows_where :
      (p : A → Bool) (x : A) (xs : List A) → Mem x (rows_where p xs) → Mem x xs × (p x ≡ true)
  unfolding rows_where
  Mem-rows_where p x [] m = absurd (not-mem-nil m)
  Mem-rows_where p x (y ∷ xs) m =
      Mem-kept p x y xs (rows_where p xs) (p y) refl (Mem-rows_where p x xs) m

  Mem-keeps :
      (p : A → Bool) (x y : A) (xs ys : List A) (b : Bool)
      → p y ≡ b
      → p x ≡ true
      → (Mem x xs → Mem x ys)
      → Mem x (y ∷ xs)
      → Mem x (if b then y ∷ ys else ys)
  Mem-keeps p x y xs ys true h hx rest m =
      Or.elim (hlevel) (eq-or-mem_of_mem-cons m) (λ e. subst (λ z. Mem x (z ∷ ys)) e mem-cons_self)
        λ later. mem-cons_of_mem y (rest later)
  Mem-keeps p x y xs ys false h hx rest m =
      Or.elim (hlevel) (eq-or-mem_of_mem-cons m)
        (λ e. absurd (false≢true (sym h ∙ ap p (sym e) ∙ hx))) rest

  pub rows_where-Mem :
      (p : A → Bool) (x : A) (xs : List A) → p x ≡ true → Mem x xs → Mem x (rows_where p xs)
  unfolding rows_where
  rows_where-Mem p x [] h m = absurd (not-mem-nil m)
  rows_where-Mem p x (y ∷ xs) h m =
      Mem-keeps p x y xs (rows_where p xs) (p y) refl h (rows_where-Mem p x xs h) m

  pub all-Mem : (p : A → Bool) (x : A) (xs : List A) → all p xs ≡ true → Mem x xs → p x ≡ true
  unfolding all
  all-Mem p x [] h m = absurd (not-mem-nil m)
  all-Mem p x (y ∷ xs) h m =
      let (here, rest) = and-true (p y) (all p xs) h in
      Or.elim (hlevel) (eq-or-mem_of_mem-cons m) (λ e. ap p e ∙ here) (all-Mem p x xs rest)

  pub any-Mem : (p : A → Bool) (xs : List A) → any p xs ≡ true → (x : A) × Mem x xs × (p x ≡ true)
  unfolding any
  any-Mem p [] h = absurd (false≢true h)
  any-Mem p (x ∷ xs) h = elim (Bool-cases (p x)) [
    | inl here ↦ (x, mem-cons_self, here)
    | inr elsewhere ↦
        let (y, m, found) = any-Mem p xs (ap (λ b. b || any p xs) (sym elsewhere) ∙ h) in
        (y, mem-cons_of_mem x m, found)
  ]

  pub Mem-any : (p : A → Bool) (x : A) (xs : List A) → Mem x xs → p x ≡ true → any p xs ≡ true
  unfolding any
  Mem-any p x [] m h = absurd (not-mem-nil m)
  Mem-any p x (y ∷ xs) m h =
      Or.elim (hlevel) (eq-or-mem_of_mem-cons m) (λ e. ap (λ b. b || any p xs) (sym (ap p e) ∙ h))
        λ later. or-true (p y) (any p xs) (Mem-any p x xs later h)
