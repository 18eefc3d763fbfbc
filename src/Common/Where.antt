-- ===== src/Common/Where.antt =====
-- Laws of `update_where` and `find_where`: a table and its statements.
use mathlib.Core.Option
use mathlib.Core.Bool.{Bool, true, false}
use mathlib.Core.List.{List, [], ◌∷◌, ◌++◌}
use mathlib.Core.Logic.{inl, inr}
use mathlib.Core.Option.{some, none}
use mathlib.Core.Path.{◌≡◌, refl}
use native.Mathlib.Omega.{arith}
use tg_guard_bot.Common.Lists.{update_where, find_where, All, any}
use tg_guard_bot.Common.Tests.{Bool-cases, if◌then◌else◌}

module _ {ℓ} {A : Type ℓ} where
  pub find_where-holds :
      (p : A → Bool) (xs : List A) {x : A} → find_where p xs ≡ some x → p x ≡ true
  find_where-holds p [] e = cc
  find_where-holds p (y ∷ ys) e = elim (Bool-cases (p y)) [
    | inl h ↦ ground (arith, h)
    | inr h ↦ find_where-holds p ys (ground arith)
  ]

  -- The updated row is found in the place of the old one.
  pub find-update_where :
      (p : A → Bool) (f : A → A) (xs : List A) {x : A}
      → ((y : A) → p y ≡ true → p (f y) ≡ true)
      → find_where p xs ≡ some x
      → find_where p (update_where p f xs) ≡ some (f x)
  find-update_where p f [] k e = cc
  find-update_where p f (y ∷ ys) {x = x} k e = elim (Bool-cases (p y)) [
    | inl h ↦ let same : y ≡ x = ground arith in rw (h, k y h, same)
    | inr h ↦ rw (h, h, find-update_where p f ys {x = x} k (ground arith))
  ]

  -- Rows that the update does not touch are found as before.
  pub find-update_other :
      (p q : A → Bool) (f : A → A) (xs : List A)
      → ((y : A) → p y ≡ true → q y ≡ false)
      → ((y : A) → p y ≡ true → q (f y) ≡ false)
      → find_where q (update_where p f xs) ≡ find_where q xs
  find-update_other p q f [] d d' = refl
  find-update_other p q f (y ∷ ys) d d' = elim (Bool-cases (p y)) [
    | inl h ↦ rw (h, d y h, d' y h, find-update_other p q f ys d d')
    | inr h ↦ rw (h, find-update_other p q f ys d d')
  ]

  -- A property that the update keeps holds of every row.
  pub All-update_where {κ} :
      (P : A → Type κ) (p : A → Bool) (f : A → A) (xs : List A)
      → ((y : A) → p y ≡ true → P y → P (f y))
      → All P xs
      → All P (update_where p f xs)
  All-update_where P p f [] k h = tt
  All-update_where P p f (y ∷ ys) k h = (head, All-update_where P p f ys k h.1)
    where
      go : (b : Bool) → p y ≡ b → P (if b then f y else y)
      go true e = k y e h.0
      go false e = h.0

      head : P (if p y then f y else y)
      head = go (p y) refl

  -- A row that satisfies `q` is still there when the changed rows keep it.
  pub any-update_where :
      (p : A → Bool) (f : A → A) (q : A → Bool) (xs : List A)
      → ((y : A) → p y ≡ true → q y ≡ true → q (f y) ≡ true)
      → any q xs ≡ true
      → any q (update_where p f xs) ≡ true
  any-update_where p f q [] k e = e
  any-update_where p f q (y ∷ ys) k e = elim (Bool-cases (p y)) [
    | inl h ↦ elim (Bool-cases (q y)) [
      | inl g ↦ rw (h, k y h g)
      | inr g ↦
          let rest = any-update_where p f q ys k (ground (arith, e, g)) in
          elim (Bool-cases (q (f y))) [ inl a ↦ rw (h, a) | inr a ↦ rw (h, a, rest) ]
    ]
    | inr h ↦ elim (Bool-cases (q y)) [
      | inl g ↦ rw (h, g)
      | inr g ↦ rw (h, g, any-update_where p f q ys k (ground (arith, e, g)))
    ]
  ]

  -- A row that satisfies `q` was there before when the change makes none.
  pub any-update_where_back :
      (p : A → Bool) (f : A → A) (q : A → Bool) (xs : List A)
      → ((y : A) → p y ≡ true → q (f y) ≡ true → q y ≡ true)
      → any q (update_where p f xs) ≡ true
      → any q xs ≡ true
  any-update_where_back p f q [] k e = e
  any-update_where_back p f q (y ∷ ys) k e = elim (Bool-cases (q y)) [
    | inl g ↦ rw g
    | inr g ↦ elim (Bool-cases (p y)) [
      | inr h ↦
          let below : any q (update_where p f ys) ≡ true = ground (arith, e, g, h) in
          rw (g, any-update_where_back p f q ys k below)
      | inl h ↦ elim (Bool-cases (q (f y))) [
        | inl a ↦ rw (k y h a)
        | inr a ↦
            let below : any q (update_where p f ys) ≡ true = ground (arith, e, a, h) in
            rw (g, any-update_where_back p f q ys k below)
      ]
    ]
  ]

  -- No row matches any more when the change makes every matching row another one.
  pub any-update_where_none :
      (p : A → Bool) (f : A → A) (xs : List A)
      → ((y : A) → p y ≡ true → p (f y) ≡ false)
      → any p (update_where p f xs) ≡ false
  any-update_where_none p f [] k = refl
  any-update_where_none p f (y ∷ ys) k = elim (Bool-cases (p y)) [
    | inl h ↦ rw (h, k y h, any-update_where_none p f ys k)
    | inr h ↦ rw (h, h, any-update_where_none p f ys k)
  ]

  -- The first row that matches, where the change keeps the match of every row.
  pub find-update_where_same :
      (p : A → Bool) (f : A → A) (xs : List A)
      → ((y : A) → p (f y) ≡ p y)
      → find_where p (update_where p f xs) ≡ Option.map f (find_where p xs)
  find-update_where_same p f [] k = refl
  find-update_where_same p f (y ∷ ys) k = elim (Bool-cases (p y)) [
    | inl h ↦ rw (h, k y, h)
    | inr h ↦ rw (h, h, find-update_where_same p f ys k)
  ]

  -- A matching row becomes one that satisfies `q`.
  pub any-update_where_hit :
      (p : A → Bool) (f : A → A) (q : A → Bool) (xs : List A)
      → ((y : A) → p y ≡ true → q (f y) ≡ true)
      → any p xs ≡ true
      → any q (update_where p f xs) ≡ true
  any-update_where_hit p f q [] k e = e
  any-update_where_hit p f q (y ∷ ys) k e = elim (Bool-cases (p y)) [
    | inl h ↦ rw (h, k y h)
    | inr h ↦
        let rest = any-update_where_hit p f q ys k (ground (arith, e, h)) in
        elim (Bool-cases (q y)) [ inl a ↦ rw (h, a) | inr a ↦ rw (h, a, rest) ]
  ]

  pub find-any : (p : A → Bool) (xs : List A) {x : A} → find_where p xs ≡ some x → any p xs ≡ true
  find-any p [] e = cc
  find-any p (y ∷ ys) {x} e = elim (Bool-cases (p y)) [
    | inl h ↦ rw h
    | inr h ↦ rw (h, find-any p ys {x = x} (ground (arith, e, h)))
  ]

  pub any-append : (p : A → Bool) (xs ys : List A) → any p xs ≡ true → any p (xs ++ ys) ≡ true
  any-append p [] ys e = cc
  any-append p (x ∷ xs) ys e = elim (Bool-cases (p x)) [
    | inl h ↦ rw h
    | inr h ↦ rw (h, any-append p xs ys (ground (arith, e, h)))
  ]

  pub any-find : (p : A → Bool) (xs : List A) → any p xs ≡ false → find_where p xs ≡ none
  any-find p [] e = refl
  any-find p (x ∷ xs) e = elim (Bool-cases (p x)) [
    | inl h ↦ ground (arith, e, h)
    | inr h ↦ rw (h, any-find p xs (ground (arith, e, h)))
  ]
