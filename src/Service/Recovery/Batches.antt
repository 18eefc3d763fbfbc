-- ===== src/Service/Recovery/Batches.antt =====
-- The batches of the recovery: each group has one, with its items in order.
use mathlib.Core.List.{append-nil, append_assoc}
use tg_guard_bot.Common.{
  true, List, ◌∷◌, [], refl, Bool, false, eq_ℤ, any, ◌≡◌, ℤ, ◌++◌, if◌then◌else◌, ◌∙◌, arith,
  Bool-cases, ap, eq_ℤ_iff, inr, eq_ℤ_sym, sym, inl,
}
use tg_guard_bot.Service.Recovery.{push, batches_from}

-- Two groups that differ are not both the same third one.
other : (id j k : ℤ) → eq_ℤ k j ≡ false → eq_ℤ k id ≡ true → eq_ℤ j id ≡ false
other id j k e f = elim (Bool-cases (eq_ℤ j id)) [
  | inr g ↦ g
  | inl g ↦ let same = (eq_ℤ_iff k id).0 f ∙ sym ((eq_ℤ_iff j id).0 g) in cc ((eq_ℤ_iff k j).1 same)
]

module _ {T : Type 0} where
  -- The items of a group.
  abbrev pub batch_of : ℤ → List (ℤ × List T) → List T
  batch_of id [] = []
  batch_of id ((j, ys) ∷ bs) = if eq_ℤ j id then ys else batch_of id bs

  abbrev pub items_of : (T → ℤ) → ℤ → List T → List T
  items_of group id [] = []
  items_of group id (x ∷ xs) =
      if eq_ℤ (group x) id then x ∷ items_of group id xs else items_of group id xs

  abbrev pub has_batch : ℤ → List (ℤ × List T) → Bool
  has_batch id bs = any (λ p. eq_ℤ p.0 id) bs

  -- No group has two batches.
  pub SingleBatches : List (ℤ × List T) → Type 0
  SingleBatches [] = Unit
  SingleBatches ((j, ys) ∷ bs) = (has_batch j bs ≡ false) × SingleBatches bs

  batch_of-push :
      (id j : ℤ) (x : T) (bs : List (ℤ × List T))
      → batch_of id (push j x bs) ≡ (if eq_ℤ j id then batch_of id bs ++ x ∷ [] else batch_of id bs)
  unfolding push
  batch_of-push id j x [] = refl
  batch_of-push id j x ((k, ys) ∷ bs) =
      let ih = batch_of-push id j x bs in
      elim (Bool-cases (eq_ℤ k j)) [
        | inl e ↦
            let same : eq_ℤ j id ≡ eq_ℤ k id = ap (λ z. eq_ℤ z id) (sym ((eq_ℤ_iff k j).0 e)) in
            elim (Bool-cases (eq_ℤ k id)) [ inl f ↦ rw (e, same, f) | inr f ↦ rw (e, same, f) ]
        | inr e ↦ elim (Bool-cases (eq_ℤ k id)) [
          | inl f ↦ rw (e, other id j k e f, f)
          | inr f ↦ rw (e, f, ih)
        ]
      ]

  batch_of-batches :
      (group : T → ℤ) (id : ℤ) (xs : List T) (bs : List (ℤ × List T))
      → batch_of id (batches_from group xs bs) ≡ batch_of id bs ++ items_of group id xs
  unfolding batches_from
  batch_of-batches group id [] bs = sym (append-nil (batch_of id bs))
  batch_of-batches group id (x ∷ xs) bs =
      let ih = batch_of-batches group id xs (push (group x) x bs) in
      let step = batch_of-push id (group x) x bs in
      elim (Bool-cases (eq_ℤ (group x) id)) [
        | inl e ↦ rw (ih, step, e) (append_assoc (batch_of id bs) (x ∷ []) (items_of group id xs))
        | inr e ↦ rw (ih, step, e)
      ]

  has_batch-push :
      (i id : ℤ) (x : T) (bs : List (ℤ × List T))
      → eq_ℤ id i ≡ false
      → has_batch i bs ≡ false
      → has_batch i (push id x bs) ≡ false
  unfolding push
  has_batch-push i id x [] h k = ground (arith, h)
  has_batch-push i id x ((j, ys) ∷ bs) h k = elim (Bool-cases (eq_ℤ j id)) [
    | inl e ↦ rw e k
    | inr e ↦
        let rest = has_batch-push i id x bs h (ground (arith, k)) in
        rw (e, rest) (ground (arith, k))
  ]

  push-SingleBatches :
      (id : ℤ) (x : T) (bs : List (ℤ × List T)) → SingleBatches bs → SingleBatches (push id x bs)
  unfolding push SingleBatches
  push-SingleBatches id x [] s = (refl, tt)
  push-SingleBatches id x ((j, ys) ∷ bs) s = elim (Bool-cases (eq_ℤ j id)) [
    | inl e ↦ rw e s
    | inr e ↦
        rw e (has_batch-push j id x bs (rw (eq_ℤ_sym id j) e) s.0, push-SingleBatches id x bs s.1)
  ]

  batches-SingleBatches :
      (group : T → ℤ) (xs : List T) (bs : List (ℤ × List T))
      → SingleBatches bs
      → SingleBatches (batches_from group xs bs)
  unfolding batches_from
  batches-SingleBatches group [] bs s = s
  batches-SingleBatches group (x ∷ xs) bs s =
      batches-SingleBatches group xs (push (group x) x bs) (push-SingleBatches (group x) x bs s)

  -- The batches of `recoverGroups`: no group has two of them, and the batch of a group is what a filter
  -- of the items gives, in their order.
  pub batches_iff :
      (group : T → ℤ) (xs : List T) (id : ℤ)
      → SingleBatches (batches_from group xs [])
        × (batch_of id (batches_from group xs []) ≡ items_of group id xs)
  unfolding SingleBatches
  batches_iff group xs id = (batches-SingleBatches group xs [] tt, batch_of-batches group id xs [])
