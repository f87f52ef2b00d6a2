-- ===== src/SlabClass/Search.antt =====
-- The binary search finds the smallest slab class that fits, and ends.
use native.Mathlib.Decide.{dec_lt}
use twemcache.Base.{
  ℕ, zero, suc, ◌+◌, ◌-◌, ◌/◌, ◌%◌, ◌^◌, ◌≤◌, ◌<◌, ◌≡◌, refl, sym, ap, subst, ◌⊎◌, inl, inr, false,
  Option, none, some, ltb, leb, arith, Bool-cases, ◌&&◌,
}
use twemcache.SlabClass.{min_id, invalid_id, search, slab_id, or_invalid}

-- What the search should return: the smallest class of at least `size` bytes, or none of them.
pub Fits : (ℕ → ℕ) → ℕ → ℕ → ℕ → Type 0
Fits sizes max_id size id =
    (1 ≤ id) × (id ≤ max_id) × (size ≤ sizes id) × ((j : ℕ) → 1 ≤ j → j < id → sizes j < size)
    ⊎ (id ≡ invalid_id) × ((j : ℕ) → 1 ≤ j → j ≤ max_id → sizes j < size)

module _ (sizes : ℕ → ℕ) (max_id : ℕ) (size : ℕ) (few : max_id ≤ 254)
    (ascending : (i j : ℕ) → 1 ≤ i → i < j → j ≤ max_id → sizes i < sizes j) where
  -- Every class up to one that is too small is too small.
  small_below :
      (id : ℕ) → id ≤ max_id → sizes id < size → (j : ℕ) → 1 ≤ j → j < id + 1 → sizes j < size
  small_below id c h j lo hi = elim (dec_lt j id) [
    | yes p ↦ omega (arith, ascending j id lo p c)
    | no p ↦ let e : j ≡ id = omega arith in rw e h
  ]

  search_lem :
      (fuel imin imax : ℕ)
      → 1 ≤ imin
      → imin ≤ imax + 1
      → imax ≤ max_id
      → imax + 1 - imin < fuel
      → ((j : ℕ) → 1 ≤ j → j < imin → sizes j < size)
      → (imax ≡ max_id) ⊎ (1 ≤ imax) × (size ≤ sizes imax)
      → (r : ℕ) × (search sizes size fuel imin imax ≡ some r) × Fits sizes max_id size r
  unfolding search Fits
  search_lem zero imin imax a b c d below above = absurd (omega arith)
  search_lem (suc fuel) imin imax a b c d below above = elim (Bool-cases (leb imin imax)) [
    | inr over ↦ rw over (invalid_id, refl, inr (refl, λ j lo hi. exhausted over j lo hi above))
    | inl more ↦ rw more (elim (Bool-cases (ltb (sizes id) size)) [
      | inl small ↦ rw small (
          rw next (
            search_lem fuel (id + 1) imax (omega arith) (ground arith) c (ground arith)
              (small_below id (ground arith) (ground arith)) above))
      | inr fits ↦ rw fits (elim (Bool-cases (ltb 1 id && leb size (sizes (id - 1)))) [
        | inl lower ↦ rw lower (
            rw (prev (ground arith)) (
              search_lem fuel imin (id - 1) a (ground arith) (ground arith) (ground arith) below
                (inr (ground arith, ground arith))))
        | inr least ↦ rw least (
          id,
          refl,
          inl (ground arith, ground arith, ground arith, λ j lo hi. first least j lo hi),
        )
      ])
    ])
  ]
    where
      id : ℕ
      id = (imin + imax) / 2

      next : (id + 1) % 2 ^ 8 ≡ id + 1
      next = omega arith

      prev : 1 ≤ id → (id + 2 ^ 8 - 1) % 2 ^ 8 ≡ id - 1
      prev h = omega arith

      exhausted :
          leb imin imax ≡ false
          → (j : ℕ) → 1 ≤ j
          → j ≤ max_id
          → (imax ≡ max_id) ⊎ (1 ≤ imax) × (size ≤ sizes imax)
          → sizes j < size
      exhausted over j lo hi (inl e) = below j lo (ground arith)
      exhausted over j lo hi (inr (p, q)) = absurd (omega (arith, below imax p (ground arith)))

      first :
          (ltb 1 id && leb size (sizes (id - 1))) ≡ false
          → (j : ℕ) → 1 ≤ j
          → j < id
          → sizes j < size
      first least j lo hi = small_below (id - 1) (ground arith) (ground arith) j lo (ground arith)

-- For at most 254 classes of ascending sizes, the binary search of slab_id ends within its fuel
-- and returns the smallest class whose size is at least the one asked for, or
-- SLABCLASS_INVALID_ID with every class too small.
pub slab_id-Fits :
    (sizes : ℕ → ℕ) (max_id size : ℕ)
    → max_id ≤ 254
    → ((i j : ℕ) → 1 ≤ i → i < j → j ≤ max_id → sizes i < sizes j)
    → (search sizes size 256 min_id max_id ≡ some (slab_id sizes max_id size))
      × Fits sizes max_id size (slab_id sizes max_id size)
unfolding slab_id
slab_id-Fits sizes max_id size few ascending = chosen (search sizes size 256 min_id max_id) (
    search_lem sizes max_id size few ascending 256 1 max_id (omega arith) (omega arith)
      (omega arith) (omega arith) (λ j lo hi. absurd (omega arith)) (inl refl))
  where
    chosen :
        (o : Option ℕ)
        → (r : ℕ) × (o ≡ some r) × Fits sizes max_id size r
        → (o ≡ some (or_invalid o)) × Fits sizes max_id size (or_invalid o)
    chosen none (r, e, fits) = cc
    chosen (some id) (r, e, fits) =
        (refl, subst (Fits sizes max_id size) (ap or_invalid (sym e)) fits)
