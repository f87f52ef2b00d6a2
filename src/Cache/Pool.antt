-- ===== src/Cache/Pool.antt =====
-- The pool as a stack of buffers: none is lost, none is handed out twice.
use twemcache.Base.{
  ℕ, zero, suc, ◌+◌, ◌-◌, ◌*◌, ◌≤◌, ◌≡◌, refl, Bool-cases, inl, inr, Bool, true, false, Option,
  some, List, [], ◌∷◌, ltb, if◌then◌else◌, arith, update,
}
use twemcache.Cache.{Cache, cache_alloc, cache_free}

-- The first `n` places, the last one first.
pub top_first : (ℕ → ℕ) → ℕ → List ℕ
top_first ptr zero = []
top_first ptr (suc n) = ptr n ∷ top_first ptr n

-- The free buffers, the one put last first.
pub contents : Cache → List ℕ
contents c = top_first c.ptr c.freecurr

abbrev pub IsValid : Cache → Type 0
IsValid c = (c.freecurr ≤ c.freetotal) × (1 ≤ c.freetotal)

top_first-update :
    (ptr : ℕ → ℕ) (i v n : ℕ) → n ≤ i → top_first (update ptr i v) n ≡ top_first ptr n
unfolding top_first
top_first-update ptr i v zero h = refl
top_first-update ptr i v (suc n) h = ground (arith, top_first-update ptr i v n)

top_first-put : (ptr : ℕ → ℕ) (n v : ℕ) → top_first (update ptr n v) (n + 1) ≡ v ∷ top_first ptr n
top_first-put ptr n v =
    let e : n + 1 ≡ suc n = omega arith in
    rw e (unfold top_first in ground (arith, top_first-update ptr n v n))

module _ (c : Cache) where
  -- What an allocation gives, by the free buffers.
  abbrev pub Taken : Option ℕ → List ℕ → Cache × Option ℕ × Bool → Type 0
  Taken fresh [] (t, r, called) = (t ≡ c) × (r ≡ fresh) × (called ≡ true)
  Taken fresh (buf ∷ rest) (t, r, called) =
      (r ≡ some buf) × (called ≡ false) × (contents t ≡ rest) × (t.freetotal ≡ c.freetotal)

  -- cache_alloc.
  pub cache_alloc-Taken : (fresh : Option ℕ) → Taken fresh (contents c) (cache_alloc fresh c)
  unfolding cache_alloc contents top_first
  cache_alloc-Taken fresh = at_size c.freecurr refl
    where
      at_size :
          (n : ℕ)
          → c.freecurr ≡ n
          → Taken fresh (top_first c.ptr n) (
              if ltb 0 n
              then (record c { freecurr = n - 1 }, some (c.ptr (n - 1)), false)
              else (c, fresh, true))
      at_size zero e = (refl, refl, refl)
      at_size (suc n) e =
          let less : suc n - 1 ≡ n = omega arith in
          let positive : ltb 0 (suc n) ≡ true = ground arith in
          rw (positive, less) (refl, refl, refl, refl)

  -- What giving a buffer back does.
  abbrev pub Returned : ℕ → Bool → Cache × Bool → Type 0
  Returned buf false (t, freed) = (contents t ≡ buf ∷ contents c) × IsValid t
  Returned buf true (t, freed) = (t ≡ c) × (c.freecurr ≡ c.freetotal)

  -- cache_free.
  pub cache_free-Returned :
      (grows : Bool) (buf : ℕ)
      → IsValid c
      → Returned buf (cache_free grows c buf).1 (cache_free grows c buf)
  unfolding cache_free contents top_first
  cache_free-Returned grows buf v = elim (Bool-cases (ltb c.freecurr c.freetotal)) [
    | inl room ↦ rw room (top_first-put c.ptr c.freecurr buf, (ground arith, v.1))
    | inr full ↦ rw full (grown full grows)
  ]
    where
      grown :
          ltb c.freecurr c.freetotal ≡ false
          → (g : Bool)
          → let r : Cache × Bool =
              if g
              then (
                record c {
                  freetotal = c.freetotal * 2;
                  ptr = update c.ptr c.freecurr buf;
                  freecurr = c.freecurr + 1;
                },
                false,
              )
              else (c, true) in
            Returned buf r.1 r
      grown e true = (top_first-put c.ptr c.freecurr buf, (ground arith, ground arith))
      grown e false = (refl, ground arith)
