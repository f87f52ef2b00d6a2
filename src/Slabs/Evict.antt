-- ===== src/Slabs/Evict.antt =====
-- Which slab src/mc_slabs.c evicts: slab_evict_lru and slab_evict_rand against their descriptions.
use twemcache.Base.{
  ℕ, zero, suc, ◌+◌, ◌≡◌, refl, Option, none, some, List, [], ◌∷◌, ◌==◌, if◌then◌else◌, arith,
}
use twemcache.Assoc.{Key}
use twemcache.Store.{Env, Store}
use twemcache.Slabs.{lruq_victim, slab_evict_lru, slab_evict_one, slab_table_rand}

-- The first slab with no users among the first `n` of a queue.
abbrev pub first_idle : Store → ℕ → List ℕ → Option ℕ
first_idle s n [] = none
first_idle s zero (slab ∷ q) = none
first_idle s (suc n) (slab ∷ q) =
    if (s.slabs slab).refcount == 0 then some slab else first_idle s n q

-- `n` random draws, up to the first slab with no users.
pub draw_idle : Env → ℕ → Store → Store × Option ℕ
draw_idle env zero s = (s, none)
draw_idle env (suc n) s =
    let drawn = slab_table_rand env s in
    let later = draw_idle env n drawn.0 in
    if (s.slabs drawn.1).refcount == 0 then (drawn.0, some drawn.1) else later

abbrev settle : Store × ℕ × ℕ → Store × Option ℕ
settle (s, tries, slab) = if tries == 0 then (s, none) else (s, some slab)

lruq_victim_lem : (s : Store) (n : ℕ) (q : List ℕ) → lruq_victim s n q ≡ first_idle s n q
unfolding lruq_victim
lruq_victim_lem s zero [] = refl
lruq_victim_lem s zero (slab ∷ q) = refl
lruq_victim_lem s (suc n) [] = refl
lruq_victim_lem s (suc n) (slab ∷ q) = ground (arith, lruq_victim_lem s n q)

-- One more draw, of which nothing is used.
abbrev pub draw_more : Store → Store
draw_more s = record s { rands = s.rands + 1 }

module _ (hash : Key → ℕ) where
  -- The slab that a search found, evicted.
  abbrev pub evicted : Store × Option ℕ → Store × Option ℕ
  evicted (s, none) = (s, none)
  evicted (s, some slab) = (slab_evict_one hash s slab, some slab)

  abbrev pub evicted_or_more : Store × Option ℕ → Store × Option ℕ
  evicted_or_more (s, none) = (draw_more s, none)
  evicted_or_more (s, some slab) = (slab_evict_one hash s slab, some slab)

  -- slab_evict_lru evicts and returns the first slab with no users among the first 50 of the slab
  -- queue, and changes nothing if there is none.
  pub slab_evict_lru_lem :
      (s : Store) → slab_evict_lru hash s ≡ evicted (s, first_idle s 50 s.slab_lruq)
  unfolding slab_evict_lru
  slab_evict_lru_lem s = rw (lruq_victim_lem s 50 s.slab_lruq) (cases (first_idle s 50 s.slab_lruq))
    where
      cases :
          (o : Option ℕ)
          → elim o [ none ↦ (s, none) | some slab ↦ (slab_evict_one hash s slab, some slab) ]
            ≡ evicted (s, o)
      cases none = refl
      cases (some slab) = refl
