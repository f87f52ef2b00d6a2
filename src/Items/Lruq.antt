-- ===== src/Items/Lruq.antt =====
-- item_get_from_lruq against its description: among the oldest items, the first expired unused one,
-- else the first unused one.
use twemcache.Base.{
  ℕ, zero, suc, ◌≡◌, refl, Option, none, some, List, [], ◌∷◌, ◌==◌, if◌then◌else◌, arith,
}
use twemcache.Store.{Settings, Store}
use twemcache.Link.{item_expired}
use twemcache.Items.{lruq_loop, item_get_from_lruq}

abbrev pub take : ℕ → List ℕ → List ℕ
take zero q = []
take (suc n) [] = []
take (suc n) (x ∷ q) = x ∷ take n q

-- The unused items of a queue.
pub unused : Store → List ℕ → List ℕ
unused s [] = []
unused s (it ∷ q) = if (s.items it).refcount == 0 then it ∷ unused s q else unused s q

pub first_expired : Store → List ℕ → Option ℕ
first_expired s [] = none
first_expired s (it ∷ q) = if item_expired s it then some it else first_expired s q

abbrev pub head? : List ℕ → Option ℕ
head? [] = none
head? (it ∷ q) = some it

abbrev pub or_else : Option ℕ → Option ℕ → Option ℕ
or_else none y = y
or_else (some x) y = some x

lruq_loop_lem :
    (s : Store) (n : ℕ) (q : List ℕ) (uit : Option ℕ)
    → lruq_loop s n q uit
      ≡ or_else (first_expired s (unused s (take n q))) (or_else uit (head? (unused s (take n q))))
unfolding lruq_loop unused first_expired
lruq_loop_lem s zero q none = refl
lruq_loop_lem s zero q (some u) = refl
lruq_loop_lem s (suc n) [] none = refl
lruq_loop_lem s (suc n) [] (some u) = refl
lruq_loop_lem s (suc n) (it ∷ q) none =
    ground (arith, lruq_loop_lem s n q none, lruq_loop_lem s n q (some it))
lruq_loop_lem s (suc n) (it ∷ q) (some u) = ground (arith, lruq_loop_lem s n q (some u))

-- item_get_from_lruq returns, of the 50 least recently used items of the class, the first that is
-- unused and expired, else the first that is unused, and nothing if there is none or the lru
-- queue is not used.
pub item_get_from_lruq_lem :
    (cfg : Settings) (s : Store) (id : ℕ)
    → item_get_from_lruq cfg s id ≡ (
        if cfg.use_lruq
        then or_else
            (first_expired s (unused s (take 50 (s.item_lruq id))))
            (head? (unused s (take 50 (s.item_lruq id))))
        else none)
unfolding item_get_from_lruq
item_get_from_lruq_lem cfg s id = ground (arith, lruq_loop_lem s 50 (s.item_lruq id) none)
