-- ===== src/Slabs/Tests.antt =====
-- The theorems of the slab allocator on a store with three slabs.
use twemcache.Base.{ℕ, ◌+◌, ◌-◌, ◌*◌, true, false, none, some, [], ◌∷◌}
use twemcache.Assoc
use twemcache.Assoc.{Key}
use twemcache.Store.{Item, Env, Store}
use twemcache.Slabs.{slab_evict_one}
use twemcache.Slabs.Evicted.{Evicted, slab_evict_one-Evicted}
use twemcache.Items.Ops.Tests as Ops

abbrev hash : Key → ℕ
hash [] = 0
hash (c ∷ k) = c

-- The n-th draw is the n-th slab.
abbrev env : Env
env = record { rand = λ n. n; malloc = λ n. some (10000 * (n + 1)) }

abbrev item : Item
item = record {
  atime = 0;
  exptime = 0;
  nbyte = 1;
  offset = 32;
  dataflags = 0;
  refcount = 0;
  linked = true;
  has_cas = true;
  slabbed = false;
  raligned = false;
  id = 1;
  key = b'k' ∷ [];
  cas = 0;
  value = b'1' ∷ [];
}

-- Slabs at 1000, 2000 and 3000; the first is in use.
abbrev start : Store
start = record {
  items = λ p. item;
  slabs = λ p. record { id = 1; refcount = 3000 - p; utime = 0 };
  slabclass = λ id. record {
    nitem = 2;
    size = 100;
    nfree_itemq = 0;
    free_itemq = [];
    nfree_item = 0;
    free_item = none;
  };
  item_lruq = λ id. [];
  curr = 0;
  nslab = 3;
  max_nslab = 3;
  slab_table = λ i. 1000 * (i + 1);
  slab_lruq = 1000 ∷ 2000 ∷ 3000 ∷ [];
  assoc = Assoc.init 2;
  cas_id = 0;
  oldest_live = 0;
  now = 10;
  rands = 0;
  mallocs = 0;
}

-- The slab at 1000 holds the one item that is stored.
slab_evict_one-Evicted_example :
    Evicted Ops.hash Ops.stored 1000 (slab_evict_one Ops.hash Ops.stored 1000)
slab_evict_one-Evicted_example =
    slab_evict_one-Evicted Ops.hash Ops.stored 1000 Ops.stored-Became.ready Ops.stored-AllIndexed
