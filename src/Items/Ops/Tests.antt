-- ===== src/Items/Ops/Tests.antt =====
-- The theorems of the item commands on a store with one item.
use twemcache.Base.{
  ◌∙◌, ◌==◌, All, Bool-cases, inl, inr, ℕ, ◌+◌, ◌*◌, ◌^◌, ◌<◌, ◌≡◌, refl, arith, true, false, none,
  some, [], ◌∷◌, if◌then◌else◌,
}
use twemcache.Assoc
use twemcache.Assoc.{Key, Assoc}
use twemcache.Store.{Item, Settings, Env, Store, key_of}
use twemcache.Link.{item_link_q}
use twemcache.Items.{
  item_get, item_found, item_remove, item_link, assoc_insert, item_fresh_cas, is_stale,
  item_get_from_lruq,
}
use twemcache.Items.Lruq.{take, or_else, head?, first_expired, unused, item_get_from_lruq_lem}
use twemcache.Items.Linked.{AllIndexed, IsReady, init-IsReady, IsReady-same}
use twemcache.Items.Fetch.{live}
use twemcache.Items.Refs.{HasRoom, remove-get}
use twemcache.Items.Ops.Flush.{
  newest_first, Descending, atimes, Flushed, item_flush_expired-Flushed,
}
use twemcache.Items.Ops.{
  item_flush_expired, item_set, item_add, item_replace, item_cas, item_delete,
}
use twemcache.Items.Ops.Storing.{
  Became, entered, item_set-Became, item_add-Added, Added, item_replace-Replaced, Replaced,
  item_cas-Swapped, Swapped, item_delete-Deleted, Deleted,
}

abbrev pub hash : Key → ℕ
hash [] = 0
hash (c ∷ k) = c

abbrev pub cfg : Settings
cfg = record {
  use_cas = true;
  use_freeq = true;
  use_lruq = true;
  evict_lru = true;
  evict_rs = false;
  evict_as = false;
  evict_cs = false;
  prealloc = false;
  slab_size = 1024;
  maxbytes = 4096;
  hash_power = 0;
  profile = λ id. 100 * id;
  profile_last_id = 5;
}

abbrev pub env : Env
env = record { rand = λ n. 0; malloc = λ n. some (10000 * (n + 1)) }

-- Every item has the key "k", one user, and sits at the start of a slab.
abbrev item : Item
item = record {
  atime = 0;
  exptime = 0;
  nbyte = 1;
  offset = 32;
  dataflags = 0;
  refcount = 1;
  linked = false;
  has_cas = true;
  slabbed = false;
  raligned = false;
  id = 1;
  key = b'k' ∷ [];
  cas = 0;
  value = b'1' ∷ [];
}

abbrev start : Store
start = record {
  items = λ p. item;
  slabs = λ p. record { id = 1; refcount = 1; utime = 0 };
  slabclass = λ id. record {
    nitem = 8;
    size = 100;
    nfree_itemq = 0;
    free_itemq = [];
    nfree_item = 0;
    free_item = none;
  };
  item_lruq = λ id. [];
  curr = 0;
  nslab = 0;
  max_nslab = 4;
  slab_table = λ i. 0;
  slab_lruq = [];
  assoc = Assoc.init 2;
  cas_id = 0;
  oldest_live = 0;
  now = 10;
  rands = 0;
  mallocs = 0;
}

start-IsReady : IsReady hash start
start-IsReady = init-IsReady hash start 2 refl (omega arith)

-- The item at 1032 is stored, the item at 2032 is to be.
abbrev pub stored : Store
stored = item_set hash cfg env start 1032

start-fits : 2 ^ (start.assoc.hash_power + 1) < 2 ^ 32
unfolding Assoc.init
start-fits = omega arith

pub stored-Became : Became hash (entered hash start 1032) stored
stored-Became = item_set-Became hash cfg env start 1032 start-IsReady start-fits

stored-fits : 2 ^ (stored.assoc.hash_power + 1) < 2 ^ 32
unfolding Assoc.init item_set item_get item_found Assoc.find item_link item_link_q assoc_insert
    Assoc.insert Assoc.link Assoc.expand_needed Assoc.expand Assoc.get_bucket Assoc.read Assoc.write
    item_fresh_cas
stored-fits = omega arith

pub stored-live : live hash stored (b'k' ∷ []) ≡ some 1032
unfolding Assoc.init item_set item_get item_found Assoc.find item_link item_link_q assoc_insert
    Assoc.insert Assoc.link Assoc.expand_needed Assoc.expand Assoc.get_bucket Assoc.read Assoc.write
    item_fresh_cas is_stale
stored-live = refl

pub stored-HasRoom : HasRoom stored 1032
unfolding item_set item_get item_found Assoc.init Assoc.find item_link item_link_q assoc_insert
    item_fresh_cas Assoc.insert Assoc.link Assoc.expand_needed Assoc.expand Assoc.get_bucket
    Assoc.read Assoc.write
stored-HasRoom = omega arith

item_set-Became_example : Became hash (entered hash stored 2032) (item_set hash cfg env stored 2032)
item_set-Became_example = item_set-Became hash cfg env stored 2032 stored-Became.ready stored-fits

item_add-Added_example :
    Added hash stored 2032
      (live hash stored (key_of stored 2032))
      (item_add hash cfg env stored 2032)
item_add-Added_example = item_add-Added hash cfg env stored 2032 stored-Became.ready stored-fits

item_replace-Replaced_example :
    Replaced hash stored 2032
      (live hash stored (key_of stored 2032))
      (item_replace hash cfg env stored 2032)
item_replace-Replaced_example =
    item_replace-Replaced hash cfg env stored 2032 stored-Became.ready stored-fits

item_cas-Swapped_example :
    Swapped hash stored 2032
      (live hash stored (key_of stored 2032))
      (item_cas hash cfg env stored 2032)
item_cas-Swapped_example = item_cas-Swapped hash cfg env stored 2032 stored-Became.ready stored-fits

item_delete-Deleted_example :
    Deleted hash stored
      (b'k' ∷ [])
      (live hash stored (b'k' ∷ []))
      (item_delete hash cfg env stored (b'k' ∷ []))
item_delete-Deleted_example =
    item_delete-Deleted hash stored (b'k' ∷ []) stored-Became.ready cfg env

remove-get_example :
    ((item_get hash stored (b'k' ∷ [])).1 ≡ some 1032)
    × (item_remove (item_get hash stored (b'k' ∷ [])).0 1032 ≡ stored)
remove-get_example =
    remove-get hash stored (b'k' ∷ []) 1032 stored-Became.ready stored-live stored-HasRoom

item_get_from_lruq_lem_example : item_get_from_lruq cfg stored 1 ≡ (
    if cfg.use_lruq
    then or_else
        (first_expired stored (unused stored (take 50 (stored.item_lruq 1))))
        (head? (unused stored (take 50 (stored.item_lruq 1))))
    else none)
item_get_from_lruq_lem_example = item_get_from_lruq_lem cfg stored 1

pub stored-AllIndexed : AllIndexed hash stored
unfolding Assoc.init item_set item_get item_found Assoc.find item_link item_link_q assoc_insert
    Assoc.insert Assoc.link Assoc.expand_needed Assoc.expand Assoc.get_bucket Assoc.read Assoc.write
    item_fresh_cas
stored-AllIndexed q l = elim (Bool-cases (1032 == q)) [
  | inl e ↦ let e' : q ≡ 1032 = ground arith in rw e' refl
  | inr e ↦ absurd (let l' : (stored.items q).linked ≡ true = l in ground (arith, e, l'))
]

-- The item at 1032 was touched at 10; the flush is at 5.
abbrev flushing : Store
flushing = record stored { oldest_live = 5 }

flushing-IsReady : IsReady hash flushing
flushing-IsReady =
    IsReady-same hash stored flushing (record { keys = refl; table = refl }) (λ q. refl)
      stored-Became.ready

flushing-AllIndexed : AllIndexed hash flushing
flushing-AllIndexed = stored-AllIndexed

flushing-queue : (c : ℕ) → newest_first flushing c ≡ (if c == 1 then 1032 ∷ [] else [])
unfolding Assoc.init item_set item_get item_found Assoc.find item_link item_link_q assoc_insert
    Assoc.insert Assoc.link Assoc.expand_needed Assoc.expand Assoc.get_bucket Assoc.read Assoc.write
    item_fresh_cas
flushing-queue c = elim (Bool-cases (c == 1)) [
  | inl e ↦ let e' : c ≡ 1 = ground arith in rw e' refl
  | inr e ↦ let e' : (1 == c) ≡ false = ground arith in rw (e, e') (ground arith)
]

flushing-id : (flushing.items 1032).id ≡ 1
unfolding Assoc.init item_set item_get item_found Assoc.find item_link item_link_q assoc_insert
    Assoc.insert Assoc.link Assoc.expand_needed Assoc.expand Assoc.get_bucket Assoc.read Assoc.write
    item_fresh_cas
flushing-id = refl

flushing-home : (c : ℕ) → All (λ x. (flushing.items x).id ≡ c) (newest_first flushing c)
flushing-home c = elim (Bool-cases (c == 1)) [
  | inl e ↦ let e' : 1 ≡ c = ground arith in rw (flushing-queue c, e) (flushing-id ∙ e', tt)
  | inr e ↦ rw (flushing-queue c, e) tt
]

flushing-Descending : (c : ℕ) → Descending (atimes flushing) (newest_first flushing c)
flushing-Descending c = elim (Bool-cases (c == 1)) [
  | inl e ↦ rw (flushing-queue c, e) (tt, tt)
  | inr e ↦ rw (flushing-queue c, e) tt
]

item_flush_expired-Flushed_example : Flushed hash flushing (item_flush_expired hash flushing)
item_flush_expired-Flushed_example =
    item_flush_expired-Flushed hash flushing flushing-IsReady flushing-AllIndexed (omega arith)
      flushing-home flushing-Descending
