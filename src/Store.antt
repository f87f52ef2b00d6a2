-- ===== src/Store.antt =====
-- The memory that src/mc_items.c and src/mc_slabs.c share: `struct item` (src/mc_items.h), `struct
-- slab` and `struct slabclass` (src/mc_slabs.h), the queues and the static variables of both files,
-- and the settings they read (src/mc_core.h).
--
-- An address is a number. A memory is a total function from addresses: bytes that nobody has
-- initialised have some value. A TAILQ is the list of the addresses in it, head first. The build is
-- the one without statistics and with assertions off, where stats_*(), log_*() and ASSERT() expand
-- to nothing; the locks are held throughout each operation, so an operation is one step.
use twemcache.Base.{
  ℕ, ◌+◌, ◌-◌, ◌%◌, ◌^◌, Bool, true, false, Option, none, some, List, [], ◌∷◌, ◌==◌, if◌then◌else◌,
  update,
}
use twemcache.Assoc.{Key, Assoc}

-- `flags` is the four fields after `refcount`, a field for each bit. `nkey` is the length of
-- `key`, the bytes at item_key(it); `cas` the 8 bytes at `end` that are there under ITEM_CAS;
-- `value` the `nbyte` bytes at item_data(it).
pub record Item : Type 0 where
  pub atime : ℕ
  pub exptime : ℕ
  pub nbyte : ℕ
  pub offset : ℕ
  pub dataflags : ℕ
  pub refcount : ℕ
  pub linked : Bool
  pub has_cas : Bool
  pub slabbed : Bool
  pub raligned : Bool
  pub id : ℕ
  pub key : Key
  pub cas : ℕ
  pub value : List ℕ

pub record Slab : Type 0 where
  pub id : ℕ
  pub refcount : ℕ
  pub utime : ℕ

pub record SlabClass : Type 0 where
  pub nitem : ℕ
  pub size : ℕ
  pub nfree_itemq : ℕ
  pub free_itemq : List ℕ
  pub nfree_item : ℕ
  pub free_item : Option ℕ

-- The settings that do not change while the server runs; `evict_opt` is a field for each bit.
pub record Settings : Type 0 where
  pub use_cas : Bool
  pub use_freeq : Bool
  pub use_lruq : Bool
  pub evict_lru : Bool
  pub evict_rs : Bool
  pub evict_as : Bool
  pub evict_cs : Bool
  pub prealloc : Bool
  pub slab_size : ℕ
  pub maxbytes : ℕ
  pub hash_power : ℕ
  pub profile : ℕ → ℕ
  pub profile_last_id : ℕ

-- What the C library answers: the n-th call of rand(), and the address that the n-th allocation
-- returns, or NULL.
pub record Env : Type 0 where
  pub rand : ℕ → ℕ
  pub malloc : ℕ → Option ℕ

pub record Store : Type 0 where
  pub items : ℕ → Item
  pub slabs : ℕ → Slab
  pub slabclass : ℕ → SlabClass
  pub item_lruq : ℕ → List ℕ
  pub curr : ℕ
  pub nslab : ℕ
  pub max_nslab : ℕ
  pub slab_table : ℕ → ℕ
  pub slab_lruq : List ℕ
  pub assoc : Assoc
  pub cas_id : ℕ
  pub oldest_live : ℕ
  pub now : ℕ
  pub rands : ℕ
  pub mallocs : ℕ

-- offsetof(struct slab, data) and offsetof(struct item, end), on a 64-bit platform.
abbrev pub slab_hdr_size : ℕ
slab_hdr_size = 32

abbrev pub item_hdr_size : ℕ
item_hdr_size = 49

-- `it->field = …`
abbrev pub set_item : Store → ℕ → Item → Store
set_item s p it = record s { items = update s.items p it }

abbrev pub set_slab : Store → ℕ → Slab → Store
set_slab s p slab = record s { slabs = update s.slabs p slab }

abbrev pub set_class : Store → ℕ → SlabClass → Store
set_class s id p = record s { slabclass = update s.slabclass id p }

abbrev pub key_of : Store → ℕ → Key
key_of s p = (s.items p).key

-- TAILQ_REMOVE and TAILQ_INSERT_TAIL.
abbrev pub tailq_remove : ℕ → List ℕ → List ℕ
tailq_remove x [] = []
tailq_remove x (y ∷ ys) = if x == y then ys else y ∷ tailq_remove x ys

abbrev pub tailq_append : List ℕ → ℕ → List ℕ
tailq_append [] x = x ∷ []
tailq_append (y ∷ ys) x = y ∷ tailq_append ys x

-- rel_time_t is an unsigned 32-bit number, and its subtraction wraps.
abbrev pub time_sub : ℕ → ℕ → ℕ
time_sub a b = (a + 2 ^ 32 - b) % 2 ^ 32

-- uint16_t counters.
abbrev pub incr16 : ℕ → ℕ
incr16 n = (n + 1) % 2 ^ 16

abbrev pub decr16 : ℕ → ℕ
decr16 n = (n + 2 ^ 16 - 1) % 2 ^ 16

-- A pointer that a call returned: NULL, or an address.
abbrev pub on_null {ℓ} : {R : Type ℓ} → Store × Option ℕ → (Store → R) → (Store → ℕ → R) → R
on_null (s, none) null found = null s
on_null (s, some p) null found = found s p

-- A status that a call returned: an error, or MC_OK.
abbrev pub on_status {ℓ} : {R : Type ℓ} → Store × Bool → (Store → R) → (Store → R) → R
on_status (s, false) failed ok = failed s
on_status (s, true) failed ok = ok s
