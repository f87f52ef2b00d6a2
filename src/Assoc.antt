-- ===== src/Assoc.antt =====
-- src/mc_assoc.c: the hash table of items, chained, with its incremental expansion.
--
-- An item is its address; a chain (SLIST) is the list of its addresses. The hash of a key and the
-- key bytes stored in an item's memory are parameters of the section. Every function runs under
-- cache_lock, so each is one step; the body of the maintenance thread's loop is `move_bucket`.
-- `& HASHMASK(n)` is written `% 2 ^ n`. Whether mc_alloc succeeds is the argument `alloc`.
pub mod Bucket
pub mod Inv
pub mod Find
pub mod Move
mod Tests
use twemcache.Base.{
  ℕ, zero, suc, ◌+◌, ◌-◌, ◌*◌, ◌/◌, ◌%◌, ◌^◌, Bool, true, false, not, ◌&&◌, Option, none, some,
  List, [], ◌∷◌, ltb, leb, ◌==◌, if◌then◌else◌, update, key_eq,
}

abbrev pub Key : Type 0
Key = List ℕ

-- `struct item_slh *`: an array of chains. Out of range there is no chain to read.
pub record Table : Type 0 where
  pub size : ℕ
  pub chain : ℕ → List ℕ

-- The static variables of the file.
pub record Assoc : Type 0 where
  pub primary_hashtable : Table
  pub old_hashtable : Table
  pub nbyte_primary : ℕ
  pub nbyte_old : ℕ
  pub nhash_item : ℕ
  pub hash_power : ℕ
  pub expanding : Bool
  pub nhash_move_size : ℕ
  pub expand_bucket : ℕ

-- sizeof(struct item_slh): one pointer.
abbrev pub sizeof_slh : ℕ
sizeof_slh = 8

-- NULL
abbrev pub null_table : Table
null_table = record { size = 0; chain = λ i. [] }

abbrev pub hash_size : ℕ → ℕ
hash_size n = 2 ^ n

pub create_table : ℕ → Table
create_table table_sz = record { size = table_sz; chain = λ i. [] }

unfoldable pub init : ℕ → Assoc
unfolding create_table
init setting = record {
  primary_hashtable = create_table (hash_size power % 2 ^ 32);
  old_hashtable = null_table;
  nbyte_primary = (hash_size power % 2 ^ 32) * sizeof_slh;
  nbyte_old = 0;
  nhash_item = 0;
  hash_power = power;
  expanding = false;
  nhash_move_size = 1;
  expand_bucket = 0;
}
  where
    power : ℕ
    power = if ltb 0 setting then setting else 16

-- The address of a chain head: in the old table or in the primary one.
pub data Slot : Type 0 where
  in_old in_primary : ℕ → Slot

unfoldable pub read : Assoc → Slot → List ℕ
read a (in_old i) = a.old_hashtable.chain i
read a (in_primary i) = a.primary_hashtable.chain i

abbrev pub write_chain : Table → ℕ → List ℕ → Table
write_chain t i c = record t { chain = update t.chain i c }

unfoldable pub write : Assoc → Slot → List ℕ → Assoc
write a (in_old i) c = record a { old_hashtable = write_chain a.old_hashtable i c }
write a (in_primary i) c = record a { primary_hashtable = write_chain a.primary_hashtable i c }

unfoldable pub expand_needed : ℕ → Assoc → Bool
expand_needed setting a =
    (setting == 0) && (not a.expanding && ltb (hash_size a.hash_power * 3 / 2) a.nhash_item)

unfoldable pub expand : Bool → Assoc → Assoc
unfolding create_table
expand alloc a = if alloc then grown else record a { old_hashtable = null_table; nbyte_old = 0 }
  where
    hashtable_sz : ℕ
    hashtable_sz = hash_size (a.hash_power + 1) % 2 ^ 32

    grown : Assoc
    grown = record a {
      primary_hashtable = create_table hashtable_sz;
      old_hashtable = a.primary_hashtable;
      nbyte_primary = hashtable_sz * sizeof_slh;
      nbyte_old = a.nbyte_primary;
      hash_power = a.hash_power + 1;
      expanding = true;
      expand_bucket = 0;
    }

module _ (hash : Key → ℕ) where
  unfoldable pub get_bucket : Assoc → Key → Slot
  get_bucket a key =
      if a.expanding && leb a.expand_bucket oldbucket
      then in_old oldbucket
      else in_primary curbucket
    where
      oldbucket : ℕ
      oldbucket = hash key % 2 ^ (a.hash_power - 1)

      curbucket : ℕ
      curbucket = hash key % 2 ^ a.hash_power

-- The search loop of assoc_find and assoc_delete: the first entry of the chain with the key.
module _ (key_of : ℕ → Key) where
  pub search_chain : Key → List ℕ → Option ℕ
  search_chain key [] = none
  search_chain key (it ∷ rest) = if key_eq key (key_of it) then some it else search_chain key rest

  -- SLIST_REMOVE_HEAD or SLIST_REMOVE_AFTER at the entry that the loop stopped at. Where the
  -- chain does not have the key the C code dereferences NULL, and the chain stays here: a theorem
  -- about a deletion supposes that the key is there.
  pub remove_chain : Key → List ℕ → List ℕ
  remove_chain key [] = []
  remove_chain key (it ∷ rest) = if key_eq key (key_of it) then rest else it ∷ remove_chain key rest

module _ (hash : Key → ℕ) (key_of : ℕ → Key) where
  unfoldable pub find : Assoc → Key → Option ℕ
  unfolding search_chain read get_bucket
  find a key = search_chain key_of key (read a (get_bucket hash a key))

  -- SLIST_INSERT_HEAD and the count, before the table may grow.
  unfoldable pub link : Assoc → ℕ → Assoc
  link a it = record (write a bucket (it ∷ read a bucket)) {
    nhash_item = (a.nhash_item + 1) % 2 ^ 32;
  }
    where
      bucket : Slot
      bucket = get_bucket hash a (key_of it)

  -- `setting` is settings.hash_power.
  unfoldable pub insert : ℕ → Bool → Assoc → ℕ → Assoc
  insert setting alloc a it =
      if expand_needed setting (link a it) then expand alloc (link a it) else link a it

  pub delete : Assoc → Key → Assoc
  delete a key = record (write a bucket (remove_chain key_of key (read a bucket))) {
    nhash_item = (a.nhash_item + 2 ^ 32 - 1) % 2 ^ 32;
  }
    where
      bucket : Slot
      bucket = get_bucket hash a key

  -- SLIST_FOREACH_SAFE over the old chain: each entry goes to the head of its new chain.
  pub migrate : ℕ → List ℕ → Table → Table
  migrate power [] t = t
  migrate power (it ∷ rest) t = migrate power rest (write_chain t i (it ∷ t.chain i))
    where
      i : ℕ
      i = hash (key_of it) % 2 ^ power

  -- One round of the for loop of assoc_maintenance_thread, its test included.
  pub move_bucket : Assoc → Assoc
  unfolding migrate
  move_bucket a = if a.expanding then if last then finished else moved else a
    where
      bucket : ℕ
      bucket = (a.expand_bucket + 1) % 2 ^ 32

      last : Bool
      last = bucket == hash_size (a.hash_power - 1)

      moved : Assoc
      moved = record a {
        primary_hashtable =
            migrate a.hash_power (a.old_hashtable.chain a.expand_bucket) a.primary_hashtable;
        old_hashtable = write_chain a.old_hashtable a.expand_bucket [];
        expand_bucket = bucket;
      }

      finished : Assoc
      finished = record moved { old_hashtable = null_table; expanding = false; nbyte_old = 0 }

  -- The for loop, from `i` rounds left on.
  pub move_buckets : ℕ → Assoc → Assoc
  unfolding move_bucket
  move_buckets zero a = a
  move_buckets (suc n) a = move_buckets n (move_bucket a)

  pub maintain : Assoc → Assoc
  unfolding move_buckets
  maintain a = move_buckets a.nhash_move_size a
