-- ===== src/Assoc/Bucket.antt =====
-- Chain heads of src/mc_assoc.c: which one a key is looked up in, and reads after writes.
use twemcache.Base.{
  ℕ, ◌+◌, ◌-◌, ◌%◌, ◌^◌, ◌≡◌, refl, ap, Bool, true, false, none, some, List, [], ◌∷◌, ◌==◌,
  if◌then◌else◌, key_eq, key_eq→eq, key_eq_refl, arith,
}
use twemcache.Assoc.{
  Key, Assoc, Slot, in_old, in_primary, read, write, expand, get_bucket, search_chain, remove_chain,
  find,
}

abbrev pub slot_eq : Slot → Slot → Bool
slot_eq (in_old i) (in_old j) = i == j
slot_eq (in_old i) (in_primary j) = false
slot_eq (in_primary i) (in_old j) = false
slot_eq (in_primary i) (in_primary j) = i == j

pub slot_eq_refl : (s : Slot) → slot_eq s s ≡ true
slot_eq_refl (in_old i) = ground arith
slot_eq_refl (in_primary i) = ground arith

pub slot_eq→eq : (s t : Slot) → slot_eq s t ≡ true → s ≡ t
slot_eq→eq (in_old i) (in_old j) h = ground arith
slot_eq→eq (in_old i) (in_primary j) h = cc
slot_eq→eq (in_primary i) (in_old j) h = cc
slot_eq→eq (in_primary i) (in_primary j) h = ground arith

-- A write to one chain is read back there, and changes no other chain.
pub read-write :
    (a : Assoc) (s t : Slot) (c : List ℕ)
    → read (write a s c) t ≡ (if slot_eq s t then c else read a t)
unfolding read write
read-write a (in_old i) (in_old j) c = refl
read-write a (in_old i) (in_primary j) c = refl
read-write a (in_primary i) (in_old j) c = refl
read-write a (in_primary i) (in_primary j) c = refl

pub get_bucket-write :
    (hash : Key → ℕ) (a : Assoc) (s : Slot) (c : List ℕ) (k : Key)
    → get_bucket hash (write a s c) k ≡ get_bucket hash a k
unfolding get_bucket write
get_bucket-write hash a (in_old i) c k = refl
get_bucket-write hash a (in_primary i) c k = refl

pub expanding-write : (a : Assoc) (s : Slot) (c : List ℕ) → (write a s c).expanding ≡ a.expanding
unfolding write
expanding-write a (in_old i) c = refl
expanding-write a (in_primary i) c = refl

-- The growth of the table changes no lookup.
pub find-expand :
    (hash : Key → ℕ) (key_of : ℕ → Key) (alloc : Bool) (a : Assoc) (key : Key)
    → a.expanding ≡ false
    → find hash key_of (expand alloc a) key ≡ find hash key_of a key
unfolding find expand
find-expand hash key_of true a key e = ground (arith, ap (λ (n : ℕ). hash key % 2 ^ n) power_back)
  where
    power_back : a.hash_power + 1 - 1 ≡ a.hash_power
    power_back = omega arith
find-expand hash key_of false a key e = ground arith

module _ (key_of : ℕ → Key) where
  -- No two entries of a chain have one key.
  abbrev pub Distinct : List ℕ → Type 0
  Distinct [] = Unit {0}
  Distinct (it ∷ rest) = (search_chain key_of (key_of it) rest ≡ none) × Distinct rest

  pub search-remove :
      (key j : Key) (c : List ℕ)
      → Distinct c
      → search_chain key_of j (remove_chain key_of key c)
        ≡ (if key_eq j key then none else search_chain key_of j c)
  unfolding search_chain remove_chain
  search-remove key j [] d = ground arith
  search-remove key j (it ∷ rest) d = ground (
    arith,
    search-remove key j rest d.1,
    key_eq→eq key (key_of it),
    key_eq→eq j key,
    key_eq→eq j (key_of it),
    key_eq_refl key,
  )

  -- What a search finds has the key.
  pub search-key :
      (key : Key) (c : List ℕ) (it : ℕ)
      → search_chain key_of key c ≡ some it
      → key_eq key (key_of it) ≡ true
  unfolding search_chain
  search-key key [] it h = cc
  search-key key (x ∷ rest) it h = ground (arith, search-key key rest it)
