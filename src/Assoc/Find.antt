-- ===== src/Assoc/Find.antt =====
-- assoc_find after assoc_insert and assoc_delete: the table is a finite map.
use twemcache.Base.{
  ℕ, ◌≡◌, refl, Bool, true, false, none, some, List, ◌∷◌, if◌then◌else◌, key_eq, key_eq→eq, arith,
}
use twemcache.Assoc.{
  Key, Assoc, Slot, read, write, get_bucket, search_chain, find, insert, expand_needed, link,
  delete,
}
use twemcache.Assoc.Bucket.{
  slot_eq, slot_eq_refl, read-write, get_bucket-write, find-expand, slot_eq→eq, Distinct,
  search-remove, search-key,
}

module _ (hash : Key → ℕ) (key_of : ℕ → Key) where
  -- A lookup after a change of one chain.
  find-write :
      (a : Assoc) (s : Slot) (c : List ℕ) (n : ℕ) (key : Key)
      → find hash key_of (record (write a s c) { nhash_item = n }) key ≡ (
          if slot_eq s (get_bucket hash a key)
          then search_chain key_of key c
          else find hash key_of a key)
  unfolding find
  find-write a s c n key =
      ground (arith, read-write a s (get_bucket hash a key) c, get_bucket-write hash a s c key)

  search-read :
      (a : Assoc) (key : Key)
      → search_chain key_of key (read a (get_bucket hash a key)) ≡ find hash key_of a key
  unfolding find
  search-read a key = refl

  -- Two keys that are equal have one chain.
  slot_eq_of_key_eq :
      (a : Assoc) (k j : Key)
      → key_eq j k ≡ true
      → slot_eq (get_bucket hash a k) (get_bucket hash a j) ≡ true
  slot_eq_of_key_eq a k j h = rw (key_eq→eq j k h) (slot_eq_refl (get_bucket hash a k))

  find-link :
      (a : Assoc) (it : ℕ) (key : Key)
      → find hash key_of (link hash key_of a it) key
        ≡ (if key_eq key (key_of it) then some it else find hash key_of a key)
  unfolding link search_chain
  find-link a it key =
      rw
        (find-write a (get_bucket hash a (key_of it)) (it ∷ read a (get_bucket hash a (key_of it)))
          _ key)
        (ground (
          arith,
          slot_eq_of_key_eq a (key_of it) key,
          slot_eq→eq (get_bucket hash a (key_of it)) (get_bucket hash a key),
          search-read a key,
        ))

  expanding-needed :
      (setting : ℕ) (a : Assoc) → expand_needed setting a ≡ true → a.expanding ≡ false
  unfolding expand_needed
  expanding-needed setting a h = ground arith

  -- After assoc_insert, the key of the new item is looked up as that item and every other key as
  -- before, also where the insertion starts an expansion or its allocation fails.
  pub find-insert :
      (setting : ℕ) (alloc : Bool) (a : Assoc) (it : ℕ) (key : Key)
      → find hash key_of (insert hash key_of setting alloc a it) key
        ≡ (if key_eq key (key_of it) then some it else find hash key_of a key)
  unfolding insert
  find-insert setting alloc a it key = ground (
    arith,
    expanding-needed setting (link hash key_of a it),
    find-expand hash key_of alloc (link hash key_of a it) key,
    find-link a it key,
  )

  -- The lookups behind a deletion.
  pub find-delete :
      (a : Assoc) (key j : Key)
      → Distinct key_of (read a (get_bucket hash a key))
      → find hash key_of (delete hash key_of a key) j
        ≡ (if key_eq j key then none else find hash key_of a j)
  unfolding delete
  find-delete a key j d = rw (find-write a (get_bucket hash a key) _ _ j) (
      ground (
        arith,
        slot_eq_of_key_eq a key j,
        slot_eq→eq (get_bucket hash a key) (get_bucket hash a j),
        search-remove key_of key j (read a (get_bucket hash a key)) d,
        search-read a j,
      ))

  -- If a key is found in the table and its chain holds no key twice, then after assoc_delete that
  -- key is not found and every other key is looked up as before.
  pub find-deleted :
      (a : Assoc) (key : Key) (it : ℕ) (j : Key)
      → find hash key_of a key ≡ some it
      → Distinct key_of (read a (get_bucket hash a key))
      → find hash key_of (delete hash key_of a key) j
        ≡ (if key_eq j key then none else find hash key_of a j)
  find-deleted a key it j held d = find-delete a key j d

  -- What assoc_find returns has the key.
  pub find-key :
      (a : Assoc) (key : Key) (it : ℕ)
      → find hash key_of a key ≡ some it
      → key_eq key (key_of it) ≡ true
  unfolding find
  find-key a key it h = search-key key_of key (read a (get_bucket hash a key)) it h

  pub power-delete : (a : Assoc) (key : Key) → (delete hash key_of a key).hash_power ≡ a.hash_power
  unfolding delete write get_bucket
  power-delete a key = ground arith
