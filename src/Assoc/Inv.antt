-- ===== src/Assoc/Inv.antt =====
-- The invariant of src/mc_assoc.c: every item stands in the chain that its key is looked up in, and
-- no chain holds a key twice.
use native.Mathlib.Nat.{mod-eq_of_lt, one-le-pow}
use twemcache.Base.{
  ℕ, ◌+◌, ◌-◌, ◌%◌, ◌^◌, ◌≤◌, ◌<◌, ◌≡◌, refl, ap, ◌∙◌, Bool, true, false, none, List, [], ◌∷◌,
  if◌then◌else◌, arith, Bool-cases, inl, inr, All, All-mono,
}
use twemcache.Assoc.{
  Key, Assoc, Slot, in_old, in_primary, read, write, expand, get_bucket, search_chain, remove_chain,
  find, link, insert, delete, expand_needed, init,
}
use twemcache.Assoc.Bucket.{slot_eq, slot_eq→eq, read-write, get_bucket-write, Distinct}

power_back : (n : ℕ) → n + 1 - 1 ≡ n
power_back n = omega arith

module _ (hash : Key → ℕ) (key_of : ℕ → Key) where
  abbrev pub Placed : Assoc → Slot → Type 0
  Placed a s = All (λ it. get_bucket hash a (key_of it) ≡ s) (read a s)

  pub record IsValid (a : Assoc) : Type 0 where
    pub power_pos : 1 ≤ a.hash_power
    pub power_small : 2 ^ a.hash_power < 2 ^ 32
    pub primary_size : a.primary_hashtable.size ≡ 2 ^ a.hash_power
    pub old_size : a.expanding ≡ true → a.old_hashtable.size ≡ 2 ^ (a.hash_power - 1)
    pub progress : a.expanding ≡ true → a.expand_bucket < 2 ^ (a.hash_power - 1)
    pub placed : (s : Slot) → Placed a s
    pub distinct : (s : Slot) → Distinct key_of (read a s)

  read-init : (setting : ℕ) (s : Slot) → read (init setting) s ≡ []
  unfolding init read
  read-init setting (in_old i) = refl
  read-init setting (in_primary i) = refl

  -- A fresh table is valid, for any configured power below 32.
  pub init-IsValid : (setting : ℕ) → 2 ^ setting < 2 ^ 32 → IsValid (init setting)
  unfolding init
  init-IsValid setting h = record {
    power_pos = ground arith;
    power_small = ground arith;
    primary_size = ground (arith, fits);
    old_size = λ e. cc;
    progress = λ e. cc;
    placed = λ s. rw (read-init setting s) tt;
    distinct = λ s. rw (read-init setting s) tt;
  }
    where
      fits : 2 ^ setting % 2 ^ 32 ≡ 2 ^ setting
      fits = omega arith

  -- A change of one chain keeps the items where they belong if the new chain's are.
  Placed-write :
      (a : Assoc) (s : Slot) (c : List ℕ)
      → ((t : Slot) → Placed a t)
      → All (λ it. get_bucket hash a (key_of it) ≡ s) c
      → (t : Slot) → Placed (write a s c) t
  Placed-write a s c h hc t =
      All-mono (λ it p. get_bucket-write hash a s c (key_of it) ∙ p) (read (write a s c) t)
        (rw (read-write a s t c) (choose (slot_eq s t) refl))
    where
      choose :
          (b : Bool)
          → slot_eq s t ≡ b
          → All (λ it. get_bucket hash a (key_of it) ≡ t) (if b then c else read a t)
      choose true e = All-mono (λ it p. p ∙ slot_eq→eq s t e) c hc
      choose false e = h t

  Distinct-write :
      (a : Assoc) (s : Slot) (c : List ℕ)
      → ((t : Slot) → Distinct key_of (read a t))
      → Distinct key_of c
      → (t : Slot) → Distinct key_of (read (write a s c) t)
  Distinct-write a s c h hc t = rw (read-write a s t c) (choose (slot_eq s t))
    where
      choose : (b : Bool) → Distinct key_of (if b then c else read a t)
      choose true = hc
      choose false = h t

  -- The fields that a change of one chain leaves alone.
  write-IsValid :
      (a : Assoc) (s : Slot) (c : List ℕ) (n : ℕ)
      → IsValid a
      → All (λ it. get_bucket hash a (key_of it) ≡ s) c
      → Distinct key_of c
      → IsValid (record (write a s c) { nhash_item = n })
  unfolding write read get_bucket
  write-IsValid a (in_old i) c n v hc hd = record {
    power_pos = v.power_pos;
    power_small = v.power_small;
    primary_size = v.primary_size;
    old_size = v.old_size;
    progress = v.progress;
    placed = Placed-write a (in_old i) c v.placed hc;
    distinct = Distinct-write a (in_old i) c v.distinct hd;
  }
  write-IsValid a (in_primary i) c n v hc hd = record {
    power_pos = v.power_pos;
    power_small = v.power_small;
    primary_size = v.primary_size;
    old_size = v.old_size;
    progress = v.progress;
    placed = Placed-write a (in_primary i) c v.placed hc;
    distinct = Distinct-write a (in_primary i) c v.distinct hd;
  }

  All-remove :
      (P : ℕ → Type 0) (key : Key) (c : List ℕ) → All P c → All P (remove_chain key_of key c)
  unfolding remove_chain
  All-remove P key [] h = tt
  All-remove P key (it ∷ rest) h = ground (arith, All-remove P key rest h.1)

  search-remove_none :
      (key j : Key) (c : List ℕ)
      → search_chain key_of j c ≡ none
      → search_chain key_of j (remove_chain key_of key c) ≡ none
  unfolding search_chain remove_chain
  search-remove_none key j [] h = refl
  search-remove_none key j (it ∷ rest) h = ground (arith, search-remove_none key j rest)

  Distinct-remove :
      (key : Key) (c : List ℕ) → Distinct key_of c → Distinct key_of (remove_chain key_of key c)
  unfolding remove_chain
  Distinct-remove key [] h = tt
  Distinct-remove key (it ∷ rest) h =
      ground (arith, Distinct-remove key rest h.1, search-remove_none key (key_of it) rest h.0)

  -- assoc_delete of any key leaves a valid table valid.
  pub delete-IsValid : (a : Assoc) (key : Key) → IsValid a → IsValid (delete hash key_of a key)
  unfolding delete
  delete-IsValid a key v =
      write-IsValid a s _ _ v (All-remove _ key (read a s) (v.placed s))
        (Distinct-remove key (read a s) (v.distinct s))
    where
      s : Slot
      s = get_bucket hash a key

  link-IsValid :
      (a : Assoc) (it : ℕ)
      → IsValid a
      → find hash key_of a (key_of it) ≡ none
      → IsValid (link hash key_of a it)
  unfolding link find
  link-IsValid a it v absent = write-IsValid a s _ _ v (refl, v.placed s) (absent, v.distinct s)
    where
      s : Slot
      s = get_bucket hash a (key_of it)

  get_bucket-expand :
      (a : Assoc) (k : Key) (i : ℕ)
      → a.expanding ≡ false
      → get_bucket hash a k ≡ in_primary i
      → get_bucket hash (expand true a) k ≡ in_old i
  unfolding get_bucket expand
  get_bucket-expand a k i e p =
      ground (arith, ap (λ (n : ℕ). hash k % 2 ^ n) (power_back a.hash_power))

  -- An item of the table before its growth is looked up in the old table afterwards.
  Placed-expand :
      (alloc : Bool) (a : Assoc)
      → a.expanding ≡ false
      → ((t : Slot) → Placed a t)
      → (t : Slot) → Placed (expand alloc a) t
  unfolding expand read
  Placed-expand true a e h (in_primary i) = tt
  Placed-expand true a e h (in_old i) =
      All-mono (λ it. get_bucket-expand a (key_of it) i e) (a.primary_hashtable.chain i)
        (h (in_primary i))
  Placed-expand false a e h (in_old i) = tt
  Placed-expand false a e h (in_primary i) = unfold get_bucket in h (in_primary i)

  Distinct-expand :
      (alloc : Bool) (a : Assoc)
      → ((t : Slot) → Distinct key_of (read a t))
      → (t : Slot) → Distinct key_of (read (expand alloc a) t)
  unfolding expand read
  Distinct-expand true a h (in_primary i) = tt
  Distinct-expand true a h (in_old i) = h (in_primary i)
  Distinct-expand false a h (in_old i) = tt
  Distinct-expand false a h (in_primary i) = h (in_primary i)

  expand-IsValid :
      (alloc : Bool) (a : Assoc)
      → IsValid a
      → a.expanding ≡ false
      → 2 ^ (a.hash_power + 1) < 2 ^ 32
      → IsValid (expand alloc a)
  unfolding expand
  expand-IsValid true a v e fits = record {
    power_pos = ground arith;
    power_small = fits;
    primary_size = mod-eq_of_lt fits;
    old_size = λ _. rw power_back v.primary_size;
    progress = λ _. one-le-pow _ 2 (omega arith);
    placed = Placed-expand true a e v.placed;
    distinct = Distinct-expand true a v.distinct;
  }
  expand-IsValid false a v e fits = record {
    power_pos = v.power_pos;
    power_small = v.power_small;
    primary_size = v.primary_size;
    old_size = λ h. cc;
    progress = λ h. cc;
    placed = Placed-expand false a e v.placed;
    distinct = Distinct-expand false a v.distinct;
  }

  expanding-needed :
      (setting : ℕ) (a : Assoc) → expand_needed setting a ≡ true → a.expanding ≡ false
  unfolding expand_needed
  expanding-needed setting a h = ground arith

  power-link : (a : Assoc) (it : ℕ) → (link hash key_of a it).hash_power ≡ a.hash_power
  unfolding link write get_bucket
  power-link a it = ground arith

  -- On a valid table that does not hold the key of an item, and whose next size fits in 32 bits,
  -- assoc_insert leaves the table valid: every item in the chain that its key is looked up in, no
  -- key twice, and the positions and sizes in range.
  pub insert-IsValid :
      (setting : ℕ) (alloc : Bool) (a : Assoc) (it : ℕ)
      → IsValid a
      → find hash key_of a (key_of it) ≡ none
      → 2 ^ (a.hash_power + 1) < 2 ^ 32
      → IsValid (insert hash key_of setting alloc a it)
  unfolding insert
  insert-IsValid setting alloc a it v absent fits =
      elim (Bool-cases (expand_needed setting (link hash key_of a it))) [
        | inl grows ↦ rw grows (
            expand-IsValid alloc _ (link-IsValid a it v absent) (expanding-needed setting _ grows)
              (rw (power-link a it) fits))
        | inr stays ↦ rw stays (link-IsValid a it v absent)
      ]

  -- A fresh table holds no key.
  pub find-init : (setting : ℕ) (key : Key) → find hash key_of (init setting) key ≡ none
  unfolding find
  find-init setting key = rw (read-init setting (get_bucket hash (init setting) key))
