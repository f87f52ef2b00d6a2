-- ===== src/Assoc/Move.antt =====
-- The maintenance thread of src/mc_assoc.c: moving a bucket loses and changes no lookup.
use native.Mathlib.Nat.{mod-lt, one-le-pow, pow-le-pow_right}
use twemcache.Base.{
  ◌≢◌, ℕ, suc, ◌+◌, ◌-◌, ◌%◌, ◌^◌, ◌≤◌, ◌<◌, ◌≡◌, refl, sym, subst, ◌∙◌, ap, true, false, Option,
  none, some, List, [], ◌∷◌, ◌==◌, update, key_eq→eq, key_eq_refl, arith, Bool-cases, inl, inr, All,
  All-mono, ◌⊎◌, zero,
}
use twemcache.Assoc.{
  Key, Table, Assoc, Slot, in_old, in_primary, read, get_bucket, search_chain, find, migrate,
  move_bucket, move_buckets, maintain, write_chain,
}
use twemcache.Assoc.Bucket.{slot_eq, slot_eq_refl, slot_eq→eq, Distinct}
use twemcache.Assoc.Inv.{IsValid, Placed}

abbrev or_else : Option ℕ → Option ℕ → Option ℕ
or_else (some x) y = some x
or_else none y = y

module _ (hash : Key → ℕ) (key_of : ℕ → Key) where
  -- Where the migrated entries can be found.
  search-migrate :
      (power : ℕ) (xs : List ℕ) (t : Table) (k : Key)
      → Distinct key_of xs
      → search_chain key_of k ((migrate hash key_of power xs t).chain (hash k % 2 ^ power))
        ≡ or_else (search_chain key_of k xs) (search_chain key_of k (t.chain (hash k % 2 ^ power)))
  unfolding migrate search_chain
  search-migrate power [] t k d = refl
  search-migrate power (it ∷ rest) t k d = ground (
    arith,
    search-migrate power rest
        (write_chain t (hash (key_of it) % 2 ^ power) (it ∷ t.chain (hash (key_of it) % 2 ^ power)))
        k d.1,
    key_eq→eq k (key_of it),
  )

  -- What holds of every entry, and of its chain's number, holds after the migration.
  migrate-All :
      (Q : ℕ → ℕ → Type 0) (power : ℕ) (xs : List ℕ) (t : Table)
      → ((i : ℕ) → All (Q i) (t.chain i))
      → All (λ it. Q (hash (key_of it) % 2 ^ power) it) xs
      → (i : ℕ) → All (Q i) ((migrate hash key_of power xs t).chain i)
  unfolding migrate
  migrate-All Q power [] t h hx = h
  migrate-All Q power (it ∷ rest) t h hx = migrate-All Q power rest _ (λ i. pushed i) hx.1
    where
      pushed :
          (i : ℕ)
          → All (Q i) (
              update t.chain
                (hash (key_of it) % 2 ^ power)
                (it ∷ t.chain (hash (key_of it) % 2 ^ power))
                i)
      pushed i = ground (arith, h i, hx.0)

  migrate-Distinct :
      (power : ℕ) (xs : List ℕ) (t : Table)
      → ((i : ℕ) → Distinct key_of (t.chain i))
      → Distinct key_of xs
      → ((k : Key)
          → (search_chain key_of k xs ≡ none)
            ⊎ (search_chain key_of k (t.chain (hash k % 2 ^ power)) ≡ none))
      → (i : ℕ) → Distinct key_of ((migrate hash key_of power xs t).chain i)
  unfolding migrate search_chain
  migrate-Distinct power [] t h d apart = h
  migrate-Distinct power (it ∷ rest) t h d apart =
      migrate-Distinct power rest _ (λ i. pushed i) d.1 (λ k. still k)
    where
      pushed :
          (i : ℕ)
          → Distinct key_of (
              update t.chain
                (hash (key_of it) % 2 ^ power)
                (it ∷ t.chain (hash (key_of it) % 2 ^ power))
                i)
      pushed i = ground (arith, h i, apart (key_of it), key_eq_refl (key_of it))

      still :
          (k : Key)
          → (search_chain key_of k rest ≡ none)
            ⊎ (search_chain key_of k (
                  update t.chain
                    (hash (key_of it) % 2 ^ power)
                    (it ∷ t.chain (hash (key_of it) % 2 ^ power))
                    (hash k % 2 ^ power))
                ≡ none)
      still k = ground (arith, apart k, key_eq→eq k (key_of it), d.0)

  -- A key is not found in a chain of items that belong elsewhere.
  search_misplaced :
      (a : Assoc) (s : Slot) (k : Key) (c : List ℕ)
      → All (λ it. get_bucket hash a (key_of it) ≡ s) c
      → get_bucket hash a k ≢ s
      → search_chain key_of k c ≡ none
  unfolding search_chain
  search_misplaced a s k [] h ne = refl
  search_misplaced a s k (it ∷ rest) h ne =
      ground (arith, search_misplaced a s k rest h.1 ne, key_eq→eq k (key_of it), h.0)

  bucket_bounds :
      (a : Assoc)
      → IsValid hash key_of a
      → a.expanding ≡ true
      → ((a.expand_bucket + 1) % 2 ^ 32 ≡ a.expand_bucket + 1) × (0 < 2 ^ (a.hash_power - 1))
  bucket_bounds a v e = (omega (arith, v.progress e, half), one-le-pow _ 2 (omega arith))
    where
      half : 2 ^ (a.hash_power - 1) ≤ 2 ^ a.hash_power
      half = pow-le-pow_right {n = 2} (omega arith) (omega arith)

  -- Moving a bucket changes no lookup.
  pub find-move_bucket :
      (a : Assoc) (k : Key)
      → IsValid hash key_of a
      → find hash key_of (move_bucket hash key_of a) k ≡ find hash key_of a k
  unfolding find move_bucket read get_bucket
  find-move_bucket a k v = elim (Bool-cases a.expanding) [
    | inr idle ↦ ground arith
    | inl busy ↦ ground (
      arith,
      bucket_bounds a v busy,
      search-migrate a.hash_power (a.old_hashtable.chain a.expand_bucket) a.primary_hashtable k
          (v.distinct (in_old a.expand_bucket)),
      search_misplaced a (in_primary (hash k % 2 ^ a.hash_power)) k _
          (v.placed (in_primary (hash k % 2 ^ a.hash_power))),
      search_misplaced a (in_old a.expand_bucket) k _ (v.placed (in_old a.expand_bucket)),
      mod-lt (hash k) {m = 2 ^ (a.hash_power - 1)},
    )
  ]

  module _ (a : Assoc) (v : IsValid hash key_of a) (busy : a.expanding ≡ true) where
    rebucket-primary :
        (k : Key) (j : ℕ)
        → get_bucket hash a k ≡ in_primary j
        → get_bucket hash (move_bucket hash key_of a) k ≡ in_primary j
    unfolding get_bucket move_bucket
    rebucket-primary k j h = ground (arith, bucket_bounds a v busy)

    rebucket-moved :
        (k : Key)
        → get_bucket hash a k ≡ in_old a.expand_bucket
        → get_bucket hash (move_bucket hash key_of a) k ≡ in_primary (hash k % 2 ^ a.hash_power)
    unfolding get_bucket move_bucket
    rebucket-moved k h = ground (arith, bucket_bounds a v busy)

    rebucket-old :
        (k : Key) (i : ℕ)
        → get_bucket hash a k ≡ in_old i
        → i ≢ a.expand_bucket
        → get_bucket hash (move_bucket hash key_of a) k ≡ in_old i
    unfolding get_bucket move_bucket
    rebucket-old k i h ne =
        ground (arith, bucket_bounds a v busy, mod-lt (hash k) {m = 2 ^ (a.hash_power - 1)})

    read-moved_primary :
        (i : ℕ)
        → read (move_bucket hash key_of a) (in_primary i)
          ≡ (migrate hash key_of a.hash_power
                (a.old_hashtable.chain a.expand_bucket)
                a.primary_hashtable).chain
              i
    unfolding read move_bucket
    read-moved_primary i = ground arith

    read-moved_old :
        (i : ℕ)
        → (read (move_bucket hash key_of a) (in_old i) ≡ [])
          ⊎ ((read (move_bucket hash key_of a) (in_old i) ≡ read a (in_old i))
              × (i ≢ a.expand_bucket))
    unfolding read move_bucket
    read-moved_old i = elim (Bool-cases (a.expand_bucket == i)) [
      | inl same ↦ inl (ground arith)
      | inr other ↦ ground arith
    ]

    moved-Placed : (s : Slot) → Placed hash key_of (move_bucket hash key_of a) s
    moved-Placed (in_primary i) = rw (read-moved_primary i) (
        migrate-All (λ i it. get_bucket hash (move_bucket hash key_of a) (key_of it) ≡ in_primary i)
          a.hash_power (a.old_hashtable.chain a.expand_bucket) a.primary_hashtable
          (λ j.
            All-mono (λ it. rebucket-primary (key_of it) j) _
              (unfold read in v.placed (in_primary j)))
          (All-mono (λ it. rebucket-moved (key_of it)) _
            (unfold read in v.placed (in_old a.expand_bucket)))
          i)
    moved-Placed (in_old i) = elim (read-moved_old i) [
      | inl empty ↦ rw empty tt
      | inr (same, other) ↦
          rw same (All-mono (λ it p. rebucket-old (key_of it) i p other) _ (v.placed (in_old i)))
    ]

    moved-Distinct : (s : Slot) → Distinct key_of (read (move_bucket hash key_of a) s)
    moved-Distinct (in_primary i) = rw (read-moved_primary i) (
        migrate-Distinct a.hash_power (a.old_hashtable.chain a.expand_bucket) a.primary_hashtable
          (λ j. unfold read in v.distinct (in_primary j))
          (unfold read in v.distinct (in_old a.expand_bucket)) apart i)
      where
        apart :
            (k : Key)
            → (search_chain key_of k (a.old_hashtable.chain a.expand_bucket) ≡ none)
              ⊎ (search_chain key_of k (a.primary_hashtable.chain (hash k % 2 ^ a.hash_power))
                  ≡ none)
        apart k = elim (Bool-cases (slot_eq (get_bucket hash a k) (in_old a.expand_bucket))) [
          | inl there ↦ inr (
              search_misplaced a (in_primary (hash k % 2 ^ a.hash_power)) k
                (a.primary_hashtable.chain (hash k % 2 ^ a.hash_power))
                (unfold read in v.placed (in_primary (hash k % 2 ^ a.hash_power)))
                (λ e. cc (slot_eq→eq (get_bucket hash a k) (in_old a.expand_bucket) there)))
          | inr elsewhere ↦ inl (
              search_misplaced a (in_old a.expand_bucket) k (a.old_hashtable.chain a.expand_bucket)
                (unfold read in v.placed (in_old a.expand_bucket))
                (λ e. cc (
                  slot_eq_refl (in_old a.expand_bucket),
                  ap (λ (s : Slot). slot_eq s (in_old a.expand_bucket)) e,
                )))
        ]
    moved-Distinct (in_old i) = elim (read-moved_old i) [
      | inl empty ↦ rw empty tt
      | inr (same, other) ↦ rw same (v.distinct (in_old i))
    ]

  size-migrate :
      (power : ℕ) (xs : List ℕ) (t : Table) → (migrate hash key_of power xs t).size ≡ t.size
  unfolding migrate
  size-migrate power [] t = refl
  size-migrate power (it ∷ rest) t =
      size-migrate power rest
        (write_chain t (hash (key_of it) % 2 ^ power) (it ∷ t.chain (hash (key_of it) % 2 ^ power)))

  -- What a round does to the other fields.
  record Sizes (a b : Assoc) : Type 0 where
    same_power : b.hash_power ≡ a.hash_power
    same_size : b.primary_hashtable.size ≡ a.primary_hashtable.size
    old_size : b.expanding ≡ true → b.old_hashtable.size ≡ a.old_hashtable.size
    steps :
        b.expanding ≡ true
        → (b.expand_bucket ≡ a.expand_bucket + 1) × (b.expand_bucket < 2 ^ (a.hash_power - 1))

  move_bucket-Sizes :
      (a : Assoc) → IsValid hash key_of a → a.expanding ≡ true → Sizes a (move_bucket hash key_of a)
  unfolding move_bucket
  move_bucket-Sizes a v busy = ground (
    arith,
    bucket_bounds a v busy,
    v.progress busy,
    size-migrate a.hash_power (a.old_hashtable.chain a.expand_bucket) a.primary_hashtable,
  )

  move_bucket_idle : (a : Assoc) → a.expanding ≡ false → move_bucket hash key_of a ≡ a
  unfolding move_bucket
  move_bucket_idle a idle = ground arith

  -- One round of the maintenance loop keeps the table valid.
  pub move_bucket-IsValid :
      (a : Assoc) → IsValid hash key_of a → IsValid hash key_of (move_bucket hash key_of a)
  move_bucket-IsValid a v = elim (Bool-cases a.expanding) [
    | inl busy ↦
        let s = move_bucket-Sizes a v busy in
        record {
          power_pos = rw s.same_power v.power_pos;
          power_small = rw s.same_power v.power_small;
          primary_size = rw (s.same_size, s.same_power) v.primary_size;
          old_size = λ e. rw s.same_power (s.old_size e ∙ v.old_size busy);
          progress = λ e. rw s.same_power (s.steps e).1;
          placed = moved-Placed a v busy;
          distinct = moved-Distinct a v busy;
        }
    | inr idle ↦ subst (IsValid hash key_of) (sym (move_bucket_idle a idle)) v
  ]

  pub move_buckets-IsValid :
      (n : ℕ) (a : Assoc)
      → IsValid hash key_of a
      → IsValid hash key_of (move_buckets hash key_of n a)
  unfolding move_buckets
  move_buckets-IsValid zero a v = v
  move_buckets-IsValid (suc n) a v = move_buckets-IsValid n _ (move_bucket-IsValid a v)

  find-move_buckets :
      (n : ℕ) (a : Assoc) (k : Key)
      → IsValid hash key_of a
      → find hash key_of (move_buckets hash key_of n a) k ≡ find hash key_of a k
  unfolding move_buckets
  find-move_buckets zero a k v = refl
  find-move_buckets (suc n) a k v =
      find-move_buckets n _ k (move_bucket-IsValid a v) ∙ find-move_bucket a k v

  -- On a valid table, a turn of the maintenance thread leaves the table valid and changes the
  -- lookup of no key.
  pub maintain_lem :
      (a : Assoc)
      → IsValid hash key_of a
      → IsValid hash key_of (maintain hash key_of a)
        × ((k : Key) → find hash key_of (maintain hash key_of a) k ≡ find hash key_of a k)
  unfolding maintain
  maintain_lem a v =
      (move_buckets-IsValid a.nhash_move_size a v, λ k. find-move_buckets a.nhash_move_size a k v)

  move_buckets_idle :
      (n : ℕ) (a : Assoc) → a.expanding ≡ false → (move_buckets hash key_of n a).expanding ≡ false
  unfolding move_buckets
  move_buckets_idle zero a idle = idle
  move_buckets_idle (suc n) a idle =
      move_buckets_idle n (move_bucket hash key_of a) (rw (move_bucket_idle a idle) idle)

  -- On a valid table, as many rounds of the maintenance loop as there are old buckets left, or
  -- more, end the expansion.
  pub move_buckets_end :
      (n : ℕ) (a : Assoc)
      → IsValid hash key_of a
      → 2 ^ (a.hash_power - 1) ≤ a.expand_bucket + n
      → (move_buckets hash key_of n a).expanding ≡ false
  unfolding move_buckets
  move_buckets_end zero a v enough = elim (Bool-cases a.expanding) [
    | inl busy ↦ absurd (omega (arith, v.progress busy))
    | inr idle ↦ idle
  ]
  move_buckets_end (suc n) a v enough = elim (Bool-cases a.expanding) [
    | inr idle ↦ move_buckets_idle (suc n) a idle
    | inl busy ↦
        let s = move_bucket-Sizes a v busy in
        elim (Bool-cases (move_bucket hash key_of a).expanding) [
          | inr done ↦ move_buckets_idle n (move_bucket hash key_of a) done
          | inl more ↦
              move_buckets_end n (move_bucket hash key_of a) (move_bucket-IsValid a v)
                (rw s.same_power (omega (arith, s.steps more)))
        ]
  ]
