-- ===== src/KcMap/Probe.antt =====
-- kc_map_incr ends, and what it counts.
use native.Mathlib.Nat.{mod-eq_of_lt, mod-lt, mod_self}
use twemcache.Base.{
  ℕ, zero, suc, ◌+◌, ◌-◌, ◌%◌, ◌^◌, ◌<◌, ◌≡◌, ◌≢◌, key_eq→eq, refl, true, Bool-cases, inl, inr, ◌⊎◌,
  Option, none, some, List, leb, ◌==◌, if◌then◌else◌, arith,
}
use twemcache.KcMap.{KcMap, is_match, probe, count_at, kc_map_incr, kc_map_decr}

-- How many steps the loop takes from an entry to another.
abbrev distance : ℕ → ℕ → ℕ → ℕ
distance size entry j = if leb entry j then j - entry else j + size - entry

next-entry :
    (size entry : ℕ)
    → entry < size
    → (entry + 1) % size ≡ (if entry + 1 == size then 0 else entry + 1)
next-entry size entry h = elim (Bool-cases (entry + 1 == size)) [
  | inl e ↦ let e' : entry + 1 ≡ size = ground arith in rw (e, e') (mod_self size)
  | inr e ↦ rw e (mod-eq_of_lt (ground arith))
]

abbrev IsFound : KcMap → List ℕ → Option ℕ → Type 0
IsFound m key none = ⊥
IsFound m key (some i) = (i < m.table_size) × (is_match (m.table i) key ≡ true)

module _ (m : KcMap) (key : List ℕ) (j : ℕ) (inside : j < m.table_size)
    (empty : (m.table j).count ≡ 0) where
  probe-IsFound :
      (fuel entry : ℕ)
      → entry < m.table_size
      → distance m.table_size entry j < fuel
      → IsFound m key (probe m key fuel entry)
  unfolding probe is_match
  probe-IsFound zero entry h d = ground arith
  probe-IsFound (suc fuel) entry h d = elim (Bool-cases (is_match (m.table entry) key)) [
    | inl e ↦ rw e (h, e)
    | inr e ↦
        rw (e, next-entry m.table_size entry h)
          (probe-IsFound fuel (if entry + 1 == m.table_size then 0 else entry + 1) (ground arith)
            (ground arith))
  ]

-- What kc_map_incr does: it counts the key at an entry that was empty or has the key.
abbrev pub Incremented : KcMap → List ℕ → Option (KcMap × ℕ) → Type 0
Incremented m key none = ⊥
Incremented m key (some (t, i)) =
    (i < m.table_size)
    × (((m.table i).count ≡ 0) ⊎ ((m.table i).key ≡ key))
    × ((t.table i).key ≡ key)
    × ((t.table i).count ≡ ((m.table i).count + 1) % 2 ^ 64)
    × ((k : ℕ) → k ≢ i → t.table k ≡ m.table k)
    × (t.table_size ≡ m.table_size)

module _ (m : KcMap) (key : List ℕ) where
  matched :
      (i : ℕ) → is_match (m.table i) key ≡ true → ((m.table i).count ≡ 0) ⊎ ((m.table i).key ≡ key)
  unfolding is_match
  matched i e = elim (Bool-cases ((m.table i).count == 0)) [
    | inl z ↦ inl (ground arith)
    | inr n ↦ inr (key_eq→eq (m.table i).key key (ground arith))
  ]

  count_at-Incremented :
      (i : ℕ)
      → i < m.table_size
      → is_match (m.table i) key ≡ true
      → Incremented m key (some (count_at m key i, i))
  unfolding count_at is_match
  count_at-Incremented i h e = (
    h,
    matched i e,
    elim (matched i e) [ inl z ↦ ground arith | inr k ↦ ground arith ],
    ground arith,
    (λ k n. ground arith),
    refl,
  )

module _ (hash : List ℕ → ℕ) (m : KcMap) (key : List ℕ) (j : ℕ) where
  -- On a table with an entry of count 0, kc_map_incr ends within table_size rounds, at an entry
  -- that was empty or had the key; afterwards that entry has the key and one more in its count,
  -- modulo 2^64, and no other entry has changed.
  pub kc_map_incr-Incremented :
      j < m.table_size → (m.table j).count ≡ 0 → Incremented m key (kc_map_incr hash m key)
  unfolding kc_map_incr
  kc_map_incr-Incremented inside empty =
      found _ (probe-IsFound m key j inside empty m.table_size start below (ground arith))
    where
      start : ℕ
      start = hash key % m.table_size

      below : start < m.table_size
      below = mod-lt (hash key) (omega arith)

      found :
          (o : Option ℕ)
          → IsFound m key o
          → Incremented m key
              (elim o [ none ↦ none | some entry ↦ some (count_at m key entry, entry) ])
      found none f = f
      found (some i) f = count_at-Incremented m key i f.0 f.1

-- What counts a key anew at an entry.
abbrev pub Restarted : KcMap → List ℕ → ℕ → Option (KcMap × ℕ) → Type 0
Restarted m key i none = ⊥
Restarted m key i (some (t, e)) =
    (e ≡ i)
    × (t.table i ≡ record { key = key; count = 1 })
    × ((k : ℕ) → k ≢ i → t.table k ≡ m.table k)

probe-first :
    (m : KcMap) (key : List ℕ) (fuel i : ℕ)
    → 0 < fuel
    → is_match (m.table i) key ≡ true
    → probe m key fuel i ≡ some i
unfolding probe
probe-first m key zero i h e = ground arith
probe-first m key (suc fuel) i h e = rw e refl

module _ (hash : List ℕ → ℕ) (m : KcMap) (key : List ℕ) where
  abbrev pub home : ℕ
  home = hash key % m.table_size

  -- In a table with entries, if the entry that a key hashes to has the count 1, then after a
  -- kc_map_decr of that entry kc_map_incr counts the key there from 1, whatever the other entries
  -- hold, and changes no other entry.
  pub incr-decr :
      0 < m.table_size
      → (m.table home).count ≡ 1
      → Restarted m key home (kc_map_incr hash (kc_map_decr m home) key)
  unfolding kc_map_incr kc_map_decr
  incr-decr pos one = restart _ (probe-first less key m.table_size home pos free)
    where
      less : KcMap
      less = kc_map_decr m home

      free : is_match (less.table home) key ≡ true
      free = unfold is_match in ground arith

      restart :
          (o : Option ℕ)
          → o ≡ some home
          → Restarted m key home
              (elim o [ none ↦ none | some entry ↦ some (count_at less key entry, entry) ])
      restart none e = cc
      restart (some i) e =
          let e' : i ≡ home = cc in
          rw e' (refl, unfold count_at in ground arith, unfold count_at in λ k n. ground arith)

pub count-decr :
    (m : KcMap) (i k : ℕ)
    → 0 < (m.table i).count
    → (m.table i).count < 2 ^ 64
    → ((kc_map_decr m i).table k).count
      ≡ (if i == k then (m.table i).count - 1 else (m.table k).count)
unfolding kc_map_decr
count-decr m i k pos small = ground arith

pub size-decr : (m : KcMap) (i : ℕ) → (kc_map_decr m i).table_size ≡ m.table_size
unfolding kc_map_decr
size-decr m i = refl
