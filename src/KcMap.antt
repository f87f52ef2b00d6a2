-- ===== src/KcMap.antt =====
-- src/mc_kc_map.c: the hot key detector's table of key counts, open addressing with linear probing.
-- The keys have no NUL byte, so that strncmp compares klen bytes.
pub mod Probe
mod Tests
use twemcache.Base.{
  ℕ, zero, suc, ◌+◌, ◌-◌, ◌*◌, ◌%◌, ◌^◌, Bool, ◌||◌, Option, none, some, List, [], ltb, ◌==◌,
  if◌then◌else◌, update, key_eq,
}

-- `klen` is the length of `key`.
pub record KcMapEntry : Type 0 where
  pub key : List ℕ
  pub count : ℕ

-- The static variables of the file.
pub record KcMap : Type 0 where
  pub table : ℕ → KcMapEntry
  pub table_size : ℕ
  pub table_nkey : ℕ

abbrev pub entry_reset : KcMapEntry
entry_reset = record { key = []; count = 0 }

-- kc_map_init, where the memory is granted.
unfoldable pub init : ℕ → KcMap
init size = record { table = λ i. entry_reset; table_size = (2 * size) % 2 ^ 64; table_nkey = 0 }

pub is_match : KcMapEntry → List ℕ → Bool
is_match kcme key = kcme.count == 0 || key_eq kcme.key key

-- The loop of kc_map_incr, from an entry on; `none` when the fuel is used up.
pub probe : KcMap → List ℕ → ℕ → ℕ → Option ℕ
probe m key zero entry = none
probe m key (suc fuel) entry =
    let later = probe m key fuel ((entry + 1) % m.table_size) in
    if is_match (m.table entry) key then some entry else later

-- What kc_map_incr writes at the entry that the loop stops at.
pub count_at : KcMap → List ℕ → ℕ → KcMap
count_at m key entry = record m { table = update m.table entry counted }
  where
    old : KcMapEntry
    old = m.table entry

    counted : KcMapEntry
    counted =
        if old.count == 0
        then record { key = key; count = 1 }
        else record old { count = (old.count + 1) % 2 ^ 64 }

-- kc_map_incr: the table, and the entry that is returned. The loop meets every entry in
-- `table_size` rounds.
pub kc_map_incr : (List ℕ → ℕ) → KcMap → List ℕ → Option (KcMap × ℕ)
unfolding probe count_at
kc_map_incr hash m key = elim (probe m key m.table_size (hash key % m.table_size)) [
  | none ↦ none
  | some entry ↦ some (count_at m key entry, entry)
]

pub kc_map_decr : KcMap → ℕ → KcMap
kc_map_decr m entry = record m {
  table = update m.table entry (
      if (m.table entry).count == 1
      then entry_reset
      else record (m.table entry) { count = ((m.table entry).count + 2 ^ 64 - 1) % 2 ^ 64 });
}
