-- ===== src/SlabClass.antt =====
-- slab_id of src/mc_slabs.c: the binary search for the slab class of an item size.
pub mod Search
mod Tests
use twemcache.Base.{
  ℕ, zero, suc, ◌+◌, ◌-◌, ◌/◌, ◌%◌, ◌^◌, Bool, ◌&&◌, Option, none, some, ltb, leb, if◌then◌else◌,
}

-- SLABCLASS_MIN_ID and SLABCLASS_INVALID_ID
abbrev pub min_id : ℕ
min_id = 1

abbrev pub invalid_id : ℕ
invalid_id = 255

-- The while loop, with `imin` and `imax` as uint8_t and `sizes id` for slabclass[id].size; then the
-- test after it. `none` is the end of the fuel.
pub search : (ℕ → ℕ) → ℕ → ℕ → ℕ → ℕ → Option ℕ
search sizes size zero imin imax = none
search sizes size (suc fuel) imin imax =
    let id = (imin + imax) / 2 in
    let right = search sizes size fuel ((id + 1) % 2 ^ 8) imax in
    let left = search sizes size fuel imin ((id + 2 ^ 8 - 1) % 2 ^ 8) in
    if leb imin imax
    then if ltb (sizes id) size
      then right
      else if ltb min_id id && leb size (sizes (id - 1))
      then left
      else some id
    else some invalid_id

abbrev pub or_invalid : Option ℕ → ℕ
or_invalid none = invalid_id
or_invalid (some id) = id

-- The fuel is more than the number of classes.
pub slab_id : (ℕ → ℕ) → ℕ → ℕ → ℕ
slab_id sizes max_id size = or_invalid (search sizes size 256 min_id max_id)
