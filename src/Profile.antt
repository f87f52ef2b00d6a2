-- ===== src/Profile.antt =====
-- The slab classes that src/mc.c sets up before the server starts: mc_generate_profile,
-- mc_parse_profile and mc_set_profile.
--
-- A profile is an array of SLABCLASS_MAX_IDS sizes. `scale` is the product of a size and
-- settings.factor, a double, cut to a size_t.
pub mod Ascending
mod Tests
use twemcache.Base.{
  ℕ, zero, suc, ◌+◌, ◌-◌, ◌*◌, ◌/◌, ◌%◌, ◌^◌, Bool, true, false, not, ◌&&◌, ◌||◌, Option, none,
  some, List, [], ◌∷◌, ltb, leb, ◌==◌, if◌then◌else◌, length, update,
}
use twemcache.Number.{Libc, strtoul}
use twemcache.SlabClass.{min_id}
use twemcache.Store.{slab_hdr_size}

-- The settings that the sizes of the slab classes come from and go to.
pub record Sizes : Type 0 where
  pub slab_size : ℕ
  pub chunk_size : ℕ
  pub profile : ℕ → ℕ
  pub profile_last_id : ℕ
  pub max_chunk_size : ℕ

abbrev pub max_id : ℕ
max_id = 254

abbrev pub mc_alignment : ℕ
mc_alignment = 8

-- MC_ALIGN(d, MC_ALIGNMENT), on a size_t.
pub align : ℕ → ℕ
align d = (d + (mc_alignment - 1)) % 2 ^ 64 / mc_alignment * mc_alignment

-- ITEM_MIN_CHUNK_SIZE
abbrev pub min_chunk_size : ℕ
min_chunk_size = 64

-- slab_size()
abbrev pub slab_room : Sizes → ℕ
slab_room s = s.slab_size - slab_hdr_size

-- The item size behind `item_sz`.
pub next_size : (ℕ → ℕ) → ℕ → ℕ
unfolding align
next_size scale item_sz =
    align (if scale item_sz == item_sz then scale item_sz + 1 else scale item_sz)

-- The while loop of mc_generate_profile, with `room` ids left below SLABCLASS_MAX_ID: the profile,
-- and the id behind it.
pub generate_loop : (ℕ → ℕ) → ℕ → ℕ → (ℕ → ℕ) → ℕ → ℕ → (ℕ → ℕ) × ℕ
generate_loop scale max_item_sz zero profile id item_sz = (profile, id)
generate_loop scale max_item_sz (suc room) profile id item_sz =
    let grown =
      generate_loop scale max_item_sz room (update profile id item_sz) (id + 1)
        (next_size scale item_sz) in
    if ltb item_sz max_item_sz then grown else (profile, id)

pub mc_generate_profile : (ℕ → ℕ) → Sizes → Sizes
unfolding generate_loop
mc_generate_profile scale s =
    let (profile, id) =
      generate_loop scale (slab_room s) (max_id - min_id) s.profile min_id s.chunk_size in
    record s {
      profile = update profile id (slab_room s);
      profile_last_id = id;
      max_chunk_size = slab_room s;
    }

-- strchr(ptr, ','): the bytes before the first comma, and those behind it.
pub split_comma : List ℕ → List ℕ × Option (List ℕ)
split_comma [] = ([], none)
split_comma (c ∷ str) =
    let (front, back) = split_comma str in if c == b',' then ([], some str) else (c ∷ front, back)

-- A size that mc_parse_profile takes behind the first `id` ones.
pub takes_size : Sizes → ℕ → ℕ → Bool
takes_size s id item_sz =
    (item_sz % mc_alignment == 0)
    && (leb min_chunk_size item_sz
        && (leb item_sz (slab_room s) && not (leb min_id id && leb item_sz (s.profile id))))

-- The while loop of mc_parse_profile, with `room` ids left up to SLABCLASS_MAX_ID. `none` is an
-- error, also that of a string that goes on behind the last id.
pub parse_loop : Libc → ℕ → Sizes → ℕ → List ℕ → Option (Sizes × ℕ)
unfolding takes_size split_comma
parse_loop libc zero s id ptr = none
parse_loop libc (suc room) s id ptr =
    let (buf, after) = split_comma ptr in
    if leb 11 (length buf) then none else elim (strtoul libc buf) [
      | none ↦ none
      | some item_sz ↦
          let s' = record s { profile = update s.profile (id + 1) item_sz } in
          if takes_size s id item_sz
          then elim after [
            | none ↦ some (s', id + 1)
            | some rest ↦ parse_loop libc room s' (id + 1) rest
          ]
          else none
    ]

pub mc_parse_profile : Libc → Sizes → List ℕ → Option Sizes
unfolding parse_loop
mc_parse_profile libc s profile_optarg = elim (parse_loop libc max_id s 0 profile_optarg) [
  | none ↦ none
  | some (t, id) ↦ some (record t {
    chunk_size = t.profile min_id;
    profile_last_id = id;
    max_chunk_size = t.profile id;
  })
]

-- mc_set_profile: `profile_optarg` is `none` where parse_profile is not set.
pub mc_set_profile : Libc → (ℕ → ℕ) → Option (List ℕ) → Sizes → Option Sizes
unfolding mc_generate_profile mc_parse_profile
mc_set_profile libc scale none s = some (mc_generate_profile scale s)
mc_set_profile libc scale (some str) s = mc_parse_profile libc s str
