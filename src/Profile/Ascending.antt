-- ===== src/Profile/Ascending.antt =====
-- Every profile that mc_set_profile accepts is one that the search for a slab class can use.
use twemcache.Base.{
  ℕ, zero, suc, ◌+◌, ◌-◌, ◌^◌, ◌≤◌, ◌<◌, ◌≡◌, refl, Bool, true, false, Bool-cases, inl, inr, Option,
  none, some, List, ltb, leb, if◌then◌else◌, length, update, arith,
}
use twemcache.Number.{Libc, strtoul}
use twemcache.Profile.{
  Sizes, max_id, slab_room, align, next_size, generate_loop, mc_generate_profile, split_comma,
  takes_size, parse_loop, mc_parse_profile, mc_set_profile,
}
use twemcache.SlabClass.{min_id, slab_id}
use twemcache.SlabClass.Search.{Fits, slab_id-Fits}

-- The first `n` sizes ascend, and none is above `top`.
pub record Ascends (p : ℕ → ℕ) (n top : ℕ) : Type 0 where
  pub order : (i j : ℕ) → 1 ≤ i → i < j → j ≤ n → p i < p j
  pub below : (j : ℕ) → 1 ≤ j → j ≤ n → p j ≤ top

-- One size more, above the others.
Ascends-update :
    (p : ℕ → ℕ) (n top x : ℕ)
    → Ascends p n top
    → ((j : ℕ) → 1 ≤ j → j ≤ n → p j < x)
    → x ≤ top
    → Ascends (update p (n + 1) x) (n + 1) top
Ascends-update p n top x a above h = record {
  order = λ i j l m r. ground (arith, a.order i j, above i);
  below = λ j l m. ground (arith, a.below j);
}

-- The sizes of a server that can start.
pub record IsProfile (s : Sizes) : Type 0 where
  pub some_class : 1 ≤ s.profile_last_id
  pub few : s.profile_last_id ≤ max_id
  pub ascends : Ascends s.profile s.profile_last_id (slab_room s)
  pub max_size : s.profile s.profile_last_id ≡ s.max_chunk_size

-- What a double does to sizes below `top`: with a factor above 1 a product is not less than the
-- size, and it does not reach 2^63.
pub record Scales (scale : ℕ → ℕ) (top : ℕ) : Type 0 where
  pub grows : (n : ℕ) → n < top → n ≤ scale n
  pub fits : (n : ℕ) → n < top → scale n < 2 ^ 63

next_size-lt : (scale : ℕ → ℕ) (top n : ℕ) → Scales scale top → n < top → n < next_size scale n
unfolding next_size align
next_size-lt scale top n s h = ground (arith, s.grows n h, s.fits n h)

-- The sizes before `id` ascend, below `top`.
record Grown (top : ℕ) (r : (ℕ → ℕ) × ℕ) : Type 0 where
  low : 1 ≤ r.1
  high : r.1 ≤ max_id
  order : (i j : ℕ) → 1 ≤ i → i < j → j < r.1 → r.0 i < r.0 j
  below : (j : ℕ) → 1 ≤ j → j < r.1 → r.0 j < top

generate_loop-Grown :
    (scale : ℕ → ℕ) (top room : ℕ) (p : ℕ → ℕ) (id x : ℕ)
    → Scales scale top
    → id + room ≤ max_id
    → Grown top (p, id)
    → ((j : ℕ) → 1 ≤ j → j < id → p j < x)
    → Grown top (generate_loop scale top room p id x)
unfolding generate_loop
generate_loop-Grown scale top zero p id x s few g above = g
generate_loop-Grown scale top (suc room) p id x s few g above = elim (Bool-cases (ltb x top)) [
  | inr full ↦ rw full g
  | inl more ↦ rw more (
      generate_loop-Grown scale top room (update p id x) (id + 1) (next_size scale x) s
        (omega arith)
        (record {
          low = omega (arith, g.low);
          high = omega (arith, few);
          order = λ i j l m r. ground (arith, g.order i j, above i);
          below = λ j l m. ground (arith, g.below j);
        })
        (λ j l m. ground (arith, above j, next_size-lt scale top x s)))
]

generate-IsProfile :
    (scale : ℕ → ℕ) (s : Sizes)
    → Scales scale (slab_room s)
    → IsProfile (mc_generate_profile scale s)
unfolding mc_generate_profile
generate-IsProfile scale s h = finished _ (
    generate_loop-Grown scale (slab_room s) (max_id - min_id) s.profile min_id s.chunk_size h
      (omega arith)
      (record {
        low = omega arith;
        high = omega arith;
        order = λ i j l m r. absurd (omega arith);
        below = λ j l m. absurd (omega arith);
      })
      (λ j l m. absurd (omega arith)))
  where
    finished :
        (r : (ℕ → ℕ) × ℕ)
        → Grown (slab_room s) r
        → IsProfile (record s {
          profile = update r.0 r.1 (slab_room s);
          profile_last_id = r.1;
          max_chunk_size = slab_room s;
        })
    finished (p, id) g = record {
      some_class = g.low;
      few = g.high;
      ascends = record {
        order = λ i j l m r. ground (arith, g.order i j, g.below i);
        below = λ j l m. ground (arith, g.below j);
      };
      max_size = ground arith;
    }

taken-Ascends :
    (s : Sizes) (id x : ℕ)
    → Ascends s.profile id (slab_room s)
    → takes_size s id x ≡ true
    → Ascends (update s.profile (id + 1) x) (id + 1) (slab_room s)
unfolding takes_size
taken-Ascends s id x a t =
    Ascends-update s.profile id (slab_room s) x a (λ j l m. ground (arith, a.order j id, t))
      (ground (arith, t))

abbrev Parsed : ℕ → Option (Sizes × ℕ) → Type 0
Parsed slab_size none = Unit
Parsed slab_size (some (t, id)) =
    (1 ≤ id) × (id ≤ max_id) × Ascends t.profile id (slab_room t) × (t.slab_size ≡ slab_size)

parse_loop-Parsed :
    (libc : Libc) (room : ℕ) (s : Sizes) (id : ℕ) (ptr : List ℕ)
    → id + room ≤ max_id
    → Ascends s.profile id (slab_room s)
    → Parsed s.slab_size (parse_loop libc room s id ptr)
unfolding parse_loop
parse_loop-Parsed libc zero s id ptr few a = tt
parse_loop-Parsed libc (suc room) s id ptr few a =
    cut (leb 11 (length (split_comma ptr).0)) (strtoul libc (split_comma ptr).0) (split_comma ptr).1
      (parse_loop-Parsed libc room)
  where
    Next : Type 0
    Next =
        (s : Sizes) (id : ℕ) (ptr : List ℕ)
        → id + room ≤ max_id
        → Ascends s.profile id (slab_room s)
        → Parsed s.slab_size (parse_loop libc room s id ptr)

    with_size : ℕ → Sizes
    with_size x = record s { profile = update s.profile (id + 1) x }

    more :
        (x : ℕ) (after : Option (List ℕ))
        → Next
        → Ascends (with_size x).profile (id + 1) (slab_room s)
        → Parsed s.slab_size (elim after [
          | none ↦ some (with_size x, id + 1)
          | some rest ↦ parse_loop libc room (with_size x) (id + 1) rest
        ])
    more x none ih b = (omega arith, omega (arith, few), b, refl)
    more x (some rest) ih b = ih (with_size x) (id + 1) rest (omega (arith, few)) b

    cut :
        (long : Bool) (o : Option ℕ) (after : Option (List ℕ))
        → Next
        → Parsed s.slab_size (
            if long then none else elim o [
              | none ↦ none
              | some item_sz ↦
                  let s' = record s { profile = update s.profile (id + 1) item_sz } in
                  if takes_size s id item_sz
                  then elim after [
                    | none ↦ some (s', id + 1)
                    | some rest ↦ parse_loop libc room s' (id + 1) rest
                  ]
                  else none
            ])
    cut true o after ih = tt
    cut false none after ih = tt
    cut false (some x) after ih = elim (Bool-cases (takes_size s id x)) [
      | inl t ↦ rw t (more x after ih (taken-Ascends s id x a t))
      | inr t ↦ rw t tt
    ]

abbrev pub Accepted : ℕ → Option Sizes → Type 0
Accepted slab_size none = Unit
Accepted slab_size (some t) =
    IsProfile t
    × (t.slab_size ≡ slab_size)
    × ((size : ℕ)
        → Fits t.profile t.profile_last_id size (slab_id t.profile t.profile_last_id size))

searched :
    (slab_size : ℕ) (t : Sizes)
    → IsProfile t
    → t.slab_size ≡ slab_size
    → Accepted slab_size (some t)
searched slab_size t p e =
    (p, e, λ size. (slab_id-Fits t.profile t.profile_last_id size p.few p.ascends.order).1)

parse-Accepted :
    (libc : Libc) (s : Sizes) (str : List ℕ) → Accepted s.slab_size (mc_parse_profile libc s str)
unfolding mc_parse_profile
parse-Accepted libc s str =
    finished (parse_loop libc max_id s 0 str)
      (parse_loop-Parsed libc max_id s 0 str (omega arith) empty)
  where
    empty : Ascends s.profile 0 (slab_room s)
    empty = record {
      order = λ i j l m r. absurd (omega arith);
      below = λ j l m. absurd (omega arith);
    }

    finished :
        (o : Option (Sizes × ℕ))
        → Parsed s.slab_size o
        → Accepted s.slab_size (elim o [
          | none ↦ none
          | some (t, id) ↦ some (record t {
            chunk_size = t.profile min_id;
            profile_last_id = id;
            max_chunk_size = t.profile id;
          })
        ])
    finished none h = tt
    finished (some (t, id)) (low, high, a, e) =
        searched s.slab_size _
          (record { some_class = low; few = high; ascends = a; max_size = refl }) e

pub mc_set_profile-Accepted :
    (libc : Libc) (scale : ℕ → ℕ) (profile_optarg : Option (List ℕ)) (s : Sizes)
    → Scales scale (slab_room s)
    → Accepted s.slab_size (mc_set_profile libc scale profile_optarg s)
unfolding mc_set_profile
mc_set_profile-Accepted libc scale none s h =
    unfold mc_generate_profile in searched s.slab_size _ (generate-IsProfile scale s h) refl
mc_set_profile-Accepted libc scale (some str) s h = parse-Accepted libc s str
