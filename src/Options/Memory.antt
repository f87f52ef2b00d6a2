-- ===== src/Options/Memory.antt =====
-- The options on memory leave the settings within their bounds.
use native.Mathlib.Nat.{mul_assoc, mul-mod_right}
use twemcache.Base.{
  ℕ, ◌-◌, ◌*◌, ◌/◌, ◌%◌, ◌^◌, ◌≡◌, ap, ◌∙◌, true, ◌&&◌, Bool-cases, inl, inr, Option, none, some,
  List, leb, ◌==◌, if◌then◌else◌, arith,
}
use twemcache.Options.{
  Platform, Options, MemoryOption, opt_eviction_strategy, opt_factor, opt_max_memory,
  opt_min_item_chunk_size, opt_slab_size, opt_slab_profile, number_in, slab_unit, set_slab_size,
  set_memory_option,
}
use twemcache.Profile.{min_chunk_size, mc_alignment}
use twemcache.Options.Bounds.{Bounded, IsSane, Sane, number_in-Bounded, with_value-Sane}

module _ (platform : Platform) where
  unit_aligned :
      (value unit : ℕ) → (value % mc_alignment == 0) ≡ true → (value * unit) % mc_alignment ≡ 0
  unit_aligned value unit e =
      let whole : value ≡ mc_alignment * (value / mc_alignment) = ground arith in
      ap (λ v. (v * unit) % mc_alignment) whole
      ∙ ap (λ v. v % mc_alignment) (mul_assoc mc_alignment (value / mc_alignment) unit)
      ∙ mul-mod_right mc_alignment (value / mc_alignment * unit)

  slab_size-Sane :
      (arg : List ℕ) (s : Options platform)
      → IsSane platform s
      → Sane platform (set_slab_size platform arg s)
  unfolding set_slab_size
  slab_size-Sane arg s (z, f, m, w, g, k) =
      checked (number_in platform 1 _ (slab_unit platform arg).0)
    where
      unit : ℕ
      unit = (slab_unit platform arg).1

      checked :
          (o : Option ℕ)
          → Sane platform (elim o [
            | none ↦ none
            | some value ↦
                if (value % mc_alignment == 0)
                  && (leb 512 (value * unit) && leb (value * unit) (128 * (1024 * 1024)))
                then some (record s { sizes = record s.sizes { slab_size = value * unit } })
                else none
          ])
      checked none = tt
      checked (some value) =
          elim (Bool-cases (
            (value % mc_alignment == 0)
            && (leb 512 (value * unit) && leb (value * unit) (128 * (1024 * 1024))))) [
              | inr e ↦ rw e tt
              | inl e ↦ rw e (
                record {
                  slab_low = ground arith;
                  slab_high = ground arith;
                  slab_aligned = unit_aligned value unit (ground arith);
                  chunk_low = z.chunk_low;
                  chunk_aligned = z.chunk_aligned;
                },
                f,
                m,
                w,
                g,
                k,
              )
            ]

  pub memory-Sane :
      (o : MemoryOption) (arg : List ℕ) (s : Options platform)
      → IsSane platform s
      → Sane platform (set_memory_option platform o arg s)
  unfolding set_memory_option
  memory-Sane opt_eviction_strategy arg s (z, f, (p, e, b), w, g, k) =
      with_value-Sane platform _ _ arg _ (λ v l u. elim (Bool-cases (v == 8)) [
        | inl q ↦ rw q (z, f, (p, omega (arith, u), b), w, g, k)
        | inr q ↦ rw q (z, f, (p, omega (arith, u), b), w, g, k)
      ])
  memory-Sane opt_factor arg s (z, f, m, w, g, k) =
      elim (Bool-cases (platform.le_one (platform.strtod arg))) [
        | inl e ↦ rw e tt
        | inr e ↦ rw e (z, e, m, w, g, k)
      ]
  memory-Sane opt_max_memory arg s (z, f, (p, e, b), w, g, k) =
      with_value-Sane platform _ _ arg _ (λ v l u. (z, f, (p, e, omega (arith, l)), w, g, k))
  memory-Sane opt_min_item_chunk_size arg s (z, f, m, w, g, k) =
      checked _ (number_in-Bounded platform min_chunk_size _ arg)
    where
      checked :
          (o : Option ℕ)
          → Bounded min_chunk_size (2 ^ 31 - 1) o
          → Sane platform (elim o [
            | none ↦ none
            | some value ↦
                if value % mc_alignment == 0
                then some (record s { sizes = record s.sizes { chunk_size = value } })
                else none
          ])
      checked none b = tt
      checked (some value) (l, u) = elim (Bool-cases (value % mc_alignment == 0)) [
        | inr e ↦ rw e tt
        | inl e ↦ rw e (
          record {
            slab_low = z.slab_low;
            slab_high = z.slab_high;
            slab_aligned = z.slab_aligned;
            chunk_low = l;
            chunk_aligned = ground arith;
          },
          f,
          m,
          w,
          g,
          k,
        )
      ]
  memory-Sane opt_slab_size arg s h = slab_size-Sane arg s h
  memory-Sane opt_slab_profile arg s h = h
