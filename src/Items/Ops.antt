-- ===== src/Items/Ops.antt =====
-- The commands of src/mc_items.c on stored items: set, cas, add, replace, append and prepend, incr
-- and decr, delete, and the flush of the lru queues.
pub mod Storing
pub mod Delta
pub mod Flush
pub mod Tests
use twemcache.Base.{
  drop, ℕ, zero, suc, ◌+◌, ◌-◌, ◌*◌, ◌%◌, ◌^◌, Bool, true, false, not, ◌&&◌, ◌||◌, reverse, Option,
  none, some, List, [], ◌∷◌, ◌++◌, ltb, leb, ◌==◌, if◌then◌else◌, length,
}
use twemcache.Assoc.{Key}
use twemcache.Store.{Item, Settings, Env, Store, set_item, key_of, on_null}
use twemcache.Items.{
  Request, set_value, set_nbyte, item_fresh_cas, item_get_cas, item_slabid, item_link, item_unlink,
  item_relink, item_remove, item_alloc, item_get,
}
use twemcache.SlabClass.{invalid_id}
use twemcache.Util.{strtoull_len, print_uint64}

-- The payload of `old` once `buf` is copied to where it starts and is its whole length. A payload
-- at the right end of its item then starts further right, and keeps its end.
abbrev pub overwrite : Item → List ℕ → List ℕ
overwrite old buf =
    if old.raligned then drop (old.nbyte - length buf) (buf ++ drop (length buf) old.value) else buf

pub data CasResult : Type 0 where
  cas_ok cas_exists cas_not_found : CasResult

pub data AddResult : Type 0 where
  add_ok add_exists : AddResult

pub data ReplaceResult : Type 0 where
  replace_ok replace_not_found : ReplaceResult

pub data AnnexResult : Type 0 where
  annex_ok annex_not_found annex_oversized annex_eom : AnnexResult

pub data DeltaResult : Type 0 where
  delta_ok delta_not_found delta_non_numeric delta_eom : DeltaResult

pub data DeleteResult : Type 0 where
  delete_ok delete_not_found : DeleteResult

-- What _item_annex stores through its pointers, where it does.
pub record AnnexOut : Type 0 where
  pub result : AnnexResult
  pub nbyte : Option ℕ
  pub oid : Option ℕ
  pub nid : Option ℕ

-- The arithmetic of _item_delta, on uint64_t.
pub apply_delta : Bool → ℕ → ℕ → ℕ
apply_delta incr delta value =
    if incr then (value + delta) % 2 ^ 64 else if ltb value delta then 0 else value - delta

module _ (hash : Key → ℕ) (cfg : Settings) (env : Env) where
  -- item_set
  pub item_set : Store → ℕ → Store
  item_set s it =
      on_null (item_get hash s (key_of s it)) (λ s'. item_link hash cfg env s' it)
        (λ s' oit. item_remove (item_relink hash cfg env s' oit it) oit)

  -- item_cas
  pub item_cas : Store → ℕ → Store × CasResult
  item_cas s it =
      on_null (item_get hash s (key_of s it)) (λ s'. (s', cas_not_found))
        (λ s' oit.
          if item_get_cas s' it == item_get_cas s' oit
          then (item_remove (item_relink hash cfg env s' oit it) oit, cas_ok)
          else (item_remove s' oit, cas_exists))

  -- item_add
  pub item_add : Store → ℕ → Store × AddResult
  item_add s it =
      on_null (item_get hash s (key_of s it)) (λ s'. (item_link hash cfg env s' it, add_ok))
        (λ s' oit. (item_remove s' oit, add_exists))

  -- item_replace
  pub item_replace : Store → ℕ → Store × ReplaceResult
  item_replace s it =
      on_null (item_get hash s (key_of s it)) (λ s'. (s', replace_not_found))
        (λ s' oit. (item_remove (item_relink hash cfg env s' oit it) oit, replace_ok))

  -- The in-place branches of _item_annex: the payload grows to `v`, of `total` bytes.
  pub annex_in_place : Store → ℕ → List ℕ → ℕ → Store
  annex_in_place s oit v total = item_fresh_cas cfg (set_nbyte (set_value s oit v) oit total) oit

  -- The branches that allocate: `ralign` is the flag that a prepend sets.
  pub annex_moved : Store → ℕ → Bool → ℕ → Request → List ℕ → Store × Bool
  annex_moved s oit ralign id req v =
      on_null (item_alloc hash cfg env s id req) (λ s'. (item_remove s' oit, false))
        (λ s' nit.
          let filled =
            set_item s' nit
              (record (s'.items nit) { raligned = (s'.items nit).raligned || ralign; value = v }) in
          (item_remove (item_remove (item_relink hash cfg env filled oit nit) oit) nit, true))

  -- _item_annex once the old item is found; `append` tells REQ_APPEND and REQ_APPENDRL from the
  -- prepends.
  pub annex_found : Store → ℕ → Bool → ℕ → Store × AnnexOut
  annex_found s it append oit =
      if id == invalid_id
      then (item_remove s oit, out annex_oversized none)
      else if (id == old.id) && (if append then not old.raligned else old.raligned)
      then (item_remove (annex_in_place s oit v total) oit, out annex_ok (some total))
      else let (s', ok) = annex_moved s oit (not append) id req v in
        (s', if ok then out annex_ok (some total) else out annex_eom none)
    where
      old : Item
      old = s.items oit

      total : ℕ
      total = (old.nbyte + (s.items it).nbyte) % 2 ^ 32

      id : ℕ
      id = item_slabid cfg s (length old.key) total

      v : List ℕ
      v = if append then old.value ++ (s.items it).value else (s.items it).value ++ old.value

      req : Request
      req = record {
        key = key_of s it;
        dataflags = old.dataflags;
        exptime = old.exptime;
        nbyte = total;
      }

      out : AnnexResult → Option ℕ → AnnexOut
      out r n = record { result = r; nbyte = n; oid = some old.id; nid = some id }

  -- item_annex
  pub item_annex : Store → ℕ → Bool → Store × AnnexOut
  item_annex s it append =
      on_null (item_get hash s (key_of s it))
        (λ s'. (s', record { result = annex_not_found; nbyte = none; oid = none; nid = none }))
        (λ s' oit. annex_found s' it append oit)

  -- The new value takes the place of the old one, in a new item if it is longer.
  pub store_delta : Store → ℕ → List ℕ → Store × Bool
  store_delta s it buf =
      if ltb (s.items it).nbyte (length buf)
      then on_null (item_alloc hash cfg env s (item_slabid cfg s (length old.key) (length buf)) req)
          (λ s'. (item_remove s' it, false))
          (λ s' new_it. (
            item_remove
                (item_remove (item_relink hash cfg env (set_value s' new_it buf) it new_it) it)
                new_it,
            true,
          ))
      else (
        item_remove
            (set_nbyte (set_value (item_fresh_cas cfg s it) it (overwrite old buf)) it (length buf))
            it,
        true,
      )
    where
      old : Item
      old = s.items it

      req : Request
      req = record {
        key = old.key;
        dataflags = old.dataflags;
        exptime = old.exptime;
        nbyte = length buf;
      }

  -- item_delta: the value is what `*value` holds at the end, where the item holds a number.
  pub item_delta : Store → Key → Bool → ℕ → Store × DeltaResult × Option ℕ
  item_delta s key incr delta =
      on_null (item_get hash s key) (λ s'. (s', delta_not_found, none))
        (λ s' it. elim (strtoull_len (s'.items it).value) [
          | none ↦ (item_remove s' it, delta_non_numeric, none)
          | some v ↦
              let (s'', ok) = store_delta s' it (print_uint64 (apply_delta incr delta v)) in
              (s'', if ok then delta_ok else delta_eom, some (apply_delta incr delta v))
        ])

  -- item_delete
  pub item_delete : Store → Key → Store × DeleteResult
  item_delete s key =
      on_null (item_get hash s key) (λ s'. (s', delete_not_found))
        (λ s' it. (item_remove (item_unlink hash s' it) it, delete_ok))

module _ (hash : Key → ℕ) where
  -- TAILQ_FOREACH_REVERSE_SAFE over one lru queue, its last item first.
  pub flush_queue : Store → List ℕ → Store
  flush_queue s [] = s
  flush_queue s (it ∷ older) =
      let flushed = flush_queue (item_unlink hash s it) older in
      if ltb (s.items it).atime s.oldest_live then s else flushed

  -- The classes from `id` on, `n` of them.
  pub flush_classes : ℕ → ℕ → Store → Store
  flush_classes zero id s = s
  flush_classes (suc n) id s = flush_classes n (id + 1) (flush_queue s (reverse (s.item_lruq id)))

  -- item_flush_expired, over the classes 1 to SLABCLASS_MAX_ID.
  pub item_flush_expired : Store → Store
  item_flush_expired s = if s.oldest_live == 0 then s else flush_classes 254 1 s
