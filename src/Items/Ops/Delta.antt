-- ===== src/Items/Ops/Delta.antt =====
-- incr and decr: what item_delta returns, and the number it leaves in place.
use twemcache.Base.{
  drop, ◌++◌, ℕ, ◌-◌, ◌≡◌, ◌⊎◌, Bool, true, false, Option, none, some, List, ltb, if◌then◌else◌,
  length,
}
use twemcache.Assoc.{Key}
use twemcache.Store.{Settings, Env, Store}
use twemcache.Items.{set_value, set_nbyte, item_fresh_cas}
use twemcache.Items.Index.{index}
use twemcache.Items.Linked.{IsReady}
use twemcache.Items.Ops.{
  apply_delta, overwrite, DeltaResult, delta_ok, delta_not_found, delta_non_numeric, delta_eom,
}
use twemcache.Items.Ops.Storing.{Became, erased}
use twemcache.Util.{strtoull_len, print_uint64}

module _ (cfg : Settings) (s : Store) (it : ℕ) (buf : List ℕ) where
  -- The in-place branch of item_delta, before the item is released.
  abbrev rewritten : Store
  rewritten =
      set_nbyte (set_value (item_fresh_cas cfg s it) it (overwrite (s.items it) buf)) it
        (length buf)

module _ (hash : Key → ℕ) (s : Store) (incr : Bool) (delta : ℕ) where
  -- The number that replaces `v`, as text.
  abbrev pub printed : ℕ → List ℕ
  printed v = print_uint64 (apply_delta incr delta v)

  -- What is left of an item with the number `v`, by whether the new text is too long for it. At the
  -- right end of an item, the end of the payload stays, and its start moves.
  abbrev pub Written : ℕ → ℕ → Bool → Store → DeltaResult → Type 0
  Written it v false t res =
      (res ≡ delta_ok)
      × Became hash (index hash s) t
      × ((t.items it).value ≡ (
          if (s.items it).raligned
          then drop ((s.items it).nbyte - length (printed v))
              (printed v ++ drop (length (printed v)) (s.items it).value)
          else printed v))
      × ((t.items it).nbyte ≡ length (printed v))
  Written it v true t res = (res ≡ delta_ok) ⊎ (res ≡ delta_eom)

  -- What item_delta does to an item, by the number that it holds.
  abbrev pub Number : ℕ → Option ℕ → Store × DeltaResult × Option ℕ → Type 0
  Number it none (t, res, out) =
      (res ≡ delta_non_numeric) × (out ≡ none) × Became hash (index hash s) t
  Number it (some v) (t, res, out) =
      (out ≡ some (apply_delta incr delta v))
      × Written it v (ltb (s.items it).nbyte (length (printed v))) t res

  module _ (key : Key) where
    -- What item_delta does, by the live item of the key.
    abbrev pub Counted : Option ℕ → Store × DeltaResult × Option ℕ → Type 0
    Counted none (t, res, out) =
        (res ≡ delta_not_found) × (out ≡ none) × Became hash (erased hash s key) t
    Counted (some it) r = Number it (strtoull_len (s.items it).value) r

  module _ (key : Key) (cfg : Settings) (env : Env) (r : IsReady hash s) where
    answer : Bool → DeltaResult
    answer ok = if ok then delta_ok else delta_eom

    -- The payload of the item is where it was.
    record SamePayload (t : Store) (it : ℕ) : Type 0 where
      value : (t.items it).value ≡ (s.items it).value
      nbyte : (t.items it).nbyte ≡ (s.items it).nbyte
      raligned : (t.items it).raligned ≡ (s.items it).raligned
