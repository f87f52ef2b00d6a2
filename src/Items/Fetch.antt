-- ===== src/Items/Fetch.antt =====
-- _item_get: what it returns, and what it leaves in the index.
use twemcache.Base.{
  ℕ, ◌≡◌, refl, ap, Bool, true, false, ◌&&◌, Option, none, some, if◌then◌else◌, arith, key_eq,
  key_eq→eq, Bool-cases, inl, inr,
}
use twemcache.Assoc.{Key, Assoc}
use twemcache.Assoc.Find.{find-key}
use twemcache.Store.{Store, key_of}
use twemcache.Link.{item_acquire_refcount, item_unlink_q}
use twemcache.Slabs.{slab_put_item}
use twemcache.Items.{item_unlink, item_get, item_found, is_stale, item_get_cas, item_free}
use twemcache.Items.Index.{
  index, index-unlink, index-same, acquire-SameIndex, keys-unlink, power-unlink,
}
use twemcache.Items.Linked.{IsReady, links-acquire, IsReady-same, IsReady-unlink}

module _ (hash : Key → ℕ) where
  -- The item that a key stands for at the current time: the indexed one, unless it has expired or a
  -- flush has overtaken it.
  abbrev pub fresh : Store → Option ℕ → Option ℕ
  fresh s none = none
  fresh s (some it) = if is_stale s it then none else some it

  abbrev pub live : Store → Key → Option ℕ
  live s key = fresh s (index hash s key)

  abbrev is_null : Option ℕ → Bool
  is_null none = true
  is_null (some it) = false

  -- What a call of _item_get did: it returned the live item, it dropped the key if that is stale,
  -- and nothing else changed in the index.
  pub record Fetched (s : Store) (key : Key) (t : Store) (r : Option ℕ) : Type 0 where
    pub result : r ≡ live s key
    pub indexes :
        (j : Key) → index hash t j ≡ (if key_eq j key && is_null r then none else index hash s j)
    pub ready : IsReady hash t
    pub keys : key_of t ≡ key_of s
    pub cas : (q : ℕ) → item_get_cas t q ≡ item_get_cas s q
    pub power : t.assoc.hash_power ≡ s.assoc.hash_power

  cas-acquire :
      (s : Store) (it q : ℕ) → item_get_cas (item_acquire_refcount s it) q ≡ item_get_cas s q
  unfolding item_get_cas item_acquire_refcount
  cas-acquire s it q = ground arith

  cas-unlink : (s : Store) (it q : ℕ) → item_get_cas (item_unlink hash s it) q ≡ item_get_cas s q
  unfolding item_get_cas item_unlink item_unlink_q item_free slab_put_item
  cas-unlink s it q = ground arith

  found-Fetched :
      (s : Store) (key : Key) (o : Option ℕ)
      → index hash s key ≡ o
      → IsReady hash s
      → Fetched s key (item_found hash s o).0 (item_found hash s o).1
  unfolding item_found
  found-Fetched s key none e r = record {
    result = rw e;
    indexes = λ j. ground (arith, key_eq→eq j key);
    ready = r;
    keys = refl;
    cas = λ q. refl;
    power = refl;
  }
  found-Fetched s key (some it) e r = elim (Bool-cases (is_stale s it)) [
    | inl stale ↦ rw stale (record {
      result = rw e (rw stale);
      indexes =
          λ j. ground (arith, key_of_found, index-unlink hash s it j r.indexed (r.linked key it e));
      ready = IsReady-unlink hash s it r (r.linked key it e);
      keys = keys-unlink hash s it;
      cas = cas-unlink s it;
      power = power-unlink hash s it;
    })
    | inr good ↦ rw good (record {
      result = rw e (rw good);
      indexes = λ j. ground (arith, index-same hash (acquire-SameIndex s it) j);
      ready =
          IsReady-same hash s (item_acquire_refcount s it) (acquire-SameIndex s it)
            (links-acquire s it) r;
      cas = cas-acquire s it;
      keys = (acquire-SameIndex s it).keys;
      power = ap (λ (a : Assoc). a.hash_power) (acquire-SameIndex s it).table;
    })
  ]
    where
      key_of_found : key ≡ key_of s it
      key_of_found = key_eq→eq key (key_of s it) (find-key hash (key_of s) s.assoc key it e)

  pub item_get-Fetched :
      (s : Store) (key : Key)
      → IsReady hash s
      → Fetched s key (item_get hash s key).0 (item_get hash s key).1
  unfolding item_get
  item_get-Fetched s key r = found-Fetched s key (index hash s key) refl r
