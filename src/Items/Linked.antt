-- ===== src/Items/Linked.antt =====
-- The flag ITEM_LINKED: exactly what the operations do to it, and that every indexed item has it.
use twemcache.Base.{
  fun_ext, key_eq, key_eq→eq, refl, ℕ, ◌≡◌, sym, ap, ◌∙◌, Bool, true, false, none, some, ◌==◌,
  if◌then◌else◌, arith, ◌+◌, ◌^◌, ◌<◌,
}
use twemcache.Assoc
use twemcache.Assoc.{Key, Assoc}
use twemcache.Assoc.Inv.{init-IsValid, find-init}
use twemcache.Assoc.Find.{find-key}
use twemcache.Store.{Settings, Env, Store, set_item, key_of}
use twemcache.Link.{
  item_acquire_refcount, item_release_refcount, item_link_q, item_unlink_q, item_reuse,
}
use twemcache.Slabs.{slab_put_item}
use twemcache.Items.{item_link, item_unlink, item_remove, item_free, item_fresh_cas, assoc_insert}
use twemcache.Items.Index.{
  keys-unlink, index, HasIndex, index-link, index-unlink, index-same, HasIndex-same, link-HasIndex,
  unlink-HasIndex, SameIndex, index-reuse, reuse-HasIndex,
}

abbrev pub links : Store → ℕ → Bool
links s q = (s.items q).linked

pub links-acquire : (s : Store) (it q : ℕ) → links (item_acquire_refcount s it) q ≡ links s q
unfolding item_acquire_refcount
links-acquire s it q = ground arith

pub links-remove : (s : Store) (it q : ℕ) → links (item_remove s it) q ≡ links s q
unfolding item_remove item_free slab_put_item item_release_refcount
links-remove s it q = ground arith

links-link_q :
    (cfg : Settings) (s : Store) (it : ℕ) (allocated : Bool) (q : ℕ)
    → links (item_link_q cfg s it allocated) q ≡ links s q
unfolding item_link_q
links-link_q cfg s it allocated q = ground arith

links-fresh_cas :
    (cfg : Settings) (s : Store) (it q : ℕ) → links (item_fresh_cas cfg s it) q ≡ links s q
unfolding item_fresh_cas
links-fresh_cas cfg s it q = ground arith

-- Every linked item is the one that its key finds.
abbrev pub AllIndexed : (Key → ℕ) → Store → Type 0
AllIndexed hash s = (q : ℕ) → links s q ≡ true → index hash s (key_of s q) ≡ some q

module _ (hash : Key → ℕ) where
  pub links-unlink :
      (s : Store) (it q : ℕ)
      → links (item_unlink hash s it) q ≡ (if it == q then false else links s q)
  unfolding item_unlink item_unlink_q item_free slab_put_item
  links-unlink s it q = ground arith

  pub links-link :
      (cfg : Settings) (env : Env) (s : Store) (it q : ℕ)
      → links (item_link hash cfg env s it) q ≡ (if it == q then true else links s q)
  unfolding item_link assoc_insert
  links-link cfg env s it q =
      links-link_q cfg _ it true q
      ∙ links-fresh_cas cfg (set_item s it (record (s.items it) { linked = true })) it q
      ∙ ground arith

-- The index is well formed, and what it finds is linked.
pub record IsReady (hash : Key → ℕ) (s : Store) : Type 0 where
  pub indexed : HasIndex hash s
  pub linked : (key : Key) (it : ℕ) → index hash s key ≡ some it → links s it ≡ true

module _ (hash : Key → ℕ) where
  pub IsReady-same :
      (s t : Store)
      → SameIndex s t
      → ((q : ℕ) → links t q ≡ links s q)
      → IsReady hash s
      → IsReady hash t
  IsReady-same s t p l r = record {
    indexed = HasIndex-same hash p r.indexed;
    linked = λ key it e. l it ∙ r.linked key it (sym (index-same hash p key) ∙ e);
  }

  -- _item_unlink of a linked item.
  pub IsReady-unlink :
      (s : Store) (it : ℕ)
      → IsReady hash s
      → links s it ≡ true
      → IsReady hash (item_unlink hash s it)
  IsReady-unlink s it r l = record {
    indexed = unlink-HasIndex hash s it r.indexed l;
    linked = λ key q e. ground (
      arith,
      links-unlink hash s it q,
      index-unlink hash s it key r.indexed l,
      r.linked key q,
      find-key hash (key_of s) s.assoc key q,
    );
  }

  -- Where every linked item is indexed, it is so without one of them.
  AllIndexed-cut :
      (s t : Store) (it : ℕ)
      → AllIndexed hash s
      → links s it ≡ true
      → key_of t ≡ key_of s
      → ((q : ℕ) → links t q ≡ (if it == q then false else links s q))
      → ((key : Key)
          → index hash t key ≡ (if key_eq key (key_of s it) then none else index hash s key))
      → AllIndexed hash t
  AllIndexed-cut s t it all l keys less cut q on =
      ap (λ k. index hash t (k q)) keys ∙ kept (key_eq (key_of s q) (key_of s it)) refl
    where
      other : (it == q) ≡ false
      other = ground (arith, less q, on)

      held : index hash s (key_of s q) ≡ some q
      held = all q (ground (arith, less q, on))

      kept : (b : Bool) → key_eq (key_of s q) (key_of s it) ≡ b → index hash t (key_of s q) ≡ some q
      kept false e = cut (key_of s q) ∙ rw e held
      kept true e =
          let both =
            sym (all it l)
            ∙ ap (index hash s) (sym (key_eq→eq (key_of s q) (key_of s it) e))
            ∙ held in
          absurd (ground (arith, other, both))

  pub AllIndexed-same :
      (s t : Store)
      → SameIndex s t
      → ((q : ℕ) → links t q ≡ links s q)
      → AllIndexed hash s
      → AllIndexed hash t
  AllIndexed-same s t same l all q on =
      index-same hash same (key_of t q)
      ∙ ap (λ k. index hash s (k q)) same.keys
      ∙ all q (sym (l q) ∙ on)

  pub AllIndexed-unlink :
      (s : Store) (it : ℕ)
      → IsReady hash s
      → links s it ≡ true
      → AllIndexed hash s
      → AllIndexed hash (item_unlink hash s it)
  AllIndexed-unlink s it r l all =
      AllIndexed-cut s (item_unlink hash s it) it all l (keys-unlink hash s it)
        (links-unlink hash s it) (λ key. index-unlink hash s it key r.indexed l)

  pub links-reuse :
      (s : Store) (it q : ℕ)
      → links (item_reuse hash s it) q ≡ (if it == q then false else links s q)
  unfolding item_reuse item_unlink_q
  links-reuse s it q = ground arith

  keys-reuse : (s : Store) (it : ℕ) → key_of (item_reuse hash s it) ≡ key_of s
  unfolding item_reuse item_unlink_q
  keys-reuse s it = fun_ext λ q. ground arith

  pub AllIndexed-reuse :
      (s : Store) (it : ℕ)
      → IsReady hash s
      → links s it ≡ true
      → AllIndexed hash s
      → AllIndexed hash (item_reuse hash s it)
  AllIndexed-reuse s it r l all =
      AllIndexed-cut s (item_reuse hash s it) it all l (keys-reuse s it) (links-reuse s it)
        (λ key. index-reuse hash s it key r.indexed)

  pub IsReady-reuse : (s : Store) (it : ℕ) → IsReady hash s → IsReady hash (item_reuse hash s it)
  IsReady-reuse s it r = record {
    indexed = reuse-HasIndex hash s it r.indexed;
    linked = λ key q e. ground (
      arith,
      links-reuse s it q,
      index-reuse hash s it key r.indexed,
      r.linked key q,
      find-key hash (key_of s) s.assoc key q,
    );
  }

  pub IsReady-link :
      (cfg : Settings) (env : Env) (s : Store) (it : ℕ)
      → IsReady hash s
      → index hash s (key_of s it) ≡ none
      → 2 ^ (s.assoc.hash_power + 1) < 2 ^ 32
      → IsReady hash (item_link hash cfg env s it)
  IsReady-link cfg env s it r absent fits = record {
    indexed = link-HasIndex hash cfg env s it r.indexed absent fits;
    linked = λ key q e.
        ground
          (arith, links-link hash cfg env s it q, index-link hash cfg env s it key, r.linked key q);
  }

  -- The store after item_init and assoc_init is ready.
  pub init-IsReady :
      (s : Store) (setting : ℕ)
      → s.assoc ≡ Assoc.init setting
      → 2 ^ setting < 2 ^ 32
      → IsReady hash s
  init-IsReady s setting e h = record {
    indexed = rw e (init-IsValid hash (key_of s) setting h);
    linked = λ key it found. cc (
      found,
      ap (λ (a : Assoc). Assoc.find hash (key_of s) a key) e,
      find-init hash (key_of s) setting key,
    );
  }
