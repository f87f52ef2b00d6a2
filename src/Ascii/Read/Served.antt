-- ===== src/Ascii/Read/Served.antt =====
-- The reply to a get, key by key, and that asc_process_read gives it, where the allocator grants
-- what is asked.
use mathlib.Core.List.{append_assoc, map-append}
use twemcache.Ascii.{Server, set_conn, set_store, key_max_len, asc_rsp_server_error}
use twemcache.Ascii.Read.{Hit, on_suffix, asc_respond_get, ilist_room, add_hit}
use twemcache.Ascii.Read.Hits.{
  IsOpen, Sent, Answered, block, resized-Sent, Sent-then, respond-Answered,
}
use twemcache.Assoc.{Key}
use twemcache.Base.{
  ℕ, ◌+◌, ◌*◌, ◌≤◌, ◌≡◌, refl, sym, ap, ◌∙◌, Bool, true, false, Option, none, some, List, [], ◌∷◌,
  ◌++◌, length, leb, map, if◌then◌else◌,
}
use twemcache.Conn.Bytes.{out}
use twemcache.Conn.{on_ok}
use twemcache.Items.{item_get, item_touch, item_remove}
use twemcache.Store.{Settings, Store, on_null}

-- The store after the keys were got, one after the other; a hit is touched.
module _ (hash : Key → ℕ) (cfg : Settings) where
  unfoldable pub after : Store → List Key → Store
  after s [] = s
  after s (k ∷ ks) =
      on_null (item_get hash s k) (λ t. after t ks) (λ t it. after (item_touch cfg t it) ks)

  -- The items that were found.
  unfoldable pub found : Store → List Key → List ℕ
  found s [] = []
  found s (k ∷ ks) =
      on_null (item_get hash s k) (λ t. found t ks) (λ t it. it ∷ found (item_touch cfg t it) ks)

  -- The blocks of those items.
  unfoldable pub blocks : Bool → Store → List Key → List ℕ
  blocks cas s [] = []
  blocks cas s (k ∷ ks) =
      on_null (item_get hash s k) (λ t. blocks cas t ks)
        (λ t it. block cas t it ++ blocks cas (item_touch cfg t it) ks)

abbrev pub Short : List Key → Type 0
Short [] = Unit
Short (k ∷ ks) = (length k ≤ key_max_len) × Short ks

abbrev pub items_of : List Hit → List ℕ
items_of hits = map (λ (h : Hit). h.it) hits

-- From one point of asc_process_read to a later one.
pub record Progress (w : Server) (hits : List Hit) (s : Store) (bytes : List ℕ) (items : List ℕ)
    (v : Server) (hits' : List Hit) : Type 0 where
  pub store : v.store ≡ s
  pub cfg : v.cfg ≡ w.cfg
  pub detects : v.hotkey_enable ≡ w.hotkey_enable
  pub opened : IsOpen v.conn
  pub sent : out v.conn ≡ out w.conn ++ bytes
  pub listed : items_of hits' ≡ items_of hits ++ items

pub Progress-then :
    (w v u : Server) (hits hits' hits'' : List Hit) (s t : Store) (a b : List ℕ) (is js : List ℕ)
    → Progress w hits s a is v hits'
    → Progress v hits' t b js u hits''
    → Progress w hits t (a ++ b) (is ++ js) u hits''
Progress-then w v u hits hits' hits'' s t a b is js p q = record {
  store = q.store;
  cfg = q.cfg ∙ p.cfg;
  detects = q.detects ∙ p.detects;
  opened = q.opened;
  sent = q.sent ∙ ap (λ l. l ++ b) p.sent ∙ append_assoc (out w.conn) a b;
  listed = q.listed ∙ ap (λ l. l ++ js) p.listed ∙ append_assoc (items_of hits) is js;
}

module _ (grants : ℕ → Bool) (granted : (n : ℕ) → grants n ≡ true) (address : ℕ → ℕ) where
  abbrev pub HitAdded : Server → List Hit → ℕ → Bool → Server × Option (List Hit) → Type 0
  HitAdded w hits it cas (v, none) = ⊥
  HitAdded w hits it cas (v, some hits') =
      Progress w hits (item_touch w.cfg w.store it) (block cas w.store it) (it ∷ []) v hits'

  pub add_hit-Added :
      (w : Server) (hits : List Hit) (it : ℕ) (cas : Bool)
      → IsOpen w.conn
      → HitAdded w hits it cas (add_hit grants (λ n. some (address n)) w hits it cas)
  unfolding add_hit ilist_room
  add_hit-Added w hits it cas o =
      roomed (leb w.conn.isize (length hits)) (grants w.conn.reallocs) (granted w.conn.reallocs)
    where
      responded :
          (u : Server)
          → Sent w [] u
          → (r : Server × Option ℕ) → Answered u (block cas u.store it) r
          → HitAdded w hits it cas (
              on_suffix r
                (λ v. (set_store (asc_rsp_server_error v) (item_remove v.store it), none))
                (λ v suffix. (
                  set_store v (item_touch v.cfg v.store it),
                  some (hits ++ record { it = it; suffix = suffix } ∷ []),
                )))
      responded u p (v, none) h = absurd h
      responded u p (v, some suffix) h =
          let q = Sent-then w u v [] _ p h in
          record {
            store = rw (q.cfg, q.store) refl;
            cfg = q.cfg;
            detects = q.detects;
            opened = q.opened;
            sent = q.sent ∙ ap (λ s. out w.conn ++ block cas s it) p.store;
            listed = map-append _ hits _;
          }

      roomed :
          (full grant : Bool)
          → grant ≡ true
          → HitAdded w hits it cas (
              on_ok
                (if full
                  then on_ok
                      (record w.conn { reallocs = w.conn.reallocs + 1 }, grant)
                      (λ c. (c, false))
                      (λ c. (record c { isize = c.isize * 2 }, true))
                  else (w.conn, true))
                (λ c. (set_store (set_conn w c) (item_remove w.store it), none))
                (λ c.
                  on_suffix
                    (asc_respond_get grants
                      (λ n. some (address n))
                      (set_conn w c)
                      (length hits)
                      it
                      cas)
                    (λ v. (set_store (asc_rsp_server_error v) (item_remove v.store it), none))
                    (λ v suffix. (
                      set_store v (item_touch v.cfg v.store it),
                      some (hits ++ record { it = it; suffix = suffix } ∷ []),
                    ))))
      roomed true true e =
          let p =
            resized-Sent w w.suffix_cache (w.conn.isize * 2) w.conn.ssize (w.conn.reallocs + 1) o in
          responded _ p _ (respond-Answered grants granted address _ (length hits) it cas p.opened)
      roomed true false e = absurd cc
      roomed false grant e =
          let p = resized-Sent w w.suffix_cache w.conn.isize w.conn.ssize w.conn.reallocs o in
          responded _ p _ (respond-Answered grants granted address _ (length hits) it cas p.opened)

-- Keys in two parts.
module _ (hash : Key → ℕ) (cfg : Settings) where
  pub after-append :
      (s : Store) (ks ls : List Key)
      → after hash cfg s (ks ++ ls) ≡ after hash cfg (after hash cfg s ks) ls
  unfolding after
  after-append s [] ls = refl
  after-append s (k ∷ ks) ls = got (item_get hash s k) (λ t. after-append t ks ls)
    where
      got :
          (r : Store × Option ℕ)
          → ((t : Store) → after hash cfg t (ks ++ ls) ≡ after hash cfg (after hash cfg t ks) ls)
          → on_null r
              (λ t. after hash cfg t (ks ++ ls))
              (λ t it. after hash cfg (item_touch cfg t it) (ks ++ ls))
            ≡ after hash cfg
                (on_null r
                  (λ t. after hash cfg t ks)
                  (λ t it. after hash cfg (item_touch cfg t it) ks))
                ls
      got (t, none) ih = ih t
      got (t, some it) ih = ih (item_touch cfg t it)

  pub found-append :
      (s : Store) (ks ls : List Key)
      → found hash cfg s (ks ++ ls) ≡ found hash cfg s ks ++ found hash cfg (after hash cfg s ks) ls
  unfolding after found
  found-append s [] ls = refl
  found-append s (k ∷ ks) ls = got (item_get hash s k) (λ t. found-append t ks ls)
    where
      got :
          (r : Store × Option ℕ)
          → ((t : Store)
              → found hash cfg t (ks ++ ls)
                ≡ found hash cfg t ks ++ found hash cfg (after hash cfg t ks) ls)
          → on_null r
              (λ t. found hash cfg t (ks ++ ls))
              (λ t it. it ∷ found hash cfg (item_touch cfg t it) (ks ++ ls))
            ≡ on_null r
                (λ t. found hash cfg t ks)
                (λ t it. it ∷ found hash cfg (item_touch cfg t it) ks)
              ++ found hash cfg
                  (on_null r
                    (λ t. after hash cfg t ks)
                    (λ t it. after hash cfg (item_touch cfg t it) ks))
                  ls
      got (t, none) ih = ih t
      got (t, some it) ih = ap (λ l. it ∷ l) (ih (item_touch cfg t it))

  pub blocks-append :
      (cas : Bool) (s : Store) (ks ls : List Key)
      → blocks hash cfg cas s (ks ++ ls)
        ≡ blocks hash cfg cas s ks ++ blocks hash cfg cas (after hash cfg s ks) ls
  unfolding after blocks
  blocks-append cas s [] ls = refl
  blocks-append cas s (k ∷ ks) ls = got (item_get hash s k) (λ t. blocks-append cas t ks ls)
    where
      got :
          (r : Store × Option ℕ)
          → ((t : Store)
              → blocks hash cfg cas t (ks ++ ls)
                ≡ blocks hash cfg cas t ks ++ blocks hash cfg cas (after hash cfg t ks) ls)
          → on_null r
              (λ t. blocks hash cfg cas t (ks ++ ls))
              (λ t it. block cas t it ++ blocks hash cfg cas (item_touch cfg t it) (ks ++ ls))
            ≡ on_null r
                (λ t. blocks hash cfg cas t ks)
                (λ t it. block cas t it ++ blocks hash cfg cas (item_touch cfg t it) ks)
              ++ blocks hash cfg cas
                  (on_null r
                    (λ t. after hash cfg t ks)
                    (λ t it. after hash cfg (item_touch cfg t it) ks))
                  ls
      got (t, none) ih = ih t
      got (t, some it) ih =
          ap (λ l. block cas t it ++ l) (ih (item_touch cfg t it))
          ∙ sym (append_assoc (block cas t it) _ _)

pub Short-front : (ks ls : List Key) → Short (ks ++ ls) → Short ks
Short-front [] ls h = tt
Short-front (k ∷ ks) ls (a, h) = (a, Short-front ks ls h)

pub Short-back : (ks ls : List Key) → Short (ks ++ ls) → Short ls
Short-back [] ls h = h
Short-back (k ∷ ks) ls (a, h) = Short-back ks ls h
