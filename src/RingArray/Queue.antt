-- ===== src/RingArray/Queue.antt =====
-- The ring behaves as a queue of at most `cap` elements.
use mathlib.Core.Path.{ap₂}
use native.Mathlib.Nat.{mod-eq_of_lt, mod_self}
use twemcache.Base.{
  ℕ, zero, suc, ◌+◌, ◌-◌, ◌%◌, ◌^◌, ◌≤◌, ◌<◌, ◌≡◌, ◌≢◌, refl, ap, sym, ◌∙◌, Option, none, some,
  List, [], ◌∷◌, ◌++◌, leb, ◌==◌, if◌then◌else◌, update, length, arith, Bool-cases, inl, inr,
}
use twemcache.RingArray.{Ring, nelem, next_pos, push, pop}

pub record IsValid (r : Ring) : Type 0 where
  pub cap_small : r.cap < 2 ^ 32 - 1
  pub rpos_in : r.rpos ≤ r.cap
  pub wpos_in : r.wpos ≤ r.cap

-- The slot behind `pos`, going round after slot `cap`, and the slot `n` places behind.
pub bump : ℕ → ℕ → ℕ
bump cap pos = if pos == cap then 0 else pos + 1

after : ℕ → ℕ → ℕ → ℕ
after cap pos n = if leb (pos + n) cap then pos + n else pos + n - (cap + 1)

-- `n` slots from `pos` on.
pub window : (ℕ → ℕ) → ℕ → ℕ → ℕ → List ℕ
window slots cap pos zero = []
window slots cap pos (suc n) = slots pos ∷ window slots cap (bump cap pos) n

-- The stored elements, oldest first.
pub contents : Ring → List ℕ
contents r = window r.slots r.cap r.rpos (nelem r.rpos r.wpos r.cap)

next_pos_lem : (pos cap : ℕ) → cap < 2 ^ 32 - 1 → pos ≤ cap → next_pos pos cap ≡ bump cap pos
unfolding next_pos bump
next_pos_lem pos cap h p = elim (Bool-cases (pos == cap)) [
  | inl e ↦ rw e (rw small (ground (arith, mod_self (cap + 1))))
  | inr e ↦ rw e (rw small (mod-eq_of_lt (ground arith)))
]
  where
    small : ((pos + 1) % 2 ^ 32) % ((cap + 1) % 2 ^ 32) ≡ (pos + 1) % (cap + 1)
    small = rw (
      mod-eq_of_lt {n = pos + 1} {m = 2 ^ 32} (omega arith),
      mod-eq_of_lt {n = cap + 1} {m = 2 ^ 32} (omega arith),
    )

bump-le : (cap pos : ℕ) → pos ≤ cap → bump cap pos ≤ cap
unfolding bump
bump-le cap pos p = ground arith

after-bump :
    (cap pos n : ℕ) → pos ≤ cap → suc n ≤ cap → after cap pos (suc n) ≡ after cap (bump cap pos) n
unfolding after bump
after-bump cap pos n p h = ground arith

after_ne : (cap pos n : ℕ) → pos ≤ cap → suc n ≤ cap → after cap pos (suc n) ≢ pos
unfolding after
after_ne cap pos n p h e = ground arith

after-zero : (cap pos : ℕ) → pos ≤ cap → after cap pos 0 ≡ pos
unfolding after
after-zero cap pos p = ground arith

length-window : (slots : ℕ → ℕ) (cap n pos : ℕ) → length (window slots cap pos n) ≡ n
unfolding window
length-window slots cap zero pos = refl
length-window slots cap (suc n) pos = ap suc (length-window slots cap n (bump cap pos))

-- A write just behind a window extends it.
window-update :
    (slots : ℕ → ℕ) (cap x n pos i : ℕ)
    → pos ≤ cap
    → n ≤ cap
    → i ≡ after cap pos n
    → window (update slots i x) cap pos (suc n) ≡ window slots cap pos n ++ x ∷ []
unfolding window
window-update slots cap x zero pos i p h e = ground (arith, after-zero cap pos p)
window-update slots cap x (suc n) pos i p h e = ap₂ ◌∷◌ (ground (arith, after_ne cap pos n p h)) (
    window-update slots cap x n (bump cap pos) i (bump-le cap pos p) (omega arith)
      (e ∙ after-bump cap pos n p h))

module _ (r : Ring) where
  -- What push does, by the queue before it.
  pub record Pushed (x : ℕ) (t : Ring) : Type 0 where
    pub valid : IsValid t
    pub same_cap : t.cap ≡ r.cap
    pub queue : contents t ≡ contents r ++ x ∷ []

  abbrev pub PushSpec : ℕ → Option Ring → Type 0
  PushSpec x none = length (contents r) ≡ r.cap
  PushSpec x (some t) = (length (contents r) < r.cap) × Pushed x t

  -- What pop does: it takes the oldest element.
  pub record Popped (x : ℕ) (t : Ring) : Type 0 where
    pub valid : IsValid t
    pub same_cap : t.cap ≡ r.cap
    pub queue : contents r ≡ x ∷ contents t

  abbrev pub PopSpec : Option (ℕ × Ring) → Type 0
  PopSpec none = contents r ≡ []
  PopSpec (some (x, t)) = Popped x t

module _ (r : Ring) (v : IsValid r) where
  after-nelem : after r.cap r.rpos (nelem r.rpos r.wpos r.cap) ≡ r.wpos
  unfolding after nelem
  after-nelem = ground (arith, v.rpos_in, v.wpos_in)

  nelem-le : nelem r.rpos r.wpos r.cap ≤ r.cap
  unfolding nelem
  nelem-le = ground (arith, v.rpos_in, v.wpos_in)

  nelem-bump :
      nelem r.rpos r.wpos r.cap ≢ r.cap
      → nelem r.rpos (bump r.cap r.wpos) r.cap ≡ suc (nelem r.rpos r.wpos r.cap)
  unfolding nelem bump
  nelem-bump h = ground (arith, v.rpos_in, v.wpos_in)

  push-full : nelem r.rpos r.wpos r.cap ≡ r.cap → (x : ℕ) → push x r ≡ none
  unfolding push
  push-full h x = ground arith

  push-room :
      nelem r.rpos r.wpos r.cap ≢ r.cap
      → (x : ℕ)
      → push x r ≡ some (record r { slots = update r.slots r.wpos x; wpos = bump r.cap r.wpos })
  unfolding push
  push-room h x = rw (next_pos_lem r.wpos r.cap v.cap_small v.wpos_in) (ground arith)

  -- On a valid ring, ring_array_push appends the element to the stored ones and leaves the ring
  -- valid if it holds fewer than `cap`, and fails exactly if it holds `cap`.
  pub push-PushSpec : (x : ℕ) → PushSpec r x (push x r)
  unfolding contents
  push-PushSpec x = elim (Bool-cases (nelem r.rpos r.wpos r.cap == r.cap)) [
    | inl full ↦
        let h : nelem r.rpos r.wpos r.cap ≡ r.cap = ground arith in
        rw (push-full h x) (length-window r.slots r.cap _ r.rpos ∙ h)
    | inr room ↦
        let h : nelem r.rpos r.wpos r.cap ≢ r.cap = ground arith in
        rw (push-room h x) (
          rw (length-window r.slots r.cap _ r.rpos) (omega (arith, nelem-le)),
          record {
            valid = record {
              cap_small = v.cap_small;
              rpos_in = v.rpos_in;
              wpos_in = bump-le r.cap r.wpos v.wpos_in;
            };
            same_cap = refl;
            queue = rw (nelem-bump h) (
                window-update r.slots r.cap x (nelem r.rpos r.wpos r.cap) r.rpos r.wpos v.rpos_in
                  nelem-le (sym after-nelem));
          },
        )
  ]

  pop-empty : r.rpos ≡ r.wpos → pop r ≡ none
  unfolding pop
  pop-empty h = ground arith

  pop-some : r.rpos ≢ r.wpos → pop r ≡ some (r.slots r.rpos, record r { rpos = bump r.cap r.rpos })
  unfolding pop
  pop-some h = rw (next_pos_lem r.rpos r.cap v.cap_small v.rpos_in) (ground arith)

  nelem-drop :
      r.rpos ≢ r.wpos → nelem r.rpos r.wpos r.cap ≡ suc (nelem (bump r.cap r.rpos) r.wpos r.cap)
  unfolding nelem bump
  nelem-drop h = ground (arith, v.rpos_in, v.wpos_in)

  nelem-same : r.rpos ≡ r.wpos → nelem r.rpos r.wpos r.cap ≡ 0
  unfolding nelem
  nelem-same h = ground arith

  -- On a valid ring, ring_array_pop returns the oldest stored element, leaves the others in order
  -- and the ring valid, and fails exactly if the ring is empty.
  pub pop-PopSpec : PopSpec r (pop r)
  unfolding contents window
  pop-PopSpec = elim (Bool-cases (r.rpos == r.wpos)) [
    | inl empty ↦
        let h : r.rpos ≡ r.wpos = ground arith in rw (pop-empty h) (rw (nelem-same h) refl)
    | inr some_left ↦
        let h : r.rpos ≢ r.wpos = ground arith in
        rw (pop-some h) (record {
          valid = record {
            cap_small = v.cap_small;
            rpos_in = bump-le r.cap r.rpos v.rpos_in;
            wpos_in = v.wpos_in;
          };
          same_cap = refl;
          queue = rw (nelem-drop h) refl;
        })
  ]
