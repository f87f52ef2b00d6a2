-- ===== src/Core/Window.antt =====
-- The bytes of the messages of a connection, and what the loop of core_transmit takes off them.
use twemcache.Base.{
  drop, ℕ, zero, suc, ◌+◌, ◌-◌, ◌≤◌, ◌<◌, ◌≡◌, refl, sym, ◌∙◌, Bool-cases, inl, inr, List, [], ◌∷◌,
  ◌++◌, ltb, leb, if◌then◌else◌, arith, update, length,
}
use twemcache.Conn.{Conn, Msg}
use twemcache.Core.{Pending, skip_written}

-- The bytes of `n` iovecs from `start` on, and of `n` messages from the i-th on.
abbrev pub window : (ℕ → List ℕ) → ℕ → ℕ → List ℕ
window iov start zero = []
window iov start (suc n) = iov start ++ window iov (start + 1) n

abbrev pub messages : (ℕ → List ℕ) → (ℕ → Msg) → ℕ → ℕ → List ℕ
messages iov msg i zero = []
messages iov msg i (suc n) =
    window iov (msg i).msg_iov (msg i).msg_iovlen ++ messages iov msg (i + 1) n

-- What is left to write.
abbrev pub pending : Conn → List ℕ
pending c = messages c.iov c.msg c.msg_curr (c.msg_used - c.msg_curr)

-- A message ends before the next ones start.
abbrev pub IsOrdered : Conn → Type 0
IsOrdered c =
    (i j : ℕ)
    → i < j
    → j < c.msg_used
    → (c.msg i).msg_iov + (c.msg i).msg_iovlen ≤ (c.msg j).msg_iov

window-update :
    (iov : ℕ → List ℕ) (k : ℕ) (b : List ℕ) (start n : ℕ)
    → k < start
    → window (update iov k b) start n ≡ window iov start n
window-update iov k b start zero h = refl
window-update iov k b start (suc n) h = ground (arith, window-update iov k b (start + 1) n)

drop-all : (a b : List ℕ) (n : ℕ) → length a ≤ n → drop n (a ++ b) ≡ drop (n - length a) b
drop-all [] b n h = ground arith
drop-all (x ∷ a) b zero h = ground (arith, h)
drop-all (x ∷ a) b (suc n) h = ground (arith, drop-all a b n (omega (arith, h)))

pub drop-some : (a b : List ℕ) (n : ℕ) → n ≤ length a → drop n (a ++ b) ≡ drop n a ++ b
drop-some [] b zero h = refl
drop-some [] b (suc n) h = ground (arith, h)
drop-some (x ∷ a) b zero h = refl
drop-some (x ∷ a) b (suc n) h = drop-some a b n (omega (arith, h))

length-append : (a b : List ℕ) → length (a ++ b) ≡ length a + length b
length-append [] b = omega arith
length-append (x ∷ a) b = ground (arith, length-append a b)

-- The array after the first bytes of an iovec are taken off.
abbrev pub cut : (ℕ → List ℕ) → Pending → ℕ → List ℕ
cut iov p = if ltb 0 p.left then update iov p.msg_iov (drop p.left (iov p.msg_iov)) else iov

pub skip-end :
    (iov : ℕ → List ℕ) (start n res : ℕ)
    → (skip_written iov start n res).msg_iov + (skip_written iov start n res).msg_iovlen ≡ start + n
unfolding skip_written
skip-end iov start zero res = refl
skip-end iov start (suc n) res =
    ground (arith, skip-end iov (start + 1) n (res - length (iov start)))

pub skip-left :
    (iov : ℕ → List ℕ) (start n res : ℕ)
    → res ≤ length (window iov start n)
    → 0 < (skip_written iov start n res).left
    → 0 < (skip_written iov start n res).msg_iovlen
unfolding skip_written
skip-left iov start zero res h l = omega (arith, h, l)
skip-left iov start (suc n) res h l = ground (
  arith,
  skip-left iov (start + 1) n (res - length (iov start)),
  length-append (iov start) (window iov (start + 1) n),
)

cut-window :
    (iov : ℕ → List ℕ) (start n res : ℕ)
    → window (cut iov (record { msg_iov = start; msg_iovlen = suc n; left = res })) start (suc n)
      ≡ drop res (iov start) ++ window iov (start + 1) n
cut-window iov start n zero = refl
cut-window iov start n (suc res) =
    ground (arith, window-update iov start (drop (suc res) (iov start)) (start + 1) n)

pub skip-drop :
    (iov : ℕ → List ℕ) (start n res : ℕ)
    → res ≤ length (window iov start n)
    → window
        (cut iov (skip_written iov start n res))
        (skip_written iov start n res).msg_iov
        (skip_written iov start n res).msg_iovlen
      ≡ drop res (window iov start n)
unfolding skip_written
skip-drop iov start zero res h = ground (arith, h)
skip-drop iov start (suc n) res h = elim (Bool-cases (leb (length (iov start)) res)) [
  | inl whole ↦ rw whole (
      skip-drop iov (start + 1) n (res - length (iov start))
        (omega (arith, h, length-append (iov start) (window iov (start + 1) n)))
      ∙ sym (drop-all (iov start) (window iov (start + 1) n) res (ground (arith, whole))))
  | inr part ↦ rw part (
      cut-window iov start n res
      ∙ sym (drop-some (iov start) (window iov (start + 1) n) res (ground (arith, part))))
]

pub window-cut :
    (iov : ℕ → List ℕ) (p : Pending) (start n : ℕ)
    → (0 < p.left → p.msg_iov < start)
    → window (cut iov p) start n ≡ window iov start n
window-cut iov p start n h = elim (Bool-cases (ltb 0 p.left)) [
  | inl part ↦
      rw part (
        window-update iov p.msg_iov (drop p.left (iov p.msg_iov)) start n
          (h (ground (arith, part))))
  | inr whole ↦ rw whole refl
]

pub update-at : (msg : ℕ → Msg) (k : ℕ) (m : Msg) → update msg k m k ≡ m
update-at msg k m = ground arith

pub update-other : (msg : ℕ → Msg) (k i : ℕ) (m : Msg) → k < i → update msg k m i ≡ msg i
update-other msg k i m h = ground (arith, h)

pub skip-start :
    (iov : ℕ → List ℕ) (start n res : ℕ) → start ≤ (skip_written iov start n res).msg_iov
unfolding skip_written
skip-start iov start zero res = omega arith
skip-start iov start (suc n) res =
    ground (arith, skip-start iov (start + 1) n (res - length (iov start)))

pub ordered-update :
    (msg : ℕ → Msg) (k : ℕ) (m : Msg) (used : ℕ)
    → ((i j : ℕ) → i < j → j < used → (msg i).msg_iov + (msg i).msg_iovlen ≤ (msg j).msg_iov)
    → (msg k).msg_iov ≤ m.msg_iov
    → m.msg_iov + m.msg_iovlen ≡ (msg k).msg_iov + (msg k).msg_iovlen
    → (i j : ℕ) → i < j
    → j < used
    → (update msg k m i).msg_iov + (update msg k m i).msg_iovlen ≤ (update msg k m j).msg_iov
ordered-update msg k m used o s e i j h1 h2 =
    ground (arith, e, s, h1, h2, o i j h1 h2, o k j, λ (l : i < k). o i k l)
