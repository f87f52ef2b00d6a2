-- ===== src/Core/Slices.antt =====
-- The first bytes of a list and the rest.
use twemcache.Base.{drop, ℕ, zero, suc, ◌-◌, ◌≤◌, ◌≡◌, refl, ap, List, [], ◌∷◌, ◌++◌, arith, length}
use twemcache.Conn.{take}

-- Taking some bytes first.
pub take-split :
    (m n : ℕ) (u s : List ℕ)
    → m ≤ n
    → m ≤ length u
    → take m u ++ take (n - m) (drop m u ++ s) ≡ take n (u ++ s)
take-split zero n u s h k = ap (λ i. take i (u ++ s)) (omega arith)
take-split (suc m) n [] s h k = elim k [ ]
take-split (suc m) zero (x ∷ u) s h k = elim h [ ]
take-split (suc m) (suc n) (x ∷ u) s h k =
    ground (arith, take-split m n u s (omega (arith, h)) (omega (arith, k)))

pub drop-split :
    (m n : ℕ) (u s : List ℕ) → m ≤ n → m ≤ length u → drop (n - m) (drop m u ++ s) ≡ drop n (u ++ s)
drop-split zero n u s h k = ap (λ i. drop i (u ++ s)) (omega arith)
drop-split (suc m) n [] s h k = elim k [ ]
drop-split (suc m) zero (x ∷ u) s h k = elim h [ ]
drop-split (suc m) (suc n) (x ∷ u) s h k =
    ground (arith, drop-split m n u s (omega (arith, h)) (omega (arith, k)))

take-length : (a : List ℕ) → take (length a) a ≡ a
take-length [] = refl
take-length (x ∷ a) = ap (λ r. x ∷ r) (take-length a)

pub drop-length : (a : List ℕ) → drop (length a) a ≡ []
drop-length [] = refl
drop-length (x ∷ a) = drop-length a

pub take-front :
    (n : ℕ) (u s : List ℕ) → length u ≤ n → u ++ take (n - length u) s ≡ take n (u ++ s)
take-front n u s h =
    ground (arith, take-split (length u) n u s h (omega arith), take-length u, drop-length u)

pub drop-front : (n : ℕ) (u s : List ℕ) → length u ≤ n → drop (n - length u) s ≡ drop n (u ++ s)
drop-front n u s h = ground (arith, drop-split (length u) n u s h (omega arith), drop-length u)

pub take-drop : (n : ℕ) (a : List ℕ) → take n a ++ drop n a ≡ a
take-drop zero a = refl
take-drop (suc n) [] = refl
take-drop (suc n) (x ∷ a) = ap (λ r. x ∷ r) (take-drop n a)

pub length-take : (n : ℕ) (a : List ℕ) → n ≤ length a → length (take n a) ≡ n
length-take zero a h = refl
length-take (suc n) [] h = elim h [ ]
length-take (suc n) (x ∷ a) h = ground (arith, length-take n a (omega (arith, h)))
