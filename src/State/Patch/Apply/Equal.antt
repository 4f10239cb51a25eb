-- ===== src/State/Patch/Apply/Equal.antt =====
-- Equality of byte arrays, or of texts, as a test.
use coretex_client.Prelude.{ℕ, ◌≡◌, refl, List, [], ◌∷◌, true, arith, ◌==◌, &&-eq-true, ==_iff}
use coretex_client.State.Patch.Apply.{bytes_equal}

pub equal_eq : (xs ys : List ℕ) → bytes_equal xs ys ≡ true → xs ≡ ys
unfolding bytes_equal
equal_eq [] [] h = refl
equal_eq [] (y ∷ ys) h = absurd (cc)
equal_eq (x ∷ xs) [] h = absurd (cc)
equal_eq (x ∷ xs) (y ∷ ys) h =
    let (a, b) = &&-eq-true {a = x == y} {b = bytes_equal xs ys} h in
    let e : x ≡ y = (==_iff x y).0 a in let r = equal_eq xs ys b in cc (e, r)

pub equal_refl : (bytes : List ℕ) → bytes_equal bytes bytes ≡ true
unfolding bytes_equal
equal_refl [] = refl
equal_refl (b ∷ bytes) = let e : (b == b) ≡ true = ground arith in rw e (equal_refl bytes)
