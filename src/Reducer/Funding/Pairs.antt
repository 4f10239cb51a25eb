-- ===== src/Reducer/Funding/Pairs.antt =====
-- The pairs of the Merkle tree of src/reducer/funding-tx.ts: their order does not matter, and each
-- level is that of the nodes below.
use coretex_client.Prelude.{
  ℕ, zero, suc, ◌+◌, ◌-◌, ◌/◌, ◌%◌, ◌<◌, ◌≡◌, inl, inr, refl, sym, ap, ◌∙◌, List, [], ◌∷◌, ◌++◌,
  length, get_or, All, Bool, true, false, ◌&&◌, arith, ltb, ◌==◌, if◌then◌else◌, Bool-cases, ==_iff,
}
use coretex_client.State.Keccak.{keccak256}
use coretex_client.State.Keccak.Shape.{keccak256_shape}
use coretex_client.Reducer.Funding.{
  Digest, bytes_less_or_eq, hash_pair, next_level, is_unpaired, sibling,
}

abbrev pub IsDigest : Digest → Type 0
IsDigest d = (length d ≡ 32) × All (λ b. b < 256) d

less_or_eq_antisym :
    (a b : List ℕ)
    → length a ≡ length b
    → bytes_less_or_eq a b ≡ true
    → bytes_less_or_eq b a ≡ true
    → a ≡ b
unfolding bytes_less_or_eq
less_or_eq_antisym [] [] n h k = refl
less_or_eq_antisym [] (y ∷ b) n h k = absurd (omega arith)
less_or_eq_antisym (x ∷ a) [] n h k = absurd (omega arith)
less_or_eq_antisym (x ∷ a) (y ∷ b) n h k = elim (Bool-cases (x == y)) [
  | inl e ↦
      let s : x ≡ y = (==_iff x y).0 e in
      let e' : (y == x) ≡ true = ground (arith, s) in
      let r = less_or_eq_antisym a b (omega arith) (rw e at h) (rw e' at k) in cc (s, r)
  | inr e ↦
      let e' : (y == x) ≡ false = ground arith in
      let h₁ : ltb x y ≡ true = rw e at h in
      let k₁ : ltb y x ≡ true = rw e' at k in absurd (ground arith)
]

less_or_eq_total :
    (a b : List ℕ)
    → length a ≡ length b
    → bytes_less_or_eq a b ≡ false
    → bytes_less_or_eq b a ≡ true
unfolding bytes_less_or_eq
less_or_eq_total [] b n h = absurd (cc)
less_or_eq_total (x ∷ a) [] n h = absurd (omega arith)
less_or_eq_total (x ∷ a) (y ∷ b) n h = elim (Bool-cases (x == y)) [
  | inl e ↦
      let s : x ≡ y = (==_iff x y).0 e in
      let e' : (y == x) ≡ true = ground (arith, s) in
      rw e' (less_or_eq_total a b (omega arith) (rw e at h))
  | inr e ↦
      let e' : (y == x) ≡ false = ground arith in
      let h₁ : ltb x y ≡ false = rw e at h in rw e' (ground arith)
]

-- Digests of one length pair to one hash in either order.
pub hash_pair_comm : (a b : Digest) → length a ≡ length b → hash_pair a b ≡ hash_pair b a
unfolding hash_pair
hash_pair_comm a b n = elim (Bool-cases (bytes_less_or_eq a b)) [
  | inl h ↦ elim (Bool-cases (bytes_less_or_eq b a)) [
    | inl k ↦
        let s = less_or_eq_antisym a b n h k in
        rw (h, k)
          (ap (λ (x : List ℕ). keccak256 (x ++ b)) s
            ∙ ap (λ (x : List ℕ). keccak256 (b ++ x)) (sym s))
    | inr k ↦ rw (h, k) refl
  ]
  | inr h ↦ rw (h, less_or_eq_total a b n h) refl
]

pub hash_pair-IsDigest : (a b : Digest) → IsDigest (hash_pair a b)
unfolding hash_pair
hash_pair-IsDigest a b = either (bytes_less_or_eq a b)
  where
    either : (c : Bool) → IsDigest (if c then keccak256 (a ++ b) else keccak256 (b ++ a))
    either true = keccak256_shape (a ++ b)
    either false = keccak256_shape (b ++ a)

pub next_level-IsDigest :
    (level : List Digest) → All IsDigest level → All IsDigest (next_level level)
unfolding next_level
next_level-IsDigest [] h = tt
next_level-IsDigest (a ∷ []) h = h
next_level-IsDigest (a ∷ b ∷ level) (ha, (hb, h)) =
    (hash_pair-IsDigest a b, next_level-IsDigest level h)

pub length-next_level : (level : List Digest) → length (next_level level) ≡ (length level + 1) / 2
unfolding next_level
length-next_level [] = omega arith
length-next_level (a ∷ []) = omega arith
length-next_level (a ∷ b ∷ level) = let h = length-next_level level in omega arith

unpaired-step :
    (p : ℕ) (a b : Digest) (level : List Digest)
    → p < length level
    → is_unpaired (suc (suc p)) (a ∷ b ∷ level) ≡ is_unpaired p level
unpaired-step p a b level h =
    let m : suc (suc p) % 2 ≡ p % 2 = omega arith in
    let t : (suc (suc p) == suc (suc (length level)) - 1) ≡ (p == length level - 1) =
      ground arith in
    rw (m, t) refl

sibling-step :
    (p : ℕ) (a b : Digest) (level : List Digest)
    → sibling (suc (suc p)) (a ∷ b ∷ level) ≡ sibling p level
sibling-step p a b level =
    let m : suc (suc p) % 2 ≡ p % 2 = omega arith in
    elim (Bool-cases (p % 2 == 0)) [
      | inl e ↦
          let n : suc (suc p) + 1 ≡ suc (suc (suc p)) = omega arith in
          let k : p + 1 ≡ suc p = omega arith in rw (m, e, n, k) refl
      | inr e ↦ rw (m, e) (odd p e)
    ]
  where
    odd :
        (p : ℕ)
        → (p % 2 == 0) ≡ false
        → get_or (a ∷ b ∷ level) (suc (suc p) - 1) [] ≡ get_or level (p - 1) []
    odd zero e = absurd (cc)
    odd (suc q) e =
        let n : suc (suc (suc q)) - 1 ≡ suc (suc q) = omega arith in
        let k : suc q - 1 ≡ q = omega arith in rw (n, k) refl

and_false : (b : Bool) → (b && false) ≡ false
and_false true = refl
and_false false = refl

-- What a node climbs to.
abbrev pub parent : List Digest → ℕ → Digest
parent level p =
    if is_unpaired p level
    then get_or level p []
    else hash_pair (get_or level p []) (sibling p level)

-- The node above the one at position `p`.
pub next_level-parent :
    (level : List Digest) (p : ℕ)
    → All IsDigest level
    → p < length level
    → get_or (next_level level) (p / 2) [] ≡ parent level p
unfolding next_level
next_level-parent [] p h lt = absurd (omega arith)
next_level-parent (a ∷ []) zero h lt = refl
next_level-parent (a ∷ []) (suc p) h lt = absurd (omega arith)
next_level-parent (a ∷ b ∷ level) zero h lt =
    let u : (0 == suc (suc (length level)) - 1) ≡ false = ground arith in rw u refl
next_level-parent (a ∷ b ∷ level) (suc zero) (ha, (hb, h)) lt =
    rw (and_false (1 == suc (suc (length level)) - 1)) (hash_pair_comm a b (ha.0 ∙ sym hb.0))
next_level-parent (a ∷ b ∷ level) (suc (suc p)) (ha, (hb, h)) lt =
    let half : suc (suc p) / 2 ≡ suc (p / 2) = omega arith in
    let small : p < length level = omega arith in
    rw (half, unpaired-step p a b level small, sibling-step p a b level)
      (next_level-parent level p h small)
