-- ===== src/State/Merkle/Levels.antt =====
-- A level is determined by the one below it, and a change stays on the paths above it.
use coretex_client.Prelude.{
  ℕ, zero, suc, ◌+◌, ◌*◌, ◌/◌, ◌^◌, ◌≤◌, ◌<◌, ◌≡◌, refl, sym, ap, ◌∙◌, List, [], ◌∷◌, ◌++◌, true,
  false, ◌||◌, ◌==◌, arith, ltb, contains, length, length-set, get_or, set, list_ext,
  get_or-set_self, get_or-set_ne, Bool-cases, ◌⊎◌, inl, inr,
}
use coretex_client.Bits.{pow2-suc, pow2_pos}
use coretex_client.State.Merkle.{
  Digest, node, nodes, next_level, build_levels, add_to_set, parents_of, write_parents,
  update_levels,
}
use native.Mathlib.Decide.{dec_lt, ℕ_discrete}

length-nodes : (n i : ℕ) (level : List Digest) → length (nodes n i level) ≡ n
unfolding nodes
length-nodes zero i level = refl
length-nodes (suc n) i level = ap suc (length-nodes n (suc i) level)

pub length-next_level : (level : List Digest) → length (next_level level) ≡ length level / 2
unfolding next_level
length-next_level level = length-nodes (length level / 2) 0 level

get_or-nodes :
    (n i j : ℕ) (level : List Digest) → j < n → get_or (nodes n i level) j [] ≡ node level (i + j)
unfolding nodes
get_or-nodes zero i j level h = absurd (omega arith)
get_or-nodes (suc n) i zero level h = ap (node level) (omega arith)
get_or-nodes (suc n) i (suc j) level h =
    get_or-nodes n (suc i) j level (omega arith)
    ∙ ap (node level) (let e : suc i + j ≡ i + suc j = omega arith in e)

get_or-next_level :
    (level : List Digest) (j : ℕ)
    → j < length level / 2
    → get_or (next_level level) j [] ≡ node level j
unfolding next_level
get_or-next_level level j h =
    get_or-nodes (length level / 2) 0 j level h
    ∙ ap (node level) (let e : 0 + j ≡ j = omega arith in e)

-- Two levels that agree but at the dirty nodes.
pub record AgreeOff (dirty : List ℕ) (xs ys : List Digest) : Type 0 where
  pub same_length : length xs ≡ length ys
  pub same : (i : ℕ) → contains i dirty ≡ false → get_or xs i [] ≡ get_or ys i []

contains-append : (i j : ℕ) (s : List ℕ) → contains i (s ++ (j ∷ [])) ≡ (contains i s || i == j)
contains-append i j [] = ground arith
contains-append i j (k ∷ s) = ground (arith, contains-append i j s)

pub contains-add_to_set :
    (i j : ℕ) (s : List ℕ) → contains i (add_to_set j s) ≡ (contains i s || i == j)
unfolding add_to_set
contains-add_to_set i j s = elim (Bool-cases (contains j s)) [
  | inl old ↦ rw old (member i j s old)
  | inr new ↦ rw new (contains-append i j s)
]
  where
    member : (i j : ℕ) (s : List ℕ) → contains j s ≡ true → contains i s ≡ (contains i s || i == j)
    member i j s old = elim (ℕ_discrete i j) [ yes e ↦ rw (e, old) | no ne ↦ ground arith ]

-- A parent is in the set exactly if it was, or if a child of it is dirty.
contains-parents_of_acc :
    (i : ℕ) (dirty acc : List ℕ) → contains i acc ≡ true → contains i (parents_of dirty acc) ≡ true
unfolding parents_of
contains-parents_of_acc i [] acc h = h
contains-parents_of_acc i (c ∷ dirty) acc h =
    contains-parents_of_acc i dirty (add_to_set (c / 2) acc)
      (ground (arith, contains-add_to_set i (c / 2) acc))

contains-parents_of :
    (c : ℕ) (dirty acc : List ℕ)
    → contains c dirty ≡ true
    → contains (c / 2) (parents_of dirty acc) ≡ true
unfolding parents_of
contains-parents_of c [] acc h = cc
contains-parents_of c (d ∷ dirty) acc h = elim (ℕ_discrete c d) [
  | yes e ↦
      contains-parents_of_acc (c / 2) dirty (add_to_set (d / 2) acc)
        (ground (arith, contains-add_to_set (c / 2) (d / 2) acc))
  | no ne ↦ contains-parents_of c dirty (add_to_set (d / 2) acc) (ground arith)
]

-- A child of a clean parent is clean.
clean_child :
    (i c : ℕ) (dirty : List ℕ)
    → c / 2 ≡ i
    → contains i (parents_of dirty []) ≡ false
    → contains c dirty ≡ false
clean_child i c dirty e clean = elim (Bool-cases (contains c dirty)) [
  | inl h ↦ absurd (
      cc (
        clean,
        ap (λ (t : ℕ). contains t (parents_of dirty [])) e,
        contains-parents_of c dirty [] h,
      ))
  | inr h ↦ h
]

node-AgreeOff :
    (dirty : List ℕ) (xs ys : List Digest) (i : ℕ)
    → AgreeOff dirty xs ys
    → contains i (parents_of dirty []) ≡ false
    → node xs i ≡ node ys i
unfolding node
node-AgreeOff dirty xs ys i agree clean = rw (
  agree.same (i * 2) (clean_child i (i * 2) dirty (omega arith) clean),
  agree.same (i * 2 + 1) (clean_child i (i * 2 + 1) dirty (omega arith) clean),
)

length-write_parents :
    (ps : List ℕ) (current next : List Digest)
    → length (write_parents ps current next) ≡ length next
unfolding write_parents
length-write_parents [] current next = refl
length-write_parents (p ∷ ps) current next =
    length-write_parents ps current (set next p (node current p))
    ∙ length-set next p (node current p)

get_or-write_parents :
    (ps : List ℕ) (current next : List Digest) (i : ℕ)
    → i < length next
    → (get_or next i [] ≡ node current i) ⊎ (contains i ps ≡ true)
    → get_or (write_parents ps current next) i [] ≡ node current i
unfolding write_parents
get_or-write_parents [] current next i h (inl e) = e
get_or-write_parents [] current next i h (inr e) = cc
get_or-write_parents (p ∷ ps) current next i h done =
    get_or-write_parents ps current (set next p (node current p)) i
      (omega (arith, length-set next p (node current p)))
      (elim (ℕ_discrete p i) [
        | yes e ↦ inl (rw e (get_or-set_self next i (node current i) [] h))
        | no ne ↦ ground (arith, get_or-set_ne next p i (node current p) [] ne, done)
      ])

-- Writing the parents of the dirty nodes gives the level above the changed one.
pub write_parents-next_level :
    (dirty : List ℕ) (xs ys : List Digest)
    → AgreeOff dirty xs ys
    → write_parents (parents_of dirty []) xs (next_level ys) ≡ next_level xs
write_parents-next_level dirty xs ys agree =
    let ps = parents_of dirty [] in
    let len : length (next_level ys) ≡ length (next_level xs) =
      omega (arith, length-next_level xs, length-next_level ys, agree.same_length) in
    list_ext [] _ _ (length-write_parents ps xs (next_level ys) ∙ len) (λ i h.
      let h' : i < length (next_level ys) =
        omega (arith, length-write_parents ps xs (next_level ys)) in
      get_or-write_parents ps xs (next_level ys) i h' (elim (Bool-cases (contains i ps)) [
        | inl dirty_parent ↦ inr dirty_parent
        | inr clean ↦ inl (
            get_or-next_level ys i (omega (arith, length-next_level ys))
            ∙ sym (node-AgreeOff dirty xs ys i agree clean))
      ])
      ∙ sym (get_or-next_level xs i (omega (arith, length-next_level xs))))

get_or_outside : (xs : List Digest) (i : ℕ) → length xs ≤ i → get_or xs i [] ≡ []
get_or_outside [] i h = refl
get_or_outside (x ∷ xs) zero h = absurd (omega arith)
get_or_outside (x ∷ xs) (suc i) h = get_or_outside xs i (omega arith)

pub next_level-AgreeOff :
    (dirty : List ℕ) (xs ys : List Digest)
    → AgreeOff dirty xs ys
    → AgreeOff (parents_of dirty []) (next_level xs) (next_level ys)
next_level-AgreeOff dirty xs ys agree =
    let len : length (next_level xs) ≡ length (next_level ys) =
      omega (arith, length-next_level xs, length-next_level ys, agree.same_length) in
    record {
      same_length = len;
      same = λ i clean. elim (dec_lt i (length (next_level xs))) [
        | yes h ↦
            get_or-next_level xs i (omega (arith, length-next_level xs))
            ∙ node-AgreeOff dirty xs ys i agree clean
            ∙ sym (get_or-next_level ys i (omega (arith, length-next_level ys)))
        | no h ↦
            get_or_outside (next_level xs) i (omega arith)
            ∙ sym (get_or_outside (next_level ys) i (omega arith))
      ];
    }

-- The levels above the first.
abbrev pub above : List (List Digest) → List (List Digest)
above [] = []
above (level ∷ levels) = levels

pub build_levels-above :
    (fuel : ℕ) (level : List Digest)
    → build_levels fuel level ≡ level ∷ above (build_levels fuel level)
unfolding build_levels
build_levels-above zero level = refl
build_levels-above (suc fuel) level = refl

-- The update loop rebuilds the levels.
pub update_levels-build_levels :
    (fuel : ℕ) (dirty : List ℕ) (xs ys : List Digest)
    → AgreeOff dirty xs ys
    → update_levels dirty xs (above (build_levels fuel ys)) ≡ build_levels fuel xs
unfolding build_levels update_levels
update_levels-build_levels zero dirty xs ys agree = refl
update_levels-build_levels (suc fuel) dirty xs ys agree = elim (Bool-cases (ltb 1 (length ys))) [
  | inl more ↦
      let more' : ltb 1 (length xs) ≡ true = rw agree.same_length more in
      rw
        (
          more,
          more',
          build_levels-above fuel (next_level ys),
          write_parents-next_level dirty xs ys agree,
        )
        (ap (λ t. xs ∷ t)
          (update_levels-build_levels fuel (parents_of dirty []) (next_level xs) (next_level ys)
            (next_level-AgreeOff dirty xs ys agree)))
  | inr last ↦ let last' : ltb 1 (length xs) ≡ false = rw agree.same_length last in rw (last, last')
]

-- Ten rounds bring 2 ^ k leaves, k up to ten, to one node.
pub build_levels_height :
    (fuel k : ℕ) (level : List Digest)
    → length level ≡ 2 ^ k
    → k ≤ fuel
    → length (build_levels fuel level) ≡ k + 1
unfolding build_levels
build_levels_height zero zero level len h = refl
build_levels_height zero (suc k) level len h = absurd (omega arith)
build_levels_height (suc fuel) zero level len h =
    let last : ltb 1 (length level) ≡ false = ground (arith, len) in rw last
build_levels_height (suc fuel) (suc k) level len h =
    let more : ltb 1 (length level) ≡ true = ground (arith, len, pow2-suc k, pow2_pos k) in
    rw more (
      omega (
        arith,
        build_levels_height fuel k (next_level level)
            (omega (arith, length-next_level level, len, pow2-suc k)) (omega arith),
      ))
