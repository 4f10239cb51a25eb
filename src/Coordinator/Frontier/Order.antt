-- ===== src/Coordinator/Frontier/Order.antt =====
-- src/coordinator/epoch-frontier.ts: the order of the reserve, which takes the ids of the families in
-- turn. `key id` is `h12(seed:id)`, a number out of the runtime's SHA-256.
use coretex_client.Prelude.{
  ℕ, zero, suc, List, [], ◌∷◌, ◌++◌, map, length, get_elem?, none, some, Bool, true, false, ltb,
  ◌==◌, if◌then◌else◌,
}
use coretex_client.State.Patch.Apply.{bytes_equal}

abbrev pub EventId : Type 0
EventId = List ℕ

unfoldable pub text_less : EventId → EventId → Bool
text_less [] [] = false
text_less [] (y ∷ ys) = true
text_less (x ∷ xs) [] = false
text_less (x ∷ xs) (y ∷ ys) = let rest = text_less xs ys in if x == y then rest else ltb x y

-- A stable sort.
unfoldable pub insert_by : {A : Type 0} → (A → A → Bool) → A → List A → List A
insert_by less a [] = a ∷ []
insert_by less a (b ∷ bs) =
    let rest = insert_by less a bs in if less b a then b ∷ rest else a ∷ b ∷ bs

unfoldable pub sort_by : {A : Type 0} → (A → A → Bool) → List A → List A
sort_by less [] = []
sort_by less (a ∷ rest) = insert_by less a (sort_by less rest)

unfoldable pub sort_texts : List EventId → List EventId
sort_texts ids = sort_by text_less ids

-- `join('|')`
unfoldable pub join_bar : List EventId → List ℕ
join_bar [] = []
join_bar (id ∷ []) = id
join_bar (id ∷ next ∷ ids) = id ++ (124 ∷ join_bar (next ∷ ids))

pub record Family : Type 0 where
  pub name : EventId
  pub ids : List EventId

-- `groups.get(f).push(id)`, with a new family at the end.
unfoldable pub add_to_family : EventId → EventId → List Family → List Family
add_to_family f id [] = record { name = f; ids = id ∷ [] } ∷ []
add_to_family f id (g ∷ groups) =
    let rest = add_to_family f id groups in
    if bytes_equal f g.name then record g { ids = g.ids ++ id ∷ [] } ∷ groups else g ∷ rest

unfoldable pub group_ids : (EventId → EventId) → List EventId → List Family → List Family
group_ids family_of [] groups = groups
group_ids family_of (id ∷ ids) groups =
    group_ids family_of ids (add_to_family (family_of id) id groups)

-- The order within a family: by key, then by id.
unfoldable pub id_less : (EventId → ℕ) → EventId → EventId → Bool
id_less key a b = if key a == key b then text_less a b else ltb (key a) (key b)

abbrev sort_family : (EventId → ℕ) → Family → Family
sort_family key g = record g { ids = sort_by (id_less key) g.ids }

abbrev name_less : Family → Family → Bool
name_less g h = text_less g.name h.name

-- Round `i`: the id of each family at that place.
unfoldable pub round_of : ℕ → List Family → List EventId
round_of i [] = []
round_of i (g ∷ groups) =
    let rest = round_of i groups in elim (get_elem? g.ids i) [ some id ↦ id ∷ rest | none ↦ rest ]

-- The loop, which ends at the first empty round, with `fuel` rounds to go.
unfoldable pub rounds : ℕ → ℕ → List Family → List EventId
rounds zero i groups = []
rounds (suc fuel) i groups =
    let rest = rounds fuel (suc i) groups in
    elim (round_of i groups) [ [] ↦ [] | id ∷ ids ↦ (id ∷ ids) ++ rest ]

-- A family has at most as many ids as there are, so as many rounds are enough.
unfoldable pub family_order : (EventId → ℕ) → (EventId → EventId) → List EventId → List EventId
family_order key family_of ids =
    rounds (length ids) 0 (sort_by name_less (map (sort_family key) (group_ids family_of ids [])))
