-- ===== src/Mailbox/Open.antt =====
-- The search for a mailbox by its name (libs/mailbox.c).
use ucas_operating_system_la.Base.{
  ℕ, zero, suc, ◌+◌, ◌-◌, ◌%◌, ◌<◌, ◌≡◌, ◌≢◌, refl, arith, List, [], ◌∷◌, true, false, Bool-cases,
  inl, inr, ◌==◌, ==_iff, ◌↔◌,
}
use ucas_operating_system_la.Mailbox.{
  Mailbox, max_num_box, Found, free_box, named_box, no_box, find_box, hash_from, same_name,
}

pub hash_from-lt :
    (name : List ℕ) (hash : ℕ) → hash < max_num_box → hash_from name hash < max_num_box
unfolding hash_from
hash_from-lt [] hash h = h
hash_from-lt (c ∷ cs) hash h = hash_from-lt cs ((hash + c) % max_num_box) (omega arith)

-- The place is in use under another name.
abbrev pub Other : (ℕ → Mailbox) → List ℕ → ℕ → Type 0
Other boxes name id = ((boxes id).user_cnt ≢ 0) × (same_name name (boxes id).name ≡ false)

-- What the search promises: a free place, a place that is in use under the name, or that all are in use
-- under other names.
abbrev pub Finds : (ℕ → Mailbox) → List ℕ → Found → Type 0
Finds boxes name (free_box id) = (id < max_num_box) × ((boxes id).user_cnt ≡ 0)
Finds boxes name (named_box id) =
    (id < max_num_box) × ((boxes id).user_cnt ≢ 0) × (same_name name (boxes id).name ≡ true)
Finds boxes name no_box = (id : ℕ) → id < max_num_box → Other boxes name id

-- The places before the `i`-th have been seen.
abbrev Seen : (ℕ → Mailbox) → List ℕ → ℕ → ℕ → Type 0
Seen boxes name hash i = (j : ℕ) → j < i → Other boxes name ((j + hash) % max_num_box)

find_box-Finds_from :
    (n : ℕ) (boxes : ℕ → Mailbox) (name : List ℕ) (hash i : ℕ)
    → hash < max_num_box
    → i + n ≡ max_num_box
    → Seen boxes name hash i
    → Finds boxes name (find_box n boxes name hash i)
unfolding find_box
find_box-Finds_from zero boxes name hash i h e seen = λ id l.
    let j : ℕ = (id + max_num_box - hash) % max_num_box in
    let back : (j + hash) % max_num_box ≡ id = omega arith in
    let w = seen j (omega arith) in rw back at w
find_box-Finds_from (suc n) boxes name hash i h e seen =
    let id : ℕ = (i + hash) % max_num_box in
    elim (Bool-cases ((boxes id).user_cnt == 0)) [
      | inl free ↦ rw free (omega arith, ground arith)
      | inr used ↦ elim (Bool-cases (same_name name (boxes id).name)) [
        | inl same ↦ rw (used, same) (omega arith, (λ z. ground arith), same)
        | inr other ↦
            rw (used, other)
              (find_box-Finds_from n boxes name hash (suc i) h (omega arith) λ j l.
                elim (Bool-cases (j == i)) [
                  | inl last ↦ rw ((==_iff j i).0 last) ((λ z. ground arith), other)
                  | inr before ↦ seen j (ground arith)
                ])
      ]
    ]

-- Two names are the same if their characters are.
pub same_name_lem : (cs ds : List ℕ) → (same_name cs ds ≡ true) ↔ (cs ≡ ds)
same_name_lem [] [] = (λ h. refl, λ e. refl)
same_name_lem [] (d ∷ ds) = ground arith
same_name_lem (c ∷ cs) [] = ground arith
same_name_lem (c ∷ cs) (d ∷ ds) = ground (arith, same_name_lem cs ds)

-- The search for a name looks at all 32 places: it finds a free place, or a place in use under the
-- name, and fails only if all are in use under other names.
pub find_box-Finds :
    (boxes : ℕ → Mailbox) (name : List ℕ)
    → Finds boxes name (find_box max_num_box boxes name (hash_from name 0) 0)
find_box-Finds boxes name =
    find_box-Finds_from max_num_box boxes name (hash_from name 0) 0
      (hash_from-lt name 0 (omega arith)) refl (λ j l. absurd (omega arith))
