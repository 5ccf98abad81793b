-- ===== src/Assignments/Rotation.antt =====
-- `selectAgentsForTarget`: the loop takes the first agents of the list turned to the hashed start.
use native.Mathlib.Nat.{mod-eq_of_lt, mod-eq-sub-mod}
use native.Mathlib.Decide.{dec_lt}
use icmp_mon.Base.{
  ℕ, zero, suc, ◌+◌, ◌-◌, ◌%◌, ◌≤◌, ◌<◌, min, ◌≡◌, refl, sym, ◌∙◌, ap, subst, String, List, [], ◌∷◌,
  ◌++◌, some, arith, length, get_elem?, take, drop, some-inj, gt→leb, le→leb, length-append,
  length-take, length-drop, take-suc, get_elem?-append_left, get_elem?-append_right, get_elem?-take,
  get_elem?-drop, get_elem?-some, All, All-append, All-take, All-drop,
}
use icmp_mon.Assignments.{simple_hash, select_from, select_agents_for_target}

module _ {ℓ} {A : Type ℓ} where
  -- The list that starts at index `s` and goes round.
  abbrev pub rotate : ℕ → List A → List A
  rotate s xs = drop s xs ++ take s xs

  length-rotate : (s : ℕ) (xs : List A) → s ≤ length xs → length (rotate s xs) ≡ length xs
  length-rotate s xs h =
      omega (arith, length-append (drop s xs) (take s xs), length-drop s xs, length-take s xs)

  -- The part before the end of the list.
  get_elem?-rotate_straight :
      (s i : ℕ) (xs : List A)
      → s + i < length xs
      → get_elem? xs ((s + i) % length xs) ≡ get_elem? (rotate s xs) i
  get_elem?-rotate_straight s i xs p =
      ap (get_elem? xs) (mod-eq_of_lt p)
      ∙ sym (
          get_elem?-append_left (drop s xs) (take s xs) i (omega (arith, length-drop s xs))
          ∙ get_elem?-drop s i xs)

  -- The part after the end, at distance `j` from it.
  get_elem?-rotate_round :
      (s j : ℕ) (xs : List A)
      → s < length xs
      → j < s
      → get_elem? xs ((s + (length xs - s + j)) % length xs)
        ≡ get_elem? (rotate s xs) (length xs - s + j)
  get_elem?-rotate_round s j xs hs hj =
      ap (get_elem? xs) index
      ∙ sym (
          rw (← length-drop s xs) (get_elem?-append_right (drop s xs) (take s xs) j)
          ∙ get_elem?-take s j xs hj)
    where
      index : (s + (length xs - s + j)) % length xs ≡ j
      index =
          ap (λ k. k % length xs) (omega arith)
          ∙ mod-eq-sub-mod {n = length xs + j} {m = length xs} (omega arith)
          ∙ ap (λ k. k % length xs) (omega arith)
          ∙ mod-eq_of_lt {n = j} {m = length xs} (omega arith)

  -- Index `i` of the rotation is index `(s + i) % n` of the list.
  get_elem?-rotate :
      (s i : ℕ) (xs : List A)
      → s < length xs
      → i < length xs
      → get_elem? xs ((s + i) % length xs) ≡ get_elem? (rotate s xs) i
  get_elem?-rotate s i xs hs hi = elim (dec_lt (s + i) (length xs)) [
    | yes p ↦ get_elem?-rotate_straight s i xs p
    | no p ↦
        let e : length xs - s + (s + i - length xs) ≡ i = omega arith in
        rw e at (get_elem?-rotate_round s (s + i - length xs) xs hs (omega arith))
  ]

  select_from-more :
      (xs : List A) (s count rounds i : ℕ) (selected : List A) {a : A}
      → length selected < count
      → get_elem? xs ((s + i) % length xs) ≡ some a
      → select_from xs s count (suc rounds) i selected
        ≡ select_from xs s count rounds (i + 1) (selected ++ (a ∷ []))
  unfolding select_from
  select_from-more xs s count rounds i selected h e = ground arith

  select_from-done :
      (xs : List A) (s count rounds i : ℕ) (selected : List A)
      → count ≤ length selected
      → select_from xs s count rounds i selected ≡ some selected
  unfolding select_from
  select_from-done xs s count zero i selected h = refl
  select_from-done xs s count (suc rounds) i selected h = ground arith

  -- The loop, from a state where it has taken the first `i` of the rotation.
  select_from-rotate :
      (xs : List A) (s count rounds i : ℕ) (selected : List A)
      → s < length xs
      → count ≤ length xs
      → i + rounds ≡ length xs
      → i ≤ count
      → selected ≡ take i (rotate s xs)
      → select_from xs s count rounds i selected ≡ some (take count (rotate s xs))
  select_from-rotate xs s count zero i selected hs hc hr hi e =
      select_from-done xs s count zero i selected
        (rw e (omega (arith, length-take i (rotate s xs), length-rotate s xs (omega arith))))
      ∙ ap some (e ∙ ap (λ k. take k (rotate s xs)) {x = i} {y = count} (omega arith))
  select_from-rotate xs s count (suc rounds) i selected hs hc hr hi e =
      let len : length selected ≡ i =
        rw e (omega (arith, length-take i (rotate s xs), length-rotate s xs (omega arith))) in
      elim (dec_lt i count) [
        | yes p ↦
            let (a, at) =
              get_elem?-some (rotate s xs) i (omega (arith, length-rotate s xs (omega arith))) in
            let found : get_elem? xs ((s + i) % length xs) ≡ some a =
              get_elem?-rotate s i xs hs (omega arith) ∙ at in
            select_from-more xs s count rounds i selected (omega (arith, len)) found
            ∙ (select_from-rotate xs s count rounds (i + 1) (selected ++ (a ∷ [])) hs hc
                (omega arith) (omega arith)
                (ap (λ r. r ++ (a ∷ [])) e
                  ∙ sym (take-suc i (rotate s xs) at)
                  ∙ ap (λ k. take k (rotate s xs)) {x = suc i} {y = i + 1} (omega arith)))
        | no p ↦
            select_from-done xs s count (suc rounds) i selected (omega (arith, len))
            ∙ ap some (e ∙ ap (λ k. take k (rotate s xs)) {x = i} {y = count} (omega arith))
      ]

  -- When there are more eligible agents than wanted, `selectAgentsForTarget` returns the first
  -- `count` of them in the order that starts at the hash of the target's address and goes round the
  -- list: it does not index out of range, and it returns exactly `count` agents.
  pub select_agents_for_target-rotate :
      (ip : String) (eligible : List A) (count : ℕ)
      → count < length eligible
      → (select_agents_for_target ip eligible count
          ≡ some (take count (rotate (simple_hash ip % length eligible) eligible)))
        × (length (take count (rotate (simple_hash ip % length eligible) eligible)) ≡ count)
  unfolding select_agents_for_target
  select_agents_for_target-rotate ip eligible count h = (
    rw (gt→leb (length eligible) count h) (
        select_from-rotate eligible start count (length eligible) 0 [] start-lt (omega arith)
          (omega arith) (omega arith) refl),
    omega (
      arith,
      length-take count (rotate start eligible),
      length-rotate start eligible (omega arith),
    ),
  )
    where
      start : ℕ
      start = simple_hash ip % length eligible

      start-lt : start < length eligible
      start-lt = omega arith

  pub select_agents_for_target-few :
      (ip : String) (eligible : List A) (count : ℕ)
      → length eligible ≤ count
      → select_agents_for_target ip eligible count ≡ some eligible
  unfolding select_agents_for_target
  select_agents_for_target-few ip eligible count h = rw (le→leb (length eligible) count h)

  -- The selection always succeeds, and has `min count n` agents.
  pub select_agents_for_target_total :
      (ip : String) (eligible : List A) (count : ℕ)
      → (selected : List A) × (select_agents_for_target ip eligible count ≡ some selected)
        × (length selected ≡ min count (length eligible))
  select_agents_for_target_total ip eligible count = elim (dec_lt count (length eligible)) [
    | yes p ↦
        let (e, l) = select_agents_for_target-rotate ip eligible count p in
        (take count (rotate (simple_hash ip % length eligible) eligible), e, omega (arith, l))
    | no p ↦ (eligible, select_agents_for_target-few ip eligible count (omega arith), omega arith)
  ]

  -- What holds of every eligible agent holds of every selected one.
  pub select_agents_for_target-All {κ} :
      (P : A → Type κ) (ip : String) (eligible : List A) (count : ℕ) {selected : List A}
      → All P eligible
      → select_agents_for_target ip eligible count ≡ some selected
      → All P selected
  select_agents_for_target-All P ip eligible count h e = elim (dec_lt count (length eligible)) [
    | yes p ↦
        subst (All P) (some-inj (sym (select_agents_for_target-rotate ip eligible count p).0 ∙ e)) (
          All-take P count _ (
            All-append P (drop start eligible) (take start eligible) (All-drop P start eligible h)
              (All-take P start eligible h)))
    | no p ↦
        subst (All P)
          (some-inj (sym (select_agents_for_target-few ip eligible count (omega arith)) ∙ e)) h
  ]
    where
      start : ℕ
      start = simple_hash ip % length eligible
