-- ===== src/Agent/Scheduler.antt =====
-- agent/internal/scheduler/scheduler.go: the grouping of assignments by tier, and the batches of a
-- probe cycle. The executor is a parameter, and the order in which the batches' results arrive is
-- an argument.
use icmp_mon.Base.{
  true, false, ==-false, ltb→le, length-take, ==_iff, append_assoc, append-take-drop, ◌≢◌, keep,
  append-nil, false, subst, Option, ap₂, refl, inl, inr, if-false, ltb→lt, length-drop, take-all,
  inr, if-true, inl, ◌∙◌, sym, branch, Bool-cases, All, arith, ap, ◌<◌, ◌≤◌, ◌≡◌, ℕ, zero, suc, ◌+◌,
  ◌-◌, String, List, [], ◌∷◌, ◌++◌, none, some, Bool, if◌then◌else◌, leb, ltb, length, take, drop,
  ◌==◌, lookup, ◌||◌, not,
}
use icmp_mon.Types.Probe.{Assignment}

-- `grouped[a.Tier] = append(grouped[a.Tier], a)`
unfoldable pub append_to :
    Assignment → List (String × List Assignment) → List (String × List Assignment)
append_to a [] = (a.tier, a ∷ []) ∷ []
append_to a ((tier, group) ∷ groups) =
    if tier == a.tier
    then (tier, group ++ (a ∷ [])) ∷ groups
    else (tier, group) ∷ append_to a groups

-- The loop of `UpdateAssignments`.
unfoldable pub group_into :
    List (String × List Assignment) → List Assignment → List (String × List Assignment)
unfolding append_to
group_into groups [] = groups
group_into groups (a ∷ assignments) = group_into (append_to a groups) assignments

-- `UpdateAssignments`
unfoldable pub update_assignments : List Assignment → List (String × List Assignment)
unfolding group_into
update_assignments assignments = group_into [] assignments

-- `s.assignments[tier]`, which is empty for a missing key.
abbrev pub assignments_of : List (String × List Assignment) → String → List Assignment
assignments_of groups tier = elim (lookup tier groups) [ none ↦ [] | some group ↦ group ]

-- `GetAssignmentCount`
unfoldable pub assignment_count : List (String × List Assignment) → ℕ
assignment_count [] = 0
assignment_count ((tier, group) ∷ groups) = length group + assignment_count groups

-- The batch size of `executeTierProbes`, from the executor's capabilities.
abbrev pub batch_size_of : ℕ → Bool → ℕ
batch_size_of max_batch_size supports_batching =
    if leb max_batch_size 0 || not supports_batching then 1 else max_batch_size

-- The loop that splits the targets, from index `i` on; `rounds` is a bound on its rounds.
unfoldable pub batches_from {ℓ} : {A : Type ℓ} → List A → ℕ → ℕ → ℕ → List (List A)
batches_from targets batch_size i zero = []
batches_from targets batch_size i (suc rounds) =
    let end = if ltb (length targets) (i + batch_size) then length targets else i + batch_size in
    let rest = batches_from targets batch_size (i + batch_size) rounds in
    if ltb i (length targets) then take (end - i) (drop i targets) ∷ rest else []

-- All batches: each round takes a target, so that as many rounds as targets are enough.
unfoldable pub batches {ℓ} : {A : Type ℓ} → List A → ℕ → List (List A)
unfolding batches_from
batches targets batch_size = batches_from targets batch_size 0 (length targets)

abbrev pub concat {ℓ} : {A : Type ℓ} → List (List A) → List A
concat [] = []
concat (xs ∷ xss) = xs ++ concat xss

module _ {ℓ} {A : Type ℓ} where
  drop-all : (n : ℕ) (xs : List A) → length xs ≤ n → drop n xs ≡ []
  drop-all zero [] h = refl
  drop-all zero (x ∷ xs) h = absurd (omega (arith, h))
  drop-all (suc n) [] h = refl
  drop-all (suc n) (x ∷ xs) h = drop-all n xs (omega (arith, h))

  drop-nil : (n : ℕ) → drop {A = A} n [] ≡ []
  drop-nil zero = refl
  drop-nil (suc n) = refl

  drop-add : (i b : ℕ) (xs : List A) → drop (i + b) xs ≡ drop b (drop i xs)
  drop-add zero b xs = ap (λ k. drop k xs) {x = 0 + b} {y = b} (omega arith)
  drop-add (suc i) b [] = drop-nil (suc i + b) ∙ sym (drop-nil b)
  drop-add (suc i) b (x ∷ xs) =
      ap (λ k. drop k (x ∷ xs)) {x = suc i + b} {y = suc (i + b)} (omega arith) ∙ drop-add i b xs

  -- The slice that a round cuts off, where it ends early too.
  slice-take :
      (targets : List A) (b i : ℕ)
      → take ((if ltb (length targets) (i + b) then length targets else i + b) - i) (drop i targets)
        ≡ take b (drop i targets)
  slice-take targets b i = elim (Bool-cases (ltb (length targets) (i + b))) [
    | inl e ↦
        ap (λ n. take (n - i) (drop i targets)) (if-true _ _ _ e)
        ∙ take-all (length targets - i) (drop i targets) (omega (arith, length-drop i targets))
        ∙ sym (
            take-all b (drop i targets)
              (omega (arith, length-drop i targets, ltb→lt (length targets) (i + b) e)))
    | inr e ↦
        ap (λ n. take (n - i) (drop i targets)) (if-false _ _ _ e)
        ∙ ap (λ n. take n (drop i targets)) {x = i + b - i} {y = b} (omega arith)
  ]

  -- A batch holds at least one target and at most `b`.
  abbrev pub Sized : ℕ → List A → Type 0
  Sized b batch = (0 < length batch) × (length batch ≤ b)

  slice-Sized :
      (targets : List A) (b i : ℕ)
      → 0 < b
      → i < length targets
      → Sized b (
          take
            ((if ltb (length targets) (i + b) then length targets else i + b) - i)
            (drop i targets))
  slice-Sized targets b i p h = subst (Sized b) (sym (slice-take targets b i)) (
    omega (arith, length-take b (drop i targets), length-drop i targets, h, p),
    omega (arith, length-take b (drop i targets)),
  )

  batches_from-concat :
      (targets : List A) (b i rounds : ℕ)
      → 0 < b
      → length targets ≤ i + rounds
      → (concat (batches_from targets b i rounds) ≡ drop i targets)
        × All (Sized b) (batches_from targets b i rounds)
  unfolding batches_from
  batches_from-concat targets b i zero p h = (sym (drop-all i targets (omega (arith, h))), tt)
  batches_from-concat targets b i (suc rounds) p h =
      let rest = batches_from-concat targets b (i + b) rounds p (omega (arith, h, p)) in
      let slice =
        take ((if ltb (length targets) (i + b) then length targets else i + b) - i)
          (drop i targets) in
      branch (λ cut. (concat cut ≡ drop i targets) × All (Sized b) cut) (ltb i (length targets))
        (λ e. (
          ap₂ (λ x y. x ++ y) (slice-take targets b i) (rest.0 ∙ drop-add i b targets)
              ∙ append-take-drop b (drop i targets),
          (slice-Sized targets b i p (ltb→lt i (length targets) e), rest.1),
        ))
        (λ e. (sym (drop-all i targets (ltb→le i (length targets) e)), tt))

  -- The batches of a probe cycle are the targets cut into parts, in order and without a loss, of at
  -- least one and at most the batch size each.
  pub batches-concat :
      (targets : List A) (b : ℕ)
      → 0 < b
      → (concat (batches targets b) ≡ targets) × All (Sized b) (batches targets b)
  unfolding batches
  batches-concat targets b p = batches_from-concat targets b 0 (length targets) p (omega arith)

abbrev of_tier : String → Assignment → Bool
of_tier tier a = a.tier == tier

assignments_of-cons :
    (t : String) (group : List Assignment) (groups : List (String × List Assignment))
    (tier : String)
    → assignments_of ((t, group) ∷ groups) tier
      ≡ (if t == tier then group else assignments_of groups tier)
assignments_of-cons t group groups tier = elim (Bool-cases (t == tier)) [
  | inl e ↦ ap group_or_none (if-true _ _ _ e) ∙ sym (if-true _ _ _ e)
  | inr e ↦ ap group_or_none (if-false _ _ _ e) ∙ sym (if-false _ _ _ e)
]
  where
    group_or_none : Option (List Assignment) → List Assignment
    group_or_none o = elim o [ none ↦ [] | some g ↦ g ]

joins :
    (b : Bool) (group others : List Assignment) (a : Assignment)
    → (if b then group ++ (a ∷ []) else others)
      ≡ (if b then group else others) ++ (if b then a ∷ [] else [])
joins true group others a = refl
joins false group others a = sym (append-nil others)

keep-step :
    (b : Bool) (a : Assignment) (rest : List Assignment)
    → (if b then a ∷ [] else []) ++ rest ≡ (if b then a ∷ rest else rest)
keep-step true a rest = refl
keep-step false a rest = refl

apart : (a b : String) → (a == b) ≡ false → a ≢ b
apart a b e q = ground (arith, (==_iff a b).1 q, e)

append_to-group :
    (a : Assignment) (groups : List (String × List Assignment)) (tier : String)
    → assignments_of (append_to a groups) tier
      ≡ assignments_of groups tier ++ (if a.tier == tier then a ∷ [] else [])
unfolding append_to
append_to-group a [] tier = assignments_of-cons a.tier (a ∷ []) [] tier
append_to-group a ((t, group) ∷ groups) tier =
    let rest = append_to-group a groups tier in
    elim (Bool-cases (t == a.tier)) [
      | inl e ↦
          ap (λ x. assignments_of x tier) (if-true _ _ _ e)
          ∙ assignments_of-cons t (group ++ (a ∷ [])) groups tier
          ∙ joins (t == tier) group (assignments_of groups tier) a
          ∙ ap₂ (λ x y. x ++ y) (sym (assignments_of-cons t group groups tier))
              (ap (λ x. if x == tier then a ∷ [] else []) ((==_iff t a.tier).0 e))
      | inr e ↦
          ap (λ x. assignments_of x tier) (if-false _ _ _ e)
          ∙ assignments_of-cons t group (append_to a groups) tier
          ∙ elim (Bool-cases (t == tier)) [
            | inl f ↦
                if-true _ _ _ f
                ∙ sym (append-nil group)
                ∙ ap₂ (λ x y. x ++ y)
                    (sym (if-true _ _ _ f) ∙ sym (assignments_of-cons t group groups tier))
                    (sym (
                      if-false _ _ (a.tier == tier) (
                        ==-false a.tier tier
                          (λ q. apart t a.tier e ((==_iff t tier).0 f ∙ sym q)))))
            | inr f ↦
                if-false _ _ _ f
                ∙ rest
                ∙ ap (λ x. x ++ (if a.tier == tier then a ∷ [] else []))
                    (sym (if-false _ _ _ f) ∙ sym (assignments_of-cons t group groups tier))
          ]
    ]

group_into-group :
    (groups : List (String × List Assignment)) (assignments : List Assignment) (tier : String)
    → assignments_of (group_into groups assignments) tier
      ≡ assignments_of groups tier ++ keep (of_tier tier) assignments
unfolding group_into
group_into-group groups [] tier = sym (append-nil (assignments_of groups tier))
group_into-group groups (a ∷ assignments) tier =
    group_into-group (append_to a groups) assignments tier
    ∙ ap (λ x. x ++ keep (of_tier tier) assignments) (append_to-group a groups tier)
    ∙ append_assoc (assignments_of groups tier) (if a.tier == tier then a ∷ [] else [])
        (keep (of_tier tier) assignments)
    ∙ ap (λ x. assignments_of groups tier ++ x)
        (keep-step (a.tier == tier) a (keep (of_tier tier) assignments))

-- After an update, the assignments that the loop of a tier probes are exactly the new assignments of
-- that tier, in their order.
pub update_assignments-group :
    (assignments : List Assignment) (tier : String)
    → assignments_of (update_assignments assignments) tier ≡ keep (of_tier tier) assignments
unfolding update_assignments
update_assignments-group assignments tier = group_into-group [] assignments tier
