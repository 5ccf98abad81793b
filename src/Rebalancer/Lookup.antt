-- ===== src/Rebalancer/Lookup.antt =====
-- Lemmas on the table of assignments: what an upsert and a deletion leave.
use icmp_mon.Base.{
  Distinct-map-keep, In-keep, Distinct, subst, In-keep_back, ltb, ◌≡◌, ◌≢◌, ◌⊎◌, refl, sym, ap, ◌∙◌,
  String, List, [], ◌∷◌, ◌++◌, map, true, not, arith, keep, In, inl, inr, ◌==◌, ==_iff, branch,
}
use icmp_mon.Rebalancer.{
  TargetAssignment, upsert, same_pair, insert_by_time, by_time, get_assignments_by_agent,
}

abbrev pub row_ids : List TargetAssignment → List String
row_ids rows = map (λ row. row.id) rows

-- Some row monitors the target.
abbrev pub Covers : String → List TargetAssignment → Type 0
Covers target_id rows = (row : TargetAssignment) × In row rows × (row.target_id ≡ target_id)

-- An upsert keeps the ids, and adds its own at the end where the pair is new.
pub row_ids-upsert :
    (id : String) (a : TargetAssignment) (rows : List TargetAssignment)
    → (row_ids (upsert id a rows) ≡ row_ids rows)
      ⊎ (row_ids (upsert id a rows) ≡ row_ids rows ++ (id ∷ []))
unfolding upsert
row_ids-upsert id a [] = inr refl
row_ids-upsert id a (r ∷ rows) =
    branch
      (λ (after : List TargetAssignment).
        (row_ids after ≡ row_ids (r ∷ rows)) ⊎ (row_ids after ≡ row_ids (r ∷ rows) ++ (id ∷ [])))
      (same_pair a r) (λ _. inl refl)
      (λ _. elim (row_ids-upsert id a rows) [
        | inl e ↦ inl (ap (λ is. r.id ∷ is) e)
        | inr e ↦ inr (ap (λ is. r.id ∷ is) e)
      ])

same_pair-agent :
    (a r : TargetAssignment)
    → same_pair a r ≡ true
    → (r.target_id ≡ a.target_id) × (r.agent_id ≡ a.agent_id)
same_pair-agent a r h = (
  (==_iff r.target_id a.target_id).0 (ground (arith, h)),
  (==_iff r.agent_id a.agent_id).0 (ground (arith, h)),
)

-- A row of another agent stays as it is.
pub upsert-other :
    (id : String) (a : TargetAssignment) (rows : List TargetAssignment) (b : TargetAssignment)
    → b.agent_id ≢ a.agent_id
    → In b rows
    → In b (upsert id a rows)
unfolding upsert
upsert-other id a [] b ne m = absurd m
upsert-other id a (r ∷ rows) b ne (inl e) =
    branch (In b) (same_pair a r)
      (λ q.
        absurd (ne (ap (λ (x : TargetAssignment). x.agent_id) (sym e) ∙ (same_pair-agent a r q).1)))
      (λ _. inl e)
upsert-other id a (r ∷ rows) b ne (inr m) =
    branch (In b) (same_pair a r) (λ _. inr m) (λ _. inr (upsert-other id a rows b ne m))

-- The pair of the assignment is there.
pub upsert-pair :
    (id : String) (a : TargetAssignment) (rows : List TargetAssignment)
    → (n : TargetAssignment) × In n (upsert id a rows)
      × (n.target_id ≡ a.target_id)
      × (n.agent_id ≡ a.agent_id)
unfolding upsert
upsert-pair id a [] = (record a { id = id }, inl refl, refl, refl)
upsert-pair id a (r ∷ rows) =
    branch
      (λ (after : List TargetAssignment).
        (n : TargetAssignment) × In n after
        × (n.target_id ≡ a.target_id)
        × (n.agent_id ≡ a.agent_id))
      (same_pair a r)
      (λ q. (
        record r { tier = a.tier; assigned_at = a.assigned_at; assigned_by = a.assigned_by },
        inl refl,
        (same_pair-agent a r q).0,
        (same_pair-agent a r q).1,
      ))
      (λ _. let (n, m, t, g) = upsert-pair id a rows in (n, inr m, t, g))

pub upsert-Covers :
    (id : String) (a : TargetAssignment) (rows : List TargetAssignment) (target_id : String)
    → Covers target_id rows
    → Covers target_id (upsert id a rows)
unfolding upsert
upsert-Covers id a [] target_id (row, m, t) = absurd m
upsert-Covers id a (r ∷ rows) target_id (row, inl e, t) =
    branch (Covers target_id) (same_pair a r)
      (λ _. (
        record r { tier = a.tier; assigned_at = a.assigned_at; assigned_by = a.assigned_by },
        inl refl,
        ap (λ (x : TargetAssignment). x.target_id) e ∙ t,
      ))
      (λ _. (row, inl e, t))
upsert-Covers id a (r ∷ rows) target_id (row, inr m, t) =
    branch (Covers target_id) (same_pair a r) (λ _. (row, inr m, t))
      (λ _.
        let (row', m', t') = upsert-Covers id a rows target_id (row, m, t) in (row', inr m', t'))

-- A deletion leaves the rows with other ids.
pub delete-other :
    (id : String) (rows : List TargetAssignment) (b : TargetAssignment)
    → b.id ≢ id
    → In b rows
    → In b (keep (λ row. not (row.id == id)) rows)
delete-other id [] b ne m = absurd m
delete-other id (r ∷ rows) b ne (inl e) =
    branch (In b) (not (r.id == id)) (λ _. inl e)
      (λ q.
        absurd (
          ne
            (ap (λ (x : TargetAssignment). x.id) (sym e) ∙ (==_iff r.id id).0 (ground (arith, q)))))
delete-other id (r ∷ rows) b ne (inr m) =
    branch (In b) (not (r.id == id)) (λ _. inr (delete-other id rows b ne m))
      (λ _. delete-other id rows b ne m)

-- An upsert brings no row of another agent in.
pub upsert-back :
    (id : String) (a : TargetAssignment) (rows : List TargetAssignment) (b : TargetAssignment)
    → b.agent_id ≢ a.agent_id
    → In b (upsert id a rows)
    → In b rows
unfolding upsert
upsert-back id a [] b ne m = elim m [
  | inl e ↦ absurd (ne (sym (ap (λ (x : TargetAssignment). x.agent_id) e)))
  | inr n ↦ n
]
upsert-back id a (r ∷ rows) b ne m =
    branch (λ after. In b after → In b (r ∷ rows)) (same_pair a r)
      (λ h n. elim n [
        | inl e ↦
            absurd
              (ne (sym (ap (λ (x : TargetAssignment). x.agent_id) e) ∙ (same_pair-agent a r h).1))
        | inr k ↦ inr k
      ])
      (λ _ n. elim n [ inl e ↦ inl e | inr k ↦ inr (upsert-back id a rows b ne k) ]) m

In-insert_by_time :
    {B : Type 0} (f : TargetAssignment → B) (y : B) (a : TargetAssignment)
    (rows : List TargetAssignment)
    → In y (map f (insert_by_time a rows))
    → In y (map f (a ∷ rows))
unfolding insert_by_time
In-insert_by_time f y a [] m = m
In-insert_by_time f y a (r ∷ rows) m =
    branch (λ after. In y (map f after) → In y (map f (a ∷ r ∷ rows)))
      (ltb r.assigned_at a.assigned_at)
      (λ _ n. elim n [
        | inl e ↦ inr (inl e)
        | inr k ↦ elim (In-insert_by_time f y a rows k) [ inl e ↦ inl e | inr o ↦ inr (inr o) ]
      ])
      (λ _ n. n) m

insert_by_time-In :
    (y a : TargetAssignment) (rows : List TargetAssignment)
    → In y (a ∷ rows)
    → In y (insert_by_time a rows)
unfolding insert_by_time
insert_by_time-In y a [] m = m
insert_by_time-In y a (r ∷ rows) m =
    branch (In y) (ltb r.assigned_at a.assigned_at)
      (λ _. elim m [
        | inl e ↦ inr (insert_by_time-In y a rows (inl e))
        | inr (inl e) ↦ inl e
        | inr (inr n) ↦ inr (insert_by_time-In y a rows (inr n))
      ])
      (λ _. m)

Distinct-insert_by_time :
    (a : TargetAssignment) (rows : List TargetAssignment)
    → Distinct (row_ids (a ∷ rows))
    → Distinct (row_ids (insert_by_time a rows))
unfolding insert_by_time
Distinct-insert_by_time a [] d = d
Distinct-insert_by_time a (r ∷ rows) (n, (m, d)) =
    branch (λ after. Distinct (row_ids after)) (ltb r.assigned_at a.assigned_at)
      (λ _. (
        λ k. elim (In-insert_by_time (λ (x : TargetAssignment). x.id) r.id a rows k) [
          | inl e ↦ n (inl (sym e))
          | inr o ↦ m o
        ],
        Distinct-insert_by_time a rows ((λ k. n (inr k)), d),
      ))
      (λ _. (n, (m, d)))

-- The order of the rows changes neither which they are nor that their ids are distinct.
by_time-In : (y : TargetAssignment) (rows : List TargetAssignment) → In y rows → In y (by_time rows)
unfolding by_time
by_time-In y [] m = m
by_time-In y (r ∷ rows) (inl e) = insert_by_time-In y r (by_time rows) (inl e)
by_time-In y (r ∷ rows) (inr m) = insert_by_time-In y r (by_time rows) (inr (by_time-In y rows m))

In-by_time :
    {B : Type 0} (f : TargetAssignment → B) (y : B) (rows : List TargetAssignment)
    → In y (map f (by_time rows))
    → In y (map f rows)
unfolding by_time
In-by_time f y [] m = m
In-by_time f y (r ∷ rows) m = elim (In-insert_by_time f y r (by_time rows) m) [
  | inl e ↦ inl e
  | inr n ↦ inr (In-by_time f y rows n)
]

Distinct-by_time :
    (rows : List TargetAssignment) → Distinct (row_ids rows) → Distinct (row_ids (by_time rows))
unfolding by_time
Distinct-by_time [] d = d
Distinct-by_time (r ∷ rows) (n, d) =
    Distinct-insert_by_time r (by_time rows)
      ((λ k. n (In-by_time (λ (x : TargetAssignment). x.id) r.id rows k)), Distinct-by_time rows d)

map-same : (xs : List TargetAssignment) → map (λ x. x) xs ≡ xs
map-same [] = refl
map-same (x ∷ xs) = ap (λ ys. x ∷ ys) (map-same xs)

-- The assignments of an agent are its rows.
pub In-get_assignments_by_agent :
    (agent_id : String) (a : TargetAssignment) (rows : List TargetAssignment)
    → In a (get_assignments_by_agent agent_id rows)
    → In a rows × (a.agent_id ≡ agent_id)
unfolding get_assignments_by_agent
In-get_assignments_by_agent agent_id a rows m =
    let own = keep (λ (row : TargetAssignment). row.agent_id == agent_id) rows in
    let n =
      subst (In a) (map-same own)
        (In-by_time (λ x. x) a own (subst (In a) (sym (map-same (by_time own))) m)) in
    let (k, e) = In-keep (λ (row : TargetAssignment). row.agent_id == agent_id) a rows n in
    (k, (==_iff a.agent_id agent_id).0 e)

pub get_assignments_by_agent-In :
    (agent_id : String) (a : TargetAssignment) (rows : List TargetAssignment)
    → In a rows
    → a.agent_id ≡ agent_id
    → In a (get_assignments_by_agent agent_id rows)
unfolding get_assignments_by_agent
get_assignments_by_agent-In agent_id a rows m e =
    by_time-In a (keep (λ (row : TargetAssignment). row.agent_id == agent_id) rows) (
      In-keep_back (λ (row : TargetAssignment). row.agent_id == agent_id) a rows m
        ((==_iff a.agent_id agent_id).1 e))

pub get_assignments_by_agent-Distinct :
    (agent_id : String) (rows : List TargetAssignment)
    → Distinct (row_ids rows)
    → Distinct (row_ids (get_assignments_by_agent agent_id rows))
unfolding get_assignments_by_agent
get_assignments_by_agent-Distinct agent_id rows d =
    Distinct-by_time (keep (λ (row : TargetAssignment). row.agent_id == agent_id) rows) (
      Distinct-map-keep (λ (row : TargetAssignment). row.id) (λ row. row.agent_id == agent_id) rows
        d)
