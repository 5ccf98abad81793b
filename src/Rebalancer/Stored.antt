-- ===== src/Rebalancer/Stored.antt =====
-- The whole of `MaterializeAllAssignmentsWithCount`: what the table holds when every query succeeds.
use icmp_mon.Base.{
  ◌⊎◌, ℕ, zero, suc, ◌+◌, ◌≤◌, ◌<◌, ◌≡◌, ◌↔◌, refl, sym, ap, ◌∙◌, subst, String, List, [], ◌∷◌,
  ◌++◌, map, some, Bool, true, false, arith, In, Distinct, inl, inr, length, take, drop,
  length-take, length-drop, take-append-drop, In-append, In-append_left, In-append_right, In-map,
  append-nil, append_assoc,
}
use icmp_mon.Types.Agent.{Agent}
use icmp_mon.Types.Tier.{Tier}
use icmp_mon.Types.Target.{Target}
use icmp_mon.Assignments.Policy.{ids}
use icmp_mon.Rebalancer.{TargetAssignment, Db, tier_map}
use icmp_mon.Rebalancer.Materialize.{
  append_found, collect_assignments, with_ids, Inserted, insert_batches, materialize_all, active_of,
  batch_size, fill,
}
use icmp_mon.Rebalancer.Agreement.{pair_of, pairs, Decides, find_target}

pairs-append : (xs ys : List TargetAssignment) → pairs (xs ++ ys) ≡ pairs xs ++ pairs ys
pairs-append [] ys = refl
pairs-append (x ∷ xs) ys = ap (λ r. pair_of x ∷ r) (pairs-append xs ys)

split_pairs :
    (xs ys : List TargetAssignment) (p : String × String)
    → In p (pairs (xs ++ ys))
    → In p (pairs xs) ⊎ In p (pairs ys)
split_pairs xs ys p m = In-append p (pairs xs) (pairs ys) (subst (In p) (pairs-append xs ys) m)

join_pairs :
    (xs ys : List TargetAssignment) (p : String × String)
    → In p (pairs xs) ⊎ In p (pairs ys)
    → In p (pairs (xs ++ ys))
join_pairs xs ys p (inl m) =
    subst (In p) (sym (pairs-append xs ys)) (In-append_left p (pairs xs) (pairs ys) m)
join_pairs xs ys p (inr m) =
    subst (In p) (sym (pairs-append xs ys)) (In-append_right p (pairs xs) (pairs ys) m)

-- The ids of targets.
abbrev pub target_ids : List Target → List String
target_ids targets = map (λ t. t.id) targets

module _ (active : List Agent) (tiers : List (String × Tier)) where
  -- What is collected for a list of targets, with its pairs.
  pub record Collected (targets : List Target) : Type 0 where
    pub assignments : List TargetAssignment
    pub same : collect_assignments active tiers targets ≡ some assignments
    pub own :
        (id other : String) → In (other, id) (pairs assignments) → In other (target_ids targets)
    pub agreed :
        (target : Target) (agent : Agent)
        → Distinct (target_ids targets)
        → Distinct (ids active)
        → In target targets
        → In agent active
        → In (target.id, agent.id) (pairs assignments) ↔ Decides active tiers target agent

  -- A pair of the head's target stands among the head's assignments, any other among the rest.
  here :
      (t target : Target) (agent : Agent) (xs ys : List TargetAssignment)
      → t ≡ target
      → ¬ In (target.id, agent.id) (pairs ys)
      → In (t.id, agent.id) (pairs xs) ↔ Decides active tiers t agent
      → In (target.id, agent.id) (pairs (xs ++ ys)) ↔ Decides active tiers target agent
  here t target agent xs ys q absent k =
      let k' =
        subst (λ (x : Target). In (x.id, agent.id) (pairs xs) ↔ Decides active tiers x agent) q k in
      (
        λ m. elim (split_pairs xs ys (target.id, agent.id) m) [
          | inl a ↦ k'.0 a
          | inr b ↦ absurd (absent b)
        ],
        λ h. join_pairs xs ys (target.id, agent.id) (inl (k'.1 h)),
      )

  there :
      (target : Target) (agent : Agent) (xs ys : List TargetAssignment)
      → ¬ In (target.id, agent.id) (pairs xs)
      → In (target.id, agent.id) (pairs ys) ↔ Decides active tiers target agent
      → In (target.id, agent.id) (pairs (xs ++ ys)) ↔ Decides active tiers target agent
  there target agent xs ys absent k = (
    λ m. elim (split_pairs xs ys (target.id, agent.id) m) [
      | inl a ↦ absurd (absent a)
      | inr b ↦ k.0 b
    ],
    λ h. join_pairs xs ys (target.id, agent.id) (inr (k.1 h)),
  )

  collect : (targets : List Target) → Collected targets
  unfolding collect_assignments
  collect [] = record {
    assignments = [];
    same = refl;
    own = λ id other m. m;
    agreed = λ target agent d e m n. absurd m;
  }
  collect (t ∷ targets) =
      let head = find_target active tiers t in
      let rest = collect targets in
      record {
        assignments = head.assignments ++ rest.assignments;
        same =
            ap (λ o. append_found o (collect_assignments active tiers targets)) head.same
            ∙ ap (append_found (some head.assignments)) rest.same;
        own = λ id other m. elim (split_pairs head.assignments rest.assignments (other, id) m) [
          | inl k ↦ inl (sym (head.own id other k))
          | inr k ↦ inr (rest.own id other k)
        ];
        agreed = λ target agent d e m n. elim m [
          | inl q ↦
              here t target agent head.assignments rest.assignments q
                (λ k. d.0 (
                  subst (λ i. In i (target_ids targets)) (ap (λ (x : Target). x.id) (sym q))
                    (rest.own agent.id target.id k)))
                (head.agreed agent e n)
          | inr k ↦
              there target agent head.assignments rest.assignments
                (λ k'. d.0 (
                  subst (λ i. In i (target_ids targets)) (head.own agent.id target.id k')
                    (In-map (λ (x : Target). x.id) target targets k)))
                (rest.agreed target agent d.1 e k n)
        ];
      }

pairs-with_ids :
    (new : ℕ → String) (at k : ℕ) (batch : List TargetAssignment)
    → pairs (with_ids new at k batch) ≡ pairs batch
pairs-with_ids new at k [] = refl
pairs-with_ids new at k (a ∷ batch) = ap (λ r. pair_of a ∷ r) (pairs-with_ids new at (k + 1) batch)

-- The batches store every assignment once, if each insert succeeds and the fuel is their number.
record Filled (assignments : List TargetAssignment) (created : ℕ) (before : Db) (r : Inserted)
    : Type 0 where
  pub complete : r.complete ≡ true
  pub created_all : r.created ≡ created + length assignments
  pub stored : pairs r.db.rows ≡ pairs before.rows ++ pairs assignments

insert_batches-Filled :
    (new : ℕ → String) (copies : ℕ → Bool) (size fuel offset : ℕ)
    (assignments : List TargetAssignment) (created : ℕ) (db : Db)
    → ((n : ℕ) → copies n ≡ true)
    → 0 < size
    → length assignments ≤ fuel
    → Filled assignments created db
        (insert_batches new size copies fuel offset assignments created db)
unfolding insert_batches
insert_batches-Filled new copies size fuel offset [] created db all s h = record {
  complete = refl;
  created_all = omega arith;
  stored = sym (append-nil (pairs db.rows));
}
insert_batches-Filled new copies size zero offset (a ∷ assignments) created db all s h =
    absurd (omega arith)
insert_batches-Filled new copies size (suc fuel) offset (a ∷ assignments) created db all s h =
    let batch = take size (a ∷ assignments) in
    let left = drop size (a ∷ assignments) in
    let next : Db = record db {
      rows = db.rows ++ with_ids new (db.clock db.generated) db.generated batch;
      generated = db.generated + length batch;
    } in
    let ih =
      insert_batches-Filled new copies size fuel (offset + size) left (created + length batch) next
        all s (omega (arith, length-drop size (a ∷ assignments))) in
    subst
      (λ b. Filled (a ∷ assignments) created db (elim b as (λ _. Inserted) [
        | false ↦ record { created = created; complete = false; db = db }
        | true ↦
            insert_batches new size copies fuel (offset + size) left (created + length batch) next
      ]))
      (sym (all offset))
      (record {
        complete = ih.complete;
        created_all = omega (
          arith,
          ih.created_all,
          length-take size (a ∷ assignments),
          length-drop size (a ∷ assignments),
        );
        stored =
            ih.stored
            ∙ ap (λ ps. ps ++ pairs left)
                (pairs-append db.rows (with_ids new (db.clock db.generated) db.generated batch)
                  ∙ ap (λ ps. pairs db.rows ++ ps)
                      (pairs-with_ids new (db.clock db.generated) db.generated batch))
            ∙ append_assoc (pairs db.rows) (pairs batch) (pairs left)
            ∙ ap (λ ps. pairs db.rows ++ ps)
                (sym (pairs-append batch left)
                  ∙ ap pairs (take-append-drop size (a ∷ assignments)));
      })

length-pairs : (rows : List TargetAssignment) → length (pairs rows) ≡ length rows
length-pairs [] = refl
length-pairs (x ∷ rows) = ap suc (length-pairs rows)

-- Where every query succeeds and the targets and the active agents have distinct ids, the table is
-- filled completely. It then holds a target with an active agent exactly if the target is not
-- archived, the tier that it names is there, and `shouldAssign` of the service accepts the agent for
-- it under this tier, with a count of 4 in place of 0. The number that is returned is that of the rows.
pub materialize_all-agrees :
    (new : ℕ → String) (copies : ℕ → Bool) (targets : List Target) (agents : List Agent)
    (tiers : List Tier) (db : Db)
    → ((n : ℕ) → copies n ≡ true)
    → Distinct (target_ids targets)
    → Distinct (ids (active_of agents))
    → (inserted : Inserted) × (materialize_all new copies true
          (some targets)
          (some agents)
          (some tiers)
          db
        ≡ (some inserted, inserted.db))
      × (inserted.complete ≡ true)
      × (inserted.created ≡ length inserted.db.rows)
      × ((target : Target) (agent : Agent)
          → In target targets
          → In agent (active_of agents)
          → In (target.id, agent.id) (pairs inserted.db.rows)
            ↔ Decides (active_of agents) (tier_map tiers) target agent)
unfolding materialize_all
materialize_all-agrees new copies targets agents tiers db all d e =
    let c = collect (active_of agents) (tier_map tiers) targets in
    let empty : Db = record db { rows = [] } in
    let filled =
      insert_batches-Filled new copies batch_size (length c.assignments) 0 c.assignments 0 empty all
        (omega arith) (omega arith) in
    let inserted =
      insert_batches new batch_size copies (length c.assignments) 0 c.assignments 0 empty in
    (
      inserted,
      ap (λ o. fill new copies o empty) c.same,
      filled.complete,
      omega (
        arith,
        filled.created_all,
        length-pairs inserted.db.rows,
        length-pairs c.assignments,
        ap (length {A = String × String}) filled.stored,
      ),
      λ target agent m n.
          let k = c.agreed target agent d e m n in
          (
            λ h. k.0 (subst (In (target.id, agent.id)) filled.stored h),
            λ h. subst (In (target.id, agent.id)) (sym filled.stored) (k.1 h),
          ),
    )
