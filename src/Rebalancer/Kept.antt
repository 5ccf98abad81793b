-- ===== src/Rebalancer/Kept.antt =====
-- What one turn of the loop of `HandleAgentFailure` keeps.
use icmp_mon.Base.{
  In-keep, Distinct-map_unique, true, false, none, Bool, branch, ℕ, ◌≤◌, ◌≡◌, ◌≢◌, refl, sym, ap,
  ◌∙◌, subst, String, [], ◌∷◌, Option, some, not, arith, In, Distinct, Distinct-append, In-append,
  inl, inr, ◌==◌, ==_iff, Bool-cases, In-map-keep, Distinct-map-keep,
}
use icmp_mon.Rebalancer.{
  log_history, AssignmentHistory, moved, AssignedBy, assignment_for, handed_to, Agent, World,
  TargetAssignment, Db, create_assignment, delete_assignment, stamped,
}
use icmp_mon.Rebalancer.Lookup.{
  upsert-back, upsert-pair, row_ids, Covers, row_ids-upsert, upsert-other, upsert-Covers,
  delete-other,
}

-- The ids in the table are distinct, and the ones to come are new, as the database generates them.
pub record Keyed (ids : ℕ → String) (db : Db) : Type 0 where
  pub distinct : Distinct (row_ids db.rows)
  pub fresh : (n : ℕ) → db.generated ≤ n → ¬ In (ids n) (row_ids db.rows)

abbrev pub Injective : (ℕ → String) → Type 0
Injective ids = (m n : ℕ) → ids m ≡ ids n → m ≡ n

create_assignment-Keyed :
    (ids : ℕ → String) (a : TargetAssignment) (db : Db)
    → Injective ids
    → Keyed ids db
    → Keyed ids (create_assignment ids a db)
unfolding create_assignment
create_assignment-Keyed ids a db inj k =
    elim (row_ids-upsert (ids db.generated) (stamped db a) db.rows) [
      | inl e ↦ record {
        distinct = subst Distinct (sym e) k.distinct;
        fresh = λ n h m. k.fresh n (omega arith) (subst (In (ids n)) e m);
      }
      | inr e ↦ record {
        distinct = subst Distinct (sym e) (
            Distinct-append (row_ids db.rows) (ids db.generated ∷ []) k.distinct (λ m. m, tt)
              (λ i m n. elim n [
                | inl q ↦
                    k.fresh db.generated (omega arith)
                      (subst (λ j. In j (row_ids db.rows)) (sym q) m)
                | inr n' ↦ n'
              ]));
        fresh = λ n h m.
            elim (In-append (ids n) (row_ids db.rows) (ids db.generated ∷ [])
              (subst (In (ids n)) e m)) [
                | inl m' ↦ k.fresh n (omega arith) m'
                | inr (inl q) ↦ let same = inj db.generated n q in absurd (omega arith)
                | inr (inr m') ↦ m'
              ];
      }
    ]

delete_assignment-Keyed :
    (ids : ℕ → String) (id : String) (db : Db) → Keyed ids db → Keyed ids (delete_assignment id db)
unfolding delete_assignment
delete_assignment-Keyed ids id db k = record {
  distinct =
      Distinct-map-keep (λ (a : TargetAssignment). a.id) (λ a. not (a.id == id)) db.rows k.distinct;
  fresh = λ n h m.
      k.fresh n h
        (In-map-keep (λ (a : TargetAssignment). a.id) (λ a. not (a.id == id)) (ids n) db.rows m);
}

-- What a step keeps: the keys, the covered targets, and the assignments that it does not handle.
pub record Kept (ids : ℕ → String) (failed_id : String) (handled : Option TargetAssignment)
    (before after : Db) : Type 0 where
  pub keyed : Keyed ids after
  pub covers : (t : String) → Covers t before.rows → Covers t after.rows
  pub others_stay :
      (b : TargetAssignment)
      → b.agent_id ≡ failed_id
      → ((a : TargetAssignment) → handled ≡ some a → b.id ≢ a.id)
      → In b before.rows
      → In b after.rows
  pub fewer : (b : TargetAssignment) → b.agent_id ≡ failed_id → In b after.rows → In b before.rows

-- Creating for another agent keeps all of it.
create_assignment-Kept :
    (ids : ℕ → String) (failed_id : String) (a : TargetAssignment)
    (handled : Option TargetAssignment) (db : Db)
    → Injective ids
    → a.agent_id ≢ failed_id
    → Keyed ids db
    → Kept ids failed_id handled db (create_assignment ids a db)
unfolding create_assignment
create_assignment-Kept ids failed_id a handled db inj ne k = record {
  keyed = create_assignment-Keyed ids a db inj k;
  covers = λ t c. upsert-Covers (ids db.generated) (stamped db a) db.rows t c;
  others_stay =
      λ b e _ m. upsert-other (ids db.generated) (stamped db a) db.rows b (λ q. ne (sym q ∙ e)) m;
  fewer = λ b e m. upsert-back (ids db.generated) (stamped db a) db.rows b (λ q. ne (sym q ∙ e)) m;
}

-- The deletion of an assignment whose target has another agent by now keeps the covered targets.
delete_assignment-Kept :
    (ids : ℕ → String) (failed_id : String) (a n : TargetAssignment) (db : Db)
    → In a db.rows
    → In n db.rows
    → n.target_id ≡ a.target_id
    → n.agent_id ≢ a.agent_id
    → Keyed ids db
    → Kept ids failed_id (some a) db (delete_assignment a.id db)
unfolding delete_assignment
delete_assignment-Kept ids failed_id a n db ma mn t ne k = record {
  keyed = delete_assignment-Keyed ids a.id db k;
  covers = λ target (row, m, q). elim (Bool-cases (row.id == a.id)) [
    | inl same ↦
        let e =
          Distinct-map_unique (λ (x : TargetAssignment). x.id) db.rows row a k.distinct m ma
            ((==_iff row.id a.id).0 same) in
        (
          n,
          delete-other a.id db.rows n
              (λ p. ne (
                ap (λ (x : TargetAssignment). x.agent_id)
                  (Distinct-map_unique (λ (x : TargetAssignment). x.id) db.rows n a k.distinct mn ma
                    p)))
              mn,
          t ∙ sym (ap (λ (x : TargetAssignment). x.target_id) e) ∙ q,
        )
    | inr other ↦
        (row, delete-other a.id db.rows row (λ p. cc (sym other ∙ (==_iff row.id a.id).1 p)) m, q)
  ];
  others_stay = λ b e h m. delete-other a.id db.rows b (h a refl) m;
  fewer = λ b e m. (In-keep (λ (row : TargetAssignment). not (row.id == a.id)) b db.rows m).0;
}

pub Kept-refl :
    (ids : ℕ → String) (failed_id : String) (handled : Option TargetAssignment) (db : Db)
    → Keyed ids db
    → Kept ids failed_id handled db db
Kept-refl ids failed_id handled db k = record {
  keyed = k;
  covers = λ t c. c;
  others_stay = λ b e h m. m;
  fewer = λ b e m. m;
}

Kept-trans :
    (ids : ℕ → String) (failed_id : String) (handled : Option TargetAssignment) (x y z : Db)
    → Kept ids failed_id handled x y
    → Kept ids failed_id handled y z
    → Kept ids failed_id handled x z
Kept-trans ids failed_id handled x y z p q = record {
  keyed = q.keyed;
  covers = λ t c. q.covers t (p.covers t c);
  others_stay = λ b e h m. q.others_stay b e h (p.others_stay b e h m);
  fewer = λ b e m. p.fewer b e (q.fewer b e m);
}

-- The history is not read.
log_history-Kept :
    (ids : ℕ → String) (failed_id : String) (handled : Option TargetAssignment) (logs : Bool)
    (entry : AssignmentHistory) (before after : Db)
    → Kept ids failed_id handled before after
    → Kept ids failed_id handled before (log_history logs entry after)
log_history-Kept ids failed_id handled true entry before after k = record {
  keyed = record { distinct = k.keyed.distinct; fresh = k.keyed.fresh };
  covers = k.covers;
  others_stay = k.others_stay;
  fewer = k.fewer;
}
log_history-Kept ids failed_id handled false entry before after k = k

module _ (world : World) (failed_id : String) (inj : Injective world.ids) where
  -- The assignment of the successor is there before the old one is deleted.
  moved-Kept :
      (a : TargetAssignment) (db : Db) (agent : Agent)
      → agent.id ≢ failed_id
      → a.agent_id ≡ failed_id
      → In a db.rows
      → Keyed world.ids db
      → Kept world.ids failed_id (some a) db (moved world failed_id agent a db)
  unfolding create_assignment
  moved-Kept a db agent ne e m k =
      let new = assignment_for a.target_id agent.id a.tier AssignedBy.failover in
      let created = create_assignment world.ids new db in
      let first = create_assignment-Kept world.ids failed_id new (some a) db inj ne k in
      let (n, mn, t, g) = upsert-pair (world.ids db.generated) (stamped db new) db.rows in
      log_history-Kept world.ids failed_id (some a) world.logs _ db _ (
        branch (λ after. Kept world.ids failed_id (some a) db after) (world.deletes a.id)
          (λ _.
            Kept-trans world.ids failed_id (some a) db created (delete_assignment a.id created)
              first
              (delete_assignment-Kept world.ids failed_id a n created
                (upsert-other (world.ids db.generated) (stamped db new) db.rows a
                  (λ q. ne (sym q ∙ e)) m)
                mn t (λ q. ne (sym g ∙ q ∙ e)) first.keyed))
          (λ _. first))

  pub handed_to-Kept :
      (a : TargetAssignment) (db : Db) (selected : Option Agent)
      → ((agent : Agent) → selected ≡ some agent → agent.id ≢ failed_id)
      → a.agent_id ≡ failed_id
      → In a db.rows
      → Keyed world.ids db
      → Kept world.ids failed_id (some a) db (handed_to world failed_id a db selected)
  handed_to-Kept a db none ne e m k = Kept-refl world.ids failed_id (some a) db k
  handed_to-Kept a db (some agent) ne e m k =
      branch (λ after. Kept world.ids failed_id (some a) db after)
        (not (world.creates (assignment_for a.target_id agent.id a.tier AssignedBy.failover)))
        (λ _. Kept-refl world.ids failed_id (some a) db k)
        (λ _. moved-Kept a db agent (ne agent refl) e m k)
