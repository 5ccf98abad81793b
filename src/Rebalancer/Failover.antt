-- ===== src/Rebalancer/Failover.antt =====
-- What `HandleAgentFailure` leaves: every target that some agent monitored is monitored still.
use icmp_mon.Base.{
  none≢some, In-keep, true, false, if-true, if-false, if-true, if-false, true, length, eqb, In-map,
  some-inj, ℕ, ◌≡◌, ◌≢◌, refl, sym, ap, ◌∙◌, subst, String, List, [], ◌∷◌, Option, none, some, Bool,
  not, arith, In, Distinct, inl, inr, ◌==◌, ==_iff, All, branch,
}
use icmp_mon.Types.Agent.{Agent}
use icmp_mon.Types.Tier.{Tier}
use icmp_mon.Rebalancer.{
  moved, handed_to, delete_assignment, log_history, AssignedBy, assignment_for, create_assignment,
  AssignmentHistory, tier_map, redistribute_among, get_assignments_by_agent, World,
  TargetAssignment, Db, FailoverError, successor, redistribute, redistribute_all,
  handle_agent_failure, others,
}
use icmp_mon.Rebalancer.Lookup.{
  In-get_assignments_by_agent, get_assignments_by_agent-Distinct, row_ids, Covers,
}
use icmp_mon.Rebalancer.Kept.{Keyed, Injective, handed_to-Kept}
use icmp_mon.Rebalancer.Successor.{Other, others-Other, successor-Selects}

log_history-rows :
    (logs : Bool) (entry : AssignmentHistory) (db : Db) → (log_history logs entry db).rows ≡ db.rows
log_history-rows true entry db = refl
log_history-rows false entry db = refl

module _ (world : World) (failed_id : String) (active : List Agent)
    (tiers : List (String × Tier)) where
  -- The assignment finds an agent, and its new row is stored and its old one deleted.
  abbrev pub Ready : TargetAssignment → Type 0
  Ready a =
      (agent : Agent) × (successor world active tiers a ≡ some agent)
      × (world.creates (assignment_for a.target_id agent.id a.tier AssignedBy.failover) ≡ true)
      × (world.deletes a.id ≡ true)

  redistribute-gone :
      (a b : TargetAssignment) (db : Db)
      → Ready a
      → In b (redistribute world failed_id active tiers a db).rows
      → b.id ≢ a.id
  unfolding redistribute create_assignment delete_assignment
  redistribute-gone a b db (agent, s, c, d) m =
      let new = assignment_for a.target_id agent.id a.tier AssignedBy.failover in
      let created = create_assignment world.ids new db in
      let m1 = subst (λ o. In b (handed_to world failed_id a db o).rows) s m in
      let m2 =
        subst (λ (x : Db). In b x.rows)
          (if-false db (moved world failed_id agent a db) (not (world.creates new)) (ap not c))
          m1 in
      let m3 = subst (λ rows. In b rows) (log_history-rows world.logs _ _) m2 in
      let m4 =
        subst (λ (x : Db). In b x.rows)
          (if-true (delete_assignment a.id created) created (world.deletes a.id) d) m3 in
      let (n, e) = In-keep (λ (row : TargetAssignment). not (row.id == a.id)) b created.rows m4 in
      λ q. let e' = (==_iff b.id a.id).1 q in ground (arith, e, e')

-- What the loop over the assignments of the failed agent keeps.
module _ (world : World) (failed_id : String) (active : List Agent) (tiers : List (String × Tier))
    (inj : Injective world.ids) (h : All (Other failed_id) active) where
  pub record Redistributed (assignments : List TargetAssignment) (before after : Db) : Type 0 where
    pub keyed : Keyed world.ids after
    pub covers : (t : String) → Covers t before.rows → Covers t after.rows
    pub fewer : (b : TargetAssignment) → b.agent_id ≡ failed_id → In b after.rows → In b before.rows
    pub gone :
        (a : TargetAssignment)
        → a.agent_id ≡ failed_id
        → ((b : TargetAssignment) → In b assignments → Ready world failed_id active tiers b)
        → In a after.rows
        → ¬ In a assignments

  pub redistribute_all-Redistributed :
      (assignments : List TargetAssignment) (db : Db)
      → Distinct (row_ids assignments)
      → ((a : TargetAssignment) → In a assignments → In a db.rows × (a.agent_id ≡ failed_id))
      → Keyed world.ids db
      → Redistributed assignments db (redistribute_all world failed_id active tiers assignments db)
  unfolding redistribute_all redistribute
  redistribute_all-Redistributed [] db d m k = record {
    keyed = k;
    covers = λ t c. c;
    fewer = λ b e n. n;
    gone = λ a e r n x. x;
  }
  redistribute_all-Redistributed (a ∷ assignments) db d m k =
      let one =
        handed_to-Kept world failed_id inj a db (successor world active tiers a)
          (successor-Selects (Other failed_id) active h world tiers a) (m a (inl refl)).1
          (m a (inl refl)).0 k in
      let rest =
        redistribute_all-Redistributed assignments (redistribute world failed_id active tiers a db)
          d.1
          (λ b n. (
            one.others_stay b (m b (inr n)).1
                (λ x e q. d.0 (
                  subst (λ i. In i (row_ids assignments))
                    (q ∙ sym (ap (λ (r : TargetAssignment). r.id) (some-inj e)))
                    (In-map (λ (r : TargetAssignment). r.id) b assignments n)))
                (m b (inr n)).0,
            (m b (inr n)).1,
          ))
          one.keyed in
      record {
        keyed = rest.keyed;
        covers = λ t c. rest.covers t (one.covers t c);
        fewer = λ b e n. one.fewer b e (rest.fewer b e n);
        gone = λ b e ready n x. elim x [
          | inl q ↦
              redistribute-gone world failed_id active tiers a b db (ready a (inl refl))
                (rest.fewer b e n) (ap (λ (r : TargetAssignment). r.id) (sym q))
          | inr y ↦ rest.gone b e (λ c l. ready c (inr l)) n y
        ];
      }

-- What a failover leaves of a database.
abbrev pub FailsOver : (ℕ → String) → Db → Option FailoverError × Db → Type 0
FailsOver ids db (error, after) =
    Keyed ids after
    × ((t : String) → Covers t db.rows → Covers t after.rows)
    × ((e : FailoverError) → error ≡ some e → after ≡ db)

FailsOver-same :
    (ids : ℕ → String) (db : Db) (error : Option FailoverError)
    → Keyed ids db
    → FailsOver ids db (error, db)
FailsOver-same ids db error k = (k, λ t c. c, λ e q. refl)

redistribute_among-FailsOver :
    (world : World) (failed_id : String) (assignments : List TargetAssignment)
    (agents : Option (List Agent)) (tiers : Option (List Tier)) (db : Db)
    → Injective world.ids
    → Distinct (row_ids assignments)
    → ((a : TargetAssignment) → In a assignments → In a db.rows × (a.agent_id ≡ failed_id))
    → Keyed world.ids db
    → FailsOver world.ids db (redistribute_among world failed_id assignments agents tiers db)
redistribute_among-FailsOver world failed_id assignments none tiers db inj d m k =
    FailsOver-same world.ids db (some FailoverError.no_agents) k
redistribute_among-FailsOver world failed_id assignments (some agents) none db inj d m k =
    branch (FailsOver world.ids db) (eqb (length (others failed_id agents)) 0)
      (λ _. FailsOver-same world.ids db (some FailoverError.no_active_agents) k)
      (λ _. FailsOver-same world.ids db (some FailoverError.no_tiers) k)
redistribute_among-FailsOver world failed_id assignments (some agents) (some tiers) db inj d m k =
    branch (FailsOver world.ids db) (eqb (length (others failed_id agents)) 0)
      (λ _. FailsOver-same world.ids db (some FailoverError.no_active_agents) k)
      (λ _.
        let r =
          redistribute_all-Redistributed world failed_id (others failed_id agents) (tier_map tiers)
            inj (others-Other failed_id agents) assignments db d m k in
        (r.keyed, r.covers, λ e q. absurd (none≢some q)))

-- Let the ids in the table be distinct and those that the database generates new. Then, whatever the
-- queries, the creations, the deletions and the history answer, `HandleAgentFailure` keeps the ids
-- distinct, a target that some row monitored is monitored by some row afterwards, and an error leaves
-- the tables as they were.
pub handle_agent_failure-covers :
    (world : World) (failed_id : String) (gets : Bool) (agents : Option (List Agent))
    (tiers : Option (List Tier)) (db : Db)
    → Injective world.ids
    → Keyed world.ids db
    → FailsOver world.ids db (handle_agent_failure world failed_id gets agents tiers db)
unfolding handle_agent_failure
handle_agent_failure-covers world failed_id gets agents tiers db inj k =
    let assignments = get_assignments_by_agent failed_id db.rows in
    branch (FailsOver world.ids db) (not gets)
      (λ _. FailsOver-same world.ids db (some FailoverError.no_assignments) k)
      (λ _.
        branch (FailsOver world.ids db) (eqb (length assignments) 0)
          (λ _. FailsOver-same world.ids db none k)
          (λ _.
            redistribute_among-FailsOver world failed_id assignments agents tiers db inj
              (get_assignments_by_agent-Distinct failed_id db.rows k.distinct)
              (λ a m. In-get_assignments_by_agent failed_id a db.rows m) k))
