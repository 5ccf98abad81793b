-- ===== src/Rebalancer/Recovery.antt =====
-- What `HandleAgentRecovery` adds: rows of the agent that is back, for targets that need one.
use icmp_mon.Base.{
  if◌then◌else◌, ltb→lt, ℕ, ◌≤◌, ◌<◌, ◌≡◌, ◌⊎◌, refl, sym, ap, subst, String, List, [], ◌∷◌, Option,
  none, some, Bool, true, false, not, arith, In, inl, inr, ◌==◌, keep, branch, length, ltb, any,
  ◌&&◌,
}
use icmp_mon.Types.Agent.{Agent}
use icmp_mon.Types.Tier.{Tier}
use icmp_mon.Types.Target.{Target}
use icmp_mon.Assignments.{is_eligible}
use icmp_mon.Rebalancer.{
  AssignmentHistory, World, TargetAssignment, Db, upsert, same_pair, create_assignment, stamped,
  get_active_assignments_by_target, assignment_for, AssignedBy, log_history,
}
use icmp_mon.Rebalancer.Offers.{
  active_of, offer_listed, offer, offer_all, offer_tiers, required_count, handle_agent_recovery,
}
use icmp_mon.Rebalancer.Agreement.{pair_of, pairs}

-- An upsert adds its pair, and no other.
upsert-keeps :
    (id : String) (a : TargetAssignment) (rows : List TargetAssignment) (p : String × String)
    → In p (pairs rows)
    → In p (pairs (upsert id a rows))
unfolding upsert
upsert-keeps id a [] p m = absurd m
upsert-keeps id a (r ∷ rows) p m =
    branch (λ after. In p (pairs after)) (same_pair a r) (λ _. m)
      (λ _. elim m [ inl e ↦ inl e | inr n ↦ inr (upsert-keeps id a rows p n) ])

upsert-adds :
    (id : String) (a : TargetAssignment) (rows : List TargetAssignment) (p : String × String)
    → In p (pairs (upsert id a rows))
    → In p (pairs rows) ⊎ (pair_of a ≡ p)
unfolding upsert
upsert-adds id a [] p = λ m. elim m [ inl e ↦ inr e | inr n ↦ absurd n ]
upsert-adds id a (r ∷ rows) p =
    branch (λ after. In p (pairs after) → In p (pairs (r ∷ rows)) ⊎ (pair_of a ≡ p)) (same_pair a r)
      (λ _ m. inl m)
      (λ _ m. elim m [
        | inl e ↦ inl (inl e)
        | inr n ↦ elim (upsert-adds id a rows p n) [ inl k ↦ inl (inr k) | inr e ↦ inr e ]
      ])

-- How many online agents monitor a target.
abbrev pub online_count : (String → Bool) → String → List TargetAssignment → ℕ
online_count online t rows =
    length (keep (λ (row : TargetAssignment). row.target_id == t && online row.agent_id) rows)

upsert-more :
    (online : String → Bool) (id : String) (a : TargetAssignment) (rows : List TargetAssignment)
    (t : String)
    → online_count online t rows ≤ online_count online t (upsert id a rows)
unfolding upsert
upsert-more online id a [] t = omega arith
upsert-more online id a (r ∷ rows) t =
    branch (λ after. online_count online t (r ∷ rows) ≤ online_count online t after) (same_pair a r)
      (λ _. ground arith) (λ _. ground (arith, upsert-more online id a rows t))

-- What a step adds to the rows: pairs of one agent, with targets that `why` holds of.
pub record Offered (online : String → Bool) (agent_id : String) (why : String → Type 0)
    (before after : Db) : Type 0 where
  pub kept : (p : String × String) → In p (pairs before.rows) → In p (pairs after.rows)
  pub new :
      (t g : String)
      → In (t, g) (pairs after.rows)
      → In (t, g) (pairs before.rows) ⊎ ((g ≡ agent_id) × why t)
  pub more : (t : String) → online_count online t before.rows ≤ online_count online t after.rows

Offered-refl :
    (online : String → Bool) (agent_id : String) (why : String → Type 0) (db : Db)
    → Offered online agent_id why db db
Offered-refl online agent_id why db = record {
  kept = λ p m. m;
  new = λ t g m. inl m;
  more = λ t. omega arith;
}

Offered-map :
    (online : String → Bool) (agent_id : String) (why why' : String → Type 0) (before after : Db)
    → ((t : String) → why t → why' t)
    → Offered online agent_id why before after
    → Offered online agent_id why' before after
Offered-map online agent_id why why' before after f o = record {
  kept = o.kept;
  new = λ t g m. elim (o.new t g m) [ inl k ↦ inl k | inr (e, w) ↦ inr (e, f t w) ];
  more = o.more;
}

Offered-trans :
    (online : String → Bool) (agent_id : String) (why : String → Type 0) (x y z : Db)
    → Offered online agent_id why x y
    → Offered online agent_id why y z
    → Offered online agent_id why x z
Offered-trans online agent_id why x y z o p = record {
  kept = λ q m. p.kept q (o.kept q m);
  new = λ t g m. elim (p.new t g m) [ inl k ↦ o.new t g k | inr w ↦ inr w ];
  more = λ t. let first = o.more t in let second = p.more t in omega arith;
}

log-Offered :
    (online : String → Bool) (agent_id : String) (why : String → Type 0) (logs : Bool)
    (entry : AssignmentHistory) (before after : Db)
    → Offered online agent_id why before after
    → Offered online agent_id why before (log_history logs entry after)
log-Offered online agent_id why true entry before after o = record {
  kept = o.kept;
  new = o.new;
  more = o.more;
}
log-Offered online agent_id why false entry before after o = o

module _ (world : World) (agent : Agent) (active : List Agent)
    (targets_of : String → Option (List Target)) where
  abbrev count : Db → String → ℕ
  count db t = online_count world.online t db.rows

  -- One turn adds at most the pair of the target, and only where agents are missing.
  abbrev At : ℕ → Target → Db → String → Type 0
  At required target db t = (target.id ≡ t) × (count db t < required)

  create-Offered :
      (required : ℕ) (tier : Tier) (target : Target) (db : Db)
      → count db target.id < required
      → Offered world.online agent.id (At required target db) db (
          create_assignment world.ids
            (assignment_for target.id agent.id tier.name AssignedBy.rebalancer)
            db)
  unfolding create_assignment
  create-Offered required tier target db h =
      let a = assignment_for target.id agent.id tier.name AssignedBy.rebalancer in
      record {
        kept = λ p m. upsert-keeps (world.ids db.generated) (stamped db a) db.rows p m;
        new = λ t g m. elim (upsert-adds (world.ids db.generated) (stamped db a) db.rows (t, g) m) [
          | inl k ↦ inl k
          | inr e ↦ inr (
            sym (ap (λ (q : String × String). q.1) e),
            (
              ap (λ (q : String × String). q.0) e,
              subst (λ x. count db x < required) (ap (λ (q : String × String). q.0) e) h,
            ),
          )
        ];
        more = λ t. upsert-more world.online (world.ids db.generated) (stamped db a) db.rows t;
      }

  offer-Offered :
      (required : ℕ) (tier : Tier) (target : Target) (db : Db)
      → Offered world.online agent.id
          (At required target db)
          db
          (offer world agent.id required tier target db)
  unfolding offer get_active_assignments_by_target
  offer-Offered required tier target db =
      let why = At required target db in
      let same = Offered-refl world.online agent.id why db in
      let new_assignment = assignment_for target.id agent.id tier.name AssignedBy.rebalancer in
      branch (Offered world.online agent.id why db) (not (world.reads target.id)) (λ _. same)
        (λ _.
          branch (Offered world.online agent.id why db) (not (ltb (count db target.id) required))
            (λ _. same)
            (λ h.
              branch (Offered world.online agent.id why db)
                (any (λ row. row.agent_id == agent.id)
                  (keep
                    (λ (row : TargetAssignment).
                      row.target_id == target.id && world.online row.agent_id)
                    db.rows))
                (λ _. same)
                (λ _.
                  branch (Offered world.online agent.id why db) (not (world.creates new_assignment))
                    (λ _. same)
                    (λ _.
                      log-Offered world.online agent.id why world.logs _ db _ (
                        create-Offered required tier target db (ltb→lt _ _ (ground (arith, h))))))))

  abbrev Among : ℕ → List Target → Db → String → Type 0
  Among required targets db t = (target : Target) × In target targets × At required target db t

  offer_all-Offered :
      (required : ℕ) (tier : Tier) (targets : List Target) (db : Db)
      → Offered world.online agent.id
          (Among required targets db)
          db
          (offer_all world agent.id required tier targets db)
  unfolding offer_all
  offer_all-Offered required tier [] db =
      Offered-refl world.online agent.id (Among required [] db) db
  offer_all-Offered required tier (target ∷ targets) db =
      let after = offer world agent.id required tier target db in
      let why = Among required (target ∷ targets) db in
      let one = offer-Offered required tier target db in
      Offered-trans world.online agent.id why db after _
        (Offered-map world.online agent.id (At required target db) why db after
          (λ t w. (target, inl refl, w)) one)
        (Offered-map world.online agent.id (Among required targets after) why after _
          (λ t (other, m, (e, h)). let grown = one.more t in (other, inr m, (e, omega arith)))
          (offer_all-Offered required tier targets after))

  -- The target is listed under a tier that takes the agent, with too few online agents.
  abbrev pub Wanted : List Tier → Db → String → Type 0
  Wanted tiers db t =
      (tier : Tier) × In tier tiers
      × (is_eligible agent tier.agent_selection ≡ true)
      × (targets : List Target) × (targets_of tier.name ≡ some targets)
      × (target : Target) × In target targets
      × (target.id ≡ t)
      × (count db t < required_count active tier)

  offer_tier-Offered :
      (tier : Tier) (tiers : List Tier) (db : Db) (listed : Option (List Target))
      → is_eligible agent tier.agent_selection ≡ true
      → targets_of tier.name ≡ listed
      → Offered world.online agent.id
          (Wanted (tier ∷ tiers) db)
          db
          (offer_listed world agent active tier listed db)
  offer_tier-Offered tier tiers db none h e =
      Offered-refl world.online agent.id (Wanted (tier ∷ tiers) db) db
  offer_tier-Offered tier tiers db (some targets) h e =
      Offered-map world.online agent.id (Among (required_count active tier) targets db)
        (Wanted (tier ∷ tiers) db) db _
        (λ t (target, m, (q, few)). (tier, inl refl, h, targets, e, target, m, q, few))
        (offer_all-Offered (required_count active tier) tier targets db)

  offer_tiers-Offered :
      (tiers : List Tier) (db : Db)
      → Offered world.online agent.id
          (Wanted tiers db)
          db
          (offer_tiers world agent active targets_of tiers db)
  unfolding offer_tiers
  offer_tiers-Offered [] db = Offered-refl world.online agent.id (Wanted [] db) db
  offer_tiers-Offered (tier ∷ tiers) db =
      let after =
        if not (is_eligible agent tier.agent_selection)
        then db
        else offer_listed world agent active tier (targets_of tier.name) db in
      let why = Wanted (tier ∷ tiers) db in
      let one : Offered world.online agent.id why db after =
        branch (Offered world.online agent.id why db) (not (is_eligible agent tier.agent_selection))
          (λ _. Offered-refl world.online agent.id why db)
          (λ h. offer_tier-Offered tier tiers db (targets_of tier.name) (ground (arith, h)) refl) in
      Offered-trans world.online agent.id why db after _ one (
        Offered-map world.online agent.id (Wanted tiers after) why after _
          (λ t (other, m, el, targets, e, target, n, q, few).
            let grown = one.more t in (other, inr m, el, targets, e, target, n, q, omega arith))
          (offer_tiers-Offered tiers after))

-- `HandleAgentRecovery`, where its three queries succeed, keeps every pair of a target and an agent.
-- A pair that is new is one of the agent that is back, with a target listed under a tier that accepts
-- the agent, whose online agents were fewer than the tier requires.
pub handle_agent_recovery-Offered :
    (world : World) (agent : Agent) (tiers : List Tier) (agents : List Agent)
    (targets_of : String → Option (List Target)) (db : Db)
    → (after : Db) × (handle_agent_recovery world
          (some agent)
          (some tiers)
          (some agents)
          targets_of
          db
        ≡ some after)
      × Offered world.online agent.id
          (Wanted world agent (active_of agents) targets_of tiers db)
          db
          after
unfolding handle_agent_recovery
handle_agent_recovery-Offered world agent tiers agents targets_of db = (
  offer_tiers world agent (active_of agents) targets_of tiers db,
  refl,
  offer_tiers-Offered world agent (active_of agents) targets_of tiers db,
)
