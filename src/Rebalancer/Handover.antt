-- ===== src/Rebalancer/Handover.antt =====
-- What `HandleAgentFailure` achieves where nothing goes wrong: the failed agent has no assignment left.
use icmp_mon.Base.{
  true≢false, ◌≡◌, ◌≢◌, refl, sym, subst, String, List, [], ◌∷◌, Option, none, some, true, false,
  arith, In, inl, branch, length, eqb, All,
}
use icmp_mon.Types.Agent.{Agent}
use icmp_mon.Types.Tier.{Tier}
use icmp_mon.Rebalancer.{
  FailoverError, World, TargetAssignment, Db, handle_agent_failure, get_assignments_by_agent,
  redistribute_all, others, tier_map,
}
use icmp_mon.Rebalancer.Lookup.{
  get_assignments_by_agent-Distinct, get_assignments_by_agent-In, In-get_assignments_by_agent,
  Covers,
}
use icmp_mon.Rebalancer.Kept.{Keyed, Injective}
use icmp_mon.Rebalancer.Successor.{others-Other, successor-Selects}
use icmp_mon.Rebalancer.Failover.{Ready, redistribute_all-Redistributed}

empty-none : {A : Type 0} (xs : List A) → ((x : A) → ¬ In x xs) → xs ≡ []
empty-none [] h = refl
empty-none (x ∷ xs) h = absurd (h x (inl refl))

length-none : {A : Type 0} (xs : List A) → eqb (length xs) 0 ≡ true → xs ≡ []
length-none [] h = refl
length-none (x ∷ xs) h = absurd (ground (arith, h))

In-some : {A : Type 0} (xs : List A) → eqb (length xs) 0 ≡ false → (x : A) × In x xs
In-some [] h = absurd (true≢false h)
In-some (x ∷ xs) h = (x, inl refl)

-- No row of the agent is left, and what was covered is covered by another.
abbrev pub Moved : String → Db → Db → Type 0
Moved failed_id before after =
    (get_assignments_by_agent failed_id after.rows ≡ [])
    × ((t : String)
        → Covers t before.rows
        → (row : TargetAssignment) × In row after.rows
          × (row.target_id ≡ t)
          × (row.agent_id ≢ failed_id))

to-Moved :
    (failed_id : String) (before after : Db)
    → ((t : String) → Covers t before.rows → Covers t after.rows)
    → ((row : TargetAssignment) → In row after.rows → row.agent_id ≢ failed_id)
    → Moved failed_id before after
to-Moved failed_id before after covers gone = (
  empty-none _ (λ row m.
      let (n, e) = In-get_assignments_by_agent failed_id row after.rows m in gone row n e),
  λ t c. let (row, m, q) = covers t c in (row, m, q, gone row m),
)

-- An assignment that finds a successor has agents to choose from.
some_active :
    (world : World) (failed_id : String) (active : List Agent) (tiers : List (String × Tier))
    (a : TargetAssignment)
    → active ≡ []
    → ¬ Ready world failed_id active tiers a
some_active world failed_id active tiers a e (agent, s, c, d) =
    successor-Selects (λ _. ⊥) active (subst (All (λ _. ⊥)) (sym e) tt) world tiers a agent s

-- Let the ids in the table be distinct and those that the database generates new, let the three queries
-- of `HandleAgentFailure` succeed, and let each assignment of the failed agent find a successor, its new
-- row be created and its old one deleted. Then there is no error and no assignment of the failed agent
-- is left, whichever agents take over; and each target that was monitored still is, by another agent.
pub handle_agent_failure-moves :
    (world : World) (failed_id : String) (agents : List Agent) (tiers : List Tier) (db : Db)
    → Injective world.ids
    → Keyed world.ids db
    → ((a : TargetAssignment)
        → In a db.rows
        → a.agent_id ≡ failed_id
        → Ready world failed_id (others failed_id agents) (tier_map tiers) a)
    → (after : Db) × (handle_agent_failure world failed_id true (some agents) (some tiers) db
        ≡ (none, after))
      × Moved failed_id db after
unfolding handle_agent_failure
handle_agent_failure-moves world failed_id agents tiers db inj k ready =
    let assignments = get_assignments_by_agent failed_id db.rows in
    let active = others failed_id agents in
    let own : (a : TargetAssignment) → In a assignments → In a db.rows × (a.agent_id ≡ failed_id) =
      λ a m. In-get_assignments_by_agent failed_id a db.rows m in
    let Result : Option FailoverError × Db → Type 0 =
      λ r. (after : Db) × (r ≡ (none, after)) × Moved failed_id db after in
    branch Result (eqb (length assignments) 0)
      (λ h. (
        db,
        refl,
        to-Moved failed_id db db (λ t c. c)
            (λ row m e.
              subst (In row) (length-none assignments h)
                (get_assignments_by_agent-In failed_id row db.rows m e)),
      ))
      (λ h.
        branch Result (eqb (length active) 0)
          (λ g.
            let (a, m) = In-some assignments h in
            absurd (
              some_active world failed_id active (tier_map tiers) a (length-none active g)
                (ready a (own a m).0 (own a m).1)))
          (λ _.
            let r =
              redistribute_all-Redistributed world failed_id active (tier_map tiers) inj
                (others-Other failed_id agents) assignments db
                (get_assignments_by_agent-Distinct failed_id db.rows k.distinct) own k in
            (
              redistribute_all world failed_id active (tier_map tiers) assignments db,
              refl,
              to-Moved failed_id db
                  (redistribute_all world failed_id active (tier_map tiers) assignments db) r.covers
                  (λ row m e.
                    r.gone row e (λ b n. ready b (own b n).0 (own b n).1) m
                      (get_assignments_by_agent-In failed_id row db.rows (r.fewer row e m) e)),
            )))
