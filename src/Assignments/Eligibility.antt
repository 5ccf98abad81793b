-- ===== src/Assignments/Eligibility.antt =====
-- `isEligible` against the documented meaning of an agent selection policy.
use icmp_mon.Base.{
  contains-false, String, List, [], ◌∷◌, ◌≡◌, ◌≢◌, ◌↔◌, ◌⊎◌, inl, inr, true, false, arith, ◌==◌,
  contains, lookup_or_empty, All, In, contains_iff, ==_iff, all_iff, any-false_iff, refl,
}
use icmp_mon.Types.Agent.{Agent}
use icmp_mon.Types.Tier.{AgentSelectionPolicy}
use icmp_mon.Assignments.{not_empty, is_eligible}

-- What `AgentSelectionPolicy` says of an agent: it is of a listed region and provider where any is
-- listed, of no excluded region, has every required tag and none of the excluded ones.
pub record Admits (policy : AgentSelectionPolicy) (agent : Agent) : Type 0 where
  pub region_listed : (policy.regions ≡ []) ⊎ In agent.region policy.regions
  pub region_allowed : ¬ In agent.region policy.exclude_regions
  pub provider_listed : (policy.providers ≡ []) ⊎ In agent.provider policy.providers
  pub tags_required : All (λ kv. lookup_or_empty kv.0 agent.tags ≡ kv.1) policy.require_tags
  pub tags_allowed : All (λ kv. lookup_or_empty kv.0 agent.tags ≢ kv.1) policy.exclude_tags

All-eq :
    (tags req : List (String × String))
    → All (λ kv. (lookup_or_empty kv.0 tags == kv.1) ≡ true) req
      ↔ All (λ kv. lookup_or_empty kv.0 tags ≡ kv.1) req
All-eq tags [] = (λ h. tt, λ h. tt)
All-eq tags (kv ∷ req) =
    let ih = All-eq tags req in
    let e = ==_iff (lookup_or_empty kv.0 tags) kv.1 in
    (λ h. (e.0 h.0, ih.0 h.1), λ h. (e.1 h.0, ih.1 h.1))

All-ne :
    (tags req : List (String × String))
    → All (λ kv. (lookup_or_empty kv.0 tags == kv.1) ≡ false) req
      ↔ All (λ kv. lookup_or_empty kv.0 tags ≢ kv.1) req
All-ne tags [] = (λ h. tt, λ h. tt)
All-ne tags (kv ∷ req) =
    let ih = All-ne tags req in
    let e = ==_iff (lookup_or_empty kv.0 tags) kv.1 in
    (λ h. (λ q. ground (arith, e.1 q, h.0), ih.0 h.1), λ h. (ground (arith, e.0, h.0), ih.1 h.1))

listed :
    (xs : List String) (x : String)
    → ((xs ≡ []) ⊎ In x xs) ↔ ((not_empty xs ≡ false) ⊎ (contains xs x ≡ true))
listed [] x = (λ h. inl refl, λ h. inl refl)
listed (y ∷ xs) x =
    let c = contains_iff (y ∷ xs) x in
    (
      λ h. elim h [ inl e ↦ cc | inr m ↦ inr (c.1 m) ],
      λ h. elim h [ inl e ↦ cc | inr m ↦ inr (c.0 m) ],
    )

-- `isEligible` accepts exactly the agents that the policy admits.
pub is_eligible_iff :
    (agent : Agent) (policy : AgentSelectionPolicy)
    → (is_eligible agent policy ≡ true) ↔ Admits policy agent
unfolding is_eligible
is_eligible_iff agent policy = (
  λ h. record {
    region_listed = region.1 (ground arith);
    region_allowed = λ m. ground (arith, excluded.1 m);
    provider_listed = provider.1 (ground arith);
    tags_required = req.0 ((all_iff _ policy.require_tags).0 (ground arith));
    tags_allowed = exc.0 ((any-false_iff _ policy.exclude_tags).0 (ground arith));
  },
  λ a. ground (
    arith,
    region.0 a.region_listed,
    provider.0 a.provider_listed,
    contains-false policy.exclude_regions agent.region a.region_allowed,
    (all_iff (λ kv. lookup_or_empty kv.0 agent.tags == kv.1) policy.require_tags).1
        (req.1 a.tags_required),
    (any-false_iff (λ kv. lookup_or_empty kv.0 agent.tags == kv.1) policy.exclude_tags).1
        (exc.1 a.tags_allowed),
  ),
)
  where
    region :
        ((policy.regions ≡ []) ⊎ In agent.region policy.regions)
        ↔ ((not_empty policy.regions ≡ false) ⊎ (contains policy.regions agent.region ≡ true))
    region = listed policy.regions agent.region

    provider :
        ((policy.providers ≡ []) ⊎ In agent.provider policy.providers)
        ↔ ((not_empty policy.providers ≡ false) ⊎ (contains policy.providers agent.provider ≡ true))
    provider = listed policy.providers agent.provider

    excluded :
        (contains policy.exclude_regions agent.region ≡ true)
        ↔ In agent.region policy.exclude_regions
    excluded = contains_iff policy.exclude_regions agent.region

    req :
        All (λ kv. (lookup_or_empty kv.0 agent.tags == kv.1) ≡ true) policy.require_tags
        ↔ All (λ kv. lookup_or_empty kv.0 agent.tags ≡ kv.1) policy.require_tags
    req = All-eq agent.tags policy.require_tags

    exc :
        All (λ kv. (lookup_or_empty kv.0 agent.tags == kv.1) ≡ false) policy.exclude_tags
        ↔ All (λ kv. lookup_or_empty kv.0 agent.tags ≢ kv.1) policy.exclude_tags
    exc = All-ne agent.tags policy.exclude_tags
