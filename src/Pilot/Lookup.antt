-- ===== src/Pilot/Lookup.antt =====
-- The row that is found for a pool: what moves it, and when it has the data of the pool.
use icmp_mon.Base.{
  true≢false, none≢some, eqb, if-false, Bool-cases, if-true, Distinct-map_unique, ==_iff, true,
  false, Bool, some-inj, ℕ, ◌≡◌, refl, sym, ap, ◌∙◌, String, List, [], ◌∷◌, ◌++◌, map, Option, none,
  some, not, if◌then◌else◌, In, inl, inr, Distinct, branch, arith, ◌==◌,
}
use icmp_mon.Pilot.{as_inet, find_first, has_pilot_id, IpPool, Subnet}
use icmp_mon.Pilot.Sync.{ptr_int_not_equal, ptr_string_not_equal, subnet_needs_update, with_pool}
use icmp_mon.Pilot.Keyed.{subnet_ids, updating}

-- The data of a subnet that the sync compares, and that the table has, are those of the pool.
pub record Agrees (r : Subnet) (pool : IpPool) : Type 0 where
  pub network_address : r.network_address ≡ pool.network_address
  pub network_size : r.network_size ≡ pool.network_size
  pub subscriber_name : r.subscriber_name ≡ pool.subscriber_name
  pub gateway_device : r.gateway_device ≡ pool.gateway_device
  pub service_status : r.service_status ≡ pool.service_status

-- The row that is found for the pool agrees with it.
abbrev pub Follows : IpPool → List Subnet → Type 0
Follows pool rows = (r : Subnet) × (find_first (has_pilot_id pool.id) rows ≡ some r) × Agrees r pool

pub find_first-In :
    (test : Subnet → Bool) (rows : List Subnet) (e : Subnet)
    → find_first test rows ≡ some e
    → In e rows × (test e ≡ true)
find_first-In test [] e h = absurd (none≢some h)
find_first-In test (r ∷ rows) e h = elim (Bool-cases (test r)) [
  | inl t ↦
      let q = some-inj (sym (if-true (some r) (find_first test rows) (test r) t) ∙ h) in
      (inl q, ap test (sym q) ∙ t)
  | inr t ↦
      let (m, u) =
        find_first-In test rows e (sym (if-false (some r) (find_first test rows) (test r) t) ∙ h) in
      (inr m, u)
]

pub find_first-append :
    (test : Subnet → Bool) (rows more : List Subnet) (e : Subnet)
    → find_first test rows ≡ some e
    → find_first test (rows ++ more) ≡ some e
find_first-append test [] more e h = absurd (none≢some h)
find_first-append test (r ∷ rows) more e h = elim (Bool-cases (test r)) [
  | inl t ↦ if-true _ _ (test r) t ∙ sym (if-true _ _ (test r) t) ∙ h
  | inr t ↦
      if-false _ _ (test r) t
      ∙ find_first-append test rows more e
          (sym (if-false (some r) (find_first test rows) (test r) t) ∙ h)
]

pub find_first-new :
    (test : Subnet → Bool) (rows : List Subnet) (x : Subnet)
    → find_first test rows ≡ none
    → test x ≡ true
    → find_first test (rows ++ (x ∷ [])) ≡ some x
find_first-new test [] x h t = if-true _ _ (test x) t
find_first-new test (r ∷ rows) x h t = elim (Bool-cases (test r)) [
  | inl u ↦ absurd (none≢some (sym h ∙ if-true (some r) (find_first test rows) (test r) u))
  | inr u ↦
      if-false _ _ (test r) u
      ∙ find_first-new test rows x (sym (if-false (some r) (find_first test rows) (test r) u) ∙ h) t
]

pub find_first-map :
    (test : Subnet → Bool) (f : Subnet → Subnet) (rows : List Subnet) (e : Subnet)
    → ((r : Subnet) → In r rows → test (f r) ≡ test r)
    → find_first test rows ≡ some e
    → find_first test (map f rows) ≡ some (f e)
find_first-map test f [] e k h = absurd (none≢some h)
find_first-map test f (r ∷ rows) e k h = elim (Bool-cases (test r)) [
  | inl t ↦
      if-true _ _ (test (f r)) (k r (inl refl) ∙ t)
      ∙ ap (λ (x : Subnet). some (f x))
          (some-inj (sym (if-true (some r) (find_first test rows) (test r) t) ∙ h))
  | inr t ↦
      if-false _ _ (test (f r)) (k r (inl refl) ∙ t)
      ∙ find_first-map test f rows e (λ x m. k x (inr m))
          (sym (if-false (some r) (find_first test rows) (test r) t) ∙ h)
]

-- An update of a row changes the Pilot id of none.
pub updating-pilot :
    (inet_text : String → String) (rows : List Subnet) (pool : IpPool) (existing r : Subnet)
    (pilot_id : ℕ)
    → Distinct (subnet_ids rows)
    → In existing rows
    → In r rows
    → has_pilot_id pilot_id (updating (as_inet inet_text (with_pool pool existing)) r)
      ≡ has_pilot_id pilot_id r
updating-pilot inet_text rows pool existing r pilot_id d me mr =
    branch (λ (x : Subnet). has_pilot_id pilot_id x ≡ has_pilot_id pilot_id r) (r.id == existing.id)
      (λ h. ap (has_pilot_id pilot_id) (
        Distinct-map_unique (λ (x : Subnet). x.id) rows existing r d me mr
          (sym ((==_iff r.id existing.id).0 h))))
      (λ _. refl)

-- Where no update is needed, the compared data are equal.
pub ptr_string-equal : (a b : Option String) → ptr_string_not_equal a b ≡ false → a ≡ b
unfolding ptr_string_not_equal
ptr_string-equal none none h = refl
ptr_string-equal none (some b) h = absurd (true≢false h)
ptr_string-equal (some a) none h = absurd (true≢false h)
ptr_string-equal (some a) (some b) h = ap some ((==_iff a b).0 (ground (arith, h)))

pub or-false : (b c : Bool) → (if b then true else c) ≡ false → (b ≡ false) × (c ≡ false)
or-false true c h = absurd (true≢false h)
or-false false c h = (refl, h)

pub no_update-Agrees :
    (existing : Subnet) (pool : IpPool)
    → subnet_needs_update existing pool ≡ false
    → Agrees existing pool
unfolding subnet_needs_update
no_update-Agrees existing pool h =
    let b1 = not (existing.network_address == pool.network_address) in
    let b2 = not (eqb existing.network_size pool.network_size) in
    let b3 = ptr_string_not_equal existing.subscriber_name pool.subscriber_name in
    let b4 = ptr_string_not_equal existing.gateway_device pool.gateway_device in
    let b5 = ptr_int_not_equal existing.subnet_type pool.subnet_type in
    let b6 = ptr_string_not_equal existing.service_status pool.service_status in
    let c4 = if b5 then true else b6 in
    let c3 = if b4 then true else c4 in
    let c2 = if b3 then true else c3 in
    let c1 = if b2 then true else c2 in
    let (address, h1) = or-false b1 c1 h in
    let (size, h2) = or-false b2 c2 h1 in
    let (subscriber, h3) = or-false b3 c3 h2 in
    let (device, h4) = or-false b4 c4 h3 in
    let (kind, status) = or-false b5 b6 h4 in
    record {
      network_address =
          (==_iff existing.network_address pool.network_address).0 (ground (arith, address));
      network_size = ground (arith, size);
      subscriber_name = ptr_string-equal existing.subscriber_name pool.subscriber_name subscriber;
      gateway_device = ptr_string-equal existing.gateway_device pool.gateway_device device;
      service_status = ptr_string-equal existing.service_status pool.service_status status;
    }

pub one_pilot_id :
    (p q : ℕ) (r : Subnet) → has_pilot_id p r ≡ true → has_pilot_id q r ≡ true → p ≡ q
one_pilot_id p q r hp hq = same r.pilot_subnet_id hp hq
  where
    same :
        (o : Option ℕ)
        → (elim o as (λ _. Bool) [ none ↦ false | some id ↦ eqb id p ]) ≡ true
        → (elim o as (λ _. Bool) [ none ↦ false | some id ↦ eqb id q ]) ≡ true
        → p ≡ q
    same none a b = absurd (true≢false (sym a))
    same (some id) a b = ground (arith, a, b)
