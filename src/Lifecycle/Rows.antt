-- ===== src/Lifecycle/Rows.antt =====
-- The rows that the state worker's queries return, its loops over them, and the elections.
use icmp_mon.Base.{
  ap₂, ℕ, ◌≡◌, ◌≢◌, refl, sym, ap, ◌∙◌, subst, String, List, [], ◌∷◌, map, Bool, true, false,
  if◌then◌else◌, arith, All, In, Distinct, Bool-cases, inl, inr, branch, ◌==◌, keep, ◌&&◌, All-from,
  In-map,
}
use icmp_mon.Types.Target.{Target, MonitoringState, excluded, down, active, standby}
use icmp_mon.Lifecycle.{Db, update_target, transition_target_state, committed}
use icmp_mon.Lifecycle.Worker.{
  each, order_by, insert_row, elect_representative, transition_target_to_standby, in_subnet,
}
use icmp_mon.Lifecycle.Invariant.{Sound, Good, ids, Good-update, Ready-other, Good-transition}

active-down : active ≢ down
active-down = ground arith

standby-down : standby ≢ down
standby-down = ground arith

true-false : true ≢ false
true-false = ground arith

-- Every row that a query returns passes its test and is a row of the table.
abbrev pub Chosen : (Target → Bool) → List Target → Target → Type 0
Chosen p rows t = (p t ≡ true) × In t rows

All-insert_row :
    (P : Target → Type 0) (before : Target → Target → Bool) (t : Target) (rows : List Target)
    → P t
    → All P rows
    → All P (insert_row before t rows)
unfolding insert_row
All-insert_row P before t [] h hs = (h, tt)
All-insert_row P before t (r ∷ rows) h (k, ks) =
    let rest = All-insert_row P before t rows h ks in
    branch (All P) (before r t) (λ _. (k, rest)) (λ _. (h, (k, ks)))

pub All-order_by :
    (P : Target → Type 0) (before : Target → Target → Bool) (rows : List Target)
    → All P rows
    → All P (order_by before rows)
unfolding order_by
All-order_by P before [] h = h
All-order_by P before (t ∷ rows) (h, hs) =
    All-insert_row P before t (order_by before rows) h (All-order_by P before rows hs)

pub keep-Chosen :
    (p : Target → Bool) (all rows : List Target)
    → ((t : Target) → In t rows → In t all)
    → All (Chosen p all) (keep p rows)
keep-Chosen p all [] h = tt
keep-Chosen p all (r ∷ rows) h =
    let rest = keep-Chosen p all rows (λ t m. h t (inr m)) in
    branch (All (Chosen p all)) (p r) (λ e. ((e, h r (inl refl)), rest)) (λ _. rest)

-- With distinct ids, what holds of a row holds of every row of its id.
pub same-row :
    (P : Target → Type 0) (t : Target) (rows : List Target)
    → Distinct (ids rows)
    → In t rows
    → P t
    → All (λ r. r.id ≡ t.id → P r) rows
same-row P t [] d m h = tt
same-row P t (r ∷ rows) (fresh, ds) (inl e) h = (
  (λ _. subst P (sym e) h),
  All-from rows (λ r' m' i. absurd (
      fresh (
        subst (λ x. In x (ids rows)) (i ∙ sym (ap (λ (x : Target). x.id) e))
          (In-map (λ (x : Target). x.id) r' rows m')))),
)
same-row P t (r ∷ rows) (fresh, ds) (inr m) h = (
  (λ i.
      absurd
        (fresh (subst (λ x. In x (ids rows)) (sym i) (In-map (λ (x : Target). x.id) t rows m)))),
  same-row P t rows ds m h,
)

pub All-map :
    {P Q : Target → Type 0} (h : (t : Target) → P t → Q t) (rows : List Target)
    → All P rows
    → All Q rows
All-map h [] a = tt
All-map h (r ∷ rows) (a, rest) = (h r a, All-map h rows rest)

-- A loop keeps the tables good if each round does, where `Q t` holds of the tables as long as the
-- row `t` of the query is to come.
pub each-Good :
    {names : List String} (Q : Target → Db → Type 0) (f : Target → Db → Db) (ts : List Target)
    (db : Db)
    → ((t : Target) (d : Db) → Q t d → Good names d → Good names (f t d))
    → ((t u : Target) (d : Db) → Q u d → Q u (f t d))
    → All (λ t. Q t db) ts
    → Good names db
    → Good names (each f ts db)
each-Good Q f [] db k l q g = g
each-Good Q f (t ∷ ts) db k l (q, qs) g =
    each-Good Q f ts (f t db) k l (All-map (λ u. l t u db) ts qs) (k t db q g)

-- The loops to UNRESPONSIVE and to EXCLUDED.
pub transitions-Good :
    {names : List String} (now : ℕ) (s : MonitoringState) (reason : String) (ts : List Target)
    (db : Db)
    → s ≢ down
    → Good names db
    → Good names (
        each
          (λ t d. committed d (transition_target_state now t.id s reason "state_worker" d))
          ts
          db)
transitions-Good now s reason ts db ne =
    each-Good (λ _ _. Unit) _ ts db
      (λ t d _.
        Good-transition now t.id s reason "state_worker" d (Ready-other s t.id d.targets ne))
      (λ _ _ _ _. tt) (All-from ts (λ _ _. tt))

-- A test of rows fails on all rows of the id of `t`.
abbrev pub Fails : (Target → Bool) → Target → Db → Type 0
Fails test t d = All (λ r. r.id ≡ t.id → test r ≡ false) d.targets

-- A change of rows that keeps the ids and the test keeps that.
pub Fails-map :
    (test : Target → Bool) (t : Target) (f : Target → Target) (rows : List Target)
    → ((r : Target) → ((f r).id ≡ r.id) × (test (f r) ≡ test r))
    → All (λ r. r.id ≡ t.id → test r ≡ false) rows
    → All (λ r. r.id ≡ t.id → test r ≡ false) (map f rows)
Fails-map test t f [] k h = tt
Fails-map test t f (r ∷ rows) k (h, hs) =
    ((λ i. (k r).1 ∙ h (sym (k r).0 ∙ i)), Fails-map test t f rows k hs)

pub Fails-update :
    (test : Target → Bool) (t : Target) (id : String) (f : Target → Target) (d : Db)
    → ((r : Target) → ((f r).id ≡ r.id) × (test (f r) ≡ test r))
    → Fails test t d
    → Fails test t (record d { targets = update_target id f d.targets })
unfolding update_target
Fails-update test t id f d k h =
    Fails-map test t (λ r. if r.id == id then f r else r) d.targets
      (λ r.
        branch (λ (x : Target). (x.id ≡ r.id) × (test x ≡ test r)) (r.id == id) (λ _. k r)
          (λ _. (refl, refl)))
      h

abbrev pub waits : Target → Bool
waits r = r.needs_review

-- A change of the state of rows that do not wait for review, to a state other than DOWN.
restate-Good :
    {names : List String} (t : Target) (f : Target → Target) (db : Db)
    → ((r : Target)
        → ((f r).id ≡ r.id)
          × ((f r).needs_review ≡ r.needs_review)
          × ((f r).monitoring_state ≢ down))
    → Fails waits t db
    → Good names db
    → Good names (record db { targets = update_target t.id f db.targets })
restate-Good t f db k q g =
    Good-update {Q = λ r. r.id ≡ t.id → r.needs_review ≡ false} t.id f db db.history (λ r. (k r).0)
      (λ r i a s. record {
        down_baseline = λ e. absurd ((k r).2 e);
        review_excluded = λ e. absurd (true-false (sym e ∙ (k r).1 ∙ a i));
      })
      q g

abbrev pub elected : ℕ → Target → Target
elected now r = record r {
  is_representative = true;
  monitoring_state = active;
  state_changed_at = now;
}

abbrev pub cleared : String → Target → Target
cleared subnet r =
    if in_subnet subnet r && r.is_representative then record r { is_representative = false } else r

pub cleared-keeps :
    (subnet : String) (r : Target)
    → ((cleared subnet r).id ≡ r.id) × (waits (cleared subnet r) ≡ waits r)
cleared-keeps subnet r =
    branch (λ (x : Target). (x.id ≡ r.id) × (x.needs_review ≡ r.needs_review))
      (in_subnet subnet r && r.is_representative) (λ _. (refl, refl)) (λ _. (refl, refl))

ids-cleared : (subnet : String) (rows : List Target) → ids (map (cleared subnet) rows) ≡ ids rows
ids-cleared subnet [] = refl
ids-cleared subnet (r ∷ rows) =
    ap₂ (λ i is. i ∷ is) (cleared-keeps subnet r).0 (ids-cleared subnet rows)

All-cleared :
    (subnet : String) (rows : List Target) → All Sound rows → All Sound (map (cleared subnet) rows)
All-cleared subnet [] h = tt
All-cleared subnet (r ∷ rows) (h, hs) = (
  branch Sound (in_subnet subnet r && r.is_representative)
      (λ _. record { down_baseline = h.down_baseline; review_excluded = h.review_excluded })
      (λ _. h),
  All-cleared subnet rows hs,
)

cleared-Good :
    {names : List String} (subnet : String) (db : Db)
    → Good names db
    → Good names (record db { targets = map (cleared subnet) db.targets })
cleared-Good subnet db g = record {
  same = ids-cleared subnet db.targets ∙ g.same;
  unique = subst Distinct (sym (ids-cleared subnet db.targets)) g.unique;
  sound = All-cleared subnet db.targets g.sound;
}

pub elect-Good :
    {names : List String} (now : ℕ) (subnet : String) (t : Target) (db : Db)
    → Fails waits t db
    → Good names db
    → Good names (elect_representative now subnet t.id db)
unfolding elect_representative
elect-Good now subnet t db q g =
    restate-Good t (elected now) (record db { targets = map (cleared subnet) db.targets })
      (λ r. (refl, refl, active-down))
      (Fails-map waits t (cleared subnet) db.targets (cleared-keeps subnet) q)
      (cleared-Good subnet db g)

pub standby-Good :
    {names : List String} (now : ℕ) (t : Target) (db : Db)
    → Fails waits t db
    → Good names db
    → Good names (transition_target_to_standby now t.id db)
unfolding transition_target_to_standby
standby-Good now t db =
    restate-Good t (λ r. record r { monitoring_state = standby; state_changed_at = now }) db
      (λ r. (refl, refl, standby-down))

All-at : (P : Target → Type 0) (rows : List Target) (t : Target) → All P rows → In t rows → P t
All-at P [] t h m = absurd m
All-at P (r ∷ rows) t (h, hs) (inl e) = subst P e h
All-at P (r ∷ rows) t (h, hs) (inr m) = All-at P rows t hs m

-- A sound row that is not excluded does not wait for review, nor does any row of its id.
pub awake :
    {names : List String} (t : Target) (db : Db)
    → Good names db
    → In t db.targets
    → t.monitoring_state ≢ excluded
    → Fails waits t db
awake t db g m ne =
    same-row (λ r. waits r ≡ false) t db.targets g.unique m
      (elim (Bool-cases t.needs_review) [
        | inl e ↦ absurd (ne ((All-at Sound db.targets t g.sound m).review_excluded e))
        | inr e ↦ e
      ])

pub promote-Good :
    {names : List String} (now : ℕ) (t : Target) (db : Db)
    → In t db.targets
    → t.monitoring_state ≢ excluded
    → Good names db
    → Good names (record db { targets = update_target t.id (elected now) db.targets })
promote-Good now t db m ne g =
    restate-Good t (elected now) db (λ r. (refl, refl, active-down)) (awake t db g m ne) g
