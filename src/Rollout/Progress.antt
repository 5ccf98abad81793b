-- ===== src/Rollout/Progress.antt =====
-- `executeStagedWaves`: which agents are notified, in which order, and how often.
use icmp_mon.Base.{
  append_assoc, append-nil, le_trans, subst, leb→gt, leb→le, branch, ◌≢◌, ℕ, zero, suc, ◌+◌, ◌-◌,
  ◌*◌, ◌/◌, ◌≤◌, ◌<◌, max, ◌≡◌, refl, sym, ap, ◌∙◌, String, List, [], ◌∷◌, ◌++◌, map, Bool, true,
  false, not, arith, leb, ltb, length, take, drop, All, In, take-all, inl, inr, ◌&&◌,
}
use icmp_mon.Rollout.{AgentUpdateState, Rollout}
use icmp_mon.Rollout.Waves.{
  WaveError, advance, is_last, settle, Env, Staged, Round, return_with, continue_with, wave_round,
  Outcome, finished, unfinished, stopped, select_random_agents, notices, staged_from,
  execute_staged_waves, execute_staged,
}

abbrev pub names : List AgentUpdateState → List String
names agents = map (λ a. a.agent_id) agents

abbrev pub called : List (String × ℕ) → List String
called log = map (λ n. n.0) log

-- The largest share of the agents that the waves ask for, above `c`.
abbrev pub highest : ℕ → ℕ → List ℕ → ℕ
highest n c [] = c
highest n c (p ∷ ps) = highest n (max c (n * p / 100)) ps

pub select_random_agents-take :
    {A : Type 0} (xs : List A) (count : ℕ) → select_random_agents xs count ≡ take count xs
unfolding select_random_agents
select_random_agents-take xs count = ground (arith, take-all count xs)

take-nil {ℓ} : {A : Type ℓ} (n : ℕ) → take {A = A} n [] ≡ []
take-nil zero = refl
take-nil (suc n) = refl

pub take-add {ℓ} :
    {A : Type ℓ} (a b : ℕ) (xs : List A) → take a xs ++ take b (drop a xs) ≡ take (a + b) xs
take-add zero b xs = ap (λ k. take k xs) {x = b} {y = 0 + b} (omega arith)
take-add (suc a) zero [] = sym (take-nil (suc a + 0))
take-add (suc a) (suc b) [] = sym (take-nil (suc a + suc b))
take-add (suc a) b (x ∷ xs) =
    ap (λ r. x ∷ r) (take-add a b xs)
    ∙ ap (λ k. take k (x ∷ xs)) {x = suc (a + b)} {y = suc a + b} (omega arith)

called-append : (a b : List (String × ℕ)) → called (a ++ b) ≡ called a ++ called b
called-append [] b = refl
called-append (x ∷ a) b = ap (λ r. x.0 ∷ r) (called-append a b)

pub called-notices :
    (wave : ℕ) (agents : List AgentUpdateState) → called (notices wave agents) ≡ names agents
called-notices wave [] = refl
called-notices wave (a ∷ agents) = ap (λ r. a.agent_id ∷ r) (called-notices wave agents)

pub names-append : (a b : List AgentUpdateState) → names (a ++ b) ≡ names a ++ names b
names-append [] b = refl
names-append (x ∷ a) b = ap (λ r. x.agent_id ∷ r) (names-append a b)

length-called : (a : List (String × ℕ)) → length (called a) ≡ length a
length-called [] = refl
length-called (x ∷ a) = ap suc (length-called a)

length-names : (a : List AgentUpdateState) → length (names a) ≡ length a
length-names [] = refl
length-names (x ∷ a) = ap suc (length-names a)

-- Notifying the next wave extends the prefix of the agents that are notified after those of `base`.
send :
    (base : List String) (agents : List AgentUpdateState) (log : List (String × ℕ))
    (wave covered target : ℕ)
    → called log ≡ base ++ names (take covered agents)
    → covered ≤ target
    → called (log ++ notices wave (select_random_agents (drop covered agents) (target - covered)))
      ≡ base ++ names (take target agents)
send base agents log wave covered target h le =
    let count = target - covered in
    called-append log _
    ∙ ap (λ r. called log ++ r)
        (called-notices wave (select_random_agents (drop covered agents) count))
    ∙ ap (λ r. called log ++ names r) (select_random_agents-take (drop covered agents) count)
    ∙ ap (λ r. r ++ names (take count (drop covered agents))) h
    ∙ append_assoc base _ _
    ∙ ap (λ r. base ++ r)
        (sym (names-append (take covered agents) (take count (drop covered agents))))
    ∙ ap (λ r. base ++ names r) (take-add covered count agents)
    ∙ ap (λ k. base ++ names (take k agents)) {x = covered + (target - covered)} {y = target}
        (omega arith)

-- The notifications are those of `base` and then those of the first agents of the list, each once
-- and in order.
pub record Prefix (base : List String) (agents : List AgentUpdateState) (t : Staged) : Type 0 where
  pub sent : ℕ
  pub in_order : called t.notified ≡ base ++ names (take sent agents)
  pub within : sent ≤ length agents
  pub covered_sent : t.covered ≤ sent

share-le : (n p : ℕ) → p ≤ 100 → n * p / 100 ≤ n
share-le n p h = grind arith

pub stopped-finished : (e : WaveError) → stopped e ≢ finished
stopped-finished e = ground arith

pub unfinished-finished : unfinished ≢ finished
unfinished-finished = ground arith

pub kept :
    {base : List String} {agents : List AgentUpdateState} {t : Staged} {n : ℕ}
    → called t.notified ≡ base ++ names (take n agents)
    → n ≤ length agents
    → t.covered ≤ n
    → Prefix base agents t
kept {n = n} h le c = record { sent = n; in_order = h; within = le; covered_sent = c }

module _ (base : List String) (env : Env) (agents : List AgentUpdateState) (start : ℕ) where
  -- The state at the head of the loop.
  record Ready (s : Staged) : Type 0 where
    in_order : called s.notified ≡ base ++ names (take s.covered agents)
    within : s.covered ≤ length agents
    running : s.outcome ≡ finished

  -- What a round leaves.
  abbrev After : ℕ → Staged → Round → Type 0
  After p s (return_with t) = Prefix base agents t × (t.outcome ≢ finished)
  After p s (continue_with t) = Ready t × (t.covered ≡ max s.covered (length agents * p / 100))

  -- A wave that is notified, whatever comes of it.
  settle-After :
      (p : ℕ) (s : Staged) (halted : Bool) (r : Rollout) (log : List (String × ℕ)) (o : Outcome)
      → let target = length agents * p / 100 in
        target ≤ length agents
        → s.covered < target
        → s.outcome ≡ finished
        → called log ≡ base ++ names (take target agents)
        → After p s (
            settle halted
              (record s { notified = log })
              (record s { rollout = r; notified = log; covered = target })
              o)
  unfolding settle
  settle-After p s halted r log (stopped e) le lt run h =
      (kept h le (omega arith), stopped-finished e)
  settle-After p s halted r log unfinished le lt run h =
      (kept h le (omega arith), unfinished-finished)
  settle-After p s true r log finished le lt run h = (kept h le (omega arith), stopped-finished _)
  settle-After p s false r log finished le lt run h =
      (record { in_order = h; within = le; running = run }, omega arith)

  wave_round-After :
      (i p : ℕ) (waves : List ℕ) (s : Staged)
      → p ≤ 100
      → Ready s
      → After p s (wave_round env agents start i p waves s)
  unfolding wave_round
  wave_round-After i p waves s h r =
      let target = length agents * p / 100 in
      branch (After p s) (env.done_before i)
        (λ _. (kept r.in_order r.within (omega arith), stopped-finished _))
        (λ _.
          branch (After p s) (leb target s.covered)
            (λ small. (r, omega (arith, leb→le (length agents * p / 100) s.covered small)))
            (λ large.
              branch (After p s) (ltb (length agents) s.covered)
                (λ over. (kept r.in_order r.within (omega arith), stopped-finished _))
                (λ _.
                  settle-After p s (not (is_last waves) && env.done_after i)
                    (advance s.rollout (start + i + 1) target (length agents)) _ _
                    (share-le (length agents) p h) (leb→gt _ _ large) r.running
                    (send base agents s.notified (start + i + 1) s.covered target r.in_order
                      (omega (arith, leb→gt (length agents * p / 100) s.covered large))))))

  -- The whole loop.
  abbrev pub Result : ℕ → List ℕ → Staged → Type 0
  Result c waves t =
      Prefix base agents t
      × (t.outcome ≡ finished
          → called t.notified ≡ base ++ names (take (highest (length agents) c waves) agents))

  follow :
      (i p : ℕ) (waves : List ℕ) (s : Staged) (w : Round)
      → After p s w
      → ((t : Staged) → Ready t → Result t.covered waves (staged_from env agents start i waves t))
      → Result s.covered
          (p ∷ waves)
          (elim w [ return_with t ↦ t | continue_with t ↦ staged_from env agents start i waves t ])
  follow i p waves s (return_with t) (h, stop) rest = (h, λ done. absurd (stop done))
  follow i p waves s (continue_with t) (h, c) rest =
      subst (λ k. Result k waves (staged_from env agents start i waves t)) c (rest t h)

  staged_from-Result :
      (i : ℕ) (waves : List ℕ) (s : Staged)
      → All (λ p. p ≤ 100) waves
      → Ready s
      → Result s.covered waves (staged_from env agents start i waves s)
  unfolding staged_from
  staged_from-Result i [] s h r = (kept r.in_order r.within (omega arith), λ _. r.in_order)
  staged_from-Result i (p ∷ waves) s (h, hs) r =
      follow (i + 1) p waves s (wave_round env agents start i p waves s)
        (wave_round-After i p waves s h r) (λ t. staged_from-Result (i + 1) waves t hs)

-- `executeStagedWaves` after any notifications.
pub execute_staged_waves-Result :
    (env : Env) (rollout : Rollout) (agents : List AgentUpdateState) (start : ℕ)
    (log : List (String × ℕ))
    → All (λ p. p ≤ 100) rollout.config.waves
    → Result
        (called log)
        env
        agents
        start
        0
        rollout.config.waves
        (execute_staged_waves env rollout agents start log)
unfolding execute_staged_waves
execute_staged_waves-Result env rollout agents start log h =
    staged_from-Result (called log) env agents start 0 rollout.config.waves _ h
      (record { in_order = sym (append-nil (called log)); within = omega arith; running = refl })

-- Whatever the context, the agents' reports and their health do, a staged rollout whose
-- percentages are at most 100 notifies the first agents of the list, in the list's order and each
-- of them once.
pub execute_staged-Prefix :
    (env : Env) (rollout : Rollout) (agents : List AgentUpdateState)
    → All (λ p. p ≤ 100) rollout.config.waves
    → Prefix [] agents (execute_staged env rollout agents)
unfolding execute_staged
execute_staged-Prefix env rollout agents h =
    (execute_staged_waves-Result env rollout agents 0 [] h).0

highest-ge : (n c : ℕ) (waves : List ℕ) → c ≤ highest n c waves
highest-ge n c [] = omega arith
highest-ge n c (p ∷ ps) = omega (arith, highest-ge n (max c (n * p / 100)) ps)

share_all : (n p c : ℕ) → p ≡ 100 → n ≤ max c (n * p / 100)
share_all n p c h = grind arith

pub highest-all : (n c : ℕ) (waves : List ℕ) → In 100 waves → n ≤ highest n c waves
highest-all n c [] h = absurd h
highest-all n c (p ∷ ps) (inl h) =
    le_trans _ _ _ (share_all n p c h) (highest-ge n (max c (n * p / 100)) ps)
highest-all n c (p ∷ ps) (inr h) = highest-all n (max c (n * p / 100)) ps h
