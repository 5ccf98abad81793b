-- ===== src/Agent/Accounts.antt =====
-- The shipper accounts for every result that was added to it.
use icmp_mon.Base.{
  subst, Option, none, some, some-inj, Option-cases, ◌≢◌, branch, le→leb, if-true, ◌<◌, ℕ, zero,
  suc, ◌+◌, ◌≤◌, ◌≡◌, ◌⊎◌, inl, inr, refl, sym, ap, ◌∙◌, List, [], ◌∷◌, ◌++◌, Bool, true, false,
  if◌then◌else◌, leb, length, arith, append-nil, append_assoc, length-append,
}
use icmp_mon.Agent.Shipper.{
  Place, selecting, flushing, returned, shipping, Shipper, add, send_signal, take_buffer, settle,
  resumed, flush, pick, flush_answered, Event, adds, signals, flushes, flush_settles, ticked,
  received_signal, context_done, takes, answered, on_select, step, run,
}

-- The batch that is on its way.
abbrev pub on_the_way {ℓ} : {A : Type ℓ} → Place A → ℕ
on_the_way (shipping results) = length results
on_the_way _ = 0

-- The number of results in some batches.
abbrev pub total {ℓ} : {A : Type ℓ} → List (List A) → ℕ
total [] = 0
total (batch ∷ batches) = length batch + total batches

-- A place at which the next step looks at the buffer, or none will.
abbrev pub awake {ℓ} : {A : Type ℓ} → Place A → Bool
awake flushing = true
awake returned = true
awake _ = false

-- Every result that was added is in the buffer or was taken, in order; every result that was taken
-- is counted or on its way; and a full buffer has its signal, unless a flush is about to read it or
-- a call of `Add` about to send the signal.
pub record Accounted {ℓ} {A : Type ℓ} (batch_size : ℕ) (s : Shipper A) : Type ℓ where
  pub in_order : s.taken ++ s.buffer ≡ s.added
  pub counted : s.shipped + s.failed + on_the_way s.place + total s.others ≡ length s.taken
  pub signal :
      batch_size ≤ length s.buffer
      → (s.signalled ≡ true) ⊎ ((awake s.place ≡ true) ⊎ (0 < s.pending))

false-true : false ≢ true
false-true = ground arith

on_the_way-idle {ℓ} :
    (A : Type ℓ) (stopping : Bool)
    → on_the_way {A = A} (if stopping then returned else selecting) ≡ 0
on_the_way-idle A true = refl
on_the_way-idle A false = refl

module _ {A : Type 0} (batch_size : ℕ) where
  add-Accounted :
      (results : List A) (s : Shipper A)
      → Accounted batch_size s
      → Accounted batch_size (add batch_size results s)
  unfolding add
  add-Accounted results s a = record {
    in_order = sym (append_assoc s.taken s.buffer results) ∙ ap (λ x. x ++ results) a.in_order;
    counted = a.counted;
    signal = λ h. inr (
        inr (
          subst (λ n. 0 < n)
            (sym (
              if-true (s.pending + 1) s.pending (leb batch_size (length (s.buffer ++ results)))
                (le→leb _ _ h)))
            (omega arith)));
  }

  send_signal-Accounted :
      (s : Shipper A) (n : ℕ)
      → s.pending ≡ n
      → Accounted batch_size s
      → Accounted batch_size
          (elim n [ zero ↦ s | suc m ↦ record s { pending = m; signalled = true } ])
  send_signal-Accounted s zero e a = a
  send_signal-Accounted s (suc n) e a = record {
    in_order = a.in_order;
    counted = a.counted;
    signal = λ h. inl refl;
  }

  -- A step from one place only.
  on_select-Accounted :
      (t s : Shipper A) (place : Place A)
      → (place ≡ selecting → Accounted batch_size t)
      → Accounted batch_size s
      → Accounted batch_size (elim place [ selecting ↦ t | _ ↦ s ])
  on_select-Accounted t s selecting k a = k refl
  on_select-Accounted t s flushing k a = a
  on_select-Accounted t s returned k a = a
  on_select-Accounted t s (shipping results) k a = a

  on_flush-Accounted :
      (t s : Shipper A) (place : Place A)
      → (place ≡ flushing → Accounted batch_size t)
      → Accounted batch_size s
      → Accounted batch_size (elim place [ flushing ↦ t | _ ↦ s ])
  on_flush-Accounted t s selecting k a = a
  on_flush-Accounted t s flushing k a = k refl
  on_flush-Accounted t s returned k a = a
  on_flush-Accounted t s (shipping results) k a = a

  on_answer-Accounted :
      (ok : Bool) (s : Shipper A) (place : Place A)
      → ((results : List A)
          → place ≡ shipping results
          → Accounted batch_size (resumed (settle ok results s)))
      → Accounted batch_size s
      → Accounted batch_size
          (elim place [ shipping results ↦ resumed (settle ok results s) | _ ↦ s ])
  on_answer-Accounted ok s selecting k a = a
  on_answer-Accounted ok s flushing k a = a
  on_answer-Accounted ok s returned k a = a
  on_answer-Accounted ok s (shipping results) k a = k results refl

  -- A flush begins.
  flushing-Accounted :
      (s : Shipper A) (signalled stopping : Bool)
      → s.place ≡ selecting
      → Accounted batch_size s
      → Accounted batch_size
          (record s { place = flushing; signalled = signalled; stopping = stopping })
  flushing-Accounted s signalled stopping e a = record {
    in_order = a.in_order;
    counted = omega (arith, a.counted, ap on_the_way e);
    signal = λ _. inr (inl refl);
  }

  take-Accounted :
      (s : Shipper A) (buffer : List A)
      → 0 < batch_size
      → s.buffer ≡ buffer
      → s.place ≡ flushing
      → Accounted batch_size s
      → Accounted batch_size (elim buffer [
        | [] ↦ record s { place = if s.stopping then returned else selecting }
        | r ∷ rs ↦ record s { buffer = []; place = shipping (r ∷ rs); taken = s.taken ++ (r ∷ rs) }
      ])
  take-Accounted s [] p b e a = record {
    in_order = a.in_order;
    counted = omega (arith, a.counted, ap on_the_way e, on_the_way-idle A s.stopping);
    signal = λ h. absurd (omega (arith, h, p, ap length b));
  }
  take-Accounted s (r ∷ rs) p b e a = record {
    in_order = append-nil (s.taken ++ (r ∷ rs)) ∙ ap (λ x. s.taken ++ x) (sym b) ∙ a.in_order;
    counted = omega (arith, a.counted, ap on_the_way e, length-append s.taken (r ∷ rs));
    signal = λ h. absurd (omega (arith, h, p));
  }

  -- While a batch is on its way, a full buffer has its signal, sent or to be sent.
  still :
      (results : List A) (s : Shipper A)
      → s.place ≡ shipping results
      → Accounted batch_size s
      → batch_size ≤ length s.buffer
      → (s.signalled ≡ true) ⊎ (0 < s.pending)
  still results s e a h = elim (a.signal h) [
    | inl w ↦ inl w
    | inr (inl w) ↦ absurd (false-true (sym (ap awake e) ∙ w))
    | inr (inr w) ↦ inr w
  ]

  settle-Accounted :
      (ok : Bool) (results : List A) (s : Shipper A)
      → s.place ≡ shipping results
      → Accounted batch_size s
      → Accounted batch_size (resumed (settle ok results s))
  unfolding settle
  settle-Accounted ok results s e a =
      elim ok as (λ b. Accounted batch_size (resumed (settle b results s))) [
        | true ↦ record {
          in_order = a.in_order;
          counted = omega (arith, a.counted, ap on_the_way e, on_the_way-idle A s.stopping);
          signal = λ h. later (still results s e a h);
        }
        | false ↦ record {
          in_order = a.in_order;
          counted = omega (arith, a.counted, ap on_the_way e, on_the_way-idle A s.stopping);
          signal = λ h. later (still results s e a h);
        }
      ]
    where
      later : {P Q R : Type 0} → P ⊎ R → P ⊎ (Q ⊎ R)
      later (inl p) = inl p
      later (inr r) = inr (inr r)

  flush-Accounted :
      (s : Shipper A) (buffer : List A)
      → 0 < batch_size
      → s.buffer ≡ buffer
      → Accounted batch_size s
      → Accounted batch_size (elim buffer [
        | [] ↦ s
        | r ∷ rs ↦ record s {
          buffer = [];
          others = (r ∷ rs) ∷ s.others;
          taken = s.taken ++ (r ∷ rs);
        }
      ])
  flush-Accounted s [] p b a = a
  flush-Accounted s (r ∷ rs) p b a = record {
    in_order = append-nil (s.taken ++ (r ∷ rs)) ∙ ap (λ x. s.taken ++ x) (sym b) ∙ a.in_order;
    counted = omega (arith, a.counted, length-append s.taken (r ∷ rs));
    signal = λ h. absurd (omega (arith, h, p));
  }

  pick-total :
      (index : ℕ) (batches : List (List A)) (batch : List A) (rest : List (List A))
      → pick index batches ≡ some (batch, rest)
      → length batch + total rest ≡ total batches
  pick-total index [] batch rest h = cc
  pick-total zero (x ∷ xs) batch rest h =
      sym (ap (λ (p : List A × List (List A)). length p.0 + total p.1) (some-inj h))
  pick-total (suc n) (x ∷ xs) batch rest h = elim (Option-cases (pick n xs)) [
    | inl e ↦ absurd cc
    | inr ((y, ys), e) ↦
        let q = some-inj (sym (ap (put x) e) ∙ h) in
        omega (arith, pick-total n xs y ys e, ap (λ p. length p.0) q, ap (λ p. total p.1) q)
  ]
    where
      put : List A → Option (List A × List (List A)) → Option (List A × List (List A))
      put x o = elim o [ none ↦ none | some (y, ys) ↦ some (y, x ∷ ys) ]

  flush_answered-Accounted :
      (ok : Bool) (index : ℕ) (s : Shipper A) (o : Option (List A × List (List A)))
      → pick index s.others ≡ o
      → Accounted batch_size s
      → Accounted batch_size (elim o [
        | none ↦ s
        | some (results, rest) ↦ record (settle ok results s) { others = rest }
      ])
  unfolding settle
  flush_answered-Accounted ok index s none e a = a
  flush_answered-Accounted true index s (some (results, rest)) e a = record {
    in_order = a.in_order;
    counted = omega (arith, a.counted, pick-total index s.others results rest e);
    signal = a.signal;
  }
  flush_answered-Accounted false index s (some (results, rest)) e a = record {
    in_order = a.in_order;
    counted = omega (arith, a.counted, pick-total index s.others results rest e);
    signal = a.signal;
  }

  step-Accounted :
      (e : Event A) (s : Shipper A)
      → 0 < batch_size
      → Accounted batch_size s
      → Accounted batch_size (step batch_size e s)
  unfolding step on_select take_buffer send_signal flush flush_answered settle
  step-Accounted (adds results) s p a = add-Accounted results s a
  step-Accounted signals s p a = send_signal-Accounted s s.pending refl a
  step-Accounted flushes s p a = flush-Accounted s s.buffer p refl a
  step-Accounted (flush_settles index ok) s p a =
      flush_answered-Accounted ok index s (pick index s.others) refl a
  step-Accounted ticked s p a =
      on_select-Accounted _ s s.place (λ e. flushing-Accounted s s.signalled s.stopping e a) a
  step-Accounted received_signal s p a =
      branch (Accounted batch_size) s.signalled
        (λ _. on_select-Accounted _ s s.place (λ e. flushing-Accounted s false s.stopping e a) a)
        (λ _. a)
  step-Accounted context_done s p a =
      on_select-Accounted _ s s.place (λ e. flushing-Accounted s s.signalled true e a) a
  step-Accounted takes s p a =
      on_flush-Accounted _ s s.place (λ e. take-Accounted s s.buffer p refl e a) a
  step-Accounted (answered ok) s p a =
      on_answer-Accounted ok s s.place (λ results e. settle-Accounted ok results s e a) a

-- Whatever the order of additions, signals, ticks, answers, calls of `Flush` and the shutdown, the
-- shipper loses no result unaccounted: those added are the ones taken, in order, and then those in the
-- buffer, and the counters of shipped and failed results with the batches on their way sum up to those
-- taken, where the failed ones are dropped. A buffer that has reached the batch size, which is not 0,
-- has its signal in the channel, unless a call of `Add` is about to send one, a flush is about to read
-- the buffer, or the loop has returned.
pub run-Accounted :
    {A : Type 0} (batch_size : ℕ) (events : List (Event A)) (s : Shipper A)
    → 0 < batch_size
    → Accounted batch_size s
    → Accounted batch_size (run batch_size events s)
unfolding run
run-Accounted batch_size [] s p a = a
run-Accounted batch_size (e ∷ events) s p a =
    run-Accounted batch_size events _ p (step-Accounted batch_size e s p a)
