-- ===== src/Agent/Shipper.antt =====
-- agent/internal/shipper/shipper.go: the buffer of results, its flushes, by the loop of `Run` and by
-- calls of `Flush`, one event at a time: what happens under a lock is one event, so that calls of
-- `Add` and `Flush` may come between any two steps of a flush, and a flush between the two steps of an
-- `Add`. The content of a result is not read, and `ship` is the answer of the control plane. The
-- counters do not reach 2 ^ 63.
use icmp_mon.Base.{
  Option, none, some, ℕ, zero, suc, ◌+◌, List, [], ◌∷◌, ◌++◌, Bool, true, false, if◌then◌else◌, leb,
  length,
}

-- Where `Run` is: in its select, at the start of `flush`, between the flush's two locks with the
-- batch that it has taken, or back with the context's error.
pub data Place {ℓ} (A : Type ℓ) : Type ℓ where
  selecting flushing returned : Place A
  shipping : List A → Place A

-- `signalled` is the channel `flushCh`, which holds one signal at most; `stopping` that the context
-- is done; `pending` the number of calls of `Add` that have found the buffer full and have not sent
-- their signal yet; `others` the batches that calls of `Flush` have taken and are shipping. `added` and
-- `taken` record the results that came in and those that flushes took.
pub record Shipper {ℓ} (A : Type ℓ) : Type ℓ where
  pub buffer : List A
  pub pending : ℕ
  pub signalled : Bool
  pub shipped : ℕ
  pub failed : ℕ
  pub place : Place A
  pub others : List (List A)
  pub stopping : Bool
  pub added : List A
  pub taken : List A

-- `NewShipper`, with `Run` started.
abbrev pub new_shipper {ℓ} : {A : Type ℓ} → Shipper A
new_shipper = record {
  buffer = [];
  pending = 0;
  signalled = false;
  shipped = 0;
  failed = 0;
  place = selecting;
  others = [];
  stopping = false;
  added = [];
  taken = [];
}

-- `NewShipper`'s default of the batch size.
abbrev pub batch_size_or_default : ℕ → ℕ
batch_size_or_default zero = 1000
batch_size_or_default (suc n) = suc n

-- `Add`, up to the unlock.
unfoldable pub add {ℓ} : {A : Type ℓ} → ℕ → List A → Shipper A → Shipper A
add batch_size results s = record s {
  buffer = s.buffer ++ results;
  pending = if leb batch_size (length (s.buffer ++ results)) then s.pending + 1 else s.pending;
  added = s.added ++ results;
}

-- The send of a call of `Add` that has found the buffer full; it does not wait, and the channel holds
-- a signal afterwards, its own or an earlier one.
unfoldable pub send_signal {ℓ} : {A : Type ℓ} → Shipper A → Shipper A
send_signal s = elim s.pending [ zero ↦ s | suc n ↦ record s { pending = n; signalled = true } ]

-- The first lock of `flush` in `Run`.
unfoldable pub take_buffer {ℓ} : {A : Type ℓ} → Shipper A → Shipper A
take_buffer s = elim s.buffer [
  | [] ↦ record s { place = if s.stopping then returned else selecting }
  | r ∷ rs ↦ record s { buffer = []; place = shipping (r ∷ rs); taken = s.taken ++ (r ∷ rs) }
]

-- The counters at the end of `flush`, with `ship`'s answer: a batch that is not accepted is dropped.
unfoldable pub settle {ℓ} : {A : Type ℓ} → Bool → List A → Shipper A → Shipper A
settle ok results s =
    if ok
    then record s { shipped = s.shipped + length results }
    else record s { failed = s.failed + length results }

abbrev pub resumed {ℓ} : {A : Type ℓ} → Shipper A → Shipper A
resumed s = record s { place = if s.stopping then returned else selecting }

-- A call of `Flush`, its first lock.
unfoldable pub flush {ℓ} : {A : Type ℓ} → Shipper A → Shipper A
flush s = elim s.buffer [
  | [] ↦ s
  | r ∷ rs ↦ record s { buffer = []; others = (r ∷ rs) ∷ s.others; taken = s.taken ++ (r ∷ rs) }
]

-- One of the batches, and the others.
abbrev pub pick {ℓ} : {A : Type ℓ} → ℕ → List A → Option (A × List A)
pick n [] = none
pick zero (x ∷ xs) = some (x, xs)
pick (suc n) (x ∷ xs) = elim (pick n xs) [ none ↦ none | some (y, ys) ↦ some (y, x ∷ ys) ]

-- The end of one of the calls of `Flush` in progress.
unfoldable pub flush_answered {ℓ} : {A : Type ℓ} → ℕ → Bool → Shipper A → Shipper A
unfolding settle
flush_answered index ok s = elim (pick index s.others) [
  | none ↦ s
  | some (results, rest) ↦ record (settle ok results s) { others = rest }
]

-- What happens next: a step of a call of `Add` or `Flush`, or of `Run`.
pub data Event {ℓ} (A : Type ℓ) : Type ℓ where
  adds : List A → Event A
  signals flushes : Event A
  flush_settles : ℕ → Bool → Event A
  ticked received_signal context_done takes : Event A
  answered : Bool → Event A

-- A step that `Run` cannot take where it is does not happen.
unfoldable pub on_select {ℓ} : {A : Type ℓ} → (Shipper A → Shipper A) → Shipper A → Shipper A
on_select f s = elim s.place [ selecting ↦ f s | _ ↦ s ]

unfoldable pub step {ℓ} : {A : Type ℓ} → ℕ → Event A → Shipper A → Shipper A
unfolding on_select settle
step batch_size (adds results) s = add batch_size results s
step batch_size signals s = send_signal s
step batch_size flushes s = flush s
step batch_size (flush_settles index ok) s = flush_answered index ok s
step batch_size ticked s = on_select (λ r. record r { place = flushing }) s
step batch_size received_signal s =
    if s.signalled then on_select (λ r. record r { place = flushing; signalled = false }) s else s
step batch_size context_done s = on_select (λ r. record r { place = flushing; stopping = true }) s
step batch_size takes s = elim s.place [ flushing ↦ take_buffer s | _ ↦ s ]
step batch_size (answered ok) s = elim s.place [
  | shipping results ↦ resumed (settle ok results s)
  | _ ↦ s
]

unfoldable pub run {ℓ} : {A : Type ℓ} → ℕ → List (Event A) → Shipper A → Shipper A
run batch_size [] s = s
run batch_size (e ∷ events) s = run batch_size events (step batch_size e s)
