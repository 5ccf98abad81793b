-- ===== src/Base/Unique.antt =====
-- Lists without repetition, and how often a listed key is found among distinct keys.
use Prim.Native.Nat.{ℕ, zero, suc, ◌+◌}
use Prim.Native.String.{String}
use mathlib.Core.Path.{◌≡◌, refl, ap, sym, subst, ◌∙◌}
use mathlib.Core.Logic.{◌⊎◌, inl, inr, ◌≢◌}
use mathlib.Core.Bool.{Bool, true, false}
use mathlib.Core.List.{List, [], ◌∷◌, ◌++◌, map}
use native.Mathlib.Omega.{arith}
use icmp_mon.Base.Tests.{if◌then◌else◌, true≢false, branch, Bool-cases, if-true, if-false}
use icmp_mon.Base.Lists.{length, take, drop, keep, count_where, All, In, Distinct}
use icmp_mon.Base.Text.{◌==◌, ==_iff, contains, contains-false}

module _ {A : Type 0} where
  pub In-append_left : (a : A) (xs ys : List A) → In a xs → In a (xs ++ ys)
  In-append_left a [] ys h = absurd h
  In-append_left a (x ∷ xs) ys (inl e) = inl e
  In-append_left a (x ∷ xs) ys (inr m) = inr (In-append_left a xs ys m)

  pub In-append_right : (a : A) (xs ys : List A) → In a ys → In a (xs ++ ys)
  In-append_right a [] ys h = h
  In-append_right a (x ∷ xs) ys h = inr (In-append_right a xs ys h)

  pub In-append : (a : A) (xs ys : List A) → In a (xs ++ ys) → In a xs ⊎ In a ys
  In-append a [] ys h = inr h
  In-append a (x ∷ xs) ys (inl e) = inl (inl e)
  In-append a (x ∷ xs) ys (inr m) = elim (In-append a xs ys m) [
    | inl h ↦ inl (inr h)
    | inr h ↦ inr h
  ]

  pub In-take : (a : A) (n : ℕ) (xs : List A) → In a (take n xs) → In a xs
  In-take a zero xs h = absurd h
  In-take a (suc n) [] h = absurd h
  In-take a (suc n) (x ∷ xs) (inl e) = inl e
  In-take a (suc n) (x ∷ xs) (inr m) = inr (In-take a n xs m)

  pub Distinct-take : (n : ℕ) (xs : List A) → Distinct xs → Distinct (take n xs)
  Distinct-take zero xs d = tt
  Distinct-take (suc n) [] d = tt
  Distinct-take (suc n) (x ∷ xs) d = (λ m. d.0 (In-take x n xs m), Distinct-take n xs d.1)

  -- Both parts are distinct and share nothing.
  pub Distinct-parts :
      (xs ys : List A)
      → Distinct (xs ++ ys)
      → Distinct xs × Distinct ys × ((a : A) → In a xs → ¬ In a ys)
  Distinct-parts [] ys d = (tt, d, λ a m k. m)
  Distinct-parts (x ∷ xs) ys d =
      let (dx, dy, apart) = Distinct-parts xs ys d.1 in
      ((λ m. d.0 (In-append_left x xs ys m), dx), dy, shares apart)
    where
      shares : ((a : A) → In a xs → ¬ In a ys) → (a : A) → In a (x ∷ xs) → ¬ In a ys
      shares apart a (inl e) k = d.0 (In-append_right x xs ys (rw e k))
      shares apart a (inr m) k = apart a m k

  pub Distinct-append :
      (xs ys : List A)
      → Distinct xs
      → Distinct ys
      → ((a : A) → In a xs → ¬ In a ys)
      → Distinct (xs ++ ys)
  Distinct-append [] ys dx dy apart = dy
  Distinct-append (x ∷ xs) ys dx dy apart = (
    λ m. elim (In-append x xs ys m) [ inl h ↦ dx.0 h | inr h ↦ apart x (inl refl) h ],
    Distinct-append xs ys dx.1 dy (λ a m. apart a (inr m)),
  )

  pub Distinct-swap : (xs ys : List A) → Distinct (xs ++ ys) → Distinct (ys ++ xs)
  Distinct-swap xs ys d =
      let (dx, dy, apart) = Distinct-parts xs ys d in
      Distinct-append ys xs dy dx (λ a m k. apart a k m)

module _ {A B : Type 0} (f : A → B) where
  pub map-take : (n : ℕ) (xs : List A) → map f (take n xs) ≡ take n (map f xs)
  map-take zero xs = refl
  map-take (suc n) [] = refl
  map-take (suc n) (x ∷ xs) = ap (λ r. f x ∷ r) (map-take n xs)

  pub map-drop : (n : ℕ) (xs : List A) → map f (drop n xs) ≡ drop n (map f xs)
  map-drop zero xs = refl
  map-drop (suc n) [] = refl
  map-drop (suc n) (x ∷ xs) = map-drop n xs

  pub In-map-keep :
      (p : A → Bool) (b : B) (xs : List A) → In b (map f (keep p xs)) → In b (map f xs)
  In-map-keep p b [] m = m
  In-map-keep p b (x ∷ xs) m = ground (arith, In-map-keep p b xs)

  pub Distinct-map-keep :
      (p : A → Bool) (xs : List A) → Distinct (map f xs) → Distinct (map f (keep p xs))
  Distinct-map-keep p [] d = tt
  Distinct-map-keep p (x ∷ xs) d =
      ground (arith, Distinct-map-keep p xs d.1, In-map-keep p (f x) xs)

module _ {ℓ} {A : Type ℓ} where
  pub count_where-cong :
      (p q : A → Bool) (xs : List A) → ((a : A) → p a ≡ q a) → count_where p xs ≡ count_where q xs
  count_where-cong p q [] h = refl
  count_where-cong p q (x ∷ xs) h = ground (arith, h x, count_where-cong p q xs h)

-- A key that is listed among distinct keys is found once, and one that is not, never.
count_where-absent :
    (s : String) (ids : List String) → ¬ In s ids → count_where (λ x. s == x) ids ≡ 0
count_where-absent s [] h = refl
count_where-absent s (x ∷ ids) h =
    ground (arith, ==_iff s x, count_where-absent s ids (λ m. h (inr m)), λ (e : x ≡ s). h (inl e))

count_where-once :
    (s : String) (ids : List String) → Distinct ids → In s ids → count_where (λ x. s == x) ids ≡ 1
count_where-once s [] d m = absurd m
count_where-once s (x ∷ ids) d (inl e) =
    ground (arith, ==_iff s x, sym e, count_where-absent s ids (λ m. d.0 (rw e m)))
count_where-once s (x ∷ ids) d (inr m) =
    let ne : s ≢ x = λ q. d.0 (subst (λ z. In z ids) q m) in
    ground (arith, ==_iff s x, count_where-once s ids d.1 m)

-- Tests of which no entry passes both.
count_where-or :
    (p q : String → Bool) (ids : List String)
    → ((x : String) → p x ≡ true → q x ≡ false)
    → count_where (λ x. if p x then true else q x) ids ≡ count_where p ids + count_where q ids
count_where-or p q [] h = omega arith
count_where-or p q (x ∷ ids) h = ground (arith, h x, count_where-or p q ids h)

-- As many of the distinct keys `ids` are in `sel` as `sel` has entries.
pub count_where-contains :
    (sel ids : List String)
    → Distinct ids
    → Distinct sel
    → All (λ s. In s ids) sel
    → count_where (λ x. contains sel x) ids ≡ length sel
count_where-contains [] [] d ds h = refl
count_where-contains [] (x ∷ ids) d ds h = count_where-contains [] ids d.1 ds tt
count_where-contains (s ∷ sel) ids d ds h =
    count_where-or (λ x. s == x) (contains sel) ids
      (λ x e. contains-false sel x (λ m. ds.0 (rw ((==_iff s x).0 e) m)))
    ∙ omega (arith, count_where-once s ids d h.0, count_where-contains sel ids d ds.1 h.1)

keep-All {ℓ} : {A : Type ℓ} (p : A → Bool) (ys : List A) → All (λ a. p a ≡ true) ys → keep p ys ≡ ys
keep-All p [] h = refl
keep-All p (y ∷ ys) (h, hs) =
    ap (λ b. if b then y ∷ keep p ys else keep p ys) h ∙ ap (λ r. y ∷ r) (keep-All p ys hs)

-- A test that fails on all of `xs` and holds on all of `ys` leaves `ys`.
pub keep-append {ℓ} :
    {A : Type ℓ} (p : A → Bool) (xs ys : List A)
    → All (λ a. p a ≡ false) xs
    → All (λ a. p a ≡ true) ys
    → keep p (xs ++ ys) ≡ ys
keep-append p [] ys h k = keep-All p ys k
keep-append p (x ∷ xs) ys (h, hs) k =
    ap (λ b. if b then x ∷ keep p (xs ++ ys) else keep p (xs ++ ys)) h ∙ keep-append p xs ys hs k

pub All-from {ℓ} :
    {A : Type 0} {P : A → Type ℓ} (xs : List A) → ((a : A) → In a xs → P a) → All P xs
All-from [] h = tt
All-from (x ∷ xs) h = (h x (inl refl), All-from xs (λ a m. h a (inr m)))

pub In-map : {A B : Type 0} (f : A → B) (a : A) (xs : List A) → In a xs → In (f a) (map f xs)
In-map f a [] h = h
In-map f a (x ∷ xs) (inl e) = inl (ap f e)
In-map f a (x ∷ xs) (inr m) = inr (In-map f a xs m)

pub append-take-drop {ℓ} : {A : Type ℓ} (n : ℕ) (xs : List A) → take n xs ++ drop n xs ≡ xs
append-take-drop zero xs = refl
append-take-drop (suc n) [] = refl
append-take-drop (suc n) (x ∷ xs) = ap (λ r. x ∷ r) (append-take-drop n xs)

-- With distinct keys an entry is determined by its key.
pub Distinct-map_unique :
    {A B : Type 0} (f : A → B) (xs : List A) (x y : A)
    → Distinct (map f xs)
    → In x xs
    → In y xs
    → f x ≡ f y
    → x ≡ y
Distinct-map_unique f [] x y d m n e = absurd m
Distinct-map_unique f (z ∷ xs) x y d (inl p) (inl q) e = sym p ∙ q
Distinct-map_unique f (z ∷ xs) x y d (inl p) (inr n) e =
    absurd (d.0 (subst (λ i. In i (map f xs)) (sym (ap f p ∙ e)) (In-map f y xs n)))
Distinct-map_unique f (z ∷ xs) x y d (inr m) (inl q) e =
    absurd (d.0 (subst (λ i. In i (map f xs)) (e ∙ sym (ap f q)) (In-map f x xs m)))
Distinct-map_unique f (z ∷ xs) x y d (inr m) (inr n) e = Distinct-map_unique f xs x y d.1 m n e

-- What is kept passes the test, and what passes it is kept.
pub In-keep :
    {A : Type 0} (p : A → Bool) (a : A) (rows : List A)
    → In a (keep p rows)
    → In a rows × (p a ≡ true)
In-keep p a [] m = absurd m
In-keep p a (r ∷ rows) m = elim (Bool-cases (p r)) [
  | inl e ↦ elim (subst (In a) (if-true (r ∷ keep p rows) (keep p rows) (p r) e) m) [
    | inl q ↦ (inl q, ap p (sym q) ∙ e)
    | inr n ↦ let (n', e') = In-keep p a rows n in (inr n', e')
  ]
  | inr e ↦
      let (n', e') =
        In-keep p a rows (subst (In a) (if-false (r ∷ keep p rows) (keep p rows) (p r) e) m) in
      (inr n', e')
]

pub In-keep_back :
    {A : Type 0} (p : A → Bool) (a : A) (rows : List A)
    → In a rows
    → p a ≡ true
    → In a (keep p rows)
In-keep_back p a [] m h = m
In-keep_back p a (r ∷ rows) (inl e) h =
    branch (In a) (p r) (λ _. inl e) (λ q. absurd (true≢false (sym h ∙ ap p (sym e) ∙ q)))
In-keep_back p a (r ∷ rows) (inr m) h =
    branch (In a) (p r) (λ _. inr (In-keep_back p a rows m h)) (λ _. In-keep_back p a rows m h)
