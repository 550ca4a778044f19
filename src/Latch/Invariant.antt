-- ===== src/Latch/Invariant.antt =====
-- common/latch.h: the count and the generation against what the threads do.
use urn.Prelude.{
  ℕ, zero, suc, ◌+◌, ◌<◌, ◌≡◌, refl, ap, sym, ◌∙◌, ◌⊎◌, inl, inr, List, [], ◌∷◌, ◌++◌, map, ◌==◌,
  Bool-cases, arith,
}
use mathlib.Core.Path.{subst}
use urn.Latch.{
  int64_mod, Thread, outside, asleep, awake, inside, System, wake, decrement, arrive, test, Step,
  arrives, wakes, tests, all_outside, Reach, start, next,
}

-- How many threads have not called `wait`.
abbrev one_missing : Thread → ℕ
one_missing outside = 1
one_missing _ = 0

abbrev pub missing : List Thread → ℕ
missing [] = 0
missing (x ∷ rest) = one_missing x + missing rest

abbrev pub AllOf : (Thread → Type 0) → List Thread → Type 0
AllOf P [] = Unit {0}
AllOf P (x ∷ rest) = P x × AllOf P rest

-- While a thread is missing, no other is through.
abbrev pub IsWaiting : Thread → Type 0
IsWaiting outside = Unit {0}
IsWaiting (asleep gen) = gen ≡ 0
IsWaiting (awake gen) = gen ≡ 0
IsWaiting inside = ⊥

-- When none is missing, each thread is through or will find the predicate true.
abbrev pub IsReleased : Thread → Type 0
IsReleased outside = ⊥
IsReleased (asleep gen) = ⊥
IsReleased (awake gen) = gen ≡ 0
IsReleased inside = Unit {0}

pub record Closed (s : System) : Type 0 where
  pub counted : s.latch.count ≡ missing s.threads
  pub some_missing : 0 < missing s.threads
  pub small : s.latch.count < int64_mod
  pub first : s.latch.generation ≡ 0
  pub waiting : AllOf IsWaiting s.threads

pub record Opened (s : System) : Type 0 where
  pub second : s.latch.generation ≡ 1
  pub released : AllOf IsReleased s.threads

AllOf-middle :
    (P : Thread → Type 0) (x y : Thread) (left right : List Thread)
    → (P x → P y)
    → AllOf P (left ++ (x ∷ right))
    → AllOf P (left ++ (y ∷ right))
AllOf-middle P x y [] right f (h, hs) = (f h, hs)
AllOf-middle P x y (z ∷ left) right f (h, hs) = (h, AllOf-middle P x y left right f hs)

pub AllOf-at :
    (P : Thread → Type 0) (x : Thread) (left right : List Thread)
    → AllOf P (left ++ (x ∷ right))
    → P x
AllOf-at P x [] right (h, hs) = h
AllOf-at P x (z ∷ left) right (h, hs) = AllOf-at P x left right hs

missing-append : (xs ys : List Thread) → missing (xs ++ ys) ≡ missing xs + missing ys
missing-append [] ys = omega arith
missing-append (x ∷ xs) ys = omega (arith, missing-append xs ys)

none_missing :
    (xs : List Thread) → AllOf IsWaiting xs → missing xs ≡ 0 → AllOf IsReleased (map wake xs)
none_missing [] h e = tt
none_missing (outside ∷ xs) (h, hs) e = absurd (omega (arith, e))
none_missing (asleep gen ∷ xs) (h, hs) e = (h, none_missing xs hs (omega (arith, e)))
none_missing (awake gen ∷ xs) (h, hs) e = (h, none_missing xs hs (omega (arith, e)))
none_missing (inside ∷ xs) (h, hs) e = absurd h

AllOf-append :
    (P : Thread → Type 0) (xs ys : List Thread) → AllOf P xs → AllOf P ys → AllOf P (xs ++ ys)
AllOf-append P [] ys h g = g
AllOf-append P (x ∷ xs) ys (h, hs) g = (h, AllOf-append P xs ys hs g)

AllOf-split :
    (P : Thread → Type 0) (xs ys : List Thread) → AllOf P (xs ++ ys) → AllOf P xs × AllOf P ys
AllOf-split P [] ys h = (tt, h)
AllOf-split P (x ∷ xs) ys (h, hs) = let (l, r) = AllOf-split P xs ys hs in ((h, l), r)

-- The call of `wait` by one of several missing threads, or by the last one.
arrive-Inv :
    (left right : List Thread) (s : System)
    → s.threads ≡ left ++ (outside ∷ right)
    → Closed s
    → Closed (arrive s.latch left right) ⊎ Opened (arrive s.latch left right)
unfolding arrive
arrive-Inv left right s e c =
    let here : missing s.threads ≡ missing left + suc (missing right) =
      omega (arith, ap missing e, missing-append left (outside ∷ right)) in
    let others =
      AllOf-split IsWaiting left (outside ∷ right) (subst (AllOf IsWaiting) e c.waiting) in
    elim (Bool-cases (decrement s.latch.count == 0)) [
      | inl last ↦
          let few : missing left + missing right ≡ 0 = ground (arith, here, c.counted, c.small) in
          rw last (
            inr (record {
              second = rw c.first refl;
              released =
                  AllOf-append IsReleased (map wake left) (inside ∷ map wake right)
                    (none_missing left others.0 (omega (arith, few)))
                    (tt, none_missing right others.1.1 (omega (arith, few)));
            }))
      | inr more ↦
          let rest : missing (left ++ (asleep s.latch.generation ∷ right))
              ≡ missing left + missing right =
            omega (arith, missing-append left (asleep s.latch.generation ∷ right)) in
          rw more (
            inl (record {
              counted = ground (arith, here, c.counted, c.small, rest);
              some_missing = ground (arith, here, c.counted, c.small, rest);
              small = omega arith;
              first = c.first;
              waiting =
                  AllOf-append IsWaiting left (asleep s.latch.generation ∷ right) others.0
                    (c.first, others.1.1);
            }))
    ]

-- A thread moves between the two states of waiting.
waits-on :
    (left right : List Thread) (x y : Thread) (s : System)
    → s.threads ≡ left ++ (x ∷ right)
    → one_missing x ≡ 0
    → one_missing y ≡ 0
    → (IsWaiting x → IsWaiting y)
    → Closed s
    → Closed (record s { threads = left ++ (y ∷ right) })
waits-on left right x y s e no_x no_y f c =
    let same : missing (left ++ (y ∷ right)) ≡ missing s.threads = omega (
      arith,
      no_x,
      no_y,
      ap missing e,
      missing-append left (x ∷ right),
      missing-append left (y ∷ right),
    ) in
    record {
      counted = c.counted ∙ sym same;
      some_missing = omega (arith, c.some_missing, same);
      small = c.small;
      first = c.first;
      waiting = AllOf-middle IsWaiting x y left right f (subst (AllOf IsWaiting) e c.waiting);
    }

Step-Closed : (s s' : System) → Closed s → Step s s' → Closed s' ⊎ Opened s'
Step-Closed s s' c (arrives left right _ e) = arrive-Inv left right s e c
Step-Closed s s' c (wakes left right gen _ e) =
    inl (waits-on left right (asleep gen) (awake gen) s e refl refl (λ h. h) c)
Step-Closed s s' c (tests left right gen _ e) =
    let mine : gen ≡ 0 =
      AllOf-at IsWaiting (awake gen) left right (subst (AllOf IsWaiting) e c.waiting) in
    let again : test gen s.latch ≡ asleep gen = unfold test in rw (mine, c.first) refl in
    rw again (inl (waits-on left right (awake gen) (asleep gen) s e refl refl (λ h. h) c))

Step-Opened : (s s' : System) → Opened s → Step s s' → Opened s'
Step-Opened s s' o (arrives left right _ e) =
    absurd (AllOf-at IsReleased outside left right (subst (AllOf IsReleased) e o.released))
Step-Opened s s' o (wakes left right gen _ e) =
    absurd (AllOf-at IsReleased (asleep gen) left right (subst (AllOf IsReleased) e o.released))
Step-Opened s s' o (tests left right gen _ e) =
    let all = subst (AllOf IsReleased) e o.released in
    let mine : gen ≡ 0 = AllOf-at IsReleased (awake gen) left right all in
    let through : test gen s.latch ≡ inside = unfold test in rw (mine, o.second) refl in
    rw through (record {
      second = o.second;
      released = AllOf-middle IsReleased (awake gen) inside left right (λ _. tt) all;
    })

all_outside-missing : (n : ℕ) → (missing (all_outside n) ≡ n) × AllOf IsWaiting (all_outside n)
all_outside-missing zero = (refl, tt)
all_outside-missing (suc n) = let (m, w) = all_outside-missing n in (omega (arith, m), (tt, w))

pub Reach-Inv : (n : ℕ) (s : System) → 0 < n → n < int64_mod → Reach n s → Closed s ⊎ Opened s
Reach-Inv n _ some_threads small start =
    let (m, w) = all_outside-missing n in
    inl (record {
      counted = sym m;
      some_missing = omega (arith, some_threads, m);
      small = small;
      first = refl;
      waiting = w;
    })
Reach-Inv n _ some_threads small (next s s' r step) = elim (Reach-Inv n s some_threads small r) [
  | inl c ↦ Step-Closed s s' c step
  | inr o ↦ inr (Step-Opened s s' o step)
]
