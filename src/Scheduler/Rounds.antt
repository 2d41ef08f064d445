-- ===== src/Scheduler/Rounds.antt =====
-- Round robin over many calls: how long a waiting principal waits, and what restoring a popped
-- item does to the turns.
use deadpool.Base.{
  ℕ, suc, ◌+◌, ◌≤◌, String, ◌≡◌, ◌≢◌, refl, Bool, true, List, [], ◌∷◌, ◌++◌, arith, ite,
  if◌then◌else◌, ℕ_discrete, if_pos, if_neg, ◌∙◌,
}
use native.Mathlib.Nat.{add-zero}
use deadpool.Result.{ok, err}
use deadpool.Dict.{Key, text_key, text_eq, nat_key}
use deadpool.Collections.{is_empty, count}
use deadpool.Collections.Laws.{count-append}
use deadpool.Scheduler.{FairScheduler, put_at, put_front, remove_item, new, pop}
use deadpool.Scheduler.Views.{stream, turns}
use deadpool.Scheduler.Order.{Serves, put_at_views, pop-Serves}
use deadpool.Scheduler.Invariant.{IsValid, new-IsValid, put_at-IsValid, pop_empty}
use deadpool.Scheduler.Removal.{remove_item-IsValid}

-- How many principals are served before `j`.
unfoldable pub ahead : String → List String → ℕ
ahead j [] = 0
ahead j (k ∷ ks) = let rest = ahead j ks in ite (text_eq k j) 0 (suc rest)

ahead-append :
    (j k : String) (ks : List String) → count j ks ≢ 0 → ahead j (ks ++ k ∷ []) ≡ ahead j ks
unfolding ahead count
ahead-append j k [] h = absurd (h refl)
ahead-append j k (i ∷ ks) h = ground (arith, ahead-append j k ks)

ahead-cons :
    (j k : String) (ks : List String)
    → k ≢ j
    → (ahead j (k ∷ ks) ≡ suc (ahead j ks)) × (count j (k ∷ ks) ≡ count j ks)
unfolding ahead count
ahead-cons j k ks h = ground arith

-- The first of a round is served, and leaves or goes to the end.
ahead_served :
    (j k : String) (ks l m : List String) (last : Bool)
    → k ≢ j
    → l ≡ k ∷ ks
    → m ≡ (if last then ks else ks ++ k ∷ [])
    → count j l ≢ 0
    → (ahead j m + 1 ≡ ahead j l) × (count j m ≢ 0)
unfolding count
ahead_served j k ks l m last ne el em w =
    ground (arith, ahead-cons j k ks ne, ahead-append j k ks, count-append j ks (k ∷ []))

-- A principal in line.
abbrev pub Waits : {T : Type 0} → FairScheduler T → ℕ → String → Type 0
Waits s p j = count j (turns s p) ≢ 0

module _ {T : Type 0} where
  pub put_at-ahead :
      (item : T) (q : ℕ) (k : String) (front : Bool) (s : FairScheduler T) (p : ℕ) (j : String)
      → Waits s p j
      → (ahead j (turns (put_at item q k front s) p) ≡ ahead j (turns s p))
        × Waits (put_at item q k front s) p j
  unfolding count
  put_at-ahead item q k front s p j w =
      rw (put_at_views item q k front s p j).1
        (ground (arith, ahead-append j k (turns s p), count-append j (turns s p) (k ∷ [])))

  -- A pop that serves another principal of the priority brings `j` one turn nearer; one of another
  -- priority leaves its place alone.
  pub Serves-ahead :
      (s t : FairScheduler T) (item : T) (r : Serves s item t) (p : ℕ) (j : String)
      → Waits s p j
      → (r.priority ≡ p → r.principal ≢ j)
      → (ahead j (turns t p) + ite (ℕ_discrete r.priority p) 1 0 ≡ ahead j (turns s p))
        × Waits t p j
  Serves-ahead s t item r p j w other = elim (ℕ_discrete r.priority p) [
    | yes e ↦ rw (if_pos (ℕ_discrete r.priority p) e) (
        ahead_served j r.principal r.waiting (turns s p) (turns t p) (is_empty r.queue) (other e)
          (rw (← e) r.first_turn) (r.turns_eq p ∙ if_pos (ℕ_discrete r.priority p) e _ _) w)
    | no ne ↦
        rw (r.turns_eq p ∙ if_neg (ℕ_discrete r.priority p) ne _ _)
          (rw (if_neg (ℕ_discrete r.priority p) ne) (add-zero _, w))
  ]

-- What can happen while `j` waits at priority `p`; the number counts the pops that served others
-- at that priority.
pub data Wait {T : Type 0} (p : ℕ) (j : String) (s : FairScheduler T)
    : ℕ → FairScheduler T → Type 0 where
  here : Wait p j s 0 s
  puts :
      {n : ℕ} {t : FairScheduler T}
      → Wait p j s n t
      → (item : T) (q : ℕ) (k : String) (front : Bool) → Wait p j s n (put_at item q k front t)
  serves :
      {n m : ℕ} {t u : FairScheduler T}
      → Wait p j s n t
      → (item : T) (r : Serves t item u) → (r.priority ≡ p → r.principal ≢ j)
      → m ≡ n + ite (ℕ_discrete r.priority p) 1 0
      → Wait p j s m u

module _ {T : Type 0} where
  Wait-ahead :
      (p : ℕ) (j : String) {s : FairScheduler T} {n : ℕ} {t : FairScheduler T}
      → Wait p j s n t
      → Waits s p j
      → (ahead j (turns t p) + n ≡ ahead j (turns s p)) × Waits t p j
  Wait-ahead p j here w = (add-zero _, w)
  Wait-ahead p j (puts {t = t} h item q k front) w =
      let (e, w') = Wait-ahead p j h w in
      let (e', w'') = put_at-ahead item q k front t p j w' in (omega arith, w'')
  Wait-ahead p j (serves {t = t} {u = u} h item r other m) w =
      let (e, w') = Wait-ahead p j h w in
      let (e', w'') = Serves-ahead t u item r p j w' other in (omega arith, w'')

  -- No starvation within a priority: whatever is put meanwhile, at most as many pops of a
  -- principal's priority pass it by as principals stood before it.
  pub Wait-le-ahead :
      (p : ℕ) (j : String) {s : FairScheduler T} {n : ℕ} {t : FairScheduler T}
      → Waits s p j
      → Wait p j s n t
      → n ≤ ahead j (turns s p)
  Wait-le-ahead p j w h = omega (arith, (Wait-ahead p j h w).0)

  -- Restoring what `pop` returned by `put_front` brings every stream and the size back, and leaves
  -- the principal at the end of the round of its priority, behind all that waited with it.
  pub put_front-pop :
      (s t : FairScheduler T) (item : T) (r : Serves s item t)
      → let u = put_front item r.priority r.principal t in
        ((q : ℕ) (j : String) → stream u q j ≡ stream s q j)
        × (turns u r.priority ≡ r.waiting ++ r.principal ∷ [])
        × ((q : ℕ) → q ≢ r.priority → turns u q ≡ turns s q)
        × (u.size ≡ s.size)
  unfolding put_front
  put_front-pop s t item r = (
    λ q j. ground (
      arith,
      (put_at_views item r.priority r.principal true t q j).0,
      r.streams_eq q j,
      r.streams_eq r.priority r.principal,
      r.first_item,
    ),
    ground (
      arith,
      (put_at_views item r.priority r.principal true t r.priority r.principal).1,
      r.streams_eq r.priority r.principal,
      r.turns_eq r.priority,
    ),
    λ q ne.
        ground
          (arith, (put_at_views item r.priority r.principal true t q r.principal).1, r.turns_eq q),
    omega (
      arith,
      r.size_eq,
      (put_at_views item r.priority r.principal true t r.priority r.principal).2,
    ),
  )

-- The calls of the broker on its scheduler.
pub data Op (T : Type 0) : Type 0 where
  puts_item : T → ℕ → String → Bool → Op T
  pops : Op T
  removes : T → Op T

module _ {T : Type 0} ⦃e : Key T⦄ where
  -- A call that raises leaves the scheduler as it was.
  unfoldable pub step : FairScheduler T → Op T → FairScheduler T
  step s (puts_item item p k front) = put_at item p k front s
  step s pops = elim (pop s) [ ok (item, t) ↦ t | err _ ↦ s ]
  step s (removes item) = (remove_item item s).1

  unfoldable pub run : FairScheduler T → List (Op T) → FairScheduler T
  unfolding step
  run s [] = s
  run s (o ∷ os) = run (step s o) os

  step-IsValid : (s : FairScheduler T) (o : Op T) → IsValid s → IsValid (step s o)
  unfolding step
  step-IsValid s (puts_item item p k front) v = put_at-IsValid item p k front s v
  step-IsValid s pops v = elim (ℕ_discrete s.size 0) [
    | yes z ↦ rw (pop_empty s z, step) v
    | no pos ↦ let (item, t, h, _, v') = pop-Serves s v pos in rw (h, step) v'
  ]
  step-IsValid s (removes item) v = remove_item-IsValid item s v

  run_from-IsValid : (s : FairScheduler T) (os : List (Op T)) → IsValid s → IsValid (run s os)
  unfolding run
  run_from-IsValid s [] v = v
  run_from-IsValid s (o ∷ os) v = run_from-IsValid (step s o) os (step-IsValid s o v)

  -- After any calls the scheduler is valid: the heap lists the priorities that have buckets, each
  -- bucket's round lists the principals with a queue, no queue is empty, the size counts the items.
  pub run-IsValid : (os : List (Op T)) → IsValid (run new os)
  run-IsValid os = run_from-IsValid new os new-IsValid
