-- ===== src/Tests/Scheduler.antt =====
-- deadpool/remote/_scheduler.py at concrete inputs: two principals at one priority.
use text.Mathlib.Text.{◌==◌ as str_eq}
use deadpool.Base.{
  false≢true, sym, ap, ℕ, ◌+◌, ◌≤◌, ◌≡◌, ◌≢◌, refl, false, String, List, [], ◌∷◌, ◌++◌, arith, ite,
  ℕ_discrete,
}
use deadpool.Result.{ok}
use deadpool.Dict.{nat_key, text_key, text_eq, lookup, insert}
use deadpool.Collections.{count}
use deadpool.Scheduler.{FairScheduler, new, pop, put_at, put_front, put_bucket}
use deadpool.Scheduler.Views.{stream, turns}
use deadpool.Scheduler.Invariant.{IsValid}
use deadpool.Scheduler.Order.{Serves, pop-Serves}
use deadpool.Scheduler.Rounds.{
  ahead, Waits, here, serves, Op, puts_item, pops, removes, run, Wait-le-ahead, put_front-pop,
  run-IsValid,
}

-- "a" puts 1 and 2, "b" puts 3.
abbrev calls : List (Op ℕ)
calls = puts_item 1 5 "a" false ∷ puts_item 2 5 "a" false ∷ puts_item 3 5 "b" false ∷ []

abbrev two_waiting : FairScheduler ℕ
two_waiting = run new calls

run-IsValid_example : IsValid (run {T = ℕ} new (puts_item 1 5 "a" false ∷ removes 1 ∷ pops ∷ []))
run-IsValid_example = run-IsValid (puts_item 1 5 "a" false ∷ removes 1 ∷ pops ∷ [])

inhabited : (two_waiting).size ≢ 0
unfolding run lookup put_at new insert ℕ_discrete put_bucket text_eq
inhabited h = absurd (omega (arith, h))

abbrev Popping : Type 0
Popping =
    (item : ℕ) × (t : FairScheduler ℕ) × (pop two_waiting ≡ ok (item, t))
    × Serves two_waiting item t
    × IsValid t

pop-Serves_example : Popping
pop-Serves_example = pop-Serves two_waiting (run-IsValid calls) inhabited

first_pop : Popping
first_pop = pop-Serves two_waiting (run-IsValid calls) inhabited

two_turns : turns two_waiting 5 ≡ "a" ∷ "b" ∷ []
unfolding run lookup put_at new insert ℕ_discrete put_bucket text_eq
two_turns = refl

b-Waits : Waits two_waiting 5 "b"
unfolding count run lookup put_at new insert ℕ_discrete put_bucket text_eq
b-Waits h = absurd (omega (arith, h))

a_not_b : ◌≢◌ {A = String} "a" "b"
a_not_b h = false≢true (sym (ap (λ s. str_eq "a" s) h))

a_first : first_pop.3.priority ≡ 5 → first_pop.3.principal ≢ "b"
a_first e q = a_not_b (ground (arith, e, q, two_turns, first_pop.3.first_turn))

Wait-le-ahead_example :
    0 + ite (ℕ_discrete first_pop.3.priority 5) 1 0 ≤ ahead "b" (turns two_waiting 5)
Wait-le-ahead_example =
    Wait-le-ahead 5 "b" b-Waits (serves here first_pop.0 first_pop.3 a_first refl)

put_front-pop_example :
    let r = first_pop.3 in
    let u = put_front first_pop.0 r.priority r.principal first_pop.1 in
    ((q : ℕ) (j : String) → stream u q j ≡ stream two_waiting q j)
    × (turns u r.priority ≡ r.waiting ++ r.principal ∷ [])
    × ((q : ℕ) → q ≢ r.priority → turns u q ≡ turns two_waiting q)
    × (u.size ≡ (two_waiting).size)
put_front-pop_example = put_front-pop two_waiting first_pop.1 first_pop.0 first_pop.3
