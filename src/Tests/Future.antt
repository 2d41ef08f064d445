-- ===== src/Tests/Future.antt =====
-- deadpool/remote/_future.py at concrete inputs: a future with two callbacks, which is sent, runs and
-- gets its result.
use deadpool.Base.{ℕ, ◌≡◌, ◌+◌, refl, true, none, List, [], ◌∷◌}
use deadpool.Collections.{count}
use deadpool.Dict.{nat_key}
use deadpool.Future.{
  RemoteFuture, new, is_done, set_result, settle_and_dispatch, settle, dispatch_callbacks,
}
use deadpool.Future.Lifecycle.{
  Call, call_all, call_all-callbacks, call_all-settled, Agrees, registered, sends, runs, returns,
  cancels, adds,
}

abbrev calls : List (Call ℕ ℕ)
calls = adds 7 ∷ sends ∷ runs none none ∷ adds 8 ∷ returns 42 ∷ cancels ∷ adds 7 ∷ []

call_all-callbacks_example :
    let (called, f) = call_all calls (new "a:1" 10) in
    Agrees f.settlement f.submission_state
    × (count 7 called + count 7 f.remote_callbacks ≡ registered 7 calls)
    × (is_done f ≡ true → count 7 called ≡ registered 7 calls)
call_all-callbacks_example = call_all-callbacks calls "a:1" 10 7

abbrev finished : RemoteFuture ℕ ℕ
finished = (set_result 42 (new "a:1" 10)).1

finished_done : is_done finished ≡ true
unfolding set_result settle_and_dispatch settle dispatch_callbacks new
finished_done = refl

call_all-settled_example : (call_all calls finished).1 ≡ finished
call_all-settled_example = call_all-settled calls finished finished_done
