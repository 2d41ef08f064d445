-- ===== src/Client/Honesty/Steps.antt =====
-- Every step of the client's threads keeps it honest.
use deadpool.Base.{
  ℕ, ◌<◌, ◌≡◌, refl, Bool, true, false, Option, some, List, [], ◌∷◌, ◌++◌, arith, ◌||◌, any,
  if-case, option-case, Option-cases, List-cases, inl, inr, ap,
}
use deadpool.Dict.{lookup, nat_key, text_key}
use deadpool.Protocol.Reader.{Message}
use deadpool.Future.{set_accepted, set_running}
use deadpool.Client.State.{
  Setup, Client, remote, Task, accepts, runs, completes, rejects, fails, forget, put_outbound,
}
use deadpool.Client.Completion.{conclude, acknowledged, lose, completion}
use deadpool.Client.Threads.{perform, schedule, lane_step}
use deadpool.Client.Honesty.{
  is_unavailable, is_refusing, is_queued_for, is_reported, is_sent, IsHonest, Same-IsHonest,
  settling-IsHonest, on_future-IsHonest,
}
use deadpool.Client.Honesty.Methods.{
  LoadsFairly, set_accepted-Fair, set_running-Fair, set_exception-Fair, completion-Fair,
  rejection-Fair,
}

module _ {V : Type 0} (e : Setup V) where
  pub forget-IsHonest : (ref : ℕ) (c : Client V) → IsHonest c → IsHonest (forget ref c)
  unfolding forget
  forget-IsHonest ref c v =
      option-case IsHonest (lookup ref c.table) (λ _. v) (λ f _. Same-IsHonest c _ refl v)

  pub lose-IsHonest : (c : Client V) → IsHonest c → IsHonest (lose c)
  unfolding lose
  lose-IsHonest c v =
      if-case IsHonest c.transport_failed (λ _. v)
        (λ _. record {
          lost = λ _. refl;
          new_ref = v.new_ref;
          new_touched = v.new_touched;
          new_queued = v.new_queued;
          started = v.started;
          honest = λ ref h. (refl, (v.honest ref h).1);
        })

  any-append :
      (p : Option (Option ℕ × Message) → Bool) (xs ys : List (Option (Option ℕ × Message)))
      → any p (xs ++ ys) ≡ (any p xs || any p ys)
  any-append p [] ys = refl
  any-append p (x ∷ xs) ys = ground (arith, any-append p xs ys)

  -- A message for no request, or for one that is registered, is queued.
  pub put_outbound-IsHonest :
      (item : Option (Option ℕ × Message)) (c c' : Client V)
      → ((ref : ℕ) → c.sequence < ref → is_queued_for ref item ≡ false)
      → put_outbound e.limits item c ≡ some c'
      → IsHonest c
      → IsHonest c'
  unfolding put_outbound
  put_outbound-IsHonest item c c' old h v = record {
    lost = ground (arith, h, v.lost);
    new_ref = λ ref k. ground (arith, h, v.new_ref ref);
    new_touched = λ ref k. ground (arith, h, v.new_touched ref);
    new_queued = λ ref k. ground (
      arith,
      h,
      v.new_queued ref,
      old ref,
      any-append (is_queued_for ref) c.outbound (item ∷ []),
    );
    started = λ ref k. ground (arith, h, v.started ref);
    honest = λ ref k. ground (arith, h, v.honest ref);
  }

  pub acknowledged-IsHonest :
      (item : Option (Option ℕ × Message)) (c : Client V)
      → ((ref : ℕ) → c.sequence < ref → is_queued_for ref item ≡ false)
      → IsHonest c
      → IsHonest (acknowledged (put_outbound e.limits item c) c)
  acknowledged-IsHonest item c old v = elim (Option-cases (put_outbound e.limits item c)) [
    | inl h ↦ rw h (lose-IsHonest c v)
    | inr (c', h) ↦ rw h (put_outbound-IsHonest item c c' old h v)
  ]

  conclude-IsHonest : (ref : ℕ) (c : Client V) → IsHonest c → IsHonest (conclude e ref c)
  unfolding conclude
  conclude-IsHonest ref c v =
      Same-IsHonest _ _ refl (forget-IsHonest ref _ (acknowledged-IsHonest _ c (λ ref _. refl) v))

  -- What may be done: an error that says that a request was not accepted only where it was not sent and
  -- cannot be any more.
  abbrev pub Admissible : Task → Client V → Type 0
  Admissible (fails ref x) c =
      is_unavailable x.error_class ≡ true → (c.connected ≡ false) × (is_sent ref c ≡ false)
  Admissible _ c = Unit {0}

  perform-IsHonest :
      LoadsFairly e
      → (t : Task) (c : Client V) → Admissible t c
      → IsHonest c
      → IsHonest (perform e t c)
  unfolding perform
  perform-IsHonest fair (accepts ref) c a v =
      on_future-IsHonest ref set_accepted c (λ f _. set_accepted-Fair ref c f) v
  perform-IsHonest fair (runs ref pid worker_id) c a v =
      on_future-IsHonest ref (set_running pid worker_id) c
        (λ f _. set_running-Fair ref c f pid worker_id) v
  perform-IsHonest fair (completes ref m) c a v = conclude-IsHonest ref _ (
      settling-IsHonest ref (completion e m.kind m) c
        (λ f _. completion-Fair ref c f e m.kind m fair) v)
  perform-IsHonest fair (rejects ref control) c a v =
      forget-IsHonest ref _ (settling-IsHonest ref _ c (λ f _. rejection-Fair ref c f control) v)
  perform-IsHonest fair (fails ref x) c a v =
      forget-IsHonest ref _
        (settling-IsHonest ref _ c (λ f _. set_exception-Fair ref c f (remote x) false a) v)

  is_refusing-append :
      (ref : ℕ) (ts us : List Task)
      → is_refusing ref (ts ++ us) ≡ (is_refusing ref ts || is_refusing ref us)
  unfolding is_refusing
  is_refusing-append ref [] us = refl
  is_refusing-append ref (accepts r ∷ ts) us = is_refusing-append ref ts us
  is_refusing-append ref (runs r pid w ∷ ts) us = is_refusing-append ref ts us
  is_refusing-append ref (completes r m ∷ ts) us = is_refusing-append ref ts us
  is_refusing-append ref (rejects r m ∷ ts) us = is_refusing-append ref ts us
  is_refusing-append ref (fails r x ∷ ts) us = ground (arith, is_refusing-append ref ts us)

  -- A task that is admissible is all that a lane with it may refuse.
  refusing-Admissible :
      (ref : ℕ) (t : Task) (c : Client V)
      → Admissible t c
      → is_refusing ref (t ∷ []) ≡ true
      → (c.connected ≡ false) × (is_sent ref c ≡ false)
  unfolding is_refusing
  refusing-Admissible ref (accepts r) c a h = ground arith
  refusing-Admissible ref (runs r pid w) c a h = ground arith
  refusing-Admissible ref (completes r m) c a h = ground arith
  refusing-Admissible ref (rejects r m) c a h = ground arith
  refusing-Admissible ref (fails r x) c a h = ground arith

  pub schedule-IsHonest :
      LoadsFairly e
      → (t : Task) (c : Client V) → Admissible t c
      → IsHonest c
      → IsHonest (schedule e t c)
  unfolding schedule
  schedule-IsHonest fair t c a v =
      if-case IsHonest c.lane_open
        (λ _. record {
          lost = v.lost;
          new_ref = v.new_ref;
          new_touched = v.new_touched;
          new_queued = v.new_queued;
          started = v.started;
          honest = λ ref h. ground (
            arith,
            h,
            v.honest ref,
            is_refusing-append ref c.lane (t ∷ []),
            refusing-Admissible ref t c a,
          );
        })
        (λ _. perform-IsHonest fair t c a v)

  refusing-rest :
      (ref : ℕ) (t : Task) (ts : List Task) (c : Client V)
      → c.lane ≡ t ∷ ts
      → is_reported ref (record c { lane = ts }) ≡ true
      → is_reported ref c ≡ true
  refusing-rest ref t ts c h k =
      ground (arith, k, is_refusing-append ref (t ∷ []) ts, ap (is_refusing ref) h)

  first-Admissible :
      (t : Task) (ts : List Task) (c : Client V)
      → c.lane ≡ t ∷ ts
      → IsHonest c
      → Admissible t (record c { lane = ts })
  unfolding is_refusing
  first-Admissible (accepts r) ts c h v = tt
  first-Admissible (runs r pid w) ts c h v = tt
  first-Admissible (completes r m) ts c h v = tt
  first-Admissible (rejects r m) ts c h v = tt
  first-Admissible (fails r x) ts c h v = λ k. v.honest r (ground (arith, h, k))

  -- The lane without its first task.
  rest-IsHonest :
      (t : Task) (ts : List Task) (c : Client V)
      → c.lane ≡ t ∷ ts
      → IsHonest c
      → IsHonest (record c { lane = ts }) × Admissible t (record c { lane = ts })
  rest-IsHonest t ts c h v = (
    record {
      lost = v.lost;
      new_ref = v.new_ref;
      new_touched = v.new_touched;
      new_queued = v.new_queued;
      started = v.started;
      honest = λ ref k. v.honest ref (refusing-rest ref t ts c h k);
    },
    first-Admissible t ts c h v,
  )

  pub lane_step-IsHonest : LoadsFairly e → (c : Client V) → IsHonest c → IsHonest (lane_step e c)
  unfolding lane_step
  lane_step-IsHonest fair c v = elim (List-cases c.lane) [
    | inl h ↦ rw (h, lane_step) v
    | inr (t, ts, h) ↦
        let (w, a) = rest-IsHonest t ts c h v in rw (h, lane_step) (perform-IsHonest fair t _ a w)
  ]
