-- ===== src/Broker/GroupEnd/Turn.antt =====
-- One turn of the loop of `_cancel_group` in deadpool/remote/server.py.
use deadpool.Base.{
  ℕ, ◌+◌, ◌≡◌, refl, Bool, true, false, Option, none, some, [], ◌∷◌, arith, if-case, inl, inr, ap,
  ◌∙◌, ◌&&◌, if◌then◌else◌,
}
use deadpool.Dict.{lookup, nat_key}
use deadpool.Protocol.Json.{Fields}
use deadpool.Scheduler.{remove_item}
use deadpool.Broker.State.{
  Broker, Request, Setup, RequestState, accepted_queued, running, is_terminal, get, authorized,
  session_of,
}
use deadpool.Broker.Cancel.{truth, is_queued}
use deadpool.Broker.Groups.{GroupCounts, group_record}
use deadpool.Broker.GroupEnd.{at, count_at, without_queued, ends, spares, Fate}
use deadpool.Broker.GroupEnd.Ending.{Apart, Ended, end_queued-Ended, end_running-Ended}

module _ (e : Setup) (n : ℕ) where
  -- What happens to one request: what is counted, its fate, and whether it leaves the scheduler.
  pub record One (hard : Bool) (ref : ℕ) (k : GroupCounts) (b : Broker) (x : GroupCounts × Broker)
      : Type 0 where
    pub cancelled : x.0.cancelled ≡ k.cancelled + count_at (ends hard) (ref ∷ []) b
    pub running : x.0.running ≡ k.running + count_at (spares hard) (ref ∷ []) b
    pub terminal : x.0.terminal ≡ k.terminal + count_at is_terminal (ref ∷ []) b
    pub fate : Fate hard b x.1 ref
    pub scheduler : x.1.scheduler ≡ without_queued (ref ∷ []) b b.scheduler
    pub apart : Apart n ref b x.1

  -- the hard cancellation that was asked for is allowed
  abbrev pub is_hard : Fields → Broker → Bool
  is_hard control b = truth (get "hard" control) && authorized e n "hard_cancel" control b

  pub untouched : (ref : ℕ) (b : Broker) → Apart n ref b b
  untouched ref b = record { others = λ i _. refl; session = refl; transport = refl }

  at-state :
      (f : RequestState → Bool) (ref : ℕ) (r : Request) (b : Broker) (s : RequestState)
      → lookup ref b.records ≡ some r
      → r.state ≡ s
      → at f ref b ≡ f s
  at-state f ref r b s h k =
      ap (λ (o : Option Request). elim o [ none ↦ false | some x ↦ f x.state ]) h ∙ ap f k

  One-at :
      (hard : Bool) (ref : ℕ) (k : GroupCounts) (b : Broker) (x : GroupCounts × Broker)
      (s : RequestState) (r : Request)
      → lookup ref b.records ≡ some r
      → r.state ≡ s
      → x.0.cancelled ≡ k.cancelled + (if ends hard s then 1 else 0)
      → x.0.running ≡ k.running + (if spares hard s then 1 else 0)
      → x.0.terminal ≡ k.terminal + (if is_terminal s then 1 else 0)
      → x.1.scheduler ≡ (if is_queued s then (remove_item ref b.scheduler).1 else b.scheduler)
      → Fate hard b x.1 ref
      → Apart n ref b x.1
      → One hard ref k b x
  One-at hard ref k b x s r h t c u m q f a = record {
    cancelled = ground (arith, at-state (ends hard) ref r b s h t, c);
    running = ground (arith, at-state (spares hard) ref r b s h t, u);
    terminal = ground (arith, at-state is_terminal ref r b s h t, m);
    fate = f;
    scheduler = rw (at-state is_queued ref r b s h t) q;
    apart = a;
  }

  Ended-Fate :
      (hard : Bool) (ref : ℕ) (b b₁ b' : Broker) (s : RequestState) (r : Request)
      → lookup ref b.records ≡ some r
      → r.state ≡ s
      → ends hard s ≡ true
      → Ended n ref b₁ b'
      → Fate hard b b' ref
  Ended-Fate hard ref b b₁ b' s r h t live ended = inr (
    at-state (ends hard) ref r b s h t ∙ live,
    ended.request,
    ended.found,
    ended.state,
    ended.kind,
  )

  left-Fate :
      (hard : Bool) (ref : ℕ) (b : Broker) (s : RequestState) (r : Request)
      → lookup ref b.records ≡ some r
      → r.state ≡ s
      → ends hard s ≡ false
      → Fate hard b b ref
  left-Fate hard ref b s r h t live = inl (at-state (ends hard) ref r b s h t ∙ live, refl)

  pub group_record-One :
      (control : Fields) (ref : ℕ) (r : Request) (state : RequestState) (k : GroupCounts)
      (b : Broker)
      → lookup ref b.records ≡ some r
      → r.state ≡ state
      → One (is_hard control b) ref k b (group_record e n control ref r state (k, b))
  unfolding group_record session_of
  group_record-One control ref r accepted_queued k b h t =
      let ended = end_queued-Ended e n ref r b h (ground (arith, t)) in
      let hard = is_hard control b in
      One-at hard ref k b _ accepted_queued r h t (omega arith) (omega arith) (omega arith)
        ended.scheduler (Ended-Fate hard ref b _ _ accepted_queued r h t refl ended)
        (record {
          others = ended.apart.others;
          session = ended.apart.session;
          transport = ended.apart.transport;
        })
  group_record-One control ref r running k b h t =
      let hard = is_hard control b in
      if-case (One hard ref k b) hard
        (λ y.
          let ended = end_running-Ended e n ref r b h (ground (arith, t)) in
          One-at hard ref k b _ running r h t (ground (arith, y)) (ground (arith, y))
            (ground (arith, y)) ended.scheduler
            (Ended-Fate hard ref b _ _ running r h t (ground (arith, y)) ended) ended.apart)
        (λ y.
          One-at hard ref k b _ running r h t (ground (arith, y)) (ground (arith, y))
            (ground (arith, y)) refl (left-Fate hard ref b running r h t (ground (arith, y)))
            (untouched ref b))
  group_record-One control ref r _ k b h t =
      let hard = is_hard control b in
      One-at hard ref k b _ _ r h t (ground arith) (ground arith) (ground arith) refl
        (left-Fate hard ref b _ r h t (ground arith)) (untouched ref b)
