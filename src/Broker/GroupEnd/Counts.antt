-- ===== src/Broker/GroupEnd/Counts.antt =====
-- The loop of `_cancel_group` in deadpool/remote/server.py over the requests of a group.
use deadpool.Base.{
  ℕ, ◌≡◌, refl, Bool, false, Option, none, some, List, [], ◌∷◌, arith, All, option-case,
  Option-cases, inl, inr, ap, ◌∙◌, sym, subst, ◌&&◌,
}
use deadpool.Dict.{lookup, nat_key}
use deadpool.Protocol.Json.{Fields}
use deadpool.Scheduler.{FairScheduler}
use deadpool.Broker.State.{
  Broker, Request, Session, Setup, RequestState, is_terminal, get, authorized, session_of, same,
}
use deadpool.Broker.Cancel.{truth, is_queued}
use deadpool.Broker.Groups.{GroupCounts, group_record, group_records}
use deadpool.Broker.GroupEnd.{
  at, count_at, without_queued, ends, spares, Fate, Other, Distinct, GroupEnded,
}
use deadpool.Broker.GroupEnd.Ending.{Apart, over_unix_of}
use deadpool.Broker.GroupEnd.Turn.{One, is_hard, untouched, group_record-One}

module _ (e : Setup) (n : ℕ) where
  -- one turn of the loop
  turn : Fields → ℕ → GroupCounts → Broker → GroupCounts × Broker
  turn control ref k b = elim (lookup ref b.records) [
    | none ↦ (k, b)
    | some r ↦ group_record e n control ref r r.state (k, b)
  ]

  turn-One :
      (control : Fields) (ref : ℕ) (k : GroupCounts) (b : Broker)
      → One e n (is_hard e n control b) ref k b (turn control ref k b)
  unfolding turn
  turn-One control ref k b =
      option-case (One e n (is_hard e n control b) ref k b) (lookup ref b.records)
        (λ h. record {
          cancelled = ground (arith, h);
          running = ground (arith, h);
          terminal = ground (arith, h);
          fate = inl (ground (arith, h), refl);
          scheduler = ground (arith, h);
          apart = untouched e n ref b;
        })
        (λ r h. group_record-One e n control ref r r.state k b h refl)

  allowed : Fields → Option (ℕ × Session) → Bool → Bool
  allowed control none over_unix = false
  allowed control (some (sid, s)) over_unix = elim e.authorizer [
    | none ↦ over_unix && same s.principal e.own_principal
    | some f ↦ f s.principal "hard_cancel" control
  ]

  authorized-allowed :
      (control : Fields) (b : Broker)
      → authorized e n "hard_cancel" control b ≡ allowed control (session_of n b) (over_unix_of n b)
  unfolding authorized allowed
  authorized-allowed control b = elim (Option-cases (session_of n b)) [
    | inl h ↦ ground (arith, h)
    | inr (x, h) ↦ ground (arith, h)
  ]

  is_hard-same :
      (control : Fields) (ref : ℕ) (b b' : Broker)
      → Apart n ref b b'
      → is_hard e n control b' ≡ is_hard e n control b
  is_hard-same control ref b b' a =
      ap (λ x. truth (get "hard" control) && x)
        (authorized-allowed control b'
          ∙ (ap (λ o. allowed control o (over_unix_of n b')) a.session
              ∙ (ap (λ u. allowed control (session_of n b) u) a.transport
                  ∙ sym (authorized-allowed control b))))

  at-same :
      (f : RequestState → Bool) (ref i : ℕ) (b b' : Broker)
      → Apart n ref b b'
      → Other ref i
      → at f i b' ≡ at f i b
  at-same f ref i b b' a other =
      ap (λ (o : Option Request). elim o [ none ↦ false | some r ↦ f r.state ]) (a.others i other)

  count_at-same :
      (f : RequestState → Bool) (ref : ℕ) (refs : List ℕ) (b b' : Broker)
      → Apart n ref b b'
      → All (Other ref) refs
      → count_at f refs b' ≡ count_at f refs b
  count_at-same f ref [] b b' a h = refl
  count_at-same f ref (i ∷ refs) b b' a (other, others) =
      rw (at-same f ref i b b' a other, count_at-same f ref refs b b' a others) refl

  without_queued-same :
      (ref : ℕ) (refs : List ℕ) (b b' : Broker) (q : FairScheduler ℕ)
      → Apart n ref b b'
      → All (Other ref) refs
      → without_queued refs b' q ≡ without_queued refs b q
  without_queued-same ref [] b b' q a h = refl
  without_queued-same ref (i ∷ refs) b b' q a (other, others) =
      rw (at-same is_queued ref i b b' a other) (without_queued-same ref refs b b' _ a others)

  then_ended :
      (hard : Bool) (ref : ℕ) (refs : List ℕ) (k : GroupCounts) (b : Broker)
      (x y : GroupCounts × Broker)
      → All (Other ref) refs
      → One e n hard ref k b x
      → GroupEnded hard refs x.0 x.1 y
      → All (Fate hard b y.1) (ref ∷ refs)
      → GroupEnded hard (ref ∷ refs) k b y
  then_ended hard ref refs k b x y other first rest fates = record {
    cancelled = ground (
      arith,
      first.cancelled,
      rest.cancelled,
      count_at-same (ends hard) ref refs b x.1 first.apart other,
    );
    running = ground (
      arith,
      first.running,
      rest.running,
      count_at-same (spares hard) ref refs b x.1 first.apart other,
    );
    terminal = ground (
      arith,
      first.terminal,
      rest.terminal,
      count_at-same is_terminal ref refs b x.1 first.apart other,
    );
    fates = fates;
    scheduler =
        rest.scheduler
        ∙ (without_queued-same ref refs b x.1 _ first.apart other
            ∙ ap (without_queued refs b) first.scheduler);
  }

  -- The requests that are not of the group stay.
  pub group_records-others :
      (control : Fields) (i : ℕ) (refs : List ℕ) (k : GroupCounts) (b : Broker)
      → All (λ ref. Other ref i) refs
      → lookup i (group_records e n control refs (k, b)).1.records ≡ lookup i b.records
  unfolding group_records turn
  group_records-others control i [] k b h = refl
  group_records-others control i (ref ∷ refs) k b (other, others) =
      let x = turn control ref k b in
      group_records-others control i refs x.0 x.1 others
      ∙ (turn-One control ref k b).apart.others i other

  Fate-later :
      (hard : Bool) (ref : ℕ) (b b' b'' : Broker)
      → Fate hard b b' ref
      → lookup ref b''.records ≡ lookup ref b'.records
      → Fate hard b b'' ref
  Fate-later hard ref b b' b'' (inl (out, left)) same = inl (out, same ∙ left)
  Fate-later hard ref b b' b'' (inr (live, r, found, state, kind)) same =
      inr (live, r, same ∙ found, state, kind)

  fates_before :
      (hard : Bool) (ref : ℕ) (refs : List ℕ) (b b' b'' : Broker)
      → Apart n ref b b'
      → All (Other ref) refs
      → All (Fate hard b' b'') refs
      → All (Fate hard b b'') refs
  fates_before hard ref [] b b' b'' a h f = tt
  fates_before hard ref (i ∷ refs) b b' b'' a (other, others) (f, fs) =
      (fate_before f, fates_before hard ref refs b b' b'' a others fs)
    where
      fate_before : Fate hard b' b'' i → Fate hard b b'' i
      fate_before (inl (out, left)) =
          inl (sym (at-same (ends hard) ref i b b' a other) ∙ out, left ∙ a.others i other)
      fate_before (inr (live, r, found, state, kind)) =
          inr (sym (at-same (ends hard) ref i b b' a other) ∙ live, r, found, state, kind)

  turned : (ref : ℕ) (refs : List ℕ) → All (Other ref) refs → All (λ i. Other i ref) refs
  turned ref [] h = tt
  turned ref (i ∷ refs) (other, others) = (λ p. other (sym p), turned ref refs others)

  -- The cancellation of a group, of requests that are listed once, adds to what is counted as
  -- cancelled the requests that are queued, and where a hard cancellation is asked for and allowed
  -- those that run; to what is counted as running those that run and are not ended so; to what is
  -- counted as terminal those that are terminal. The requests that it ends are cancelled afterwards,
  -- with that as their outcome, each other one is as it was, and the scheduler is what it was without
  -- those of the group that were queued.
  pub group_records_lem :
      (control : Fields) (refs : List ℕ) (k : GroupCounts) (b : Broker)
      → Distinct refs
      → GroupEnded (is_hard e n control b) refs k b (group_records e n control refs (k, b))
  unfolding group_records turn
  group_records_lem control [] k b d = record {
    cancelled = omega arith;
    running = omega arith;
    terminal = omega arith;
    fates = tt;
    scheduler = refl;
  }
  group_records_lem control (ref ∷ refs) k b (other, d) =
      let hard = is_hard e n control b in
      let x = turn control ref k b in
      let y = group_records e n control refs x in
      let first = turn-One control ref k b in
      let rest =
        subst (λ h. GroupEnded h refs x.0 x.1 y) (is_hard-same control ref b x.1 first.apart)
          (group_records_lem control refs x.0 x.1 d) in
      then_ended hard ref refs k b x y other first rest (
        Fate-later hard ref b x.1 y.1 first.fate
            (group_records-others control ref refs x.0 x.1 (turned ref refs other)),
        fates_before hard ref refs b x.1 y.1 first.apart other rest.fates,
      )
