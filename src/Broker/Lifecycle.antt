-- ===== src/Broker/Lifecycle.antt =====
-- A request's life in deadpool/remote/server.py: its state only advances, and its outcome is
-- committed once.
use deadpool.Base.{
  ℕ, ◌≡◌, refl, true, some, List, inl, inr, arith, length, ℕ_discrete, subst, sym, ap, ◌∙◌,
}
use deadpool.Dict.{lookup, insert, nat_key}
use deadpool.Dict.Laws.{lookup-insert}
use deadpool.Broker.State.{Broker, Request, Setup, RequestState, is_terminal}
use deadpool.Broker.Step.{
  Step, frame, rewrite, update, release, reserve, opens, Advances, KeepsPayload, KeepsOutcome,
  Steps, Steps-induction,
}
use deadpool.Broker.Balance.{IsBalanced}
use deadpool.Broker.Books.{Step-IsBalanced}
use deadpool.Broker.Events.{Event, run, run-Steps}

-- The later state of a record.
pub record IsLater (ref : ℕ) (r : Request) (b : Broker) : Type 0 where
  pub later : Request
  pub found : lookup ref b.records ≡ some later
  pub advances : Advances r.state later.state
  pub outcome : KeepsOutcome r later

Advances-trans : (s t u : RequestState) → Advances s t → Advances t u → Advances s u
Advances-trans s t u (inl p) h = subst (λ x. Advances x u) (sym p) h
Advances-trans s t u (inr p) (inl q) = inr (p.0, ground (arith, p.1, q))
Advances-trans s t u (inr p) (inr q) = inr (p.0, q.1)

open-stays : (s t : RequestState) → Advances s t → is_terminal s ≡ true → is_terminal t ≡ true
open-stays s t h e = ground arith

-- A payload that is dropped stays dropped, where a reservation that was given up stays so.
KeepsPayload-trans :
    (r s t : Request)
    → (s.reservation_released ≡ true → t.reservation_released ≡ true)
    → KeepsPayload r s
    → KeepsPayload s t
    → KeepsPayload r t
KeepsPayload-trans r s t lasting (inl p) (inl q) = inl (q ∙ p)
KeepsPayload-trans r s t lasting (inl p) (inr q) = inr q
KeepsPayload-trans r s t lasting (inr p) (inl q) = inr (q ∙ p.0, lasting p.1)
KeepsPayload-trans r s t lasting (inr p) (inr q) = inr q

KeepsOutcome-trans :
    (r s t : Request)
    → Advances r.state s.state
    → (s.reservation_released ≡ true → t.reservation_released ≡ true)
    → KeepsOutcome r s
    → KeepsOutcome s t
    → KeepsOutcome r t
KeepsOutcome-trans r s t a lasting h k e =
    let (kind, control, payload) = h e in
    let (kind', control', payload') = k (open-stays r.state s.state a e) in
    (kind' ∙ kind, control' ∙ control, KeepsPayload-trans r s t lasting payload payload')

rewrite-IsLater :
    (ref : ℕ) (r : Request) (b b' : Broker) (ref' : ℕ) (r1 r2 : Request)
    → lookup ref' b.records ≡ some r1
    → Advances r1.state r2.state
    → (r1.reservation_released ≡ true → r2.reservation_released ≡ true)
    → KeepsOutcome r1 r2
    → b'.records ≡ insert ref' r2 b.records
    → IsLater ref r b
    → Dec (ref' ≡ ref)
    → IsLater ref r b'
rewrite-IsLater ref r b b' ref' r1 r2 eq a lasting k hr h (no n) = record {
  later = h.later;
  found = ground (arith, h.found, hr, lookup-insert ref' ref r2 b.records);
  advances = h.advances;
  outcome = h.outcome;
}
rewrite-IsLater ref r b b' ref' r1 r2 eq a lasting k hr h (yes p) =
    let same : h.later ≡ r1 = ground (arith, h.found, eq) in
    record {
      later = r2;
      found = ground (arith, hr, lookup-insert ref' ref r2 b.records);
      advances =
          Advances-trans r.state r1.state r2.state
            (subst (λ (x : Request). Advances r.state x.state) same h.advances) a;
      outcome =
          KeepsOutcome-trans r r1 r2
            (subst (λ (x : Request). Advances r.state x.state) same h.advances) lasting
            (subst (KeepsOutcome r) same h.outcome) k;
    }

module _ (e : Setup) where
  Step-IsLater :
      (ref : ℕ) (r : Request) (b b' : Broker)
      → Step e b b'
      → IsBalanced b
      → IsLater ref r b
      → IsLater ref r b'
  Step-IsLater ref r b b' (frame hr hs ht) v h = record {
    later = h.later;
    found = ground (arith, h.found, hr);
    advances = h.advances;
    outcome = h.outcome;
  }
  Step-IsLater ref r b b' (rewrite ref' r1 r2 eq k hr hs ht) v h =
      rewrite-IsLater ref r b b' ref' r1 r2 eq k.advances (λ h. k.released ∙ h) k.outcome hr h
        (ℕ_discrete ref' ref)
  Step-IsLater ref r b b' (update sid s s' eq k hr hs ht) v h = record {
    later = h.later;
    found = ground (arith, h.found, hr);
    advances = h.advances;
    outcome = h.outcome;
  }
  Step-IsLater ref r b b' (release sid ref' s s' r1 r2 eq er k hr hs) v h =
      rewrite-IsLater ref r b b' ref' r1 r2 er (inl (ap (λ x. x.state) (sym k.freed)))
        (λ _. ap (λ x. x.reservation_released) k.freed)
        (λ _. (
          ap (λ x. x.terminal_kind) k.freed,
          ap (λ x. x.terminal_control) k.freed,
          inl (ap (λ x. x.terminal_payload) k.freed),
        ))
        hr h (ℕ_discrete ref' ref)
  Step-IsLater ref r b b' (reserve sid s s' r1 eq k hr hs) v h = record {
    later = h.later;
    found = ground (
      arith,
      h.found,
      hr,
      v.numbered ref,
      v.numbered (length b.records),
      lookup-insert (length b.records) ref r1 b.records,
    );
    advances = h.advances;
    outcome = h.outcome;
  }
  Step-IsLater ref r b b' (opens s k hr hs ht) v h = record {
    later = h.later;
    found = ground (arith, h.found, hr);
    advances = h.advances;
    outcome = h.outcome;
  }

  -- Every sequence of steps keeps a record, which only advances.
  pub Steps-IsLater :
      (ref : ℕ) (r : Request) {b c : Broker}
      → Steps e b c
      → IsBalanced b
      → IsLater ref r b
      → IsBalanced c × IsLater ref r c
  Steps-IsLater ref r p v h =
      Steps-induction (λ b. IsBalanced b × IsLater ref r b)
        (λ x y s p. (Step-IsBalanced e x y s p.0, Step-IsLater ref r x y s p.0 p.1)) p (v, h)

  -- Where the books balance, a record stays through every sequence of events. Its state stays or moves
  -- on from one that is not terminal, and never back to the queue. Once it is terminal, the type and
  -- the control of its outcome stay, and its payload stays too or is dropped together with the
  -- record's reservation, which is given up when the request is removed.
  pub run-IsLater :
      (vs : List Event) (b : Broker) (ref : ℕ) (r : Request)
      → IsBalanced b
      → lookup ref b.records ≡ some r
      → IsLater ref r (run e vs b)
  run-IsLater vs b ref r v h =
      (Steps-IsLater ref r (run-Steps e vs b) v (record {
        later = r;
        found = h;
        advances = inl refl;
        outcome = λ _. (refl, refl, inl refl);
      })).1
