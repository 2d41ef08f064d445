-- ===== src/Client/Honesty/Sending.antt =====
-- The sender thread keeps a client honest.
use deadpool.Base.{
  ℕ, ◌≡◌, refl, Bool, true, false, Option, none, some, List, ◌∷◌, arith, if-case, option-case,
  List-cases, inl, inr, ap, sym, ◌∙◌,
}
use deadpool.Dict.{lookup, insert, nat_key, text_key}
use deadpool.Dict.Laws.{lookup-insert}
use deadpool.Protocol.Reader.{Message}
use deadpool.Future.{is_local, set_sent}
use deadpool.Client.State.{Setup, Client, RequestFuture, Sender, idle, marked, ready, stopped}
use deadpool.Client.Completion.{lose}
use deadpool.Client.Threads.{sender_take, sender_step}
use deadpool.Client.Honesty.{
  is_for, has_ready, has_marked, is_pending, IsHonest, core, Same-IsHonest, put-IsHonest,
}
use deadpool.Client.Honesty.Methods.{set_sent-Fair}
use deadpool.Client.Honesty.Steps.{forget-IsHonest, lose-IsHonest}

module _ {V : Type 0} (e : Setup V) where
  -- The sender has a message in hand that it took from the queue.
  taken-IsHonest :
      (item : Option ℕ) (m : Message) (rest : List (Option (Option ℕ × Message))) (c : Client V)
      → c.outbound ≡ some (item, m) ∷ rest
      → c.sender ≡ idle
      → ((r : ℕ) → is_for r (item, m) ≡ true → is_pending (lookup r c.table) ≡ false)
      → IsHonest c
      → IsHonest (record c { outbound = rest; sender = marked item m })
  taken-IsHonest item m rest c h i started v = record {
    lost = v.lost;
    new_ref = v.new_ref;
    new_touched = λ r k. ground (arith, k, h, i, v.new_touched r, v.new_queued r);
    new_queued = λ r k. ground (arith, k, h, v.new_queued r);
    started = λ r k. ground (arith, k, i, started r, v.started r);
    honest = λ r k. ground (arith, k, i, v.honest r);
  }

  dropped-IsHonest :
      (item : Option (Option ℕ × Message)) (rest : List (Option (Option ℕ × Message)))
      (c : Client V)
      → c.outbound ≡ item ∷ rest
      → IsHonest c
      → IsHonest (record c { outbound = rest })
  dropped-IsHonest item rest c h v = record {
    lost = v.lost;
    new_ref = v.new_ref;
    new_touched = v.new_touched;
    new_queued = λ r k. ground (arith, k, h, v.new_queued r);
    started = v.started;
    honest = v.honest;
  }

  stopped-IsHonest : (c : Client V) → IsHonest c → IsHonest (record c { sender = stopped })
  stopped-IsHonest c v = record {
    lost = v.lost;
    new_ref = v.new_ref;
    new_touched = λ r k. ground (arith, k, v.new_touched r);
    new_queued = v.new_queued;
    started = λ r k. ground (arith, k, v.started r);
    honest = λ r k. ground (arith, k, v.honest r);
  }

  -- The sender with the socket in hand.
  ready-IsHonest :
      (item : Option ℕ) (m : Message) (c : Client V)
      → c.sender ≡ marked item m
      → c.connected ≡ true
      → IsHonest c
      → IsHonest (record c { sender = ready item m })
  ready-IsHonest item m c i on v = record {
    lost = v.lost;
    new_ref = v.new_ref;
    new_touched = λ r k. ground (arith, k, i, v.new_touched r);
    new_queued = v.new_queued;
    started = λ r k. ground (arith, k, i, v.started r);
    honest = λ r k. ground (arith, k, on, v.honest r);
  }

  -- The message that the sender had in hand is out.
  sent-IsHonest :
      (item : Option ℕ) (m : Message) (after : Sender) (c : Client V)
      → c.sender ≡ ready item m
      → ((r : ℕ) → has_marked r after ≡ false)
      → ((r : ℕ) → has_ready r after ≡ false)
      → IsHonest c
      → IsHonest (record c { sender = after; sent = (item, m) ∷ c.sent })
  sent-IsHonest item m after c i marked_none ready_none v = record {
    lost = v.lost;
    new_ref = v.new_ref;
    new_touched = λ r k. ground (arith, k, i, marked_none r, ready_none r, v.new_touched r);
    new_queued = v.new_queued;
    started = λ r k. ground (arith, k, i, marked_none r, ready_none r, v.started r);
    honest = λ r k. ground (arith, k, i, ready_none r, v.honest r);
  }

  lose-sender : (c : Client V) → ((lose c).sender ≡ c.sender) × ((lose c).sent ≡ c.sent)
  unfolding lose
  lose-sender c = ground arith

  sent_lost :
      (item : Option ℕ) (m : Message) (c : Client V)
      → c.sender ≡ ready item m
      → IsHonest c
      → IsHonest (record (lose c) { sender = stopped; sent = (item, m) ∷ c.sent })
  sent_lost item m c i v =
      let (same_sender, same_sent) = lose-sender c in
      Same-IsHonest _ _
        (ap (λ xs. core (record (lose c) { sender = stopped; sent = (item, m) ∷ xs }))
          (sym same_sent))
        (sent-IsHonest item m stopped (lose c) (same_sender ∙ i) (λ r. refl) (λ r. refl)
          (lose-IsHonest e c v))

  -- An item for a request, whose future is marked as sent, or is done already.
  marked_sent :
      (f : RequestFuture V)
      → (set_sent f).0 ≡ true
      → is_local ((set_sent f).1).submission_state ≡ false
  unfolding set_sent
  marked_sent f h = ground (arith, h)

  take_item-IsHonest :
      (item : Option (Option ℕ × Message)) (rest : List (Option (Option ℕ × Message)))
      (c : Client V)
      → c.outbound ≡ item ∷ rest
      → c.sender ≡ idle
      → IsHonest c
      → IsHonest (sender_take c)
  unfolding sender_take
  take_item-IsHonest none rest c h i v =
      rw (h, sender_take) (stopped-IsHonest _ (dropped-IsHonest none rest c h v))
  take_item-IsHonest (some (none, m)) rest c h i v =
      rw (h, sender_take) (taken-IsHonest none m rest c h i (λ r k. ground (arith, k)) v)
  take_item-IsHonest (some (some ref, m)) rest c h i v =
      rw (h, sender_take)
        (option-case IsHonest (lookup ref c.table)
          (λ k. taken-IsHonest (some ref) m rest c h i (λ r g. ground (arith, k, g)) v)
          (λ f k.
            if-case IsHonest (set_sent f).0
              (λ g.
                let w = put-IsHonest ref f (set_sent f).1 c _ k (set_sent-Fair ref c f) refl v in
                taken-IsHonest (some ref) m rest
                  (record c { table = insert ref (set_sent f).1 c.table }) h i
                  (λ r l.
                    ground (arith, l, lookup-insert ref r (set_sent f).1 c.table, marked_sent f g))
                  w)
              (λ g. forget-IsHonest e ref _ (dropped-IsHonest (some (some ref, m)) rest c h v))))

  pub sender_step-IsHonest :
      (fine : Bool) (s : Sender) (c : Client V)
      → c.sender ≡ s
      → IsHonest c
      → IsHonest (sender_step fine s c)
  unfolding sender_step
  sender_step-IsHonest fine idle c i v = elim (List-cases c.outbound) [
    | inl h ↦ rw (h, sender_take) v
    | inr (item, rest, h) ↦ take_item-IsHonest item rest c h i v
  ]
  sender_step-IsHonest fine (marked item m) c i v =
      if-case IsHonest c.connected (λ on. ready-IsHonest item m c i on v)
        (λ _. stopped-IsHonest _ (lose-IsHonest e c v))
  sender_step-IsHonest fine (ready item m) c i v =
      if-case IsHonest fine (λ _. sent-IsHonest item m idle c i (λ r. refl) (λ r. refl) v)
        (λ _. sent_lost item m c i v)
  sender_step-IsHonest fine stopped c i v = v
