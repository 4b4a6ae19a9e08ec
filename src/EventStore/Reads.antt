-- ===== src/EventStore/Reads.antt =====
-- What one client has read and what waits for it, against the log of all events.
use baijimu_digital_employee.Base.{
  ℕ, ◌≤◌, ◌≡◌, refl, sym, ◌∙◌, ap, subst, true, ◌&&◌, List, [], ◌∷◌, ◌++◌, arith, ltb, length, drop,
  drop-append, length-append, append_assoc, append-nil, Bool-cases, inl, inr,
}
use baijimu_digital_employee.EventStore.{
  ConnectorEvent, Subscriber, event, stream_subscriber_capacity, offer, receive,
}

-- What the client has read and what waits for it is a part of the log from its start; nothing is
-- missing while it is subscribed.
pub record Reads (start : ℕ) (log seen : List ConnectorEvent) (s : Subscriber) : Type 0 where
  pub alive : s.receiving ≡ true
  pub rest : List ConnectorEvent
  pub joins : (seen ++ s.queue) ++ rest ≡ drop start log
  pub live : s.subscribed ≡ true → rest ≡ []
  pub bounded : length s.queue ≤ stream_subscriber_capacity

pub Reads-offer :
    (start : ℕ) (log seen : List ConnectorEvent) (s : Subscriber) (e : ConnectorEvent)
    → start ≤ length log
    → Reads start log seen s
    → Reads start (log ++ e ∷ []) seen (offer e s)
unfolding offer
Reads-offer start log seen s e begun r =
    elim (Bool-cases
      (s.subscribed && s.receiving && ltb (length s.queue) stream_subscriber_capacity)) [
        | inl q ↦ rw q (record {
          alive = r.alive;
          rest = [];
          joins =
              append-nil (seen ++ (s.queue ++ e ∷ []))
              ∙ sym (append_assoc seen s.queue (e ∷ []))
              ∙ ap (λ l. l ++ e ∷ [])
                  (sym (append-nil (seen ++ s.queue))
                    ∙ ap (λ l. (seen ++ s.queue) ++ l) (sym (r.live (ground arith))))
              ∙ grown;
          live = λ _. refl;
          bounded = ground (arith, length-append s.queue (e ∷ []));
        })
        | inr q ↦ rw q (record {
          alive = r.alive;
          rest = r.rest ++ e ∷ [];
          joins = sym (append_assoc (seen ++ s.queue) r.rest (e ∷ [])) ∙ grown;
          live = λ h. ground arith;
          bounded = r.bounded;
        })
      ]
  where
    grown : ((seen ++ s.queue) ++ r.rest) ++ e ∷ [] ≡ drop start (log ++ e ∷ [])
    grown = ap (λ l. l ++ e ∷ []) r.joins ∙ sym (drop-append start log (e ∷ []) begun)

receive-event :
    (s s' : Subscriber) (e : ConnectorEvent)
    → receive s ≡ (event e, s')
    → s.queue ≡ e ∷ s'.queue × s'.receiving ≡ s.receiving × s'.subscribed ≡ s.subscribed
unfolding receive
receive-event s s' e h = go s.queue refl h
  where
    go_some :
        (x : ConnectorEvent) (xs : List ConnectorEvent)
        → s.queue ≡ x ∷ xs
        → event x ≡ event e
        → record s { queue = xs } ≡ s'
        → s.queue ≡ e ∷ s'.queue × s'.receiving ≡ s.receiving × s'.subscribed ≡ s.subscribed
    go_some x xs p k k' = (
      subst (λ l. s.queue ≡ e ∷ l) (ap (λ t. t.queue) k') (p ∙ ap (λ y. y ∷ xs) (cc)),
      sym (ap (λ t. t.receiving) k'),
      sym (ap (λ t. t.subscribed) k'),
    )

    go :
        (q : List ConnectorEvent)
        → s.queue ≡ q
        → receive (record s { queue = q }) ≡ (event e, s')
        → s.queue ≡ e ∷ s'.queue × s'.receiving ≡ s.receiving × s'.subscribed ≡ s.subscribed
    go [] p k = absurd (ground arith)
    go (x ∷ xs) p k = go_some x xs p (ap (λ r. r.0) k) (ap (λ r. r.1) k)

pub Reads-read :
    (start : ℕ) (log seen : List ConnectorEvent) (s s' : Subscriber) (e : ConnectorEvent)
    → receive s ≡ (event e, s')
    → Reads start log seen s
    → Reads start log (seen ++ e ∷ []) s'
Reads-read start log seen s s' e h r =
    let (q, a, b) = receive-event s s' e h in
    record {
      alive = a ∙ r.alive;
      rest = r.rest;
      joins =
          ap (λ l. l ++ r.rest) (append_assoc seen (e ∷ []) s'.queue ∙ ap (λ l. seen ++ l) (sym q))
          ∙ r.joins;
      live = λ t. r.live (sym b ∙ t);
      bounded = omega (arith, r.bounded, ap length q);
    }
