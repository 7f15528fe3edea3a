-- ===== src/Daemon/Relay/Delivery.antt =====
-- What the relay of relay.rs does with the events of its collector, in any interleaving of the
-- collector's sends and the loop's turns.
use mathlib.Core.List.{append-nil, append_assoc}
use zanei.Prelude.{
  min, ◌≡◌, ◌≢◌, refl, ap, sym, ◌∙◌, Bool, true, false, Option, none, some, List, [], ◌∷◌, ◌++◌,
  length, length-append, u64_max, saturating_add, arith, Bool-cases, inl, inr, subst,
}
use zanei.Daemon.Relay.{
  source_closed, pipeline_closed, stopped, TrySend, accepted, full, disconnected, Forwarding,
  Iteration, exit, again, pending_list, forward_iteration, offer, receive, take_pending,
  pending_count,
}

module _ {ℓ} {E : Type ℓ} where
  -- What the relay holds and has passed on, in the order of arrival.
  pub held : Forwarding E → List E
  held s = s.delivered ++ (pending_list s.pending ++ s.queue)

  -- What the relay has taken or could take, and has not passed on.
  abbrev pub outstanding : Forwarding E → List E
  outstanding s = pending_list s.pending ++ s.queue

  -- A turn of the loop from the state `s` accounts for every event that the collector has sent. A
  -- thread that ends keeps nothing.
  abbrev pub Accounts : Forwarding E → List E → Iteration E → Type ℓ
  Accounts s sent (again t) = held t ≡ sent
  Accounts s sent (exit source_closed t) = (t.delivered ≡ sent) × (outstanding t ≡ [])
  Accounts s sent (exit pipeline_closed t) =
      (t.delivered ≡ s.delivered)
      × (outstanding s ≢ [])
      × (s.delivered ++ outstanding s ≡ sent)
      × (outstanding t ≡ [])
  Accounts s sent (exit (stopped n) t) =
      (t.delivered ≡ s.delivered)
      × (s.delivered ++ outstanding s ≡ sent)
      × (n ≡ min (length (outstanding s)) u64_max)
      × (outstanding t ≡ [])

  -- The events that a turn offers to the pipeline first.
  offer-Accounts :
      (e : E) (rest : List E) (r : TrySend) (s t : Forwarding E) (sent : List E)
      → outstanding s ≡ e ∷ rest
      → t.delivered ≡ s.delivered
      → t.queue ≡ rest
      → s.delivered ++ outstanding s ≡ sent
      → Accounts s sent (offer e r t)
  unfolding offer held
  offer-Accounts e rest accepted s t sent o d q h =
      ap (λ l. (t.delivered ++ e ∷ []) ++ l) q
      ∙ append_assoc t.delivered (e ∷ []) rest
      ∙ ap (λ l. l ++ e ∷ rest) d
      ∙ ap (◌++◌ s.delivered) (sym o)
      ∙ h
  offer-Accounts e rest full s t sent o d q h =
      ap (λ l. t.delivered ++ e ∷ l) q
      ∙ ap (λ l. l ++ e ∷ rest) d
      ∙ ap (◌++◌ s.delivered) (sym o)
      ∙ h
  offer-Accounts e rest disconnected s t sent o d q h = (d, (λ k. cc), h, refl)

  receive-Accounts :
      (q : List E) (r : TrySend) (s : Forwarding E) (sent : List E)
      → s.queue ≡ q
      → outstanding s ≡ q
      → s.delivered ++ outstanding s ≡ sent
      → Accounts s sent (receive q r s)
  unfolding receive
  receive-Accounts (e ∷ rest) r s sent k o h =
      offer-Accounts e rest r s (record s { queue = rest }) sent o refl refl h
  receive-Accounts [] r s sent k o h = elim (Bool-cases s.source_open) [
    | inl open_source ↦ rw open_source (unfold held in h)
    | inr closed ↦
        rw closed (sym (append-nil s.delivered) ∙ ap (◌++◌ s.delivered) (sym o) ∙ h, refl)
  ]

  take_pending-Accounts :
      (o : Option E) (r : TrySend) (s : Forwarding E) (sent : List E)
      → s.pending ≡ o
      → s.delivered ++ outstanding s ≡ sent
      → Accounts s sent (take_pending o r s)
  unfolding take_pending
  take_pending-Accounts none r s sent p h = receive-Accounts s.queue r s sent refl (rw p refl) h
  take_pending-Accounts (some e) r s sent p h =
      offer-Accounts e s.queue r s s sent (rw p refl) refl refl h

  -- One turn of the loop, whatever the stop flag and `try_send` give, accounts for every event.
  forward_iteration-Accounts :
      (stop : Bool) (r : TrySend) (s : Forwarding E) (sent : List E)
      → held s ≡ sent
      → Accounts s sent (forward_iteration stop r s)
  unfolding forward_iteration held
  forward_iteration-Accounts true r s sent h = (refl, h, counted, refl)
    where
      counted : pending_count s ≡ min (length (pending_list s.pending ++ s.queue)) u64_max
      counted =
          unfold pending_count in
          rw (length-append (pending_list s.pending) s.queue) (unfold saturating_add in omega arith)
  forward_iteration-Accounts false r s sent h = take_pending-Accounts s.pending r s sent refl h

  -- The collector and the loop, in any interleaving: the collector sends an event while it has its
  -- sender, drops the sender, and the loop makes a turn that does not end the thread.
  pub data Run : Forwarding E → List E → Type ℓ where
    spawned : Run (record { pending = none; queue = []; source_open = true; delivered = [] }) []
    send :
        {s : Forwarding E} {sent : List E} (e : E)
        → Run s sent
        → s.source_open ≡ true
        → Run (record s { queue = s.queue ++ e ∷ [] }) (sent ++ e ∷ [])
    drop_sender :
        {s : Forwarding E} {sent : List E}
        → Run s sent
        → Run (record s { source_open = false }) sent
    turn :
        {s t : Forwarding E} {sent : List E} (stop : Bool) (r : TrySend)
        → Run s sent
        → forward_iteration stop r s ≡ again t
        → Run t sent

  Run-held : {s : Forwarding E} {sent : List E} → Run s sent → held s ≡ sent
  unfolding held
  Run-held spawned = refl
  Run-held (send {s} {sent} e run o) =
      ap (◌++◌ s.delivered) (sym (append_assoc (pending_list s.pending) s.queue (e ∷ [])))
      ∙ sym (append_assoc s.delivered (pending_list s.pending ++ s.queue) (e ∷ []))
      ∙ ap (λ l. l ++ e ∷ []) (Run-held run)
  Run-held (drop_sender run) = Run-held run
  Run-held (turn {s} {t} {sent} stop r run e) =
      subst (Accounts s sent) e (forward_iteration-Accounts stop r s sent (Run-held run))

  -- In any interleaving of the collector's sends with the loop's turns, every turn accounts for all
  -- events sent: what has been passed on, is in hand or is queued is what was sent, in the order of
  -- arrival. When the source closes, all events have been passed on. When the pipeline closes, the
  -- event in hand and all that are queued are lost, one at least. When the thread is stopped, those
  -- are lost too, and their number is counted, up to the 64-bit maximum.
  pub Run-Accounts :
      {s : Forwarding E} {sent : List E} (stop : Bool) (r : TrySend)
      → Run s sent
      → Accounts s sent (forward_iteration stop r s)
  Run-Accounts {s} {sent} stop r run = forward_iteration-Accounts stop r s sent (Run-held run)
