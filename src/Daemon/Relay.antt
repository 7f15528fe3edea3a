-- ===== src/Daemon/Relay.antt =====
-- crates/zanei-cli/src/daemon/collectors/relay.rs: the thread that forwards one collector's events
-- into the pipeline, and its handle.
pub mod Delivery
use zanei.Prelude.{
  ℕ, ◌+◌, Bool, true, false, Option, none, some, List, [], ◌∷◌, ◌++◌, length, saturating_add,
  if◌then◌else◌,
}

pub data RelayExit : Type 0 where
  source_closed pipeline_closed : RelayExit
  stopped : ℕ → RelayExit

-- What `try_send` says of the pipeline's channel at one iteration.
pub data TrySend : Type 0 where
  accepted full disconnected : TrySend

module _ {ℓ} (E : Type ℓ) where
  -- The loop's variables, and the two channels: what the collector has sent and the relay has not
  -- taken, whether the collector still holds its sender, and what the pipeline has accepted.
  pub record Forwarding : Type ℓ where
    pub pending : Option E
    pub queue : List E
    pub source_open : Bool
    pub delivered : List E

  -- One turn of the loop ends the thread, or goes on.
  pub data Iteration : Type ℓ where
    exit : RelayExit → Forwarding → Iteration
    again : Forwarding → Iteration

module _ {ℓ} {E : Type ℓ} where
  abbrev pub pending_list : Option E → List E
  pending_list none = []
  pending_list (some e) = e ∷ []

  -- The queued events and the one in hand.
  unfoldable pub pending_count : Forwarding E → ℕ
  unfolding saturating_add
  pending_count s = saturating_add (length s.queue) (length (pending_list s.pending))

  -- `forward` returns, which drops the receiver with all that is queued, and the event in hand.
  abbrev pub dropped : Forwarding E → Forwarding E
  dropped s = record s { pending = none; queue = [] }

  unfoldable pub offer : E → TrySend → Forwarding E → Iteration E
  offer e accepted s = again (record s { pending = none; delivered = s.delivered ++ e ∷ [] })
  offer e full s = again (record s { pending = some e })
  offer e disconnected s = exit pipeline_closed (dropped s)

  -- `recv_timeout`: an event that is queued, or a timeout, or, once the sender is dropped and the
  -- queue empty, the end.
  unfoldable pub receive : List E → TrySend → Forwarding E → Iteration E
  unfolding offer
  receive (e ∷ rest) result s = offer e result (record s { queue = rest })
  receive [] result s = if s.source_open then again s else exit source_closed (dropped s)

  unfoldable pub take_pending : Option E → TrySend → Forwarding E → Iteration E
  unfolding offer receive
  take_pending (some e) result s = offer e result s
  take_pending none result s = receive s.queue result s

  -- The body of `forward`'s loop, at what the stop flag and `try_send` give.
  unfoldable pub forward_iteration : Bool → TrySend → Forwarding E → Iteration E
  unfolding take_pending pending_count
  forward_iteration true result s = exit (stopped (pending_count s)) (dropped s)
  forward_iteration false result s = take_pending s.pending result s
