-- ===== src/Daemon/CollectorSet/Safety.antt =====
-- What the starts and stops of the collector set keep true.
use zanei.Prelude.{ℕ, ◌≡◌, refl, ◌∙◌, Bool, true, false, Option, none, some, arith}
use zanei.Daemon.Managed.{
  ManagedCollector, Managed, Spawn, StopMode, start_collector_if_allowed, stop_collector,
}
use zanei.Daemon.Managed.Invariant.{stop_managed_cleared}
use zanei.Daemon.CollectorSet.{
  CollectorKind, content_snapshot, ax, chrome, workspace, eventtap, CollectorSet, cleared_unless,
  clear_content_filter_failure_after_start, start_content_snapshot, start_ax, start_chrome,
  start_workspace, start_eventtap, start, stop_in_order,
}

module _ {C : Type 0} where
  -- A slot that is empty or holds a collector without worker, relay and start time.
  abbrev pub Idle : Option (Managed C) → Type 0
  Idle none = Unit
  Idle (some m) = (m.running ≡ false) × (m.relay ≡ none) × (m.started_at ≡ none)

  stop_collector-Idle :
      (w : ManagedCollector C) (o : Option (Managed C)) (mode : StopMode)
      → Idle (stop_collector w o mode)
  unfolding stop_collector
  stop_collector-Idle w none mode = tt
  stop_collector-Idle w (some m) mode = stop_managed_cleared w m mode

  pub record AllIdle (s : CollectorSet C) : Type 0 where
    pub workspace_idle : Idle s.workspace_slot
    pub ax_idle : Idle s.ax_slot
    pub content_snapshot_idle : Idle s.content_snapshot_slot
    pub eventtap_idle : Idle s.eventtap_slot
    pub chrome_idle : Idle s.chrome_slot

  -- After a stop or a suspension every collector of the set is without worker, relay and start
  -- time, whatever the set was.
  pub stop_in_order-AllIdle :
      (workers : CollectorKind → ManagedCollector C) (mode : StopMode) (s : CollectorSet C)
      → AllIdle (stop_in_order workers mode s)
  unfolding stop_in_order
  stop_in_order-AllIdle workers mode s = record {
    workspace_idle = stop_collector-Idle (workers workspace) s.workspace_slot mode;
    ax_idle = stop_collector-Idle (workers ax) s.ax_slot mode;
    content_snapshot_idle =
        stop_collector-Idle (workers content_snapshot) s.content_snapshot_slot StopMode.discard;
    eventtap_idle = stop_collector-Idle (workers eventtap) s.eventtap_slot mode;
    chrome_idle = stop_collector-Idle (workers chrome) s.chrome_slot mode;
  }

  -- The event tap and its gate are as they were.
  abbrev SameTap : CollectorSet C → CollectorSet C → Type 0
  SameTap s t =
      (t.eventtap_slot ≡ s.eventtap_slot) × (t.eventtap_start_gate ≡ s.eventtap_start_gate)

  SameTap-then : (s t u : CollectorSet C) → SameTap s t → SameTap t u → SameTap s u
  SameTap-then s t u a b = (b.0 ∙ a.0, b.1 ∙ a.1)

  cleared-SameTap : (b : Bool) (s : CollectorSet C) → SameTap s (cleared_unless b s)
  unfolding clear_content_filter_failure_after_start
  cleared-SameTap true s = (refl, refl)
  cleared-SameTap false s = (ground arith, ground arith)

  module _ (workers : CollectorKind → ManagedCollector C) (spawns : CollectorKind → Spawn)
      (now : ℕ) where
    content_snapshot-SameTap :
        (s : CollectorSet C) → SameTap s (start_content_snapshot workers spawns now s)
    unfolding start_content_snapshot
    content_snapshot-SameTap s = cleared-SameTap _ _

    ax-SameTap : (s : CollectorSet C) → SameTap s (start_ax workers spawns now s)
    unfolding start_ax
    ax-SameTap s = (refl, refl)

    chrome-SameTap : (s : CollectorSet C) → SameTap s (start_chrome workers spawns now s)
    unfolding start_chrome
    chrome-SameTap s = (refl, refl)

    workspace-SameTap : (s : CollectorSet C) → SameTap s (start_workspace workers spawns now s)
    unfolding start_workspace
    workspace-SameTap s = (ground arith, ground arith)

    start_eventtap-closed :
        (s : CollectorSet C)
        → s.eventtap_start_gate ≡ false
        → (start_eventtap workers spawns now s).eventtap_slot ≡ s.eventtap_slot
    unfolding start_eventtap start_collector_if_allowed
    start_eventtap-closed s closed = ground arith

    -- While its gate is closed, a start of the set leaves the event tap as it is.
    pub start_gate_closed :
        (s : CollectorSet C)
        → s.eventtap_start_gate ≡ false
        → (start workers spawns now s).eventtap_slot ≡ s.eventtap_slot
    unfolding start
    start_gate_closed s closed =
        let s1 = start_content_snapshot workers spawns now s in
        let s2 = start_ax workers spawns now s1 in
        let s3 = start_chrome workers spawns now s2 in
        let s4 = start_workspace workers spawns now s3 in
        let same = SameTap-then s s1 s4 (content_snapshot-SameTap s) (
          SameTap-then s1 s2 s4 (ax-SameTap s1)
            (SameTap-then s2 s3 s4 (chrome-SameTap s2) (workspace-SameTap s3))) in
        start_eventtap-closed s4 (same.1 ∙ closed) ∙ same.0
