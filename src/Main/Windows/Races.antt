-- ===== src/Main/Windows/Races.antt =====
-- Controls that come while the Windows service starts or ends.
use ck_agent.Base.{ℕ, ◌≡◌, refl, sym, ◌⊎◌, inl, inr, Bool, true, ◌∷◌}
use ck_agent.Main.Windows.{
  stop_pending, Status, Place, report_stopped, report_failed, returned, stop, IsPassedOn, Stage,
  idle, working, Process, service_main, service_handler, serves, handles, receives, Reach, later,
}
use ck_agent.Main.Windows.Codes.{InPlace, Reach-Inv}

-- The service has been told to stop, waits, and neither it nor the handler goes on.
abbrev pub IsDeaf : Process → Type 0
IsDeaf q =
    (q.status.state ≡ stop_pending)
    × (q.agent ≡ working)
    × (service_handler q ≡ q)
    × ((ok : Bool) (error : ℕ) → service_main ok error q ≡ q)

at_places :
    (p : Process) (l : Place) (h : Stage)
    → p.main ≡ l
    → p.handler ≡ h
    → p ≡ record p { main = l; handler = h }
at_places p l h at off = rw (sym at, sym off) refl

abbrev pub pending_status : Process → Status
pending_status p = record (p.status) { state = stop_pending }

-- `SERVICE_CONTROL_INTERROGATE`
abbrev interrogate : ℕ
interrogate = 4

-- The last statement of the service, behind the wait or behind `error:`.
abbrev pub IsLast : Place → Type 0
IsLast l = (l ≡ report_stopped) ⊎ (l ≡ report_failed)

module _ (p : Process) (live : p.handle ≡ true) where
  -- A stop that is told and reported as pending around the last statement of the service.
  late_stop_at :
      (l : Place)
      → IsLast l
      → Reach (record p { main = l; handler = idle })
      → IsPassedOn stop p.reports
      → (q : Process) × Reach q
        × (q.main ≡ returned)
        × (q.handler ≡ idle)
        × (q.reports ≡ pending_status p ∷ pending_status p ∷ p.reports)
  unfolding service_main service_handler
  late_stop_at l (inl at) r passed =
      let told = later (rw at at r) (receives stop live refl passed) in
      let pending = later told handles in
      let served = later pending (serves true 0) in
      let signalled = later served handles in (_, later signalled handles, refl, refl, refl)
  late_stop_at l (inr at) r passed =
      let told = later (rw at at r) (receives stop live refl passed) in
      let pending = later told handles in
      let served = later pending (serves true 0) in
      let signalled = later served handles in (_, later signalled handles, refl, refl, refl)

last_live : (l : Place) (p : Process) → IsLast l → InPlace l p → p.handle ≡ true
last_live l p (inl at) inv = let here : InPlace report_stopped p = rw at at inv in here.0
last_live l p (inr at) inv = let here : InPlace report_failed p = rw at at inv in here.0

-- From any reachable state in which the service is about to report that it has stopped, behind the wait or
-- behind `error:`, while no control is handled and the last report says that the service runs and accepts
-- a stop, a stop can come that makes this report and that of the handler say that the stop is pending:
-- the service returns, and these two are its last reports.
pub late_stop :
    (p : Process)
    → Reach p
    → IsLast p.main
    → p.handler ≡ idle
    → IsPassedOn stop p.reports
    → (q : Process) × Reach q
      × (q.main ≡ returned)
      × (q.handler ≡ idle)
      × (q.reports ≡ pending_status p ∷ pending_status p ∷ p.reports)
late_stop p r last off passed =
    let same : p ≡ record p { main = p.main; handler = idle } = at_places p p.main idle refl off in
    let moved : Reach (record p { main = p.main; handler = idle }) = rw same at r in
    late_stop_at p (last_live p.main p last (Reach-Inv r)) p.main last moved passed
