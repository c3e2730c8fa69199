-- ===== src/Agent/Pool.antt =====
-- `StartAndMonitorWorkers`: the workers of an agent.
use mrvacommander.Prelude.{
  ◌<◌, ℕ, zero, suc, ◌+◌, ℤ, pos, negsuc, Bool, true, false, List, [], ◌∷◌, ◌++◌, ltb,
  if◌then◌else◌, ◌≡◌, refl, length, length-append, All, arith,
}

-- One worker, if none or less than none is asked for.
unfoldable pub worker_count : ℤ → ℕ
worker_count (pos n) = if ltb 0 n then n else 1
worker_count (negsuc n) = 1

-- The stop channels of the workers (`true` once closed), and the count of the wait group.
pub record Workers : Type 0 where
  pub stop_chans : List Bool
  pub waiting_for : ℕ

-- The loop that starts them.
unfoldable pub start_workers : ℕ → Workers → Workers
start_workers zero w = w
start_workers (suc n) w =
    start_workers n
      (record { stop_chans = w.stop_chans ++ false ∷ []; waiting_for = w.waiting_for + 1 })

-- The loop that closes the channels, once the context is done.
unfoldable pub close_stop_chans : List Bool → List Bool
close_stop_chans [] = []
close_stop_chans (c ∷ chans) = true ∷ close_stop_chans chans

-- The workers while the context lasts, and those after it.
unfoldable pub start_and_monitor_workers : ℤ → ℕ → Workers × Workers
unfolding worker_count start_workers close_stop_chans
start_and_monitor_workers desired waiting_for =
    let w =
      start_workers (worker_count desired)
        (record { stop_chans = []; waiting_for = waiting_for }) in
    (w, record w { stop_chans = close_stop_chans w.stop_chans })

start_workers-counts :
    (n : ℕ) (w : Workers)
    → (length (start_workers n w).stop_chans ≡ length w.stop_chans + n)
      × ((start_workers n w).waiting_for ≡ w.waiting_for + n)
unfolding start_workers
start_workers-counts zero w = (omega arith, omega arith)
start_workers-counts (suc n) w =
    let (a, b) =
      start_workers-counts n
        (record { stop_chans = w.stop_chans ++ false ∷ []; waiting_for = w.waiting_for + 1 }) in
    (omega (arith, a, length-append w.stop_chans (false ∷ [])), omega (arith, b))

close_stop_chans-All :
    (chans : List Bool)
    → (length (close_stop_chans chans) ≡ length chans)
      × All (λ (c : Bool). c ≡ true) (close_stop_chans chans)
unfolding close_stop_chans
close_stop_chans-All [] = (refl, tt)
close_stop_chans-All (c ∷ chans) =
    let (same, all) = close_stop_chans-All chans in (omega (arith, same), (refl, all))

worker_count-pos : (desired : ℤ) → 0 < worker_count desired
unfolding worker_count
worker_count-pos (pos n) = ground arith
worker_count-pos (negsuc n) = omega arith

-- As many workers are started as the wait group then waits for, at least one; when the context is
-- done, every one of them is told to stop.
pub start_and_monitor_workers-Stopped :
    (desired : ℤ) (waiting_for : ℕ)
    → let (during, after) = start_and_monitor_workers desired waiting_for in
      (0 < length during.stop_chans)
      × (during.waiting_for ≡ waiting_for + length during.stop_chans)
      × (length after.stop_chans ≡ length during.stop_chans)
      × All (λ (c : Bool). c ≡ true) after.stop_chans
unfolding start_and_monitor_workers
start_and_monitor_workers-Stopped desired waiting_for =
    let started =
      start_workers-counts (worker_count desired)
        (record { stop_chans = []; waiting_for = waiting_for }) in
    let told =
      close_stop_chans-All
        (start_workers (worker_count desired)
          (record { stop_chans = []; waiting_for = waiting_for })).stop_chans in
    (
      omega (arith, started.0, worker_count-pos desired),
      omega (arith, started.0, started.1),
      told.0,
      told.1,
    )
