-- ===== src/FuelTank/Tests.antt =====
-- A run of practice/thread_pool/server.c in which the car drives after four fillings.
use pso_workspace.Base.{◌*◌, ◌≤◌, ◌≡◌, ◌≢◌, refl, false, arith}
use pso_workspace.Base.Integers.{ℤ, pos}
use pso_workspace.FuelTank.System.{
  Garage, start, rounds, fill, signal, car_step, filling, signalled, driving, Drives, stop, further,
  sleeping, driven,
}
use pso_workspace.FuelTank.Level.{tank_balance}

abbrev filled_once : Garage → Garage
filled_once g = signal (fill g)

abbrev at_four : Garage
at_four = filled_once (filled_once (filled_once (filled_once (car_step start))))

refill :
    (g : Garage)
    → Drives start g
    → g.filled ≤ 4
    → g.signalling ≡ false
    → Drives start (filled_once g)
unfolding fill
refill g way a b = further (further way (filling (omega arith) b refl)) (signalled refl refl)

to_four : Drives start at_four
unfolding fill signal car_step
to_four =
    let asleep : Drives start (car_step start) = further stop (driving refl refl) in
    refill _
      (refill _ (refill _ (refill _ asleep (omega arith) refl) (omega arith) refl) (omega arith)
        refl)
      (omega arith) refl

tank_balance_example :
    (let g = car_step at_four in
      (g.car ≢ driven → g.tank ≡ pos (10 * g.filled))
      × (g.car ≡ driven → g.filled ≡ 4 → g.tank ≡ ℤ.negsuc 9)
      × (g.car ≡ driven → g.filled ≡ rounds → g.tank ≡ pos 0)
      × (4 ≤ g.filled → g.signalling ≡ false → g.car ≢ sleeping))
unfolding fill signal car_step
tank_balance_example = tank_balance (further to_four (driving refl refl))
