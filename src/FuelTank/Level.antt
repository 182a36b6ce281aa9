-- ===== src/FuelTank/Level.antt =====
-- The level of the tank of practice/thread_pool/server.c over all interleavings.
use pso_workspace.Base.{ℕ, ◌+◌, ◌*◌, ◌≤◌, ◌<◌, ◌≡◌, ◌≢◌, false, arith}
use pso_workspace.Base.Integers.{ℤ, pos, pos_part, neg_part, ◌+ℤ◌, ◌-ℤ◌}
use pso_workspace.FuelTank.System.{
  Car, testing, sleeping, driven, Garage, start, rounds, fill, signal, car_step, FuelStep, filling,
  signalled, driving, wake, Drives, stop, further,
}

abbrev taken : Car → ℕ
taken testing = 0
taken sleeping = 0
taken driven = 50

record IsLevel (g : Garage) : Type 0 where
  level : pos_part g.tank + taken g.car ≡ 10 * g.filled + neg_part g.tank
  bound : g.filled ≤ rounds
  enough : g.car ≡ driven → 4 ≤ g.filled
  asleep : g.car ≡ sleeping → g.signalling ≡ false → g.filled < 4

FuelStep-IsLevel : {g h : Garage} → FuelStep g h → IsLevel g → IsLevel h
unfolding fill signal car_step ◌+ℤ◌ ◌-ℤ◌
FuelStep-IsLevel (filling a b e) v = ground arith
FuelStep-IsLevel (signalled a e) v = ground arith
FuelStep-IsLevel (driving a e) v = ground arith
FuelStep-IsLevel (wake a e) v = ground arith

Drives-IsLevel : {g : Garage} → Drives start g → IsLevel g
Drives-IsLevel stop = ground arith
Drives-IsLevel (further way step) = FuelStep-IsLevel step (Drives-IsLevel way)

-- However the threads have taken turns: the tank holds ten units for each filling less the fifty that
-- the car has taken, if it has; once the car has driven the tank stands at minus ten when four fillings
-- have been made, and is empty after the fifth; and the car is never left asleep once four fillings
-- have been made and signalled.
pub tank_balance :
    {g : Garage}
    → Drives start g
    → (g.car ≢ driven → g.tank ≡ pos (10 * g.filled))
      × (g.car ≡ driven → g.filled ≡ 4 → g.tank ≡ ℤ.negsuc 9)
      × (g.car ≡ driven → g.filled ≡ rounds → g.tank ≡ pos 0)
      × (4 ≤ g.filled → g.signalling ≡ false → g.car ≢ sleeping)
tank_balance {g} way =
    let v = Drives-IsLevel way in
    (λ h. ground arith, λ h k. ground arith, λ h k. ground arith, λ h k l. ground arith)
