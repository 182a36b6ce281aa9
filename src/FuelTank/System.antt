-- ===== src/FuelTank/System.antt =====
-- The two threads of practice/thread_pool/server.c. A step is what a thread does while it holds
-- `tank_mutex`, or the signal that `filling_tank` sends behind it. A wait may also end without one.
use pso_workspace.Base.{ℕ, suc, ◌<◌, ◌≡◌, Bool, true, false, if◌then◌else◌}
use pso_workspace.Base.Integers.{ℤ, pos, ◌+ℤ◌, ◌-ℤ◌, ltb_ℤ}

abbrev pub rounds : ℕ
rounds = 5

-- The car is about to test the tank, inside `pthread_cond_wait`, or has driven off.
pub data Car : Type 0 where
  testing sleeping driven : Car

-- `filled` counts the rounds of `filling_tank`; `signalling` holds while it is between its unlock and
-- its signal.
pub record Garage : Type 0 where
  pub tank : ℤ
  pub filled : ℕ
  pub signalling : Bool
  pub car : Car

abbrev pub start : Garage
start = record { tank = pos 0; filled = 0; signalling = false; car = testing }

abbrev woken : Car → Car
woken testing = testing
woken sleeping = testing
woken driven = driven

-- The critical section of a round of `filling_tank`
unfoldable pub fill : Garage → Garage
fill g = record g { tank = g.tank +ℤ pos 10; filled = suc g.filled; signalling = true }

-- `pthread_cond_signal(&condFuel)`
unfoldable pub signal : Garage → Garage
signal g = record g { signalling = false; car = woken g.car }

-- `car`, from the test of its loop to the wait or to the unlock
unfoldable pub car_step : Garage → Garage
car_step g =
    if ltb_ℤ g.tank (pos 40)
    then record g { car = sleeping }
    else record g { tank = g.tank -ℤ pos 50; car = driven }

pub data FuelStep (g : Garage) : Garage → Type 0 where
  filling : {h : Garage} → g.filled < rounds → g.signalling ≡ false → h ≡ fill g → FuelStep g h
  signalled : {h : Garage} → g.signalling ≡ true → h ≡ signal g → FuelStep g h
  driving : {h : Garage} → g.car ≡ testing → h ≡ car_step g → FuelStep g h
  wake : {h : Garage} → g.car ≡ sleeping → h ≡ record g { car = testing } → FuelStep g h

pub data Drives (g : Garage) : Garage → Type 0 where
  stop : Drives g g
  further : {h k : Garage} → Drives g h → FuelStep h k → Drives g k
