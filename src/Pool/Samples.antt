-- ===== src/Pool/Samples.antt =====
-- Two processes: one that exits on SIGTERM, and one that only SIGKILL ends.
use miniq.Base.{pos, ◌+ℤ◌, refl, Option, none, some, arith, +ℤ_parts}
use miniq.Task.{Time}
use miniq.Pool.{Process}
use miniq.Pool.Joins.{IsNotNegative}
use miniq.Pool.Stop.{DiesOfKill}

abbrev polite_exit : Option Time → Option Time → Option Time
polite_exit none none = none
polite_exit (some t) none = some (t +ℤ pos 2)
polite_exit _ (some t) = some t

abbrev stubborn_exit : Option Time → Option Time → Option Time
stubborn_exit _ none = none
stubborn_exit _ (some t) = some t

abbrev pub polite : Process
polite = record { name = 0; exit = polite_exit; sigterm = none; sigkill = none }

abbrev pub stubborn : Process
stubborn = record { name = 1; exit = stubborn_exit; sigterm = none; sigkill = none }

abbrev pub no_pause : Process → Time
no_pause p = pos 0

pub no_pause-IsNotNegative : IsNotNegative no_pause
no_pause-IsNotNegative p = omega arith

pub polite-DiesOfKill : DiesOfKill (pos 1) polite
polite-DiesOfKill none t = (t, refl, omega (arith, +ℤ_parts t (pos 1)))
polite-DiesOfKill (some s) t = (t, refl, omega (arith, +ℤ_parts t (pos 1)))

pub stubborn-DiesOfKill : DiesOfKill (pos 1) stubborn
stubborn-DiesOfKill s t = (t, refl, omega (arith, +ℤ_parts t (pos 1)))
