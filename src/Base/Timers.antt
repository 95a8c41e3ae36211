-- ===== src/Base/Timers.antt =====
-- setTimeout and clearTimeout: the timers that have not fired, each with its delay.
use Prim.Native.Nat.{ℕ}
use mathlib.Core.Option.{Option, none, some}
use karya_kram.Base.Tests.{number_eq}
use karya_kram.Base.Dict.{Dict, remove}

abbrev pub Timers : Type 0
Timers = Dict ℕ ℕ

-- `if (timer) clearTimeout(timer)`
abbrev pub clear_timer : Option ℕ → Timers → Timers
clear_timer none timers = timers
clear_timer (some i) timers = remove i timers
