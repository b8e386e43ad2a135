-- ===== src/Base/Times.antt =====
-- Instants as Go's time.Time, in nanoseconds: `none` is the zero Time. A duration from a later to an
-- earlier instant is negative in Go; each use here says which test it stands for.
use Prim.Native.Nat.{ℕ, ◌-◌, ◌*◌}
use mathlib.Core.Bool.{Bool, true, false, ◌&&◌}
use mathlib.Core.Option.{Option, none, some}
use webrtc_gateway.Base.Tests.{ltb, leb}

abbrev pub millisecond : ℕ
millisecond = 1_000_000

abbrev pub second : ℕ
second = 1000 * millisecond

abbrev pub is_zero : Option ℕ → Bool
is_zero none = true
is_zero (some t) = false

-- `now.Before(t)`: no instant of a running clock comes before the zero Time.
abbrev pub is_before : ℕ → Option ℕ → Bool
is_before now none = false
is_before now (some t) = ltb now t

-- `!t.IsZero() && now.Sub(t) >= 0 && now.Sub(t) < window`.
abbrev pub is_within : Option ℕ → ℕ → ℕ → Bool
is_within none now window = false
is_within (some t) now window = leb t now && ltb (now - t) window
