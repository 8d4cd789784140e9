-- ===== src/Hardware.antt =====
-- rci/hardware/transport.py: the errors and the counters of a byte transport. An operation that
-- the source awaits is done, has to wait, or raises; it is called again to resume it.
pub mod Memory
pub mod Frames
pub mod Gateway
use robotic_character_interf.Base.{ℕ}
use robotic_character_interf.Base.Message.{Message}

pub data TransportFault : Type 0 where
  closed_error capacity_error timeout_error value_error : Message → TransportFault

pub data Outcome (A : Type 0) : Type 0 where
  done : A → Outcome A
  waits : Outcome A
  raised : TransportFault → Outcome A

pub record TransportStats : Type 0 where
  pub bytes_read : ℕ
  pub bytes_written : ℕ
  pub open_count : ℕ
  pub close_count : ℕ
