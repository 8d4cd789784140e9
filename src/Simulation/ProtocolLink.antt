-- ===== src/Simulation/ProtocolLink.antt =====
-- rci/simulation/protocol_link.py: the connected host and device transports.
pub mod Queues
pub mod Sending
pub mod Steps
pub mod Refinement
use robotic_character_interf.Base.{ℕ, Bool, Option, none, some, List, [], ◌∷◌}
use robotic_character_interf.Base.Message.{say}
use robotic_character_interf.Base.Float.{Float}
use robotic_character_interf.Protocol.Framing.{Frame}
use robotic_character_interf.Hardware.{Outcome, done, waits, raised, value_error, TransportFault}
use robotic_character_interf.Hardware.Memory.{
  Link, Side, host, device, open_transport, close_transport, write_bytes,
  create_memory_transport_pair,
}
use robotic_character_interf.Hardware.Frames.{
  FrameTransport, make_frame_transport, send_frame, receive_frame, Reply, Reception,
}

-- The two byte transports are the two sides of the link.
pub record SimulatedProtocolLink : Type 0 where
  pub host : FrameTransport
  pub device : FrameTransport
  pub link : Link

-- The opening of the two sides, one after the other.
abbrev open_device : FrameTransport → Outcome Link → Outcome SimulatedProtocolLink
open_device t (done l) = done (record { host = t; device = t; link = l })
open_device t waits = waits
open_device t (raised fault) = raised fault

unfoldable pub open_host : FrameTransport → Outcome Link → Outcome SimulatedProtocolLink
unfolding open_transport
open_host t (done l) = open_device t (open_transport device l)
open_host t waits = waits
open_host t (raised fault) = raised fault

unfoldable pub connect : Option Link → Option FrameTransport → Outcome SimulatedProtocolLink
unfolding open_host
connect none t = raised (value_error (say "capacity_bytes must be positive"))
connect (some l) none = raised (value_error (say "read_size must be positive"))
connect (some l) (some t) = open_host t (open_transport host l)

-- `create`; the transports have decoders of their own, with the default bound.
unfoldable pub create : ℕ → ℕ → Outcome SimulatedProtocolLink
unfolding connect create_memory_transport_pair make_frame_transport
create capacity_bytes read_size =
    connect (create_memory_transport_pair capacity_bytes "sim-host" "sim-device")
      (make_frame_transport read_size none)

abbrev pub with_link : SimulatedProtocolLink → Link → SimulatedProtocolLink
with_link p l = record { host = p.host; device = p.device; link = l }

abbrev pub transport : Side → SimulatedProtocolLink → FrameTransport
transport host p = p.host
transport device p = p.device

abbrev pub with_transport : Side → FrameTransport → SimulatedProtocolLink → SimulatedProtocolLink
with_transport host t p = record { host = t; device = p.device; link = p.link }
with_transport device t p = record { host = p.host; device = t; link = p.link }

-- `inject_to_device` writes for the host, and `inject_to_host` for the device.
unfoldable pub inject_to_device : List ℕ → SimulatedProtocolLink → Outcome Link
inject_to_device raw_bytes p = write_bytes host raw_bytes p.link

unfoldable pub inject_to_host : List ℕ → SimulatedProtocolLink → Outcome Link
inject_to_host raw_bytes p = write_bytes device raw_bytes p.link

unfoldable pub close_link : SimulatedProtocolLink → SimulatedProtocolLink
close_link p = with_link p (close_transport device (close_transport host p.link))
