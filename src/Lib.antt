-- ===== src/Lib.antt =====
-- The robotic character interface: the safety core, the system state, the wire protocol and the
-- way of a command to the robot.
--
-- The host program decides whether a character's robot may move. A motion candidate goes to the
-- motion safety supervisor, which feeds the candidate's E-stop level and heartbeat age to the
-- lifecycle controller, looks at the lifecycle, and then at the static rules (pose) and the
-- dynamic rules (ages, velocities, accelerations). Only the supervisor issues authorizations.
-- The state manager holds the snapshot of the system, moves it along the table of legal
-- transitions and publishes an event for each one. The event bus queues events by priority, and
-- its workers give each event to the handlers that are subscribed to its class. The protocol
-- package puts messages into frames with a checksum, and recovers frames from a stream of bytes.
-- The robot gateway turns an authorization into a command frame and waits for the robot's
-- acknowledgement of it; the framed transport carries frames over a byte transport. In the
-- simulation the byte transport is a bounded link in memory, and at its other end the device
-- serves the digital twin. Before a single servo is tried on real hardware, the evidence gate
-- compares an operator's measurements with the configuration and gives a permit.
--
-- Files:
-- - Domain: src/rci/domain/enums.py, the shared enumerations.
-- - State: src/rci/state/transitions.py, `allowed_targets` and `can_transition`; State/Models:
--   src/rci/state/models.py; State/Manager: src/rci/state/manager.py, `transition_system` and
--   `replace_component`, with `Call`, `apply` and `run` for sequences of calls. State/Atomicity
--   and State/Recovery hold proofs, State/Tests the examples.
-- - Safety/Models: src/rci/safety/models.py. A property of a class is a function named after
--   both, such as `policy_valid` for `MotionSafetyPolicy.valid`.
-- - Safety/Eligibility: src/rci/safety/eligibility.py, one function per group of checks,
--   composed by `static_violations`. Safety/Eligibility/Spec states the rules without the
--   checks, Safety/Eligibility/Soundness compares them.
-- - Safety/Dynamics: src/rci/safety/dynamics.py, with Spec, Soundness and Approval likewise.
-- - Safety/Lifecycle: src/rci/safety/lifecycle.py. A method of `SafetyLifecycleController` is a
--   function from the snapshot to the snapshot. Invariant, Latch and Freshness hold proofs.
-- - Safety/Supervisor: src/rci/safety/supervisor.py, `evaluate` with its steps `refresh`,
--   `evaluate_lifecycle`, `decide_motion` and `authorize`. Approval, Exactness and Traces hold
--   proofs; Safety/Tests has the examples of Safety.
-- - Protocol/Constants, Protocol/Checksum, Protocol/Framing, Protocol/Messages and
--   Protocol/Stream: src/rci/protocols/constants.py, checksums.py, framing.py, messages.py and
--   stream.py. Protocol/Stream/Segments says how the stream is cut into frames and issues, with
--   Accounting, Feed, Delivery, Parts and Chunks for proofs. Protocol/Messages has a file for
--   the codecs of each group of messages, and files ending in Trip for their proofs.
--   Protocol/Tests and Protocol/Messages/Tests have the examples.
-- - Events/Bus: src/rci/events/bus.py and handlers.py: a function for what runs between two
--   awaits; Events/Bus/Invariant has `Step` and `run` for interleavings, Steps and Runs the
--   proofs over them; Events/Bus/Schedule has the workers alone under a schedule and the calls
--   they make, Turns, Spins and Liveness the proofs; Events/Tests has the examples.
-- - Hardware: src/rci/hardware/transport.py; Hardware/Memory: memory_transport.py, the two
--   endpoints and channels as one `Link`, with Flow and Runs for what goes through it;
--   Hardware/Frames: protocol_transport.py, with Flight, Receive and Queue for its proofs.
-- - Hardware/Gateway: robot_gateway.py, the construction and `request`;
--   Hardware/Gateway/Decimals: `_exact_protocol_integer`; Hardware/Gateway/Commands:
--   `_encode_authorization` and the three `send_` methods. Exact, Sorting, Encoding, Payload,
--   Delivery, Requests and Counters hold proofs.
-- - Robotics: the joints of src/rci/robotics/models.py and the check of model.py.
-- - Simulation/ProtocolLink: src/rci/simulation/protocol_link.py, with Queues (two abstract
--   queues), Sending, Steps and Refinement; Simulation/Twin: digital_twin.py, with Commands and
--   Limits for its proofs; Simulation/Device: device.py; Simulation/Exchange and
--   Simulation/Commanded put gateway, link, device and twin together. Simulation/Tests and
--   Simulation/GatewayTests have the examples.
-- - Hil: src/rci/hil/models.py; Hil/Gate: gate.py, with the servo settings of
--   src/rci/config/models.py that it looks at; Hil/Gate/Readiness, Hil/Gate/Narrow and
--   Hil/Outcome hold proofs, Hil/Tests the examples. The digest of the evidence and the
--   subtraction of floats are parameters (`digest`, `minus`).
-- - Base: what they share: lists and integers over native numbers, floats, dictionaries,
--   messages for people, exclusive or.
--
-- Choices of the model:
-- - A float is NaN, an infinity, or an integer multiple of 2^-1074, as every finite double is;
--   comparison, absolute value and finiteness, all that the safety checks do with floats, are
--   exact on these.
-- - A text for people is the list of the pieces of its f-string, so the order and the values of
--   a message are kept and its formatting is not.
-- - A dictionary is an association list in insertion order. Timestamps and identifiers (utc_now,
--   uuid4) are arguments.
-- - The state manager's lock admits one call at a time, so calls are a sequence. The event bus
--   is seen there through how `publish` ends: accepted, raised or cancelled.
-- - A worker of the bus is a numbered task that lives, idle or in a dispatch, whether or not
--   `_workers` has it; a dispatch's event and remaining handlers are part of the bus's state.
--   `stop` is up to three functions, cut where it awaits `join` and `gather` (`stop`,
--   `after_join`, `after_gather`), and asyncio decides when each goes on. How a handler ends is
--   an argument, and so is the subclass relation (`is_a`). asyncio's priority queue is a list in
--   the order of its items.
-- - Bytes are lists of numbers, and what needs them to be below 256 says so. The checksum
--   register is cut to 16 bits as in the source.
-- - The loop of the stream decoder runs on fuel, one turn more than there are bytes in the
--   buffer, which is enough since every turn that goes on takes a byte off the buffer.
-- - An awaited call is done, raises, or waits and changes nothing; a waiting call is made again,
--   and a deadline that passes meanwhile is an argument (`late`). `Decimal(str(value))` and the
--   division by 100.0 of the twin are parameters (`decimal_of`, `centi`).
-- - The gateway's request is given what the transport did with its frame and what it then
--   received; its lock admits one request at a time.
-- - The loop of `receive_frame` runs on fuel, one turn more than there are bytes in the channel,
--   which is enough since every turn that goes on reads one.
--
-- Not modelled: the twin's motion over time and its telemetry, kinematics and trajectories
-- (float arithmetic), the simulation's runtime, the event types, the files and command line of
-- the evidence gate, audit, health, configuration, the interaction layer and the HTTP API.
pub mod Base
pub mod Domain
pub mod State
pub mod Safety
pub mod Protocol
pub mod Events
pub mod Hardware
pub mod Robotics
pub mod Simulation
pub mod Hil
