-- ===== src/Protocol/Constants.antt =====
-- rci/protocols/constants.py: sizes, and the enumerations with their wire values.
use robotic_character_interf.Base.{ℕ, ◌+◌, Option, none, some, List, [], ◌∷◌, ◌==◌, if◌then◌else◌}

abbrev pub magic : List ℕ
magic = b'R' ∷ b'C' ∷ []

abbrev pub protocol_version : ℕ
protocol_version = 1

abbrev pub header_size : ℕ
header_size = 8

abbrev pub crc_size : ℕ
crc_size = 2

abbrev pub frame_overhead : ℕ
frame_overhead = header_size + crc_size

abbrev pub max_payload_size : ℕ
max_payload_size = 512

abbrev pub max_joint_targets : ℕ
max_joint_targets = 8

pub data MessageType : Type 0 where
  glove_telemetry heartbeat validated_motion_command estop ack nack robot_telemetry : MessageType

-- `int(message_type)`
unfoldable pub type_value : MessageType → ℕ
type_value glove_telemetry = 0x01
type_value heartbeat = 0x02
type_value validated_motion_command = 0x03
type_value MessageType.estop = 0x04
type_value ack = 0x05
type_value nack = 0x06
type_value robot_telemetry = 0x07

-- `MessageType(raw)`; `none` is its ValueError. The other enumerations are read likewise.
unfoldable pub type_of_value : ℕ → Option MessageType
type_of_value raw =
    if raw == 0x01
    then some glove_telemetry
    else if raw == 0x02
    then some heartbeat
    else if raw == 0x03
    then some validated_motion_command
    else if raw == 0x04
    then some MessageType.estop
    else if raw == 0x05
    then some ack
    else if raw == 0x06
    then some nack
    else if raw == 0x07
    then some robot_telemetry
    else none

pub data DeviceSource : Type 0 where
  host glove gateway robot : DeviceSource

unfoldable pub source_value : DeviceSource → ℕ
source_value host = 0x01
source_value glove = 0x02
source_value gateway = 0x03
source_value robot = 0x04

unfoldable pub source_of_value : ℕ → Option DeviceSource
source_of_value raw =
    if raw == 0x01
    then some host
    else if raw == 0x02
    then some glove
    else if raw == 0x03
    then some gateway
    else if raw == 0x04
    then some robot
    else none

pub data WireSystemState : Type 0 where
  boot self_test calibrating idle armed executing degraded fault estop shutdown : WireSystemState

unfoldable pub wire_state_value : WireSystemState → ℕ
wire_state_value boot = 0x01
wire_state_value self_test = 0x02
wire_state_value calibrating = 0x03
wire_state_value idle = 0x04
wire_state_value armed = 0x05
wire_state_value executing = 0x06
wire_state_value degraded = 0x07
wire_state_value fault = 0x08
wire_state_value WireSystemState.estop = 0x09
wire_state_value shutdown = 0x0a

unfoldable pub wire_state_of_value : ℕ → Option WireSystemState
wire_state_of_value raw =
    if raw == 0x01
    then some boot
    else if raw == 0x02
    then some self_test
    else if raw == 0x03
    then some calibrating
    else if raw == 0x04
    then some idle
    else if raw == 0x05
    then some armed
    else if raw == 0x06
    then some executing
    else if raw == 0x07
    then some degraded
    else if raw == 0x08
    then some fault
    else if raw == 0x09
    then some WireSystemState.estop
    else if raw == 0x0a
    then some shutdown
    else none

pub data MotionMode : Type 0 where
  position : MotionMode

unfoldable pub mode_value : MotionMode → ℕ
mode_value position = 0x01

unfoldable pub mode_of_value : ℕ → Option MotionMode
mode_of_value raw = if raw == 0x01 then some position else none

pub data EstopReason : Type 0 where
  manual watchdog safety communication : EstopReason

unfoldable pub reason_value : EstopReason → ℕ
reason_value manual = 0x01
reason_value watchdog = 0x02
reason_value safety = 0x03
reason_value communication = 0x04

unfoldable pub reason_of_value : ℕ → Option EstopReason
reason_of_value raw =
    if raw == 0x01
    then some manual
    else if raw == 0x02
    then some watchdog
    else if raw == 0x03
    then some safety
    else if raw == 0x04
    then some communication
    else none

pub data AckStatus : Type 0 where
  accepted rejected stale invalid : AckStatus

-- `AckStatus.OK` is `accepted`.
unfoldable pub status_value : AckStatus → ℕ
status_value accepted = 0x00
status_value rejected = 0x01
status_value stale = 0x02
status_value invalid = 0x03

unfoldable pub status_of_value : ℕ → Option AckStatus
status_of_value raw =
    if raw == 0x00
    then some accepted
    else if raw == 0x01
    then some rejected
    else if raw == 0x02
    then some stale
    else if raw == 0x03
    then some invalid
    else none
