-- ===== src/Simulation/GatewayTests.antt =====
-- The gateway, the link and the digital twin on concrete values.
use robotic_character_interf.Base.{
  ◌↔◌, ◌≡◌, refl, true, false, Option, none, some, List, [], ◌∷◌, arith,
}
use robotic_character_interf.Base.Float.{Float, fin, nan, inf, neg_inf, zero_f}
use robotic_character_interf.Base.Int.{ℤ, pos, negsuc}
use robotic_character_interf.Hardware.Gateway.{
  RobotGateway, returns, make_gateway, answered, request,
}
use robotic_character_interf.Hardware.Gateway.Decimals.{
  scaled_integer, Decimal, whole, fraction, not_finite,
}
use robotic_character_interf.Protocol.Messages.Motion.{ValidatedMotionCommand}
use robotic_character_interf.Simulation.Twin.{DigitalTwinRobot, accept}
use robotic_character_interf.Hardware.Gateway.Counters.{
  after_all-Counts, after_all, Attempt, Counts,
}
use robotic_character_interf.Simulation.Commanded.{exchange-IsCarriedOut, IsCarriedOut}
use robotic_character_interf.Hardware.Gateway.Exact.{encode_authorization-IsCommandOf, IsCommandOf}
use robotic_character_interf.Simulation.Device.{DigitalTwinProtocolDevice}
use robotic_character_interf.Protocol.Framing.{Frame}
use robotic_character_interf.Protocol.Constants.{
  executing, WireSystemState, ack, position, validated_motion_command,
}
use robotic_character_interf.Hardware.Gateway.Commands.{encode_authorization}
use robotic_character_interf.Safety.Supervisor.{MotionAuthorization}
use robotic_character_interf.Robotics.{ReferenceJoint}
use robotic_character_interf.Simulation.ProtocolLink.Queues.{IsLinked}
use robotic_character_interf.Hardware.Gateway.Requests.{
  request-IsConfirmed, IsConfirmed, receipt_of,
}
use robotic_character_interf.Simulation.ProtocolLink.Refinement.{created-IsLinked, created}

-- A conversion that takes the unit of `Float` for one.
abbrev decimal_of_unit : Float → Option Decimal
decimal_of_unit (fin z) = some (whole z 0)
decimal_of_unit nan = some not_finite
decimal_of_unit inf = some not_finite
decimal_of_unit neg_inf = some not_finite

abbrev base_gateway : RobotGateway
base_gateway = record {
  joint_protocol_ids = ("base", pos 3) ∷ ("elbow", pos 1) ∷ [];
  ack_timeout_s = fin (pos 1);
  sequence = 65535;
  sent_count = 0;
  acknowledged_count = 0;
  rejected_count = 0;
  last_acknowledged_sequence = none;
}

base_gateway-made :
    make_gateway (("base", pos 3) ∷ ("elbow", pos 1) ∷ []) (fin (pos 1)) (pos 65535)
    ≡ returns base_gateway
unfolding make_gateway
base_gateway-made = refl

abbrev two_joints : MotionAuthorization
two_joints = record {
  authorization_id = 77;
  lifecycle_sequence = 4;
  joint_targets_deg = ("base", fin (negsuc 9)) ∷ ("elbow", fin (pos 20)) ∷ [];
  workspace_point_mm = record { x_mm = zero_f; y_mm = zero_f; z_mm = zero_f };
  command_ttl_ms = fin (pos 200);
  max_velocity_deg_s = fin (pos 30);
  max_acceleration_deg_s2 = fin (pos 60);
}

abbrev two_joint_command : ValidatedMotionCommand
two_joint_command = record {
  command_id = 0 ∷ 0 ∷ 0 ∷ 0 ∷ 0 ∷ 0 ∷ 0 ∷ 0 ∷ 0 ∷ 0 ∷ 0 ∷ 0 ∷ 0 ∷ 0 ∷ 0 ∷ 77 ∷ [];
  ttl_ms = pos 200;
  mode = position;
  targets =
      record { joint_id = pos 1; target_cdeg = pos 2000 }
      ∷ record { joint_id = pos 3; target_cdeg = negsuc 999 }
      ∷ [];
  max_velocity_cdeg_s = pos 3000;
  max_acceleration_cdeg_s2 = pos 6000;
}

two_joint_command-encoded :
    encode_authorization decimal_of_unit base_gateway two_joints ≡ returns two_joint_command
unfolding encode_authorization
two_joint_command-encoded = refl

encode_authorization-IsCommandOf_example :
    IsCommandOf decimal_of_unit base_gateway two_joints two_joint_command
encode_authorization-IsCommandOf_example =
    encode_authorization-IsCommandOf decimal_of_unit base_gateway two_joints two_joint_command
      two_joint_command-encoded

-- A tenth of a hundredth does not fit the wire's scale.
not_exact : scaled_integer (fraction (pos 1001) 3) 100 ≡ none
unfolding scaled_integer
not_exact = refl

abbrev positive_ack : Frame
positive_ack = record { message_type = ack; sequence = 9; payload = 255 ∷ 255 ∷ 0 ∷ [] }

request-IsConfirmed_example :
    ((request true none (answered positive_ack) validated_motion_command none base_gateway).0
      ≡ returns (receipt_of validated_motion_command none 65535))
    ↔ (IsConfirmed true none (answered positive_ack) 65535
        × (receipt_of validated_motion_command none 65535
            ≡ receipt_of validated_motion_command none 65535))
request-IsConfirmed_example =
    request-IsConfirmed true none (answered positive_ack) validated_motion_command none base_gateway
      (receipt_of validated_motion_command none 65535)

-- The answer acknowledges the sequence number 65535, and the next number is 0.
request_acknowledged :
    (request true none (answered positive_ack) validated_motion_command none base_gateway).0
    ≡ returns (receipt_of validated_motion_command none 65535)
unfolding request
request_acknowledged = refl

abbrev three_attempts : List Attempt
three_attempts =
    record {
      transport_open = true;
      sending = none;
      answer = answered positive_ack;
      message_type = validated_motion_command;
      authorization_id = none;
    }
    ∷ record {
      transport_open = false;
      sending = none;
      answer = answered positive_ack;
      message_type = validated_motion_command;
      authorization_id = none;
    }
    ∷ record {
      transport_open = true;
      sending = none;
      answer = answered positive_ack;
      message_type = validated_motion_command;
      authorization_id = none;
    }
    ∷ []

after_all-Counts_example : Counts base_gateway 2 2 1 0 (after_all three_attempts base_gateway)
unfolding request
after_all-Counts_example = after_all-Counts three_attempts base_gateway (omega arith)

abbrev joint_spec : ℤ → ReferenceJoint
joint_spec id = record {
  protocol_id = id;
  lower_deg = fin (negsuc 4999);
  upper_deg = fin (pos 5000);
  home_deg = fin (pos 0);
  max_velocity_deg_s = fin (pos 9000);
  max_acceleration_deg_s2 = fin (pos 9000);
}

abbrev two_joint_twin : DigitalTwinRobot
two_joint_twin = record {
  joints = ("base", joint_spec (pos 3)) ∷ ("elbow", joint_spec (pos 1)) ∷ [];
  supply_mv = 6000;
  positions = ("base", zero_f) ∷ ("elbow", zero_f) ∷ [];
  velocities = ("base", zero_f) ∷ ("elbow", zero_f) ∷ [];
  targets = ("base", zero_f) ∷ ("elbow", zero_f) ∷ [];
  currents = ("base", 80) ∷ ("elbow", 80) ∷ [];
  uptime_ms = 0;
  state = WireSystemState.estop;
  command_velocity_limit = fin (pos 9000);
  command_acceleration_limit = fin (pos 9000);
}

abbrev in_units : ℤ → Float
in_units z = fin z

-- A twin that was stopped takes a command, and is executing without a reset.
stopped_twin_executes : (accept in_units two_joint_twin two_joint_command).1.state ≡ executing
unfolding accept
stopped_twin_executes = refl

abbrev idle_device : DigitalTwinProtocolDevice
idle_device = record { twin = two_joint_twin; response_sequence = 0 }

idle_link-IsLinked : IsLinked 58 4096 (record { to_host = []; to_device = [] }) (created 4096 128)
idle_link-IsLinked = created-IsLinked 58 4096 128 (omega arith) (omega arith) (omega arith)

exchange-IsCarriedOut_example :
    IsCarriedOut 58 4096 decimal_of_unit in_units two_joints two_joint_command base_gateway
      (fin (pos 1))
      (fin (pos 1))
      false
      false
      idle_device
      (created 4096 128)
exchange-IsCarriedOut_example =
    exchange-IsCarriedOut 58 4096 decimal_of_unit in_units (("base", pos 3) ∷ ("elbow", pos 1) ∷ [])
      (fin (pos 1)) (pos 65535) two_joints two_joint_command base_gateway (fin (pos 1))
      (fin (pos 1)) false false idle_device (created 4096 128) (omega arith) (omega arith)
      base_gateway-made refl (omega arith) (omega arith) two_joint_command-encoded (omega arith)
      refl refl idle_link-IsLinked
