-- ===== src/Simulation/Tests.antt =====
-- The in-memory link and the frame transports on concrete calls.
use robotic_character_interf.Protocol.Constants.{MessageType}
use robotic_character_interf.Base.{
  zero, suc, suc, ℕ, ◌≡◌, refl, true, false, none, some, List, [], ◌∷◌, arith,
}
use robotic_character_interf.Base.Float.{fin}
use robotic_character_interf.Hardware.{timeout_error, done}
use robotic_character_interf.Hardware.Memory.{
  is_open, read_bytes, close_transport, write_bytes, open_endpoint, link_of, open_transport,
  create_memory_transport_pair, host, device, Link,
}
use robotic_character_interf.Protocol.Tests.{stop_frame, stop_frame-IsValid}
use robotic_character_interf.Simulation.ProtocolLink.{create}
use robotic_character_interf.Simulation.ProtocolLink.Queues.{
  not_sent, sent, replied, sends, receives, events, Allowed, Op,
}
use robotic_character_interf.Protocol.Stream.Chunks.{IsSmall}
use robotic_character_interf.Hardware.Memory.Runs.{
  Call, closes, resumes_write, resumes_read, writes, run-IsFlowing, start, reads, run, opens,
  IsFlowing,
}
use robotic_character_interf.Hardware.Frames.{
  corrupt, fault, frame, blocked, receive_frame, send_frame,
}
use robotic_character_interf.Simulation.ProtocolLink.Refinement.{events-Allowed, created}
use robotic_character_interf.Protocol.Framing.{Frame, encode}
use robotic_character_interf.Protocol.Checksum.{crc16_ccitt_false}
use robotic_character_interf.Base.Int.{pos}
use robotic_character_interf.Base.Message.{lit, say}

abbrev twelve_bytes : Link
twelve_bytes = link_of "host" "device" (record { capacity_bytes = 12; buffer = []; closed = false })

abbrev talk : List Call
talk =
    opens host
    ∷ opens device
    ∷ reads device 4 none false
    ∷ writes host (1 ∷ 2 ∷ 3 ∷ 4 ∷ 5 ∷ [])
    ∷ writes host (6 ∷ 7 ∷ 8 ∷ 9 ∷ 10 ∷ 11 ∷ 12 ∷ 13 ∷ [])
    ∷ resumes_read device 4 none false
    ∷ resumes_write host (6 ∷ 7 ∷ 8 ∷ 9 ∷ 10 ∷ 11 ∷ 12 ∷ 13 ∷ [])
    ∷ closes host
    ∷ reads device 4 none false
    ∷ []

-- The second write waits for the first read, and the bytes that were accepted before the close are
-- still read after it.
talk_got : (run talk (start twelve_bytes)).device_got ≡ 1 ∷ 2 ∷ 3 ∷ 4 ∷ 5 ∷ 6 ∷ 7 ∷ 8 ∷ []
unfolding open_transport open_endpoint close_transport write_bytes read_bytes is_open
talk_got = refl

twelve_bytes-created : create_memory_transport_pair 12 "host" "device" ≡ some twelve_bytes
unfolding create_memory_transport_pair
twelve_bytes-created = refl

run-IsFlowing_example : IsFlowing 12 (run talk (start twelve_bytes))
run-IsFlowing_example = run-IsFlowing 12 "host" "device" twelve_bytes talk twelve_bytes-created

abbrev exchange : List Op
exchange =
    receives device none false
    ∷ sends host stop_frame
    ∷ sends host stop_frame
    ∷ sends host stop_frame
    ∷ receives device none false
    ∷ receives device none false
    ∷ receives device (some (fin (pos 5))) true
    ∷ []

small_link-created : create 30 5 ≡ done (created 30 5)
unfolding create
small_link-created = refl

-- The third frame of twelve bytes does not fit, and the last receive times out.
exchange-events :
    events exchange (created 30 5)
    ≡ replied blocked
      ∷ sent
      ∷ sent
      ∷ not_sent
      ∷ replied (frame stop_frame)
      ∷ replied (frame stop_frame)
      ∷ replied (fault (timeout_error (say "protocol frame receive timed out")))
      ∷ []
unfolding send_frame write_bytes receive_frame encode crc16_ccitt_false
exchange-events = refl

stop_frame-IsSmall : IsSmall 12 stop_frame
stop_frame-IsSmall = record { valid = stop_frame-IsValid; fits = omega arith }

events-Allowed_example :
    Allowed 30 exchange (events exchange (created 30 5)) (record { to_host = []; to_device = [] })
events-Allowed_example =
    events-Allowed 12 30 5 exchange (created 30 5) small_link-created (omega arith) (omega arith) (
      refl,
      (stop_frame-IsSmall, (stop_frame-IsSmall, (stop_frame-IsSmall, (refl, (refl, (refl, tt)))))),
    )

abbrev zeros : ℕ → List ℕ
zeros zero = []
zeros (suc n) = 0 ∷ zeros n

abbrev large_frame : Frame
large_frame = record { message_type = MessageType.estop; sequence = 0; payload = zeros 512 }

-- Two frames of the largest payload, back to back, over the link with its default sizes: the
-- decoder has 512 bytes of the first, a read brings 128 more, and all of them are discarded.
large_frames_overflow :
    events
      (sends host large_frame ∷ sends host large_frame ∷ receives device none false ∷ [])
      (created 4096 128)
    ≡ sent
      ∷ sent
      ∷ replied (
          corrupt (
            lit "stream "
            ∷ lit "BUFFER_OVERFLOW"
            ∷ lit ": "
            ∷ say "stream buffer limit exceeded; buffered data discarded"))
      ∷ []
unfolding send_frame write_bytes receive_frame encode crc16_ccitt_false
large_frames_overflow = refl
