-- ===== src/Protocol/Tests.antt =====
-- The protocol on concrete frames.
use robotic_character_interf.Base.{ℕ, List, ◌+◌, ◌≤◌, ◌≡◌, ◌≢◌, refl, some, [], ◌∷◌, ◌++◌, arith}
use robotic_character_interf.Protocol.Stream.{desync_issue, DecodeBatch, FrameStreamDecoder, feed}
use robotic_character_interf.Protocol.Checksum.{crc16_ccitt_false}
use robotic_character_interf.Protocol.Framing.{checksum_error, err, ok, decode, Frame, encode}
use robotic_character_interf.Protocol.Framing.RoundTrip.{length-encode, decode-encode, IsValid}
use robotic_character_interf.Base.Lists.{drop, length-append, take, length}
use robotic_character_interf.Protocol.Checksum.Detection.{crc_detects_byte}
use robotic_character_interf.Protocol.Stream.Delivery.{feed-encode_all, encode_all}
use robotic_character_interf.Protocol.Constants.{MessageType, heartbeat}
use robotic_character_interf.Protocol.Stream.Feed.{feed-IsFed, IsFed}
use robotic_character_interf.Base.Message.{say}
use robotic_character_interf.Protocol.Framing.Corruption.{corrupted_byte_rejected}
use robotic_character_interf.Protocol.Framing.Canonical.{encode-decode}

abbrev pub stop_frame : Frame
stop_frame = record { message_type = MessageType.estop; sequence = 258; payload = 1 ∷ 2 ∷ [] }

abbrev beat_frame : Frame
beat_frame = record { message_type = heartbeat; sequence = 7; payload = [] }

abbrev idle_decoder : FrameStreamDecoder
idle_decoder = record { max_buffer_bytes = 64; buffer = [] }

pub stop_frame-IsValid : IsValid stop_frame
stop_frame-IsValid = record {
  sequence_fits = omega arith;
  payload_fits = omega arith;
  payload_bytes = (omega arith, (omega arith, tt));
}

beat_frame-IsValid : IsValid beat_frame
beat_frame-IsValid = record {
  sequence_fits = omega arith;
  payload_fits = omega arith;
  payload_bytes = tt;
}

-- The check value of the checksum, of the digits 1 to 9.
check_value : crc16_ccitt_false (49 ∷ 50 ∷ 51 ∷ 52 ∷ 53 ∷ 54 ∷ 55 ∷ 56 ∷ 57 ∷ []) ≡ 0x29b1
unfolding crc16_ccitt_false
check_value = refl

stop_frame_bytes : take 8 (encode stop_frame) ≡ 82 ∷ 67 ∷ 1 ∷ 4 ∷ 2 ∷ 1 ∷ 2 ∷ 0 ∷ []
unfolding encode
stop_frame_bytes = refl

-- Two bytes before the magic are given up, and the frame after them is delivered.
garbage :
    feed idle_decoder (1 ∷ 2 ∷ encode stop_frame)
    ≡ some (
      idle_decoder,
      record { frames = stop_frame ∷ []; issues = desync_issue 2 ∷ []; buffered_bytes = 0 },
    )
unfolding feed encode crc16_ccitt_false
garbage = refl

crc_detects_byte_example : crc16_ccitt_false (1 ∷ 2 ∷ 3 ∷ []) ≢ crc16_ccitt_false (1 ∷ 6 ∷ 3 ∷ [])
crc_detects_byte_example =
    crc_detects_byte (1 ∷ []) (3 ∷ []) 2 6 (omega arith, tt) (omega arith, tt) (omega arith)
      (omega arith) (λ e. absurd (omega (arith, e)))

decode-encode_example : decode (encode stop_frame) ≡ ok stop_frame
decode-encode_example = decode-encode stop_frame stop_frame-IsValid

corrupted_byte_rejected_example :
    decode (take 8 (encode stop_frame) ++ (1 ∷ [] ++ 3 ∷ []) ++ drop (8 + 2) (encode stop_frame))
    ≡ err (checksum_error (say "frame checksum mismatch"))
corrupted_byte_rejected_example =
    corrupted_byte_rejected stop_frame (1 ∷ []) [] 2 3 stop_frame-IsValid refl (omega arith)
      (λ e. absurd (omega (arith, e)))

feed-IsFed_example :
    (d' : FrameStreamDecoder) × (batch : DecodeBatch) × (feed idle_decoder (1 ∷ 2 ∷ 82 ∷ [])
      ≡ some (d', batch))
    × IsFed idle_decoder (1 ∷ 2 ∷ 82 ∷ []) d' batch
feed-IsFed_example = feed-IsFed idle_decoder (1 ∷ 2 ∷ 82 ∷ [])

two_frames_fit : length (encode_all (stop_frame ∷ beat_frame ∷ [])) ≤ 64
two_frames_fit = omega (
  arith,
  length-append (encode stop_frame) (encode beat_frame ++ []),
  length-append (encode beat_frame) [],
  length-encode stop_frame,
  length-encode beat_frame,
)

feed-encode_all_example :
    feed idle_decoder (encode_all (stop_frame ∷ beat_frame ∷ []))
    ≡ some (
      idle_decoder,
      record { frames = stop_frame ∷ beat_frame ∷ []; issues = []; buffered_bytes = 0 },
    )
feed-encode_all_example =
    feed-encode_all idle_decoder (stop_frame ∷ beat_frame ∷ []) refl
      (stop_frame-IsValid, (beat_frame-IsValid, tt)) two_frames_fit

abbrev beat_bytes : List ℕ
beat_bytes = 82 ∷ 67 ∷ 1 ∷ 2 ∷ 7 ∷ 0 ∷ 0 ∷ 0 ∷ 156 ∷ 32 ∷ []

encode-decode_example : (encode beat_frame ≡ beat_bytes) × IsValid beat_frame
unfolding decode crc16_ccitt_false
encode-decode_example =
    encode-decode beat_bytes beat_frame
      (
        omega arith,
        (
          omega arith,
          (
            omega arith,
            (
              omega arith,
              (
                omega arith,
                (omega arith, (omega arith, (omega arith, (omega arith, (omega arith, tt))))),
              ),
            ),
          ),
        ),
      )
      refl

beat_frame_bytes : encode beat_frame ≡ beat_bytes
unfolding encode crc16_ccitt_false
beat_frame_bytes = refl
