-- ===== src/Protocol/Stream/Accounting.antt =====
-- rci/protocols/stream.py: the bytes that one turn of the loop takes off the buffer.
use robotic_character_interf.Base.{
  subst, ltb, ap, ℕ, ◌+◌, ◌-◌, ◌≤◌, ◌<◌, ◌≡◌, refl, if◌then◌else◌, Option, none, some, List, [],
  ◌∷◌, ◌++◌, arith,
}
use robotic_character_interf.Protocol.Framing.{
  unpack_crc, protocol_error, checksum_error, err, unpack_header, Result, header_fault, Header, ok,
  decode_type, make_frame, Frame, check_crc, decode_header, decode,
}
use robotic_character_interf.Protocol.Stream.{
  ends_in_magic, desync_issue, invalid_header, StreamIssueKind, invalid_frame, checksum_mismatch,
  issue, again, find_magic, discard_all, take_header, stop, turn, parse, take_candidate, Turn,
  StreamIssue,
}
use robotic_character_interf.Protocol.Constants.{type_of_value, MessageType}
use robotic_character_interf.Base.Lists.{take, drop, length-take, length-drop, length}
use robotic_character_interf.Base.Int.{pos}
use robotic_character_interf.Base.Message.{say, Message}
use robotic_character_interf.Protocol.Checksum.{crc16_ccitt_false}

-- The bytes on the wire of the frames that were decoded.
abbrev pub frame_bytes : List Frame → ℕ
frame_bytes [] = 0
frame_bytes (f ∷ frames) = 10 + length f.payload + frame_bytes frames

abbrev pub discarded : List StreamIssue → ℕ
discarded [] = 0
discarded (i ∷ issues) = i.discarded_bytes + discarded issues

pub frame_bytes-append :
    (fs gs : List Frame) → frame_bytes (fs ++ gs) ≡ frame_bytes fs + frame_bytes gs
frame_bytes-append [] gs = omega arith
frame_bytes-append (f ∷ fs) gs = omega (arith, frame_bytes-append fs gs)

pub discarded-append :
    (is js : List StreamIssue) → discarded (is ++ js) ≡ discarded is + discarded js
discarded-append [] js = omega arith
discarded-append (i ∷ is) js = omega (arith, discarded-append is js)

-- A turn that goes on has taken some bytes off the buffer.
abbrev pub Accounts : ℕ → Turn → Type 0
Accounts size (stop rest issues) = size ≡ discarded issues + length rest
Accounts size (again rest frames issues) =
    (size ≡ frame_bytes frames + discarded issues + length rest) × (length rest < size)

make_frame-payload :
    (t : MessageType) (n : ℕ) (payload : List ℕ) (f : Frame)
    → make_frame t (pos n) payload ≡ ok f
    → f.payload ≡ payload
unfolding make_frame
make_frame-payload t n payload f e = ground arith

check_crc-payload :
    (t : MessageType) (n : ℕ) (payload : List ℕ) (crc : ℕ) (c : Option ℕ) (f : Frame)
    → check_crc t n payload crc c ≡ ok f
    → f.payload ≡ payload
unfolding check_crc
check_crc-payload t n payload crc c f e = ground (arith, make_frame-payload t n payload f)

decode_type-length :
    (h : Header) (bytes : List ℕ) (t : Option MessageType) (f : Frame)
    → decode_type h bytes t ≡ ok f
    → length bytes ≡ 10 + h.payload_length
    → length bytes ≡ 10 + length f.payload
unfolding decode_type
decode_type-length h bytes none f e size = ground arith
decode_type-length h bytes (some t) f e size =
    let same =
      check_crc-payload t h.sequence (take h.payload_length (drop 8 bytes))
        (crc16_ccitt_false (take (8 + h.payload_length) bytes))
        (unpack_crc (drop (8 + h.payload_length) bytes)) f e in
    omega (
      arith,
      size,
      ap length same,
      length-take h.payload_length (drop 8 bytes),
      length-drop 8 bytes,
    )

header_fault-length :
    (h : Header) (size : ℕ) → header_fault h size ≡ none → size ≡ 10 + h.payload_length
unfolding header_fault
header_fault-length h size e = ground arith

decode_header-length :
    (bytes : List ℕ) (h : Option Header) (f : Frame)
    → decode_header bytes h ≡ ok f
    → length bytes ≡ 10 + length f.payload
unfolding decode_header
decode_header-length bytes none f e = ground arith
decode_header-length bytes (some h) f e = ground (
  arith,
  header_fault-length h (length bytes),
  decode_type-length h bytes (type_of_value h.raw_type) f,
)

-- The bytes of a frame that is decoded are its header, its payload and its checksum.
pub decode_ok-length :
    (bytes : List ℕ) (f : Frame) → decode bytes ≡ ok f → length bytes ≡ 10 + length f.payload
unfolding decode
decode_ok-length bytes f e = ground (arith, decode_header-length bytes (unpack_header bytes) f)

take_candidate-Accounts :
    (buffer : List ℕ) (issues : List StreamIssue) (size : ℕ)
    → 10 ≤ size
    → size ≤ length buffer
    → (r : Result Frame) → ((f : Frame) → r ≡ ok f → size ≡ 10 + length f.payload)
    → Accounts (discarded issues + length buffer) (take_candidate buffer issues size r)
unfolding take_candidate
take_candidate-Accounts buffer issues size positive fits (ok f) decoded =
    (omega (arith, decoded f refl, length-drop size buffer), omega (arith, length-drop size buffer))
take_candidate-Accounts buffer issues size positive fits (err (checksum_error m)) decoded = (
  omega (
    arith,
    length-drop size buffer,
    discarded-append issues (issue checksum_mismatch m size ∷ []),
  ),
  omega (arith, length-drop size buffer),
)
take_candidate-Accounts buffer issues size positive fits (err (protocol_error m)) decoded = (
  omega (arith, length-drop 1 buffer, discarded-append issues (issue invalid_frame m 1 ∷ [])),
  omega (arith, length-drop 1 buffer),
)

-- One byte is given up.
one_off :
    (buffer : List ℕ) (issues : List StreamIssue) (kind : StreamIssueKind) (m : Message)
    → 1 ≤ length buffer
    → Accounts
        (discarded issues + length buffer)
        (again (drop 1 buffer) [] (issues ++ issue kind m 1 ∷ []))
one_off buffer issues kind m full = (
  omega (arith, length-drop 1 buffer, discarded-append issues (issue kind m 1 ∷ [])),
  omega (arith, length-drop 1 buffer),
)

candidate-length :
    (size : ℕ) (buffer : List ℕ) (f : Frame)
    → size ≤ length buffer
    → decode (take size buffer) ≡ ok f
    → size ≡ 10 + length f.payload
candidate-length size buffer f fits e =
    omega (arith, decode_ok-length (take size buffer) f e, length-take size buffer)

candidate-Accounts :
    (buffer : List ℕ) (issues : List StreamIssue) (size : ℕ)
    → 10 ≤ size
    → size ≤ length buffer
    → Accounts
        (discarded issues + length buffer)
        (take_candidate buffer issues size (decode (take size buffer)))
candidate-Accounts buffer issues size positive fits =
    take_candidate-Accounts buffer issues size positive fits (decode (take size buffer))
      (λ f e. candidate-length size buffer f fits e)

accepted-Accounts :
    (max : ℕ) (buffer : List ℕ) (issues : List StreamIssue) (size : ℕ)
    → 10 ≤ size
    → 1 ≤ length buffer
    → Accounts (discarded issues + length buffer) (
        if ltb max size
        then again (drop 1 buffer) [] (
            issues
            ++ issue invalid_header (say "declared frame exceeds stream buffer limit") 1 ∷ [])
        else if ltb (length buffer) size
        then stop buffer issues
        else take_candidate buffer issues size (decode (take size buffer)))
accepted-Accounts max buffer issues size positive full = ground (
  arith,
  one_off buffer issues invalid_header (say "declared frame exceeds stream buffer limit"),
  candidate-Accounts buffer issues size positive,
)

take_header-Accounts :
    (max : ℕ) (buffer : List ℕ) (issues : List StreamIssue) (h : Header)
    → 8 ≤ length buffer
    → Accounts (discarded issues + length buffer) (take_header max buffer issues h)
unfolding take_header
take_header-Accounts max buffer issues h full = grind (
  arith,
  one_off buffer issues invalid_header,
  accepted-Accounts max buffer issues (8 + h.payload_length + 2),
)

unpacked-Accounts :
    (max : ℕ) (buffer : List ℕ) (issues : List StreamIssue) (o : Option Header)
    → 8 ≤ length buffer
    → Accounts
        (discarded issues + length buffer)
        (elim o [ none ↦ stop buffer issues | some h ↦ take_header max buffer issues h ])
unpacked-Accounts max buffer issues none full = refl
unpacked-Accounts max buffer issues (some h) full = take_header-Accounts max buffer issues h full

parse-Accounts :
    (max : ℕ) (buffer : List ℕ) (issues : List StreamIssue)
    → Accounts (discarded issues + length buffer) (parse max buffer issues)
unfolding parse
parse-Accounts max buffer issues =
    ground (arith, unpacked-Accounts max buffer issues (unpack_header buffer))

discard_all-Accounts : (buffer : List ℕ) → Accounts (length buffer) (discard_all buffer)
unfolding discard_all
discard_all-Accounts buffer =
    ground (arith, length-drop (length buffer - (if ends_in_magic buffer then 1 else 0)) buffer)

abbrev pub Within : Option ℕ → ℕ → Type 0
Within none size = Unit {0}
Within (some i) size = i ≤ size

pub find_magic-Within : (buffer : List ℕ) → Within (find_magic buffer) (length buffer)
unfolding find_magic
find_magic-Within [] = ground arith
find_magic-Within (a ∷ rest) = ground (arith, find_magic-Within rest)

skipped-Accounts :
    (max i : ℕ) (buffer : List ℕ)
    → i ≤ length buffer
    → Accounts (length buffer) (parse max (drop i buffer) (desync_issue i ∷ []))
skipped-Accounts max i buffer le =
    subst (λ n. Accounts n (parse max (drop i buffer) (desync_issue i ∷ [])))
      (omega (arith, length-drop i buffer))
      (parse-Accounts max (drop i buffer) (desync_issue i ∷ []))

found-Accounts :
    (max : ℕ) (buffer : List ℕ) (o : Option ℕ)
    → Within o (length buffer)
    → Accounts (length buffer) (elim o [
      | none ↦ discard_all buffer
      | some i ↦ parse max (drop i buffer) (desync_issue i ∷ [])
    ])
found-Accounts max buffer none le = discard_all-Accounts buffer
found-Accounts max buffer (some i) le = skipped-Accounts max i buffer le

pub turn-Accounts : (max : ℕ) (buffer : List ℕ) → Accounts (length buffer) (turn max buffer)
unfolding turn
turn-Accounts max buffer = ground (
  arith,
  parse-Accounts max buffer [],
  found-Accounts max buffer (find_magic buffer) (find_magic-Within buffer),
)
