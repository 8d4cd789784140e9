-- ===== src/Protocol/Framing/Canonical.antt =====
-- rci/protocols/framing.py: the bytes on which `Frame.decode` succeeds.
use mathlib.Core.Option.{some-injective}
use robotic_character_interf.Base.{
  ℕ, zero, suc, ◌+◌, ◌*◌, ◌/◌, ◌%◌, ◌≤◌, ◌<◌, ◌≡◌, refl, sym, ap, subst, ◌∙◌, ◌==◌, ◌&&◌, true,
  Option, none, some, List, [], ◌∷◌, ◌++◌, arith,
}
use robotic_character_interf.Protocol.Framing.{
  frame_body, encode, pack_u16, unpack_crc, ok, Fault, decode, unpack_header, make_frame,
  decode_type, header_fault, Frame, Header, decode_header, check_crc,
}
use robotic_character_interf.Protocol.Constants.{MessageType, type_value, type_of_value}
use robotic_character_interf.Base.Lists.{
  length-drop, length-take, take-append-drop, All-append, All, drop, take, length,
}
use robotic_character_interf.Base.Int.{pos}
use robotic_character_interf.Protocol.Checksum.{crc16_ccitt_false}
use robotic_character_interf.Protocol.Checksum.Detection.{IsByte}
use robotic_character_interf.Protocol.Framing.RoundTrip.{IsValid}

-- What a successful decoding has found.
record IsDecoded (bytes : List ℕ) (f : Frame) : Type 0 where
  header : Header
  unpacked : unpack_header bytes ≡ some header
  clean : header_fault header (length bytes) ≡ none
  named : type_of_value header.raw_type ≡ some f.message_type
  sequenced : f.sequence ≡ header.sequence
  carried : f.payload ≡ take header.payload_length (drop 8 bytes)
  sequence_fits : f.sequence ≤ 0xffff
  received :
      unpack_crc (drop (8 + header.payload_length) bytes)
      ≡ some (crc16_ccitt_false (take (8 + header.payload_length) bytes))

make_frame_ok :
    (t : MessageType) (n : ℕ) (payload : List ℕ) (f : Frame)
    → make_frame t (pos n) payload ≡ ok f
    → (f.message_type ≡ t) × (f.sequence ≡ n) × (f.payload ≡ payload) × (n ≤ 0xffff)
unfolding make_frame
make_frame_ok t n payload f e = (ground arith, ground arith, ground arith, ground arith)

check_crc_ok :
    (t : MessageType) (n : ℕ) (payload : List ℕ) (crc : ℕ) (o : Option ℕ) (f : Frame)
    → check_crc t n payload crc o ≡ ok f
    → (o ≡ some crc) × (make_frame t (pos n) payload ≡ ok f)
unfolding check_crc
check_crc_ok t n payload crc none f e = ground arith
check_crc_ok t n payload crc (some r) f e = (ground arith, ground arith)

decode_type_ok :
    (bytes : List ℕ) (h : Header) (o : Option MessageType) (f : Frame)
    → unpack_header bytes ≡ some h
    → header_fault h (length bytes) ≡ none
    → type_of_value h.raw_type ≡ o
    → decode_type h bytes o ≡ ok f
    → IsDecoded bytes f
unfolding decode_type
decode_type_ok bytes h none f unpacked clean named e = ground arith
decode_type_ok bytes h (some t) f unpacked clean named e =
    let (received, made) =
      check_crc_ok t h.sequence (take h.payload_length (drop 8 bytes))
        (crc16_ccitt_false (take (8 + h.payload_length) bytes))
        (unpack_crc (drop (8 + h.payload_length) bytes)) f e in
    let (typed, numbered, carried, fits) =
      make_frame_ok t h.sequence (take h.payload_length (drop 8 bytes)) f made in
    record {
      header = h;
      unpacked = unpacked;
      clean = clean;
      named = named ∙ ap some (sym typed);
      sequenced = numbered;
      carried = carried;
      sequence_fits = omega (arith, numbered, fits);
      received = received;
    }

decode_fault_ok :
    (bytes : List ℕ) (h : Header) (o : Option Fault) (f : Frame)
    → unpack_header bytes ≡ some h
    → header_fault h (length bytes) ≡ o
    → decode_header bytes (some h) ≡ ok f
    → IsDecoded bytes f
unfolding decode_header
decode_fault_ok bytes h none f unpacked clean e =
    decode_type_ok bytes h (type_of_value h.raw_type) f unpacked clean refl (ground arith)
decode_fault_ok bytes h (some fault) f unpacked faulty e = ground arith

decode_header_ok :
    (bytes : List ℕ) (o : Option Header) (f : Frame)
    → unpack_header bytes ≡ o
    → decode_header bytes o ≡ ok f
    → IsDecoded bytes f
decode_header_ok bytes none f unpacked e = unfold decode_header in ground arith
decode_header_ok bytes (some h) f unpacked e =
    decode_fault_ok bytes h (header_fault h (length bytes)) f unpacked refl e

decode_ok : (bytes : List ℕ) (f : Frame) → decode bytes ≡ ok f → IsDecoded bytes f
decode_ok bytes f e =
    decode_header_ok bytes (unpack_header bytes) f refl (unfold decode in ground arith)

header_fault-none :
    (h : Header) (size : ℕ)
    → header_fault h size ≡ none
    → (h.magic_matches ≡ true)
      × (h.version ≡ 1)
      × (h.payload_length ≤ 512)
      × (size ≡ 10 + h.payload_length)
unfolding header_fault
header_fault-none h size e = (ground arith, ground arith, ground arith, ground arith)

type_of_value_lem : (raw : ℕ) (t : MessageType) → type_of_value raw ≡ some t → raw ≡ type_value t
unfolding type_of_value type_value
type_of_value_lem raw t e = ground arith

abbrev header_bytes : Header → List ℕ
header_bytes h =
    b'R'
    ∷ b'C'
    ∷ h.version
    ∷ h.raw_type
    ∷ h.sequence % 256
    ∷ h.sequence / 256
    ∷ h.payload_length % 256
    ∷ h.payload_length / 256
    ∷ []

both_bytes : (a b : ℕ) → (a == b'R' && b == b'C') ≡ true → (a ≡ b'R') × (b ≡ b'C')
both_bytes a b e = (ground arith, ground arith)

-- The header that is unpacked determines the first eight bytes.
unpack_header_ok :
    (bytes : List ℕ) (h : Header)
    → All IsByte bytes
    → unpack_header bytes ≡ some h
    → h.magic_matches ≡ true
    → take 8 bytes ≡ header_bytes h
unfolding unpack_header
unpack_header_ok [] h small e m = ground arith
unpack_header_ok (a ∷ []) h small e m = ground arith
unpack_header_ok (a ∷ b ∷ []) h small e m = ground arith
unpack_header_ok (a ∷ b ∷ c ∷ []) h small e m = ground arith
unpack_header_ok (a ∷ b ∷ c ∷ d ∷ []) h small e m = ground arith
unpack_header_ok (a ∷ b ∷ c ∷ d ∷ s0 ∷ []) h small e m = ground arith
unpack_header_ok (a ∷ b ∷ c ∷ d ∷ s0 ∷ s1 ∷ []) h small e m = ground arith
unpack_header_ok (a ∷ b ∷ c ∷ d ∷ s0 ∷ s1 ∷ l0 ∷ []) h small e m = ground arith
unpack_header_ok (a ∷ b ∷ c ∷ d ∷ s0 ∷ s1 ∷ l0 ∷ l1 ∷ rest) h small e m =
    let same = some-injective _ h e in
    let (r, c') = both_bytes a b (ap (λ k. k.magic_matches) same ∙ m) in
    let version : c ≡ h.version = ap (λ k. k.version) same in
    let raw : d ≡ h.raw_type = ap (λ k. k.raw_type) same in
    let number : s0 + 256 * s1 ≡ h.sequence = ap (λ k. k.sequence) same in
    let size : l0 + 256 * l1 ≡ h.payload_length = ap (λ k. k.payload_length) same in
    let s0_small : s0 < 256 = small.1.1.1.1.0 in
    let l0_small : l0 < 256 = small.1.1.1.1.1.1.0 in
    let low : s0 ≡ h.sequence % 256 = omega arith in
    let high : s1 ≡ h.sequence / 256 = omega arith in
    let size_low : l0 ≡ h.payload_length % 256 = omega arith in
    let size_high : l1 ≡ h.payload_length / 256 = omega arith in
    rw (r, c', version, raw, low, high, size_low, size_high) refl

take-nil : (n : ℕ) → take {A = ℕ} n [] ≡ []
take-nil zero = refl
take-nil (suc n) = refl

suc_plus : (m n : ℕ) → suc m + n ≡ suc (m + n)
suc_plus m n = omega arith

take_add : (m n : ℕ) (xs : List ℕ) → take (m + n) xs ≡ take m xs ++ take n (drop m xs)
take_add zero n xs = ap (λ k. take k xs) zero_plus
  where
    zero_plus : 0 + n ≡ n
    zero_plus = omega arith
take_add (suc m) n [] = ap (λ k. take k []) (suc_plus m n) ∙ sym (take-nil n)
take_add (suc m) n (x ∷ xs) =
    ap (λ k. take k (x ∷ xs)) (suc_plus m n) ∙ ap (λ t. x ∷ t) (take_add m n xs)

unpack_crc_ok :
    (bytes : List ℕ) (crc : ℕ)
    → All IsByte bytes
    → length bytes ≡ 2
    → unpack_crc bytes ≡ some crc
    → bytes ≡ pack_u16 crc
unfolding unpack_crc
unpack_crc_ok [] crc small two e = absurd (omega (arith, two))
unpack_crc_ok (a ∷ []) crc small two e = absurd (omega (arith, two))
unpack_crc_ok (a ∷ b ∷ []) crc small two e = ground arith
unpack_crc_ok (a ∷ b ∷ c ∷ rest) crc small two e = absurd (omega (arith, two))

All-drop : (n : ℕ) (xs : List ℕ) → All IsByte xs → All IsByte (drop n xs)
All-drop n xs h =
    ((All-append IsByte (take n xs) (drop n xs)).0
      (subst (All IsByte) (sym (take-append-drop n xs)) h)).1

All-take : (n : ℕ) (xs : List ℕ) → All IsByte xs → All IsByte (take n xs)
All-take n xs h =
    ((All-append IsByte (take n xs) (drop n xs)).0
      (subst (All IsByte) (sym (take-append-drop n xs)) h)).0

-- The body of the frame is what the checksum was computed over.
frame_body-decoded :
    (bytes : List ℕ) (f : Frame)
    → All IsByte bytes
    → (d : IsDecoded bytes f) → length f.payload ≡ d.header.payload_length
    → frame_body f ≡ take (8 + d.header.payload_length) bytes
unfolding frame_body
frame_body-decoded bytes f small d size =
    let (magic_ok, version, _, _) = header_fault-none d.header (length bytes) d.clean in
    rw (size, d.sequenced, ← type_of_value_lem d.header.raw_type f.message_type d.named, ← version)
      (ap (λ t. header_bytes d.header ++ t) d.carried
        ∙ ap (λ t. t ++ take d.header.payload_length (drop 8 bytes))
            (sym (unpack_header_ok bytes d.header small d.unpacked magic_ok))
        ∙ sym (take_add 8 d.header.payload_length bytes))

-- Decoding bytes succeeds only on the encoding of the frame that it returns, and that frame is
-- valid.
pub encode-decode :
    (bytes : List ℕ) (f : Frame)
    → All IsByte bytes
    → decode bytes ≡ ok f
    → (encode f ≡ bytes) × IsValid f
unfolding encode
encode-decode bytes f small e =
    let d = decode_ok bytes f e in
    let n = d.header.payload_length in
    let (_, _, fits, total) = header_fault-none d.header (length bytes) d.clean in
    let size : length f.payload ≡ n =
      omega
        (arith, ap length d.carried, length-take n (drop 8 bytes), length-drop 8 bytes, total) in
    let body = frame_body-decoded bytes f small d size in
    let crc =
      unpack_crc_ok (drop (8 + n) bytes) (crc16_ccitt_false (take (8 + n) bytes))
        (All-drop (8 + n) bytes small) (omega (arith, length-drop (8 + n) bytes, total))
        d.received in
    (
      ap (λ b. b ++ pack_u16 (crc16_ccitt_false b)) body
          ∙ ap (λ t. take (8 + n) bytes ++ t) (sym crc)
          ∙ take-append-drop (8 + n) bytes,
      record {
        sequence_fits = d.sequence_fits;
        payload_fits = omega (arith, size, fits);
        payload_bytes =
            subst (All IsByte) (sym d.carried) (All-take n (drop 8 bytes) (All-drop 8 bytes small));
      },
    )
