-- ===== src/Protocol/Framing/Corruption.antt =====
-- rci/protocols/framing.py: frames of which a byte of the payload changes on the way.
use robotic_character_interf.Base.{
  ℕ, suc, ◌≡◌, ◌≢◌, refl, sym, ap, subst, ◌∙◌, ◌+◌, ◌%◌, ◌/◌, List, ◌∷◌, ◌++◌, arith,
}
use robotic_character_interf.Protocol.Framing.{
  check_crc, checksum_error, err, decode, encode, Frame, frame_body,
}
use robotic_character_interf.Protocol.Constants.{type_value}
use robotic_character_interf.Protocol.Framing.RoundTrip.{
  decode-with_crc, parts-with_crc, with_crc, frame_body-All, IsValid,
}
use robotic_character_interf.Base.Lists.{drop, All, All-append, length-append, take, length}
use robotic_character_interf.Protocol.Checksum.Detection.{crc_determines_byte, IsByte}
use robotic_character_interf.Protocol.Checksum.{crc16_ccitt_false}
use robotic_character_interf.Base.Message.{say}

abbrev altered : Frame → List ℕ → Frame
altered f bytes = record { message_type = f.message_type; sequence = f.sequence; payload = bytes }

-- The header and what comes before the byte.
abbrev before_byte : Frame → ℕ → List ℕ → List ℕ
before_byte f size before =
    b'R'
    ∷ b'C'
    ∷ 1
    ∷ type_value f.message_type
    ∷ f.sequence % 256
    ∷ f.sequence / 256
    ∷ size % 256
    ∷ size / 256
    ∷ before

frame_body-altered :
    (f : Frame) (before after : List ℕ) (x : ℕ)
    → frame_body (altered f (before ++ x ∷ after))
      ≡ before_byte f (length before + suc (length after)) before ++ x ∷ after
unfolding frame_body type_value
frame_body-altered f before after x = rw (length-append before (x ∷ after)) refl

altered-IsValid :
    (f : Frame) (before after : List ℕ) (x y : ℕ)
    → IsValid (altered f (before ++ x ∷ after))
    → IsByte y
    → IsValid (altered f (before ++ y ∷ after))
altered-IsValid f before after x y v hy =
    let bytes = (All-append IsByte before (x ∷ after)).0 v.payload_bytes in
    record {
      sequence_fits = v.sequence_fits;
      payload_fits = omega (
        arith,
        v.payload_fits,
        length-append before (x ∷ after),
        length-append before (y ∷ after),
      );
      payload_bytes = (All-append IsByte before (y ∷ after)).1 (bytes.0, (hy, bytes.1.1));
    }

-- The checksum of a valid frame is not that of the frame with one other byte.
crc-altered :
    (f : Frame) (before after : List ℕ) (x y : ℕ)
    → IsValid (altered f (before ++ x ∷ after))
    → IsByte y
    → crc16_ccitt_false (frame_body (altered f (before ++ y ∷ after)))
      ≡ crc16_ccitt_false (frame_body (altered f (before ++ x ∷ after)))
    → y ≡ x
crc-altered f before after x y v hy e =
    let pre = before_byte f (length before + suc (length after)) before in
    let parts =
      (All-append IsByte pre (x ∷ after)).0
        (subst (All IsByte) (frame_body-altered f before after x) (frame_body-All _ v)) in
    crc_determines_byte pre after y x parts.0 parts.1.1 hy parts.1.0 (
      ap crc16_ccitt_false (sym (frame_body-altered f before after y))
      ∙ e
      ∙ ap crc16_ccitt_false (frame_body-altered f before after x))

-- What arrives is the altered frame with the checksum of the frame that was sent.
received-altered :
    (f : Frame) (before after : List ℕ) (x y : ℕ)
    → f.payload ≡ before ++ x ∷ after
    → take 8 (encode f) ++ (before ++ y ∷ after) ++ drop (8 + length f.payload) (encode f)
      ≡ with_crc (altered f (before ++ y ∷ after)) (crc16_ccitt_false (frame_body f))
unfolding encode
received-altered f before after x y split =
    let crc = crc16_ccitt_false (frame_body f) in
    let size : length f.payload ≡ length (before ++ y ∷ after) = omega (
      arith,
      ap length split,
      length-append before (x ∷ after),
      length-append before (y ∷ after),
    ) in
    rw (parts-with_crc f crc).2 (unfold frame_body in rw size refl)

-- If one byte of the payload of an encoded valid frame arrives as another byte, and nothing else
-- changes, decoding reports a checksum mismatch.
pub corrupted_byte_rejected :
    (f : Frame) (before after : List ℕ) (x y : ℕ)
    → IsValid f
    → f.payload ≡ before ++ x ∷ after
    → IsByte y
    → y ≢ x
    → decode (take 8 (encode f) ++ (before ++ y ∷ after) ++ drop (8 + length f.payload) (encode f))
      ≡ err (checksum_error (say "frame checksum mismatch"))
corrupted_byte_rejected f before after x y v split hy differs =
    let good : IsValid (altered f (before ++ x ∷ after)) =
      subst (λ p. IsValid (altered f p)) split v in
    let same : f ≡ altered f (before ++ x ∷ after) = ap (altered f) split in
    let changed : crc16_ccitt_false (frame_body f)
        ≢ crc16_ccitt_false (frame_body (altered f (before ++ y ∷ after))) =
      λ e. differs (
        crc-altered f before after x y good hy
          (sym e ∙ ap (λ g. crc16_ccitt_false (frame_body g)) same)) in
    ap decode (received-altered f before after x y split)
    ∙ decode-with_crc (altered f (before ++ y ∷ after)) (crc16_ccitt_false (frame_body f))
        (altered-IsValid f before after x y good hy)
    ∙ (unfold check_crc in ground (arith, changed))
