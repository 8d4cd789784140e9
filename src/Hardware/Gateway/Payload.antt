-- ===== src/Hardware/Gateway/Payload.antt =====
-- rci/hardware/robot_gateway.py: what the codec makes of the targets.
use robotic_character_interf.Base.{
  ◌%◌, ◌/◌, ◌/◌, ◌*◌, ℕ, zero, suc, ◌+◌, ◌<◌, ◌≡◌, refl, ap, arith, true, false, Option, List, [],
  ◌∷◌, ◌++◌,
}
use robotic_character_interf.Base.Dict.{Dict}
use robotic_character_interf.Base.Float.{Float}
use robotic_character_interf.Base.Int.{pos_part, ℤ, pos, negsuc, leb_ℤ}
use robotic_character_interf.Base.Lists.{length-append, All-append, All, length}
use robotic_character_interf.Hardware.Gateway.{has_bad_id}
use robotic_character_interf.Hardware.Gateway.Commands.{uuid_bytes, uuid_bytes_from}
use robotic_character_interf.Hardware.Gateway.Exact.{Matches}
use robotic_character_interf.Protocol.Messages.Motion.{target_bytes, encode_targets, JointTarget}
use robotic_character_interf.Hardware.Gateway.Decimals.{Decimal}
use robotic_character_interf.Protocol.Messages.{to_word, require_int16, require_uint}
use robotic_character_interf.Protocol.Framing.{pack_u16, ok}
use robotic_character_interf.Hardware.Gateway.Encoding.{lookup_range}
use robotic_character_interf.Protocol.Checksum.Detection.{IsByte}

-- What the codec asks of a target.
pub record IsTarget (t : JointTarget) : Type 0 where
  pub id_low : leb_ℤ (pos 0) t.joint_id ≡ true
  pub id_high : leb_ℤ t.joint_id (pos 255) ≡ true
  pub angle_low : leb_ℤ (negsuc 32767) t.target_cdeg ≡ true
  pub angle_high : leb_ℤ t.target_cdeg (pos 32767) ≡ true

pub Matches-IsTarget :
    (decimal_of : Float → Option Decimal) (ids : Dict ℤ) (d : Dict Float)
    (targets : List JointTarget)
    → has_bad_id ids ≡ false
    → Matches decimal_of ids d targets
    → All IsTarget targets
Matches-IsTarget decimal_of ids [] [] good m = tt
Matches-IsTarget decimal_of ids [] (t ∷ targets) good m = absurd m
Matches-IsTarget decimal_of ids ((k, angle) ∷ d) [] good m = absurd m
Matches-IsTarget decimal_of ids ((k, angle) ∷ d) (t ∷ targets) good m =
    let (low, high) = lookup_range ids k t.joint_id good m.0 in
    (
      record { id_low = low; id_high = high; angle_low = m.1.low; angle_high = m.1.high },
      Matches-IsTarget decimal_of ids d targets good m.2,
    )

pub Matches-length :
    (decimal_of : Float → Option Decimal) (ids : Dict ℤ) (d : Dict Float)
    (targets : List JointTarget)
    → Matches decimal_of ids d targets
    → length targets ≡ length d
Matches-length decimal_of ids [] [] m = refl
Matches-length decimal_of ids [] (t ∷ targets) m = absurd m
Matches-length decimal_of ids ((k, angle) ∷ d) [] m = absurd m
Matches-length decimal_of ids ((k, angle) ∷ d) (t ∷ targets) m =
    ap (λ n. suc n) (Matches-length decimal_of ids d targets m.2)

-- So many bytes.
pub record IsPayload (bytes : List ℕ) (size : ℕ) : Type 0 where
  pub all_bytes : All IsByte bytes
  pub sized : length bytes ≡ size

id-IsByte : (z : ℤ) → leb_ℤ z (pos 255) ≡ true → IsByte (pos_part z)
id-IsByte z h = ground arith

word_of_number :
    (z : ℤ) → leb_ℤ (negsuc 32767) z ≡ true → leb_ℤ z (pos 32767) ≡ true → to_word z < 65536
word_of_number (pos n) low high = ground arith
word_of_number (negsuc n) low high = ground arith

pub pack_u16-All :
    (n : ℕ) (rest : List ℕ) → n < 65536 → All IsByte rest → All IsByte (pack_u16 n ++ rest)
pack_u16-All n rest h r = (omega arith, (omega (arith, h), r))

target_bytes-IsPayload :
    (t : JointTarget) (rest : List ℕ) (size : ℕ)
    → IsTarget t
    → IsPayload rest size
    → IsPayload (target_bytes t ++ rest) (3 + size)
target_bytes-IsPayload t rest size g p = record {
  all_bytes = (
    id-IsByte t.joint_id g.id_high,
    pack_u16-All (to_word t.target_cdeg) rest
        (word_of_number t.target_cdeg g.angle_low g.angle_high) p.all_bytes,
  );
  sized = omega (arith, p.sized);
}

pub encode_targets-IsTarget :
    (targets : List JointTarget) (tail : List ℕ) (size : ℕ)
    → All IsTarget targets
    → IsPayload tail size
    → (bytes : List ℕ) × (encode_targets targets tail ≡ ok bytes)
      × IsPayload bytes (length targets * 3 + size)
unfolding encode_targets require_uint require_int16
encode_targets-IsTarget [] tail size good p =
    (tail, refl, record { all_bytes = p.all_bytes; sized = omega (arith, p.sized) })
encode_targets-IsTarget (t ∷ targets) tail size good p =
    let (rest, encoded, q) = encode_targets-IsTarget targets tail size good.1 p in
    let g = good.0 in
    let r = target_bytes-IsPayload t rest (length targets * 3 + size) g q in
    (
      target_bytes t ++ rest,
      ground (arith, encoded, g.id_low, g.id_high, g.angle_low, g.angle_high),
      record { all_bytes = r.all_bytes; sized = omega (arith, r.sized) },
    )

uuid_bytes_from-IsPayload :
    (k n : ℕ) (bytes : List ℕ) (size : ℕ)
    → IsPayload bytes size
    → IsPayload (uuid_bytes_from k n bytes) (k + size)
uuid_bytes_from-IsPayload Prim.Native.Nat.zero n bytes size p = record {
  all_bytes = p.all_bytes;
  sized = omega (arith, p.sized);
}
uuid_bytes_from-IsPayload (Prim.Native.Nat.suc k) n bytes size p =
    let q =
      uuid_bytes_from-IsPayload k (n / 256) (n % 256 ∷ bytes) (suc size)
        (record { all_bytes = (omega arith, p.all_bytes); sized = omega (arith, p.sized) }) in
    record { all_bytes = q.all_bytes; sized = omega (arith, q.sized) }

pub uuid_bytes-IsPayload : (n : ℕ) → IsPayload (uuid_bytes n) 16
uuid_bytes-IsPayload n =
    uuid_bytes_from-IsPayload 16 n [] 0 (record { all_bytes = tt; sized = refl })

pub IsPayload-append :
    {xs ys : List ℕ} {m n : ℕ} → IsPayload xs m → IsPayload ys n → IsPayload (xs ++ ys) (m + n)
IsPayload-append {xs = xs} {ys = ys} p q = record {
  all_bytes = (All-append IsByte xs ys).1 (p.all_bytes, q.all_bytes);
  sized = omega (arith, length-append xs ys, p.sized, q.sized);
}
