-- ===== src/Protocol/Stream/Parts.antt =====
-- rci/protocols/stream.py: a turn of the loop on a buffer with a part of an encoded frame.
use robotic_character_interf.Base.{
  ℕ, ◌+◌, ◌≤◌, ◌<◌, ◌≡◌, refl, sym, ap, ◌∙◌, true, some, List, [], ◌∷◌, ◌++◌, arith,
}
use mathlib.Core.List.{cons-eq-cons}
use robotic_character_interf.Protocol.Stream.{stop, parse, starts_with_magic, turn, take_header}
use robotic_character_interf.Protocol.Framing.{encode, unpack_header, Frame}
use robotic_character_interf.Protocol.Framing.RoundTrip.{header_of, IsValid}
use robotic_character_interf.Protocol.Stream.Delivery.{
  starts_with_magic-encode, unpack_header-encode, validate_header-header_of,
}
use robotic_character_interf.Base.Lists.{length}
use native.Mathlib.Decide.{dec_lt}

starts_with_magic-append :
    (p rest : List ℕ) → 2 ≤ length p → starts_with_magic (p ++ rest) ≡ starts_with_magic p
unfolding starts_with_magic
starts_with_magic-append [] rest h = absurd (omega arith)
starts_with_magic-append (a ∷ []) rest h = absurd (omega arith)
starts_with_magic-append (a ∷ b ∷ p) rest h = refl

unpack_header-append :
    (p rest : List ℕ) → 8 ≤ length p → unpack_header (p ++ rest) ≡ unpack_header p
unfolding unpack_header
unpack_header-append [] rest h = absurd (omega arith)
unpack_header-append (a ∷ []) rest h = absurd (omega arith)
unpack_header-append (a ∷ b ∷ []) rest h = absurd (omega arith)
unpack_header-append (a ∷ b ∷ c ∷ []) rest h = absurd (omega arith)
unpack_header-append (a ∷ b ∷ c ∷ d ∷ []) rest h = absurd (omega arith)
unpack_header-append (a ∷ b ∷ c ∷ d ∷ e ∷ []) rest h = absurd (omega arith)
unpack_header-append (a ∷ b ∷ c ∷ d ∷ e ∷ f ∷ []) rest h = absurd (omega arith)
unpack_header-append (a ∷ b ∷ c ∷ d ∷ e ∷ f ∷ g ∷ []) rest h = absurd (omega arith)
unpack_header-append (a ∷ b ∷ c ∷ d ∷ e ∷ f ∷ g ∷ i ∷ p) rest h = refl

-- A part of the bytes of a frame that is not all of them.
pub record IsPart (f : Frame) (p : List ℕ) : Type 0 where
  pub rest : List ℕ
  pub tail : List ℕ
  pub split : p ++ rest ≡ encode f ++ tail
  pub short : length p < 10 + length f.payload

take_header-part :
    (max : ℕ) (f : Frame) (p : List ℕ)
    → IsValid f
    → 10 + length f.payload ≤ max
    → length p < 10 + length f.payload
    → take_header max p [] (header_of f) ≡ stop p []
unfolding take_header
take_header-part max f p v fits short = ground (arith, validate_header-header_of f v)

parse-part :
    (max : ℕ) (f : Frame) (p : List ℕ)
    → IsValid f
    → 10 + length f.payload ≤ max
    → IsPart f p
    → 8 ≤ length p
    → parse max p [] ≡ stop p []
unfolding parse
parse-part max f p v fits part long =
    let unpacked : unpack_header p ≡ some (header_of f) =
      sym (unpack_header-append p part.rest long)
      ∙ ap unpack_header part.split
      ∙ unpack_header-encode f part.tail in
    ground (arith, unpacked, take_header-part max f p v fits part.short)

parse_short : (max : ℕ) (p : List ℕ) → length p < 8 → parse max p [] ≡ stop p []
unfolding parse
parse_short max p h = ground arith

-- A turn of the loop waits for the rest of the frame.
pub turn-part :
    (max : ℕ) (f : Frame) (p : List ℕ)
    → IsValid f
    → 10 + length f.payload ≤ max
    → IsPart f p
    → turn max p ≡ stop p []
unfolding turn
turn-part max f p v fits part = elim (dec_lt (length p) 2) [
  | yes tiny ↦ ground (arith, tiny)
  | no more ↦
      let magic : starts_with_magic p ≡ true =
        sym (starts_with_magic-append p part.rest (omega arith))
        ∙ ap starts_with_magic part.split
        ∙ starts_with_magic-encode f part.tail in
      elim (dec_lt (length p) 8) [
        | yes short ↦ ground (arith, magic, parse_short max p short)
        | no long ↦ ground (arith, magic, parse-part max f p v fits part (omega arith))
      ]
]

-- Two ways to split one list: the shorter front is a part of the longer one.
pub append_split :
    (xs ys p rest : List ℕ)
    → xs ++ ys ≡ p ++ rest
    → length xs ≤ length p
    → (q : List ℕ) × (p ≡ xs ++ q) × (ys ≡ q ++ rest)
append_split [] ys p rest e h = (p, refl, e)
append_split (x ∷ xs) ys [] rest e h = absurd (omega arith)
append_split (x ∷ xs) ys (y ∷ p) rest e h =
    let (same, tails) = cons-eq-cons.0 e in
    let (q, front, back) = append_split xs ys p rest tails (omega arith) in
    (q, ap (λ t. y ∷ t) front ∙ ap (λ t. t ∷ (xs ++ q)) (sym same), back)
