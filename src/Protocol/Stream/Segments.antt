-- ===== src/Protocol/Stream/Segments.antt =====
-- rci/protocols/stream.py: how the loop cuts the bytes into segments.
use mathlib.Core.List.{append_assoc}
use robotic_character_interf.Base.{
  ℕ, ◌+◌, ◌-◌, ◌≤◌, ◌≡◌, refl, sym, subst, arith, inl, inr, Bool-cases, if_both, ltb, if◌then◌else◌,
  Option, none, some, List, [], ◌∷◌, ◌++◌, ◌==◌,
}
use robotic_character_interf.Base.Lists.{length, take, drop, length-take, take-append-drop}
use robotic_character_interf.Base.Message.{Message, say}
use robotic_character_interf.Protocol.Framing.{
  Frame, Header, Result, ok, err, checksum_error, protocol_error, decode, unpack_header,
}
use robotic_character_interf.Protocol.Stream.{
  starts_with_magic, Turn, stop, again, StreamIssue, StreamIssueKind, issue, desync_issue,
  invalid_header, invalid_frame, checksum_mismatch, take_candidate, take_header, validate_header,
  parse, discard_all, ends_in_magic, find_magic, turn,
}
use robotic_character_interf.Protocol.Stream.Accounting.{find_magic-Within, Within}

-- The bytes are, from the first to the last, the segments of the frames and of the issues, each list
-- in its order, and then the rest. The segment of a frame decodes to it, and that of an issue is as
-- long as the issue says.
pub data Parsed : List ℕ → List Frame → List StreamIssue → List ℕ → Type 0 where
  left : (bytes : List ℕ) → Parsed bytes [] [] bytes
  framed :
      (segment bytes : List ℕ) (f : Frame) {whole rest : List ℕ} {frames : List Frame}
      {issues : List StreamIssue}
      → segment ++ bytes ≡ whole
      → decode segment ≡ ok f
      → Parsed bytes frames issues rest
      → Parsed whole (f ∷ frames) issues rest
  dropped :
      (segment bytes : List ℕ) (i : StreamIssue) {whole rest : List ℕ} {frames : List Frame}
      {issues : List StreamIssue}
      → segment ++ bytes ≡ whole
      → length segment ≡ i.discarded_bytes
      → Parsed bytes frames issues rest
      → Parsed whole frames (i ∷ issues) rest

-- What is left of the whole is this buffer, after these issues.
record Reaches (whole : List ℕ) (issues : List StreamIssue) (buffer : List ℕ) : Type 0 where
  here : Parsed whole [] issues buffer
  on :
      (frames : List Frame) (later : List StreamIssue) (rest : List ℕ)
      → Parsed buffer frames later rest
      → Parsed whole frames (issues ++ later) rest

abbrev pub TurnParses : List ℕ → Turn → Type 0
TurnParses whole (stop rest issues) = Parsed whole [] issues rest
TurnParses whole (again rest frames issues) =
    (more : List Frame) (later : List StreamIssue) (left_over : List ℕ)
    → Parsed rest more later left_over
    → Parsed whole (frames ++ more) (issues ++ later) left_over

-- The first bytes of the buffer are dropped with an issue.
issue_off :
    (whole buffer : List ℕ) (issues : List StreamIssue) (i : StreamIssue)
    → i.discarded_bytes ≤ length buffer
    → Reaches whole issues buffer
    → TurnParses whole (again (drop i.discarded_bytes buffer) [] (issues ++ i ∷ []))
issue_off whole buffer issues i fits r frames later rest p =
    subst (λ is. Parsed whole frames is rest) (sym (append_assoc issues (i ∷ []) later))
      (r.on frames (i ∷ later) rest (
        dropped (take i.discarded_bytes buffer) (drop i.discarded_bytes buffer) i
          (take-append-drop i.discarded_bytes buffer)
          (omega (arith, length-take i.discarded_bytes buffer, fits)) p))

one_off :
    (whole buffer : List ℕ) (issues : List StreamIssue) (kind : StreamIssueKind) (m : Message)
    → 1 ≤ length buffer
    → Reaches whole issues buffer
    → TurnParses whole (again (drop 1 buffer) [] (issues ++ issue kind m 1 ∷ []))
one_off whole buffer issues kind m full r = issue_off whole buffer issues (issue kind m 1) full r

take_candidate-TurnParses :
    (whole buffer : List ℕ) (issues : List StreamIssue) (size : ℕ) (o : Result Frame)
    → 1 ≤ length buffer
    → size ≤ length buffer
    → decode (take size buffer) ≡ o
    → Reaches whole issues buffer
    → TurnParses whole (take_candidate buffer issues size o)
unfolding take_candidate
take_candidate-TurnParses whole buffer issues size (ok f) full fits e r = λ frames later rest p.
    r.on (f ∷ frames) later rest
      (framed (take size buffer) (drop size buffer) f (take-append-drop size buffer) e p)
take_candidate-TurnParses whole buffer issues size (err (checksum_error m)) full fits e r =
    issue_off whole buffer issues (issue checksum_mismatch m size) fits r
take_candidate-TurnParses whole buffer issues size (err (protocol_error m)) full fits e r =
    one_off whole buffer issues invalid_frame m full r

candidate-TurnParses :
    (max : ℕ) (whole buffer : List ℕ) (issues : List StreamIssue) (size : ℕ)
    → 1 ≤ length buffer
    → Reaches whole issues buffer
    → TurnParses whole (
        if ltb max size
        then again (drop 1 buffer) [] (
            issues
            ++ issue invalid_header (say "declared frame exceeds stream buffer limit") 1 ∷ [])
        else if ltb (length buffer) size
        then stop buffer issues
        else take_candidate buffer issues size (decode (take size buffer)))
candidate-TurnParses max whole buffer issues size full r =
    if_both (TurnParses whole) (ltb max size) (one_off whole buffer issues _ _ full r)
      (elim (Bool-cases (ltb (length buffer) size)) [
        | inl short ↦ rw short r.here
        | inr long ↦ rw long (
            take_candidate-TurnParses whole buffer issues size (decode (take size buffer)) full
              (ground (arith, long)) refl r)
      ])

checked-TurnParses :
    (max : ℕ) (whole buffer : List ℕ) (issues : List StreamIssue) (size : ℕ) (o : Option Message)
    → 1 ≤ length buffer
    → Reaches whole issues buffer
    → TurnParses whole (elim o [
      | some m ↦ again (drop 1 buffer) [] (issues ++ issue invalid_header m 1 ∷ [])
      | none ↦
          if ltb max size
          then again (drop 1 buffer) [] (
              issues
              ++ issue invalid_header (say "declared frame exceeds stream buffer limit") 1 ∷ [])
          else if ltb (length buffer) size
          then stop buffer issues
          else take_candidate buffer issues size (decode (take size buffer))
    ])
checked-TurnParses max whole buffer issues size none full r =
    candidate-TurnParses max whole buffer issues size full r
checked-TurnParses max whole buffer issues size (some m) full r =
    one_off whole buffer issues invalid_header m full r

take_header-TurnParses :
    (max : ℕ) (whole buffer : List ℕ) (issues : List StreamIssue) (h : Header)
    → 1 ≤ length buffer
    → Reaches whole issues buffer
    → TurnParses whole (take_header max buffer issues h)
unfolding take_header
take_header-TurnParses max whole buffer issues h full r =
    checked-TurnParses max whole buffer issues (8 + h.payload_length + 2)
      (validate_header h.version h.raw_type h.payload_length) full r

unpacked-TurnParses :
    (max : ℕ) (whole buffer : List ℕ) (issues : List StreamIssue) (o : Option Header)
    → 1 ≤ length buffer
    → Reaches whole issues buffer
    → TurnParses whole
        (elim o [ none ↦ stop buffer issues | some h ↦ take_header max buffer issues h ])
unpacked-TurnParses max whole buffer issues none full r = r.here
unpacked-TurnParses max whole buffer issues (some h) full r =
    take_header-TurnParses max whole buffer issues h full r

parse-TurnParses :
    (max : ℕ) (whole buffer : List ℕ) (issues : List StreamIssue)
    → Reaches whole issues buffer
    → TurnParses whole (parse max buffer issues)
unfolding parse
parse-TurnParses max whole buffer issues r = elim (Bool-cases (ltb (length buffer) 8)) [
  | inl short ↦ rw short r.here
  | inr long ↦
      rw long (
        unpacked-TurnParses max whole buffer issues (unpack_header buffer) (ground (arith, long)) r)
]

nothing-Reaches : (buffer : List ℕ) → Reaches buffer [] buffer
nothing-Reaches buffer = record { here = left buffer; on = λ frames later rest p. p }

desync-Reaches :
    (i : ℕ) (buffer : List ℕ)
    → i ≤ length buffer
    → Reaches buffer (desync_issue i ∷ []) (drop i buffer)
desync-Reaches i buffer fits =
    let size : length (take i buffer) ≡ i = omega (arith, length-take i buffer, fits) in
    record {
      here =
          dropped (take i buffer) (drop i buffer) (desync_issue i) (take-append-drop i buffer) size
            (left _);
      on = λ frames later rest p.
          dropped (take i buffer) (drop i buffer) (desync_issue i) (take-append-drop i buffer) size
            p;
    }

discarded-TurnParses :
    (n : ℕ) (buffer : List ℕ)
    → n ≤ length buffer
    → TurnParses buffer
        (if n == 0 then stop buffer [] else stop (drop n buffer) (desync_issue n ∷ []))
discarded-TurnParses n buffer fits =
    if_both (TurnParses buffer) (n == 0) (left buffer) (desync-Reaches n buffer fits).here

discard_all-TurnParses : (buffer : List ℕ) → TurnParses buffer (discard_all buffer)
unfolding discard_all
discard_all-TurnParses buffer =
    discarded-TurnParses (length buffer - (if ends_in_magic buffer then 1 else 0)) buffer
      (omega arith)

found-TurnParses :
    (max : ℕ) (buffer : List ℕ) (o : Option ℕ)
    → Within o (length buffer)
    → TurnParses buffer (elim o [
      | none ↦ discard_all buffer
      | some i ↦ parse max (drop i buffer) (desync_issue i ∷ [])
    ])
found-TurnParses max buffer none le = discard_all-TurnParses buffer
found-TurnParses max buffer (some i) le =
    parse-TurnParses max buffer (drop i buffer) (desync_issue i ∷ []) (desync-Reaches i buffer le)

-- A turn of the loop takes whole segments off the buffer's front.
pub turn-TurnParses : (max : ℕ) (buffer : List ℕ) → TurnParses buffer (turn max buffer)
unfolding turn
turn-TurnParses max buffer = if_both (TurnParses buffer) (ltb (length buffer) 2) (left buffer) (
    if_both (TurnParses buffer) (starts_with_magic buffer)
      (parse-TurnParses max buffer buffer [] (nothing-Reaches buffer))
      (found-TurnParses max buffer (find_magic buffer) (find_magic-Within buffer)))
