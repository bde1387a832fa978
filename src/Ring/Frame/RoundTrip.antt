-- ===== src/Ring/Frame/RoundTrip.antt =====
-- What the encoder puts on the wire the decoder delivers, from any state that it may be in.
use hill_grov.Base.{
  All, List, [], ap, append-nil, append_assoc, arith, get_or, get_or-append_right, inl, le16,
  length, length-append, length-set, length-take, rd16-le16, refl, set, some, take, take-append,
  take-set, take_all, ℕ, ◌++◌, ◌+◌, ◌<◌, ◌∙◌, ◌∷◌, ◌≡◌, ◌≤◌,
}
use native.Mathlib.Nat.{add-zero}
use native.Mathlib.Numerals.{add-one}
use hill_grov.Ring.Crc.{crc16}
use hill_grov.Ring.Crc.Bounds.{crc16-lt}
use hill_grov.Ring.Cobs
use hill_grov.Ring.Cobs.RoundTrip.{
  decode-encode, encode-NonZero, length-encode, encode-pos, NonZero,
}
use hill_grov.Ring.Frame.{
  Hdr, raw_header, raw_frame, encode, RingDec, Feed, more, frame, reset, check_raw, check_cobs,
  feed, report, feed_all,
}
use hill_grov.Ring.Frame.Decoder.{IsValid}

-- A header that its payload fits.
pub record IsFrame (h : Hdr) (payload : List ℕ) : Type 0 where
  pub len_eq : h.len ≡ length payload
  pub len_fits : h.len ≤ 128
  pub seq_fits : h.seq < 65536

length-raw_frame : {h : Hdr} {p : List ℕ} → IsFrame h p → length (raw_frame h p) ≡ h.len + 11
unfolding raw_frame
length-raw_frame {h} {p} v = ground (
  arith,
  length-append (raw_header h ++ take h.len p) (le16 (crc16 (raw_header h ++ take h.len p))),
  length-append (raw_header h) (take h.len p),
  length-take h.len p,
)

-- The same bytes, with the payload taken whole.
abbrev parts : Hdr → List ℕ → ℕ → List ℕ
parts h p c = raw_header h ++ (p ++ le16 c)

raw_frame-parts :
    (h : Hdr) (p : List ℕ) → IsFrame h p → raw_frame h p ≡ parts h p (crc16 (raw_header h ++ p))
unfolding raw_frame
raw_frame-parts h p v = let e : take h.len p ≡ p = take_all h.len p (omega arith) in rw e

-- The bytes behind the payload are those of the check sequence.
tail_byte :
    (h : Hdr) (p : List ℕ) (c k : ℕ)
    → h.len ≡ length p
    → get_or (parts h p c) (9 + h.len + k) 0 ≡ get_or (le16 c) k 0
tail_byte h p c k e =
    let i : 9 + h.len + k ≡ length (raw_header h ++ p) + k = omega (arith, e) in
    ap (λ j. get_or (parts h p c) j 0) i ∙ get_or-append_right (raw_header h ++ p) (le16 c) k 0

check_raw-parts :
    (h : Hdr) (p : List ℕ)
    → IsFrame h p
    → check_raw (parts h p (crc16 (raw_header h ++ p))) ≡ frame h p
unfolding check_raw
check_raw-parts h p v =
    let c = crc16 (raw_header h ++ p) in
    ground (
      arith,
      length-append p (le16 c),
      take-append (9 + h.len) (raw_header h ++ p) (le16 c),
      take-append h.len p (le16 c),
      tail_byte h p c 0 v.len_eq,
      tail_byte h p c 1 v.len_eq,
      add-zero (9 + h.len),
      crc16-lt (raw_header h ++ p),
      rd16-le16 c,
      rd16-le16 h.seq,
    )

check_raw-raw_frame : (h : Hdr) (p : List ℕ) → IsFrame h p → check_raw (raw_frame h p) ≡ frame h p
check_raw-raw_frame h p v = rw (raw_frame-parts h p v) (check_raw-parts h p v)

pub wire : Hdr → List ℕ → List ℕ
wire h p = 0 ∷ (Cobs.encode (raw_frame h p) ++ 0 ∷ [])

-- A frame whose payload has the length that its header says, at most 128, and whose sequence
-- number fits 16 bits is encoded when the buffer has at least 142 bytes, as a delimiter, the
-- stuffed content and a delimiter.
pub encode-wire :
    (h : Hdr) (p : List ℕ) (cap : ℕ) → IsFrame h p → 142 ≤ cap → encode h p cap ≡ some (wire h p)
unfolding encode wire
encode-wire h p cap v c = ground (arith, length-raw_frame v, length-encode (raw_frame h p))

-- The decoder between delimiters, holding `bytes`.
record Holds (d : RingDec) (bytes : List ℕ) : Type 0 where
  size : length d.buf ≡ 143
  count : d.n ≡ length bytes
  held : take d.n d.buf ≡ bytes

stored : RingDec → ℕ → RingDec
stored d b = record { buf = set d.buf d.n b; n = d.n + 1 }

feed-stored : (d : RingDec) (b : ℕ) → NonZero b → d.n < 141 → feed d b ≡ (stored d b, more)
unfolding feed stored
feed-stored d b nz lt = ground arith

stored-Holds :
    (d : RingDec) (bytes : List ℕ) (b : ℕ)
    → Holds d bytes
    → length bytes < 141
    → Holds (stored d b) (bytes ++ b ∷ [])
unfolding stored
stored-Holds d bytes b v lt = record {
  size = omega (arith, length-set d.buf d.n b);
  count = omega (arith, length-append bytes (b ∷ []));
  held = rw add-one (take-set d.buf d.n b (omega arith) ∙ ap (λ r. r ++ b ∷ []) v.held);
}

feed_all-cons :
    (d d' : RingDec) (b : ℕ) (rest : List ℕ)
    → feed d b ≡ (d', more)
    → feed_all d (b ∷ rest) ≡ feed_all d' rest
unfolding feed_all report
feed_all-cons d d' b rest e = rw e

-- Bytes between delimiters are held and nothing is reported.
feed_all-Holds :
    (bs : List ℕ) (d : RingDec) (bytes rest : List ℕ)
    → Holds d bytes
    → All NonZero bs
    → length bytes + length bs ≤ 141
    → (d' : RingDec) × Holds d' (bytes ++ bs) × (feed_all d (bs ++ rest) ≡ feed_all d' rest)
feed_all-Holds [] d bytes rest v nz lt = (d, rw append-nil v, refl)
feed_all-Holds (b ∷ bs) d bytes rest v nz lt =
    let (d', v', e) =
      feed_all-Holds bs (stored d b) (bytes ++ b ∷ []) rest (stored-Holds d bytes b v (omega arith))
        nz.1 (omega (arith, length-append bytes (b ∷ []))) in
    (
      d',
      rw append_assoc at v',
      feed_all-cons d (stored d b) b (bs ++ rest) (feed-stored d b nz.0 (omega arith)) ∙ e,
    )

-- The delimiter behind a frame makes the decoder report it.
feed-delimiter :
    (d : RingDec) (h : Hdr) (p : List ℕ)
    → IsFrame h p
    → Holds d (Cobs.encode (raw_frame h p))
    → feed d 0 ≡ (reset d, frame h p)
unfolding feed
feed-delimiter d h p v k =
    let raw = raw_frame h p in
    let fits : d.n < 142 = omega (arith, length-encode raw, length-raw_frame v) in
    let pos : 0 < d.n = omega (arith, encode-pos raw) in
    let result : check_cobs (Cobs.decode (take d.n d.buf)) ≡ frame h p =
      rw (k.held, decode-encode) (unfold check_cobs in check_raw-raw_frame h p v) in
    ground (arith, result)

reset-Holds : (d : RingDec) → IsValid d → Holds (reset d) []
unfolding reset
reset-Holds d v = record { size = v.size; count = refl; held = refl }

feed-zero : (d : RingDec) → (feed d 0).0 ≡ reset d
unfolding feed
feed-zero d = ground arith

-- The content of a frame and the delimiter behind it.
feed_all-content :
    (d : RingDec) (h : Hdr) (p rest : List ℕ)
    → IsFrame h p
    → Holds d []
    → (d' : RingDec) × IsValid d'
      × (d'.n ≡ 0)
      × (feed_all d (Cobs.encode (raw_frame h p) ++ 0 ∷ rest)
          ≡ ((feed_all d' rest).0, frame h p ∷ (feed_all d' rest).1))
unfolding feed_all report
feed_all-content d h p rest v k =
    let cobs = Cobs.encode (raw_frame h p) in
    let (d', k', e) =
      feed_all-Holds cobs d [] (0 ∷ rest) k (encode-NonZero (raw_frame h p))
        (omega (arith, length-encode (raw_frame h p), length-raw_frame v)) in
    (
      reset d',
      unfold reset in record { size = k'.size; fill = inl (omega arith) },
      unfold reset in refl,
      e ∙ rw (feed-delimiter d' h p v k') refl,
    )

pub wires : List (Hdr × List ℕ) → List ℕ
wires [] = []
wires ((h, p) ∷ fs) = wire h p ++ wires fs

pub deliveries : List (Hdr × List ℕ) → List Feed
deliveries [] = []
deliveries ((h, p) ∷ fs) = frame h p ∷ deliveries fs

abbrev pub AreFrames : List (Hdr × List ℕ) → Type 0
AreFrames = All (λ f. IsFrame f.0 f.1)

-- A frame on the wire, whatever state the decoder was in.
feed_all-wire :
    (d : RingDec) (h : Hdr) (p rest : List ℕ)
    → IsFrame h p
    → IsValid d
    → (d' : RingDec) × IsValid d'
      × (d'.n ≡ 0)
      × ((feed_all d (wire h p ++ rest)).1 ≡ report (feed d 0).1 (frame h p ∷ (feed_all d' rest).1))
unfolding feed_all wire
feed_all-wire d h p rest v k =
    let (d', valid, empty, e) = feed_all-content (reset d) h p rest v (reset-Holds d k) in
    (
      d',
      valid,
      empty,
      ap (report (feed d 0).1) (
          ap (λ t. (feed_all t ((Cobs.encode (raw_frame h p) ++ 0 ∷ []) ++ rest)).1) (feed-zero d)
          ∙ ap (λ bs. (feed_all (reset d) bs).1)
              (append_assoc (Cobs.encode (raw_frame h p)) (0 ∷ []) rest)
          ∙ ap (λ r. r.1) e),
    )

-- From a decoder between frames.
feed_all-wires :
    (d : RingDec) (fs : List (Hdr × List ℕ))
    → IsValid d
    → d.n ≡ 0
    → AreFrames fs
    → (feed_all d (wires fs)).1 ≡ deliveries fs
unfolding wires deliveries report
feed_all-wires d [] v e ok = unfold feed_all in refl
feed_all-wires d ((h, p) ∷ fs) v e ok =
    let (d', valid, empty, r) = feed_all-wire d h p (wires fs) ok.0 v in
    r
    ∙ ap (λ t. report t (frame h p ∷ (feed_all d' (wires fs)).1)) (idle d e)
    ∙ ap (λ t. frame h p ∷ t) (feed_all-wires d' fs valid empty ok.1)
  where
    idle : (d : RingDec) → d.n ≡ 0 → (feed d 0).1 ≡ more
    idle d e = unfold feed in ground arith

-- From any valid state of the decoder, feeding it the encodings of a run of frames whose
-- payloads have the length that their headers say (at most 128) makes it report every one of the
-- frames in order, and nothing else but what the first delimiter makes of the bytes that it held
-- before.
pub feed_all-resync :
    (d : RingDec) (h : Hdr) (p : List ℕ) (fs : List (Hdr × List ℕ))
    → IsValid d
    → AreFrames ((h, p) ∷ fs)
    → (feed_all d (wires ((h, p) ∷ fs))).1 ≡ report (feed d 0).1 (deliveries ((h, p) ∷ fs))
unfolding wires deliveries
feed_all-resync d h p fs v ok =
    let (d', valid, empty, r) = feed_all-wire d h p (wires fs) ok.0 v in
    r ∙ ap (λ t. report (feed d 0).1 (frame h p ∷ t)) (feed_all-wires d' fs valid empty ok.1)
