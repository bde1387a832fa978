-- ===== src/Tests/Wire.antt =====
-- Frames on the line: COBS, the decoder and the way round the ring.
use hill_grov.Base.{
  List, [], arith, false, inl, length-replicate, refl, replicate, some, true, ℕ, ◌∷◌, ◌≡◌,
}
use hill_grov.Ring.Cobs
use hill_grov.Ring.Crc.{crc_byte, crc_loop, crc16}
use hill_grov.Ring.Crc.Bitwise.{register, crc16-register}
use hill_grov.Ring.Cobs.RoundTrip.{decode-encode}
use hill_grov.Ring.Frame.{Hdr, RingDec, feed, feed_all, report}
use hill_grov.Ring.Frame.Decoder.{IsValid, feed-IsValid}
use hill_grov.Ring.Frame.RoundTrip.{IsFrame, wires, deliveries, feed_all-resync}
use hill_grov.Ring.Route.{route, consume, drop_self, t_cmd}
use hill_grov.Link.Travel.{
  Zone, IsAssigned, travel, aged, consumers, ids, travel-delivers, travel-broadcast,
}

abbrev text : List ℕ
text = 7 ∷ 0 ∷ 0 ∷ 9 ∷ []

decode-encode_example : Cobs.decode (Cobs.encode text) ≡ some text
decode-encode_example = decode-encode text

encode_run : Cobs.encode text ≡ 2 ∷ 7 ∷ 1 ∷ 2 ∷ 9 ∷ []
unfolding Cobs.encode Cobs.encode_loop Cobs.encode_byte Cobs.close_block
encode_run = refl

-- The digits 1 to 9, whose check sequence is in the catalogues.
abbrev digits_text : List ℕ
digits_text = 0x31 ∷ 0x32 ∷ 0x33 ∷ 0x34 ∷ 0x35 ∷ 0x36 ∷ 0x37 ∷ 0x38 ∷ 0x39 ∷ []

crc16_run : crc16 digits_text ≡ 0x29b1
unfolding crc16 crc_loop crc_byte
crc16_run = refl

crc16-register_example : crc16 text ≡ register 0xffff text
crc16-register_example =
    crc16-register text (omega arith, (omega arith, (omega arith, (omega arith, tt))))

abbrev command : Hdr
command = record { src = 0; dst = 2; type = t_cmd; flags = 1; ttl = 16; len = 4; seq = 300 }

abbrev empty_frame : Hdr
empty_frame = record { src = 3; dst = 0; type = 2; flags = 0; ttl = 1; len = 0; seq = 65535 }

abbrev frames : List (Hdr × List ℕ)
frames = (command, text) ∷ (empty_frame, []) ∷ []

command-IsFrame : IsFrame command text
command-IsFrame = record { len_eq = refl; len_fits = omega arith; seq_fits = omega arith }

empty_frame-IsFrame : IsFrame empty_frame []
empty_frame-IsFrame = record { len_eq = refl; len_fits = omega arith; seq_fits = omega arith }

-- A decoder with a byte of noise in it.
abbrev noisy : RingDec
noisy = record { buf = replicate 143 5; n = 1 }

noisy-IsValid : IsValid noisy
noisy-IsValid = record { size = length-replicate {A = ℕ} 143 5; fill = inl (omega arith) }

feed-IsValid_example : IsValid (feed noisy 9).0
feed-IsValid_example = feed-IsValid noisy 9 noisy-IsValid

feed_all-resync_example :
    (feed_all noisy (wires frames)).1 ≡ report (feed noisy 0).1 (deliveries frames)
feed_all-resync_example =
    feed_all-resync noisy command text ((empty_frame, []) ∷ []) noisy-IsValid
      (command-IsFrame, (empty_frame-IsFrame, tt))

abbrev zone : ℕ → Zone
zone k = record { id = k; mac = 2 ∷ 0 ∷ 0 ∷ 0 ∷ 0 ∷ k ∷ [] }

two-IsAssigned : IsAssigned (zone 2)
two-IsAssigned = record {
  not_master = λ e. omega arith;
  not_unassigned = λ e. omega arith;
  not_bcast = λ e. omega arith;
}

five-IsAssigned : IsAssigned (zone 5)
five-IsAssigned = record {
  not_master = λ e. omega arith;
  not_unassigned = λ e. omega arith;
  not_bcast = λ e. omega arith;
}

-- The command goes by zone 5 and is consumed by zone 2.
travel-delivers_example :
    (travel (zone 5 ∷ []) command text ≡ some (aged command 1))
    × (route false 2 (zone 2).mac (aged command 1) text ≡ consume)
travel-delivers_example =
    travel-delivers (zone 5 ∷ []) (zone 2) command text refl refl two-IsAssigned
      ((five-IsAssigned, λ e. omega arith), tt) (omega arith) (omega arith)

abbrev to_all : Hdr
to_all = record command { dst = 0xff }

travel-broadcast_example :
    (consumers (zone 5 ∷ zone 2 ∷ []) to_all text ≡ ids (zone 5 ∷ zone 2 ∷ []))
    × (travel (zone 5 ∷ zone 2 ∷ []) to_all text ≡ some (aged to_all 2))
    × (route true 0 [] (aged to_all 2) text ≡ drop_self)
travel-broadcast_example =
    travel-broadcast (zone 5 ∷ zone 2 ∷ []) to_all 0 [] text refl refl
      ((λ e. omega arith, λ e. omega arith), ((λ e. omega arith, λ e. omega arith), tt))
      (omega arith) (omega arith)
