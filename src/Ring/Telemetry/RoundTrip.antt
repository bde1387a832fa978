-- ===== src/Ring/Telemetry/RoundTrip.antt =====
-- What one node packs the other parses, and which payloads are refused.
use hill_grov.Base.{
  List, [], ap, append_assoc, arith, drop, drop-append, get_or, get_or-append_right, le16, length,
  length-append, length-take, rd16-le16, rd32-le32, some, suc, sym, take, take-append, take_all,
  zero, ℕ, ◌++◌, ◌+◌, ◌<◌, ◌∙◌, ◌∷◌, ◌≡◌, ◌≤◌,
}
use native.Mathlib.Nat.{add-zero}
use hill_grov.Ring.Telemetry.{
  TimeSync, ts_pack, ts_parse, Assign, assign_pack, assign_parse, strnlen, FwUpdate, text_of,
  fwu_pack, fwu_parse, Ack, ack_pack, ack_parse,
}

pub record IsTimeSync (t : TimeSync) : Type 0 where
  pub utc_fits : t.utc < 4294967296
  pub offset_fits : t.utc_offset_s < 4294967296
  pub mask_fits : t.online_mask < 65536

-- A time broadcast whose fields fit is parsed back from its packed bytes, also when later bytes
-- follow.
pub ts_parse-ts_pack :
    (t : TimeSync) (later : List ℕ) → IsTimeSync t → ts_parse (ts_pack t ++ later) ≡ some t
unfolding ts_parse ts_pack
ts_parse-ts_pack t later v =
    ground (arith, rd32-le32 t.utc, rd32-le32 t.utc_offset_s, rd16-le16 t.online_mask)

-- An identity assignment is parsed from its seven bytes.
pub assign_parse-assign_pack :
    (a : Assign) → length a.mac ≡ 6 → assign_parse (assign_pack a) ≡ some a
unfolding assign_parse assign_pack
assign_parse-assign_pack a h = ground (
  arith,
  take_all 6 a.mac,
  length-append a.mac (a.zone_id ∷ []),
  take-append 6 a.mac (a.zone_id ∷ []),
  get_or-append_right a.mac (a.zone_id ∷ []) 0 0,
  add-zero (length a.mac),
)

strnlen-le : (xs : List ℕ) (n : ℕ) → (strnlen xs n ≤ n) × (strnlen xs n ≤ length xs)
unfolding strnlen
strnlen-le xs zero = omega arith
strnlen-le [] (suc n) = omega arith
strnlen-le (x ∷ xs) (suc n) = ground (arith, strnlen-le xs n)

length-text_of : (xs : List ℕ) (n : ℕ) → length (text_of xs n) ≡ strnlen xs n
length-text_of xs n = omega (arith, length-take (strnlen xs n) xs, strnlen-le xs n)

-- A firmware update order with a 16-bit delay, whose two texts end within their arrays and have
-- at most 95 bytes together, is packed into a buffer of at least 99 bytes and parsed back, each
-- text with its terminator behind it.
pub fwu_parse-fwu_pack :
    (f : FwUpdate) (cap : ℕ)
    → f.reboot_delay_ms < 65536
    → strnlen f.ssid 33 < 33
    → strnlen f.pass 65 < 65
    → strnlen f.ssid 33 + strnlen f.pass 65 ≤ 95
    → 99 ≤ cap
    → (p : List ℕ) × (fwu_pack f cap ≡ some p)
      × (fwu_parse p
          ≡ some
              (record f { ssid = text_of f.ssid 33 ++ 0 ∷ []; pass = text_of f.pass 65 ++ 0 ∷ [] }))
unfolding fwu_pack fwu_parse
fwu_parse-fwu_pack f cap d s w both c = (
  body,
  ground arith,
  ground (
    arith,
    rd16-le16 f.reboot_delay_ms,
    lengths,
    pass_len,
    take-append s_len s_text (p_len ∷ p_text),
    length-text_of f.ssid 33,
    pass_text,
  ),
)
  where
    s_len : ℕ
    s_len = strnlen f.ssid 33

    p_len : ℕ
    p_len = strnlen f.pass 65

    s_text : List ℕ
    s_text = text_of f.ssid 33

    p_text : List ℕ
    p_text = text_of f.pass 65

    front : List ℕ
    front = le16 f.reboot_delay_ms ++ s_len ∷ s_text

    body : List ℕ
    body = front ++ p_len ∷ p_text

    lengths : length body ≡ 4 + s_len + p_len
    lengths = omega (
      arith,
      length-append front (p_len ∷ p_text),
      length-text_of f.ssid 33,
      length-text_of f.pass 65,
    )

    pass_len : get_or body (3 + s_len) 0 ≡ p_len
    pass_len =
        let e : 3 + s_len ≡ length front + 0 = omega (arith, length-text_of f.ssid 33) in
        ap (λ i. get_or body i 0) e ∙ get_or-append_right front (p_len ∷ p_text) 0 0

    pass_text : take p_len (drop (3 + s_len + 1) body) ≡ p_text
    pass_text =
        let e : length (front ++ p_len ∷ []) ≡ 3 + s_len + 1 =
          omega (arith, length-append front (p_len ∷ []), length-text_of f.ssid 33) in
        ap (λ b. take p_len (drop (3 + s_len + 1) b)) (sym (append_assoc front (p_len ∷ []) p_text))
        ∙ ap (take p_len) (drop-append (3 + s_len + 1) (front ++ p_len ∷ []) p_text e)
        ∙ take_all p_len p_text (omega (arith, length-text_of f.pass 65))

-- An acknowledgement with a 16-bit sequence number and a detail of at most 125 bytes is packed
-- into a buffer of at least 128 bytes and parsed back with that detail and a terminator.
pub ack_parse-ack_pack :
    (a : Ack) (cap : ℕ)
    → a.acked_seq < 65536
    → a.detail_len ≤ 125
    → a.detail_len ≤ length a.detail
    → 128 ≤ cap
    → (p : List ℕ) × (ack_pack a cap ≡ some p)
      × (ack_parse p ≡ some (record a { detail = take a.detail_len a.detail ++ 0 ∷ [] }))
unfolding ack_pack ack_parse
ack_parse-ack_pack a cap s d l c = (
  le16 a.acked_seq ++ (a.status ∷ take a.detail_len a.detail),
  ground arith,
  ground (
    arith,
    rd16-le16 a.acked_seq,
    length-take a.detail_len a.detail,
    take_all a.detail_len (take a.detail_len a.detail),
  ),
)
