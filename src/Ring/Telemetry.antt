-- ===== src/Ring/Telemetry.antt =====
-- components/ring_proto/ring_tlm.c: the payloads of the ring's frames but for the heartbeat. A null
-- pointer is not modelled: every array is there. `none` is a return of -1.
pub mod RoundTrip
use hill_grov.Base.{
  List, Option, [], drop, get_or, if◌then◌else◌, le16, le32, leb, length, ltb, none, not, rd16,
  rd32, some, suc, take, u8, zero, ℕ, ◌++◌, ◌+◌, ◌-◌, ◌==◌, ◌||◌, ◌∷◌,
}

-- `hg_ts_t`; the offset is the bit pattern of an `int32_t`.
pub record TimeSync : Type 0 where
  pub utc : ℕ
  pub utc_offset_s : ℕ
  pub flags : ℕ
  pub ring_size : ℕ
  pub online_mask : ℕ
  pub inhibit_mask : ℕ

abbrev pub hg_ts_len : ℕ
hg_ts_len = 13

-- `hg_ts_pack`
unfoldable pub ts_pack : TimeSync → List ℕ
ts_pack t =
    le32 t.utc
    ++ (le32 t.utc_offset_s
        ++ (t.flags ∷ t.ring_size ∷ (le16 t.online_mask ++ t.inhibit_mask ∷ [])))

-- `hg_ts_parse`
unfoldable pub ts_parse : List ℕ → Option TimeSync
ts_parse p =
    let at = λ (i : ℕ). get_or p i 0 in
    let t : TimeSync = record {
      utc = rd32 (at 0) (at 1) (at 2) (at 3);
      utc_offset_s = rd32 (at 4) (at 5) (at 6) (at 7);
      flags = at 8;
      ring_size = at 9;
      online_mask = rd16 (at 10) (at 11);
      inhibit_mask = at 12;
    } in
    if ltb (length p) hg_ts_len then none else some t

-- `hg_assign_t`
pub record Assign : Type 0 where
  pub mac : List ℕ
  pub zone_id : ℕ

-- `hg_assign_pack`
unfoldable pub assign_pack : Assign → List ℕ
assign_pack a = take 6 a.mac ++ a.zone_id ∷ []

-- `hg_assign_parse`
unfoldable pub assign_parse : List ℕ → Option Assign
assign_parse p =
    if not (length p == 7) then none else some (record { mac = take 6 p; zone_id = get_or p 6 0 })

-- `strnlen`: the bytes ahead of the first zero among the first `n`.
unfoldable pub strnlen : List ℕ → ℕ → ℕ
strnlen xs zero = 0
strnlen [] (suc n) = 0
strnlen (x ∷ xs) (suc n) = let rest = suc (strnlen xs n) in if x == 0 then 0 else rest

-- `hg_fwu_t`: two `char` arrays, of 33 and 65 bytes.
pub record FwUpdate : Type 0 where
  pub reboot_delay_ms : ℕ
  pub ssid : List ℕ
  pub pass : List ℕ

-- The text of an array of `n` bytes.
abbrev pub text_of : List ℕ → ℕ → List ℕ
text_of xs n = take (strnlen xs n) xs

-- `hg_fwu_pack`
unfoldable pub fwu_pack : FwUpdate → ℕ → Option (List ℕ)
fwu_pack f cap =
    let ssid_len = strnlen f.ssid 33 in
    let pass_len = strnlen f.pass 65 in
    let payload_len = 2 + 1 + ssid_len + 1 + pass_len in
    if leb 33 ssid_len || leb 65 pass_len
    then none
    else if ltb 99 payload_len || ltb cap payload_len
    then none
    else some
        (le16 f.reboot_delay_ms ++ (ssid_len ∷ text_of f.ssid 33 ++ (pass_len ∷ text_of f.pass 65)))

-- `hg_fwu_parse`; what it leaves in an array is the text and its terminator.
unfoldable pub fwu_parse : List ℕ → Option FwUpdate
fwu_parse p =
    let n = length p in
    let at = λ (i : ℕ). get_or p i 0 in
    let ssid_len = at 2 in
    let pass_len = at (3 + ssid_len) in
    let f : FwUpdate = record {
      reboot_delay_ms = rd16 (at 0) (at 1);
      ssid = take ssid_len (drop 3 p) ++ 0 ∷ [];
      pass = take pass_len (drop (3 + ssid_len + 1) p) ++ 0 ∷ [];
    } in
    if ltb n 3
    then none
    else if leb 33 ssid_len
    then none
    else if leb n (3 + ssid_len)
    then none
    else if leb 65 pass_len
    then none
    else if ltb n (3 + ssid_len + 1 + pass_len)
    then none
    else some f

-- `hg_ack_t`
pub record Ack : Type 0 where
  pub acked_seq : ℕ
  pub status : ℕ
  pub detail : List ℕ
  pub detail_len : ℕ

-- `hg_ack_pack`
unfoldable pub ack_pack : Ack → ℕ → Option (List ℕ)
ack_pack a cap =
    if ltb 125 a.detail_len
    then none
    else if ltb cap (3 + a.detail_len)
    then none
    else some (le16 a.acked_seq ++ (a.status ∷ take a.detail_len a.detail))

-- `hg_ack_parse`
unfoldable pub ack_parse : List ℕ → Option Ack
ack_parse p =
    let n = length p in
    let at = λ (i : ℕ). get_or p i 0 in
    let detail_len = u8 (n - 3) in
    let a : Ack = record {
      acked_seq = rd16 (at 0) (at 1);
      status = at 2;
      detail = take detail_len (drop 3 p) ++ 0 ∷ [];
      detail_len = detail_len;
    } in
    if ltb n 3
    then none
    else if ltb 128 n
    then none
    else if ltb 125 detail_len
    then none
    else some a
