-- ===== src/NodeStore/Envelope.antt =====
-- The table that is stored is the one that is loaded after a restart.
use hill_grov.Base.{
  All, Bool-cases, List, [], ap, append-nil, append_assoc, ap₂, arith, drop, drop-append, inl, inr,
  length, length-append, ltb, mac-cases, refl, some, sym, take-append, ℕ, ◌*◌, ◌++◌, ◌<◌, ◌∙◌, ◌∷◌,
  ◌≡◌, ◌≤◌,
}
use hill_grov.Blob.{blob_unwrap}
use hill_grov.Blob.RoundTrip.{reading, unwrap-wrap}
use hill_grov.NodeStore.{
  Entry, Table, entry_bytes, table_bytes, entry_of, table_of, ztab_magic, ztab_pack, unpacked,
  ztab_unpack,
}

-- The arrays of an entry have their sizes.
pub record IsEntry (e : Entry) : Type 0 where
  pub mac_len : length e.mac ≡ 6
  pub name_len : length e.name ≡ 16

length-entry_bytes : (e : Entry) → IsEntry e → length (entry_bytes e) ≡ 24
unfolding entry_bytes
length-entry_bytes e v =
    omega (arith, length-append e.mac (e.id ∷ e.flags ∷ e.name), v.mac_len, v.name_len)

length-table_bytes : (t : Table) → All IsEntry t → length (table_bytes t) ≡ 24 * length t
unfolding table_bytes
length-table_bytes [] h = refl
length-table_bytes (e ∷ t) h = omega (
  arith,
  length-append (entry_bytes e) (table_bytes t),
  length-entry_bytes e h.0,
  length-table_bytes t h.1,
)

drop-entry_bytes : (e : Entry) (rest : List ℕ) → IsEntry e → drop 24 (entry_bytes e ++ rest) ≡ rest
drop-entry_bytes e rest v = drop-append 24 (entry_bytes e) rest (length-entry_bytes e v)

entry_of-entry_bytes :
    (e : Entry) (rest : List ℕ) → IsEntry e → entry_of (entry_bytes e ++ rest) ≡ e
unfolding entry_of entry_bytes
entry_of-entry_bytes e rest v =
    let (a, b, c, d, x, y, m) = mac-cases e.mac v.mac_len in
    ap (λ mac. entry_of ((mac ++ (e.id ∷ e.flags ∷ e.name)) ++ rest)) m ∙ (λ i. record {
      mac = sym m i;
      id = e.id;
      flags = e.flags;
      name = take-append 16 e.name rest v.name_len i;
    })

-- The test of the length before the call is made again inside it.
ztab_unpack-unpacked :
    (bytes : List ℕ) → ztab_unpack bytes ≡ unpacked (blob_unwrap ztab_magic 1 1 bytes 192)
unfolding ztab_unpack unpacked blob_unwrap
ztab_unpack-unpacked bytes = elim (Bool-cases (ltb (length bytes) 16)) [
  | inl short ↦ rw short refl
  | inr long ↦ rw long refl
]

table_of-table_bytes :
    (t : Table) (rest : List ℕ) → All IsEntry t → table_of (length t) (table_bytes t ++ rest) ≡ t
unfolding table_of table_bytes
table_of-table_bytes [] rest h = refl
table_of-table_bytes (e ∷ t) rest h = rw (append_assoc (entry_bytes e) (table_bytes t) rest) (
    ap₂ ◌∷◌ (entry_of-entry_bytes e (table_bytes t ++ rest) h.0) (
      ap (table_of (length t)) (drop-entry_bytes e (table_bytes t ++ rest) h.0)
      ∙ table_of-table_bytes t rest h.1))

unpacked-reading :
    (t : Table) (gen : ℕ)
    → length t ≡ 8
    → All IsEntry t
    → length (table_bytes t) ≡ 192
    → unpacked (reading 1 1 1 gen (table_bytes t) 192) ≡ some (t, gen)
unfolding unpacked reading
unpacked-reading t gen eight h size =
    let same : table_of 8 (table_bytes t ++ []) ≡ t =
      ap (λ n. table_of n (table_bytes t ++ [])) (sym eight) ∙ table_of-table_bytes t [] h in
    rw size (ap (λ t'. some (t', gen)) same)

-- A table of eight entries whose arrays have their sizes, with a 32-bit generation, is packed
-- into a buffer of at least 208 bytes and unpacked with that generation.
pub ztab_unpack-ztab_pack :
    (t : Table) (gen cap : ℕ)
    → length t ≡ 8
    → All IsEntry t
    → gen < 4294967296
    → 208 ≤ cap
    → (out : List ℕ) × (ztab_pack t gen cap ≡ some out) × (ztab_unpack out ≡ some (t, gen))
unfolding ztab_pack ztab_unpack
ztab_unpack-ztab_pack t gen cap eight h g c =
    let size : length (table_bytes t) ≡ 192 = omega (arith, length-table_bytes t h, eight) in
    let (out, packed, read) =
      unwrap-wrap ztab_magic 1 1 1 gen 192 cap (table_bytes t) []
        (record {
          magic_fits = omega arith;
          version_fits = omega arith;
          generation_fits = g;
          payload_fits = omega arith;
        })
        (omega arith) (omega arith) in
    let whole : blob_unwrap ztab_magic 1 1 out 192 ≡ reading 1 1 1 gen (table_bytes t) 192 =
      ap (λ b. blob_unwrap ztab_magic 1 1 b 192) (sym (append-nil out)) ∙ read in
    (
      out,
      ground (arith, packed),
      ztab_unpack-unpacked out ∙ ap unpacked whole ∙ unpacked-reading t gen eight h size,
    )
