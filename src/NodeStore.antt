-- ===== src/NodeStore.antt =====
-- components/node_store/ztab.c: the master's table of the zones that it knows. Slots are counted
-- from 0; `none` is a return of -1. A null pointer is not modelled.
pub mod Enrol
pub mod Unique
pub mod Envelope
use hill_grov.Base.{
  Bool, List, Option, [], bit_or, drop, get_or, if◌then◌else◌, leb, length, ltb, memeq, none, not,
  replicate, some, suc, take, zero, ℕ, ◌&&◌, ◌++◌, ◌+◌, ◌-◌, ◌==◌, ◌∷◌,
}
use hill_grov.Blob.{blob_hdr_len, blob_wrap, blob_unwrap, Unwrapped, refused, loaded}

abbrev pub hg_max_zones : ℕ
hg_max_zones = 8

-- `ZTAB_F_ASSIGNED | ZTAB_F_UNCONFIGURED`
abbrev pub new_flags : ℕ
new_flags = bit_or 0x01 0x02

-- `ztab_ent_t`
pub record Entry : Type 0 where
  pub mac : List ℕ
  pub id : ℕ
  pub flags : ℕ
  pub name : List ℕ

-- `ztab_t`
abbrev pub Table : Type 0
Table = List Entry

-- The loop of both searches: the first slot that a test holds of.
unfoldable pub find : (Entry → Bool) → Table → Option ℕ
find test [] = none
find test (e ∷ rest) =
    let later : Option ℕ = elim (find test rest) [ none ↦ none | some i ↦ some (suc i) ] in
    if test e then some 0 else later

-- `ztab_find_mac`
unfoldable pub find_mac : Table → List ℕ → Option ℕ
find_mac t mac = find (λ e. memeq 6 e.mac mac) t

-- `ztab_find_id`
unfoldable pub find_id : Table → ℕ → Option ℕ
find_id t id = if id == 0 then none else find (λ e. e.id == id) t

-- The id in a slot.
unfoldable pub id_at : Table → ℕ → ℕ
id_at [] slot = 0
id_at (e ∷ rest) zero = e.id
id_at (e ∷ rest) (suc slot) = id_at rest slot

abbrev pub new_entry : List ℕ → ℕ → Entry
new_entry mac id = record { mac = take 6 mac; id = id; flags = new_flags; name = replicate 16 0 }

-- `ztab_place`: the table after it; of the slot that it returns the callers read only the sign.
unfoldable pub place_entry : Table → List ℕ → ℕ → Option Table
place_entry [] mac id = none
place_entry (e ∷ rest) mac id =
    let later : Option Table = elim (place_entry rest mac id) [
      | none ↦ none
      | some rest' ↦ some (e ∷ rest')
    ] in
    if not (e.id == 0) then later else some (new_entry mac id ∷ rest)

-- The loop of `ztab_assign` from an id on, with the number of ids that are left.
unfoldable pub assign_from : Table → List ℕ → ℕ → ℕ → Option (ℕ × Table)
assign_from t mac zero id = none
assign_from t mac (suc left) id = elim (find_id t id) [
  | some slot ↦ assign_from t mac left (id + 1)
  | none ↦ elim (place_entry t mac id) [ none ↦ none | some t' ↦ some (id, t') ]
]

-- `ztab_assign`
unfoldable pub assign : Table → List ℕ → Option (ℕ × Table)
assign t mac = elim (find_mac t mac) [
  | some slot ↦ some (id_at t slot, t)
  | none ↦ assign_from t mac hg_max_zones 1
]

-- `ztab_en_t`
pub data EnrolVerdict : Type 0 where
  known assigned conflict stale full : EnrolVerdict

-- The answer of `ztab_enrol`, with `*out_id` where it writes it.
pub record Enrolled : Type 0 where
  pub verdict : EnrolVerdict
  pub out_id : Option ℕ
  pub table : Table

-- The part for a MAC that is not in the table.
unfoldable pub enrol_new : Table → List ℕ → ℕ → Enrolled
enrol_new t mac claimed_id =
    let claim : Enrolled = elim (find_id t claimed_id) [
      | some slot ↦ record { verdict = conflict; out_id = some claimed_id; table = t }
      | none ↦ elim (place_entry t mac claimed_id) [
        | none ↦ record { verdict = full; out_id = none; table = t }
        | some t' ↦ record { verdict = assigned; out_id = some claimed_id; table = t' }
      ]
    ] in
    let lowest : Enrolled = elim (assign t mac) [
      | none ↦ record { verdict = full; out_id = none; table = t }
      | some (id, t') ↦ record { verdict = assigned; out_id = some id; table = t' }
    ] in
    if leb 1 claimed_id && leb claimed_id hg_max_zones then claim else lowest

-- `ztab_enrol`
unfoldable pub enrol : Table → List ℕ → ℕ → Enrolled
enrol t mac claimed_id = elim (find_mac t mac) [
  | some slot ↦ record {
    verdict = if claimed_id == id_at t slot then known else stale;
    out_id = some (id_at t slot);
    table = t;
  }
  | none ↦ enrol_new t mac claimed_id
]

-- The entry in a slot is changed.
unfoldable pub change : Table → ℕ → (Entry → Entry) → Table
change [] slot f = []
change (e ∷ rest) zero f = f e ∷ rest
change (e ∷ rest) (suc slot) f = e ∷ change rest slot f

-- `ztab_set_name`, of the characters of a text.
unfoldable pub set_name : Table → ℕ → List ℕ → Option Table
set_name t id name = elim (find_id t id) [
  | none ↦ none
  | some slot ↦
      if ltb 15 (length name)
      then none
      else some (change t slot (λ e. record e { name = name ++ replicate (16 - length name) 0 }))
]

abbrev pub empty_entry : Entry
empty_entry = record { mac = replicate 6 0; id = 0; flags = 0; name = replicate 16 0 }

-- `ztab_clear`
unfoldable pub clear : Table → ℕ → Option Table
clear t id = elim (find_id t id) [
  | none ↦ none
  | some slot ↦ some (change t slot (λ e. empty_entry))
]

-- The 24 bytes of an entry, and those of the table.
unfoldable pub entry_bytes : Entry → List ℕ
entry_bytes e = e.mac ++ (e.id ∷ e.flags ∷ e.name)

unfoldable pub table_bytes : Table → List ℕ
table_bytes [] = []
table_bytes (e ∷ rest) = entry_bytes e ++ table_bytes rest

unfoldable pub entry_of : List ℕ → Entry
entry_of bytes = record {
  mac = take 6 bytes;
  id = get_or bytes 6 0;
  flags = get_or bytes 7 0;
  name = take 16 (drop 8 bytes);
}

unfoldable pub table_of : ℕ → List ℕ → Table
table_of zero bytes = []
table_of (suc n) bytes = entry_of bytes ∷ table_of n (drop 24 bytes)

abbrev pub ztab_magic : ℕ
ztab_magic = 0x545a4748

abbrev pub ztab_size : ℕ
ztab_size = 192

-- `ztab_pack`
unfoldable pub ztab_pack : Table → ℕ → ℕ → Option (List ℕ)
ztab_pack t gen cap =
    if ltb cap (blob_hdr_len + ztab_size)
    then none
    else blob_wrap ztab_magic 1 gen (table_bytes t) cap

-- What `ztab_unpack` makes of the answer: the table and the generation.
unfoldable pub unpacked : Unwrapped → Option (Table × ℕ)
unpacked (refused rc) = none
unpacked (loaded rc bytes gen) = some (table_of hg_max_zones bytes, gen)

-- `ztab_unpack`
unfoldable pub ztab_unpack : List ℕ → Option (Table × ℕ)
ztab_unpack bytes =
    if ltb (length bytes) blob_hdr_len
    then none
    else unpacked (blob_unwrap ztab_magic 1 1 bytes ztab_size)
