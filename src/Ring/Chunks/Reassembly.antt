-- ===== src/Ring/Chunks/Reassembly.antt =====
-- Chunks of one blob that arrive in any order and any number of times.
use hill_grov.Base.{
  All, Bool, List, [], ap, arith, if◌then◌else◌, length, not, subst, sym, take, true, u8, ℕ, ◌-◌,
  ◌<◌, ◌==◌, ◌^◌, ◌||◌, ◌∙◌, ◌∷◌, ◌≡◌,
}
use hill_grov.Ring.Chunks.{
  Casm, Fed, progress, complete, casm_start, casm_store, casm_accept, casm_feed, chunk_count,
}
use hill_grov.Ring.Chunks.Build.{IsBlob, chunk, chunk_data, casm_feed-chunk}
use hill_grov.Ring.Chunks.Gathered.{
  Gathered, covered, InRange, start-Gathered, store-Gathered, full-covered, Gathered-blob,
}

-- The transfer that a state is not in: the first chunk of it starts anew.
abbrev pub starts_anew : Casm → ℕ → ℕ → Bool
starts_anew a kind gen = (not a.active || not (a.kind == kind)) || not (a.gen == gen)

module _ (kind gen : ℕ) (blob : List ℕ) (blob_ok : IsBlob gen blob) where
  -- A chunk of the transfer that a state is in goes straight to the buffer.
  feed-Gathered :
      (a : Casm) (seen : List ℕ) (i now : ℕ)
      → Gathered kind gen blob blob_ok a seen
      → i < chunk_count (length blob)
      → casm_feed a (chunk kind gen blob i) now ≡ casm_store a i (chunk_data blob i) now
  feed-Gathered a seen i now g lt = casm_feed-chunk a kind gen i now blob blob_ok lt ∙ accept
    where
      accept :
          casm_accept a kind gen i (chunk_count (length blob)) (length blob) (chunk_data blob i) now
          ≡ casm_store a i (chunk_data blob i) now
      accept =
          unfold casm_accept in
          ground (arith, g.active, g.same_kind, g.same_gen, g.same_count, g.same_total)

  feed-anew :
      (a : Casm) (i now : ℕ)
      → starts_anew a kind gen ≡ true
      → i < chunk_count (length blob)
      → casm_feed a (chunk kind gen blob i) now
        ≡ casm_store
            (casm_start a kind gen (chunk_count (length blob)) (length blob))
            i
            (chunk_data blob i)
            now
  feed-anew a i now fresh lt = casm_feed-chunk a kind gen i now blob blob_ok lt ∙ accept
    where
      accept :
          casm_accept a kind gen i (chunk_count (length blob)) (length blob) (chunk_data blob i) now
          ≡ casm_store
              (casm_start a kind gen (chunk_count (length blob)) (length blob))
              i
              (chunk_data blob i)
              now
      accept = unfold casm_accept in rw fresh

  -- Feeds of chunks with these indices at these times, in order; the reply is that of the last.
  unfoldable pub feed_order : Casm → Fed → List (ℕ × ℕ) → Casm × Fed
  feed_order a reply [] = (a, reply)
  feed_order a reply ((i, now) ∷ rest) =
      let (a', reply') = casm_feed a (chunk kind gen blob i) now in feed_order a' reply' rest

  -- The indices that were fed, the last first, ahead of those of before.
  unfoldable pub fed : List (ℕ × ℕ) → List ℕ → List ℕ
  fed [] seen = seen
  fed ((i, now) ∷ rest) seen = fed rest (i ∷ seen)

  abbrev pub answer : List ℕ → Fed
  answer seen = if covered kind gen blob blob_ok seen then complete else progress

  -- What is known after each feed.
  record Answered (seen : List ℕ) (r : Casm × Fed) : Type 0 where
    gathered : Gathered kind gen blob blob_ok r.0 seen
    in_range : InRange kind gen blob blob_ok seen
    reply : r.1 ≡ answer seen

  store-Answered :
      (a : Casm) (seen : List ℕ) (i now : ℕ)
      → Gathered kind gen blob blob_ok a seen
      → InRange kind gen blob blob_ok seen
      → i < chunk_count (length blob)
      → Answered (i ∷ seen) (casm_store a i (chunk_data blob i) now)
  store-Answered a seen i now g r lt =
      let g' = store-Gathered kind gen blob blob_ok a seen i now g lt in
      record {
        gathered = g';
        in_range = (lt, r);
        reply = reply (
            full-covered kind gen blob blob_ok (casm_store a i (chunk_data blob i) now).0 (i ∷ seen)
              g' (lt, r));
      }
    where
      reply :
          ((casm_store a i (chunk_data blob i) now).0.got_mask
              == u8 (2 ^ (casm_store a i (chunk_data blob i) now).0.count - 1))
            ≡ covered kind gen blob blob_ok (i ∷ seen)
          → (casm_store a i (chunk_data blob i) now).1 ≡ answer (i ∷ seen)
      reply e = unfold casm_store in ap (λ b. if b then complete else progress) e

  feed_order-Answered :
      (order : List (ℕ × ℕ)) (a : Casm) (seen : List ℕ) (reply : Fed)
      → Answered seen (a, reply)
      → All (λ o. o.0 < chunk_count (length blob)) order
      → Answered (fed order seen) (feed_order a reply order)
  unfolding feed_order fed
  feed_order-Answered [] a seen reply k r = k
  feed_order-Answered ((i, now) ∷ rest) a seen reply k r =
      let stored = casm_store a i (chunk_data blob i) now in
      subst (λ q. Answered (fed rest (i ∷ seen)) (feed_order q.0 q.1 rest))
        (sym (feed-Gathered a seen i now k.gathered r.0))
        (feed_order-Answered rest stored.0 (i ∷ seen) stored.1
          (store-Answered a seen i now k.gathered k.in_range r.0) r.1)

  from_anew :
      (a : Casm) (i now : ℕ) (rest : List (ℕ × ℕ))
      → starts_anew a kind gen ≡ true
      → All (λ o. o.0 < chunk_count (length blob)) ((i, now) ∷ rest)
      → Answered (fed ((i, now) ∷ rest) []) (feed_order a progress ((i, now) ∷ rest))
  unfolding feed_order fed
  from_anew a i now rest fresh r =
      let started = casm_start a kind gen (chunk_count (length blob)) (length blob) in
      let stored = casm_store started i (chunk_data blob i) now in
      subst (λ q. Answered (fed rest (i ∷ [])) (feed_order q.0 q.1 rest))
        (sym (feed-anew a i now fresh r.0))
        (feed_order-Answered rest stored.0 (i ∷ []) stored.1
          (store-Answered started [] i now (start-Gathered kind gen blob blob_ok a) tt r.0) r.1)

  -- Chunks of one blob of 1 to 768 bytes, none beyond its last, fed to a reassembler that is not
  -- in its transfer, in any order and any number of times: the last answer is complete exactly
  -- when every chunk has been among them, and progress otherwise.
  pub feed_order-answer :
      (a : Casm) (i now : ℕ) (rest : List (ℕ × ℕ))
      → starts_anew a kind gen ≡ true
      → All (λ o. o.0 < chunk_count (length blob)) ((i, now) ∷ rest)
      → (feed_order a progress ((i, now) ∷ rest)).1 ≡ answer (fed ((i, now) ∷ rest) [])
  feed_order-answer a i now rest fresh r = (from_anew a i now rest fresh r).reply

  -- Chunks of one blob of 1 to 768 bytes, none beyond its last, fed to a reassembler that is not
  -- in its transfer, in any order and any number of times: when every chunk has been among them,
  -- the buffer holds the blob, in the length that the reassembler keeps.
  pub feed_order-blob :
      (a : Casm) (i now : ℕ) (rest : List (ℕ × ℕ))
      → starts_anew a kind gen ≡ true
      → All (λ o. o.0 < chunk_count (length blob)) ((i, now) ∷ rest)
      → covered kind gen blob blob_ok (fed ((i, now) ∷ rest) []) ≡ true
      → let a' = (feed_order a progress ((i, now) ∷ rest)).0 in take a'.total a'.buf ≡ blob
  feed_order-blob a i now rest fresh r all =
      let k = from_anew a i now rest fresh r in
      Gathered-blob kind gen blob blob_ok (feed_order a progress ((i, now) ∷ rest)).0
        (fed ((i, now) ∷ rest) []) k.gathered all
