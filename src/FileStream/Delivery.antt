-- ===== src/FileStream/Delivery.antt =====
-- The stream yields exactly the bytes of the range, and the response announces their number.
use rust_template.Base.{
  ℕ, zero, suc, ◌+◌, ◌-◌, ◌≤◌, ◌<◌, ◌≡◌, refl, sym, ap, ◌∙◌, false, Option, some, map, List, [],
  ◌∷◌, ◌++◌, ◌==◌, length, is_empty, take, drop, concat, arith, Bool-cases, inl, inr, drop_add,
  drop-append, take-append,
}
use rust_template.FileStream.{min}
use rust_template.FileStream.Stream.{buffer_size, unfold_stream}

-- What `read` promises of a file that does not change, as long as it does not fail: the next bytes,
-- no more than fit into the buffer, and at least one unless the file is at its end.
pub record Reads {Byte : Type 0} (content : List Byte) (read : ℕ → ℕ → Option (List Byte))
    : Type 0 where
  pub chunk : ℕ → ℕ → List Byte
  pub works : (place size : ℕ) → read place size ≡ some (chunk place size)
  pub behind : ℕ → ℕ → List Byte
  pub next_bytes : (place size : ℕ) → drop place content ≡ chunk place size ++ behind place size
  pub fits : (place size : ℕ) → length (chunk place size) ≤ size
  pub progress :
      (place size : ℕ) → 0 < size → place < length content → 0 < length (chunk place size)

-- The stream yields these chunks, and no error.
pub record Yields {Byte : Type 0} (stream : List (Option (List Byte))) (bytes : List Byte)
    : Type 0 where
  pub chunks : List (List Byte)
  pub only : stream ≡ map some chunks
  pub joined : concat chunks ≡ bytes

module _ {Byte : Type 0} (content : List Byte) (read : ℕ → ℕ → Option (List Byte))
    (reads : Reads content read) where
  not_empty_of : (xs : List Byte) → 0 < length xs → is_empty xs ≡ false
  not_empty_of [] h = absurd (omega arith)
  not_empty_of (x ∷ xs) h = refl

  after_chunk :
      (place size : ℕ)
      → drop (place + length (reads.chunk place size)) content ≡ reads.behind place size
  after_chunk place size =
      drop_add place (length (reads.chunk place size)) _ content refl
      ∙ ap (drop (length (reads.chunk place size))) (reads.next_bytes place size)
      ∙ drop-append _ (reads.chunk place size) (reads.behind place size) refl

  -- one chunk and the bytes behind it
  chunk_step :
      (place size remaining : ℕ) (rest : List Byte)
      → size ≤ remaining
      → rest
        ≡ take
            (remaining - length (reads.chunk place size))
            (drop (place + length (reads.chunk place size)) content)
      → reads.chunk place size ++ rest ≡ take remaining (drop place content)
  chunk_step place size remaining rest le e =
      let n = length (reads.chunk place size) in
      ap (λ bytes. reads.chunk place size ++ bytes)
        (e ∙ ap (take (remaining - n)) (after_chunk place size))
      ∙ sym (
          take-append remaining (remaining - n) (reads.chunk place size) (reads.behind place size)
            (omega (arith, reads.fits place size)))
      ∙ ap (take remaining) (sym (reads.next_bytes place size))

  cons-Yields :
      (place size remaining : ℕ) (stream : List (Option (List Byte)))
      → size ≤ remaining
      → (let n = length (reads.chunk place size) in
          Yields stream (take (remaining - n) (drop (place + n) content)))
      → Yields (some (reads.chunk place size) ∷ stream) (take remaining (drop place content))
  cons-Yields place size remaining stream le y = record {
    chunks = reads.chunk place size ∷ y.chunks;
    only = ap (λ xs. some (reads.chunk place size) ∷ xs) y.only;
    joined = chunk_step place size remaining (concat y.chunks) le y.joined;
  }

  -- If the reads do not fail and give what comes next: enough rounds yield, without an error, chunks
  -- that are together exactly the bytes that remain.
  pub concat-unfold_stream :
      (fuel place remaining : ℕ)
      → remaining ≤ fuel
      → place + remaining ≤ length content
      → Yields (unfold_stream read fuel place remaining) (take remaining (drop place content))
  unfolding unfold_stream
  concat-unfold_stream zero place remaining enough inside =
      let e : remaining ≡ 0 = omega arith in
      rw e (record { chunks = []; only = refl; joined = refl })
  concat-unfold_stream (suc fuel) place remaining enough inside =
      rw (unfold_stream, reads.works place (min remaining buffer_size))
        (elim (Bool-cases (remaining == 0)) [
          | inl e ↦
              let z : remaining ≡ 0 = ground arith in
              rw z (record { chunks = []; only = refl; joined = refl })
          | inr e ↦
              let size = min remaining buffer_size in
              let n = length (reads.chunk place size) in
              let positive : 0 < size = ground arith in
              let some_read = reads.progress place size positive (ground arith) in
              let small = reads.fits place size in
              let le : size ≤ remaining = ground arith in
              rw (e, not_empty_of (reads.chunk place size) some_read)
                (cons-Yields place size remaining _ le (
                  concat-unfold_stream fuel (place + n) (remaining - n) (omega arith)
                    (omega arith)))
        ])
