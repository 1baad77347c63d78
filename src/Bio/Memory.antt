-- ===== src/Bio/Memory.antt =====
-- bio_write (bio.c) with memory.
use yamux.Common.{
  ℕ, zero, suc, ◌-◌, ◌+◌, ◌≡◌, refl, true, some, List, arith, drop, take, dec_lt, ap, ◌∙◌, int_of,
}
use yamux.Os.{Os, Block, buffer_block, bytes_block}
use yamux.Bio.Wrote.{write_loop_done, write_loop_next}
use yamux.Stailq.{Stailq}
use yamux.Bio.{
  Buffer, Bio, capacity, min_of, buffer_new, buffer_alloc, buffer_fill, push_buffer, write_loop,
  bio_write,
}

module _ {W : Type 0} ⦃os : Os W⦄ where
  buffer_new_made :
      (source : List ℕ) (len : ℕ) (w : W)
      → ((b : Block) (w : W) → (os.malloc b w).0 ≡ true)
      → (buffer_new source len w).0 ≡ some (record { len = len; bytes = take len source })
  unfolding buffer_new buffer_alloc buffer_fill
  buffer_new_made source len w memory =
      ground (arith, memory buffer_block w, memory (bytes_block len) (os.malloc buffer_block w).1)

module _ {W Q : Type 0} ⦃os : Os W⦄ ⦃sq : Stailq Buffer Q⦄
    (memory : (b : Block) (w : W) → (os.malloc b w).0 ≡ true) where
  write_loop_whole :
      (fuel : ℕ) (buf : List ℕ) (pos n : ℕ) (b : Bio Q) (w : W)
      → (write_loop fuel buf pos n b w).0 ≡ true
  unfolding write_loop
  write_loop_whole zero buf pos n b w = refl
  write_loop_whole (suc fuel) buf pos n b w = elim (dec_lt pos n) [
    | no over ↦ ap (λ r. r.0) (write_loop_done (suc fuel) buf pos n b w (omega arith))
    | yes more ↦
        let size = min_of capacity (n - pos) in
        let buffer : Buffer = record { len = size; bytes = take size (drop pos buf) } in
        ap (λ r. r.0)
          (write_loop_next fuel buf pos n b w buffer more
            (buffer_new_made (drop pos buf) size w memory))
        ∙ write_loop_whole fuel buf (pos + size) n (push_buffer buffer size b)
            (buffer_new (drop pos buf) size w).1
  ]

  -- If no malloc fails, neither does a write.
  pub bio_write_whole :
      (buf : List ℕ) (n : ℕ) (b : Bio Q) (w : W) → (bio_write buf n b w).0 ≡ int_of n
  unfolding bio_write
  bio_write_whole buf n b w = rw (write_loop_whole n buf 0 n b w) refl
