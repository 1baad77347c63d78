-- ===== src/Bio/Loop.antt =====
-- The loops of bio_read and bio_peek (bio.c) against the bytes that wait.
use yamux.Common.{
  ℕ, zero, suc, ◌-◌, ◌≤◌, ◌≡◌, refl, ap₂, sym, ◌∙◌, Bool, List, [], ◌∷◌, append-nil, arith, drop,
  length, take-nil, drop-nil, dec_lt,
}
use yamux.Stailq.{Stailq}
use yamux.Bio.{Buffer, Cursor, read_step, read_loop}
use yamux.Bio.Contents.{flat, IsQueued}
use yamux.Bio.Rounds.{
  ahead, read_step_part, read_step_all, read_loop_done, read_loop_empty, read_loop_more, Reads,
  Reads-done, Reads-all, Reads-part,
}

module _ {Q : Type 0} ⦃sq : Stailq Buffer Q⦄ where
  ahead-at :
      (bs : List Buffer) (c : Cursor Q)
      → sq.elements c.buffers ≡ bs
      → c.offset ≡ 0
      → ahead c ≡ flat bs
  ahead-at bs c e o = ap₂ (λ k xs. drop k (flat xs)) o e

  Reads-empty :
      (wanted : Bool) (n : ℕ) (c : Cursor Q)
      → sq.elements c.buffers ≡ []
      → c.offset ≡ 0
      → Reads wanted n c (ahead c) c
  Reads-empty wanted n c e q = rw (ahead-at [] c e q) (record {
    count = omega arith;
    copied = rw (take-nil {A = ℕ} (n - c.nread)) (ground (arith, append-nil c.out));
    rest = ahead-at [] c e q ∙ sym (drop-nil (n - c.nread));
    queued = rw e q;
  })

  -- After a round that empties the first buffer the cursor stands at the next one.
  read_step_next :
      (wanted : Bool) (n : ℕ) (b : Buffer) (bs : List Buffer) (c : Cursor Q)
      → sq.elements c.buffers ≡ b ∷ bs
      → IsQueued c.offset (b ∷ bs)
      → b.len - c.offset ≤ n - c.nread
      → c.nread ≤ n
      → let c' = read_step wanted n b c in
        (sq.elements c'.buffers ≡ bs) × (c'.offset ≡ 0) × (c'.nread ≤ n)
  read_step_next wanted n b bs c e q enough le =
      rw (read_step_all wanted n b c q.0 q.2 enough)
        (rw (sq.elements-remove_head c.buffers, e) refl, refl, omega arith)

  pub read_loop-Reads :
      (fuel : ℕ) (wanted : Bool) (n : ℕ) (bs : List Buffer) (c : Cursor Q)
      → sq.elements c.buffers ≡ bs
      → length bs ≤ fuel
      → c.nread ≤ n
      → IsQueued c.offset bs
      → Reads wanted n c (ahead c) (read_loop fuel wanted n c)
  read_loop-Reads fuel wanted n [] c e enough le q =
      rw (read_loop_empty fuel wanted n c e) (Reads-empty wanted n c e q)
  read_loop-Reads zero wanted n (b ∷ bs) c e enough le q = absurd (omega arith)
  read_loop-Reads (suc fuel) wanted n (b ∷ bs) c e enough le q = elim (dec_lt c.nread n) [
    | no over ↦
        rw (read_loop_done (suc fuel) wanted n c (omega arith))
          (Reads-done wanted n c (omega arith) (rw e q))
    | yes more ↦
        rw (read_loop_more fuel wanted n c b bs e more)
          (elim (dec_lt (n - c.nread) (b.len - c.offset)) [
            | yes short ↦
                rw
                  (read_loop_done fuel wanted n (read_step wanted n b c)
                    (rw (read_step_part wanted n b c q.0 q.2 more short) (omega arith)))
                  (Reads-part wanted n b bs c e q more short)
            | no covered ↦
                let c' = read_step wanted n b c in
                let (e', o', le') = read_step_next wanted n b bs c e q (omega arith) le in
                let rest = read_loop-Reads fuel wanted n bs c' e' (omega arith) le' (rw o' q.3) in
                Reads-all wanted n b bs c (read_loop fuel wanted n c') e q le (omega arith)
                  (rw (ahead-at bs c' e' o') at rest)
          ])
  ]
