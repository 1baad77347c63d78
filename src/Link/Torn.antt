-- ===== src/Link/Torn.antt =====
-- Two threads that write to one session at once (stream_write of mux.c), and the peer.
use yamux.Common.{
  ℕ, ◌+◌, ◌-◌, ◌^◌, ◌≤◌, ◌<◌, ◌≡◌, sym, ◌∙◌, ap, List, ◌++◌, append_assoc, arith, length,
  length-append, take, drop, take_all, take-append, take-append_le, take-append-drop, length-take,
}
use yamux.Bio.{Buffer}
use yamux.Os.{Os}
use yamux.Stailq.{Stailq}
use yamux.Tree.{Tree}
use yamux.Frame.{hdr_size, hdr_encode, type_data}
use yamux.State.{Stream, Sys, success}
use yamux.State.Rules.{Returns, Returns-map}
use yamux.Data.Tells.{Works}
use yamux.Send.{session_send_buf_write}
use yamux.Send.Queue.{length-hdr_encode}
use yamux.Process.{returned}
use yamux.Process.Deliver.{Arrived}
use yamux.Io.{write_ready_between}
use yamux.Io.Torn.{write_ready_between-Queues}
use yamux.Link.{carry}
use yamux.Link.Carry.{carry_lem}
use yamux.Link.Write.{Joined, Joined-Framed}

-- The first n bytes do not depend on what comes after n bytes of the last part.
take_cut :
    (n : ℕ) (front bytes : List ℕ)
    → n ≤ length bytes
    → take n (front ++ take n bytes) ≡ take n (front ++ bytes)
take_cut n front bytes has =
    let size = length-take n bytes in
    sym (
      take-append_le n (front ++ take n bytes) (drop n bytes)
        (omega (arith, length-append front (take n bytes), size, has)))
    ∙ ap (take n) (
        append_assoc front (take n bytes) (drop n bytes)
        ∙ ap (λ ys. front ++ ys) (take-append-drop n bytes))

-- What the peer takes for the frame.
frame_of :
    (n : ℕ) (hdr extra bytes : List ℕ)
    → length hdr ≡ hdr_size
    → n ≤ length bytes
    → take (hdr_size + n) ((hdr ++ extra) ++ take n bytes) ≡ hdr ++ take n (extra ++ bytes)
frame_of n hdr extra bytes long has =
    let rest : hdr_size + n - length hdr ≡ n = omega (arith, long) in
    ap (take (hdr_size + n)) (append_assoc hdr extra (take n bytes))
    ∙ take-append (hdr_size + n) hdr (extra ++ take n bytes)
    ∙ ap (λ ys. ys ++ take (hdr_size + n - length hdr) (extra ++ take n bytes))
        (take_all (hdr_size + n) hdr (omega (arith, long)))
    ∙ ap (λ k. hdr ++ take k (extra ++ take n bytes)) rest
    ∙ ap (λ ys. hdr ++ ys) (take_cut n extra bytes has)

module _ {W Q T : Type 0} ⦃os : Os W⦄ ⦃sq : Stailq Buffer Q⦄ ⦃tr : Tree T⦄ where
  -- Between a session with an established stream, whose id has 32 bits, and a valid queue with
  -- nothing in it, and a sound session between two frames with the stream of the same id, nothing
  -- unread and a receive window that is no smaller than the writer's window, on a platform with
  -- memory whose sockets take a byte: if another thread queues fewer than 2 ^ 30 bytes between the
  -- two calls by which stream_write queues the header and the body of a frame of n bytes, at least
  -- one and fewer than the window, then, when the first hdr_size + n bytes are carried over,
  -- session_process returns 0 and the stream has the first n bytes of the other thread's bytes
  -- followed by those that were written. (With nothing queued in between these are the bytes that
  -- were written.)
  pub write_ready_between-carry :
      (q p n : ℕ) (x y : Stream Q) (bytes extra : List ℕ) (a b : Sys W Q T)
      → Works os
      → Joined q p x y a b
      → 0 < n
      → n < x.send_window
      → n ≤ length bytes
      → length extra < 2 ^ 30
      → Returns
          (λ _ a'.
            Returns
              (λ o s. (o ≡ returned success) × Arrived p y.state y (take n (extra ++ bytes)) b s.1)
              (carry (hdr_size + n) a' b))
          (write_ready_between
            (session_send_buf_write extra (length extra))
            q
            bytes
            n
            x.send_window
            a)
  write_ready_between-carry q p n x y bytes extra a b works j pos fits has few =
      let win = j.sound.windowed p y j.reader in
      let hdr = hdr_encode type_data 0 x.id n in
      let long = length-hdr_encode type_data 0 x.id n in
      let small : n < 2 ^ 30 = omega (arith, fits, j.allowed, win.promised) in
      let payload = take n (extra ++ bytes) in
      let enough : n ≤ length (extra ++ bytes) = omega (arith, length-append extra bytes, has) in
      Returns-map _ _
        (write_ready_between (session_send_buf_write extra (length extra)) q bytes n x.send_window
          a)
        (write_ready_between-Queues q n bytes extra x a works j.writer j.up has small fits
          (omega (arith, j.allowed, win.promised)) few j.nothing_queued j.valid)
        λ io a' h.
          Returns-map _ _ (carry (hdr_size + n) a' b)
            (carry_lem (hdr_size + n) p y.state y hdr payload a' b works h.valid j.sound
              j.nothing_unread
              (ap (take (hdr_size + n)) h.queued ∙ frame_of n hdr extra bytes long has)
              (omega
                (arith, length-append hdr payload, long, length-take n (extra ++ bytes), small))
              (Joined-Framed q p n x y (extra ++ bytes) a b j pos (omega (arith, fits)) enough))
            λ o s (ok, rest, arrived). (ok, arrived)
