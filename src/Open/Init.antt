-- ===== src/Open/Init.antt =====
-- A new session (session_init of mux.c).
use yamux.Common.{
  ℕ, ◌≡◌, refl, ap, subst, Bool, false, none, some, [], arith, inl, inr, length, Option-cases,
  if◌then◌else◌,
}
use yamux.Bio.{Bio, Buffer, bio_new}
use yamux.Bio.Contents.{contents, IsValid}
use yamux.Bio.Write.{bio_new_lem}
use yamux.Os.{Os}
use yamux.Stailq.{Stailq}
use yamux.Tree.{Tree}
use yamux.State.{Session, Sys}
use yamux.Sound.{IsSound}
use yamux.Open.{session_of, session_init}

module _ {W Q T : Type 0} ⦃sq : Stailq Buffer Q⦄ ⦃tr : Tree T⦄ where
  -- The system of a session without streams.
  abbrev pub alone : Session Q T → W → Sys W Q T
  alone session w = record { heap = λ _. none; next_address = 0; session = session; world = w }

  -- A session between two frames, without streams, bytes or go-away, with the first id of its side.
  pub record IsNew (client : Bool) (s : Sys W Q T) : Type 0 where
    pub sound : IsSound s
    pub valid : IsValid s.session.send_buf
    pub nothing_received : contents s.session.recv_buf ≡ []
    pub nothing_sent : contents s.session.send_buf ≡ []
    pub first_id : s.session.next_id ≡ (if client then 1 else 2)
    pub staying : (s.session.local_go_away ≡ false) × (s.session.remote_go_away ≡ false)

  made-IsNew :
      (client : Bool) (received sent : Bio Q) (fds : ℕ × ℕ) (w : W) (x : Session Q T)
      → (contents received ≡ []) × IsValid received
      → (contents sent ≡ []) × IsValid sent
      → session_of client (some received) (some sent) (some fds) tr.init ≡ some x
      → IsNew client (alone x w)
  unfolding session_of
  made-IsNew client received sent fds w x r s e =
      let made = session_of client (some received) (some sent) (some fds) tr.init in
      subst (λ o. elim o [ none ↦ Unit {0} | some y ↦ IsNew client (alone y w) ]) e
        (record {
          sound = record {
            found = λ id p h. absurd (ground (arith, tr.find-init id));
            fresh = λ p le. refl;
            windowed = λ p y h. absurd (ground arith);
            received = r.1;
            fits_int = omega (arith, ap (length {A = ℕ}) r.0);
            framed = λ h. absurd (ground arith);
            promised_frame = λ h. absurd (ground arith);
          };
          valid = s.1;
          nothing_received = r.0;
          nothing_sent = s.0;
          first_id = refl;
          staying = (refl, refl);
        })

module _ {W Q T : Type 0} ⦃os : Os W⦄ ⦃sq : Stailq Buffer Q⦄ ⦃tr : Tree T⦄ where
  -- A session that session_init makes has nothing received and nothing to be sent, no streams, no
  -- go-away, the first id of its side, and is sound.
  pub session_init_lem :
      (client : Bool) (w : W) (x : Session Q T)
      → let (made, w') = session_init {Q = Q} {T = T} client w in
        made ≡ some x → IsNew client (alone x w')
  unfolding session_init
  session_init_lem client w x e = elim (Option-cases (bio_new {Q = Q} w).0) [
    | inl n ↦ absurd (ground arith)
    | inr (received, er) ↦
        let w1 = (bio_new {Q = Q} w).1 in
        elim (Option-cases (bio_new {Q = Q} w1).0) [
          | inl n ↦ absurd (ground arith)
          | inr (sent, es) ↦
              let (fds, w3) = os.socketpair (bio_new {Q = Q} w1).1 in
              elim (Option-cases (fds)) [
                | inl n ↦ absurd (ground arith)
                | inr (pair, ef) ↦
                    made-IsNew client received sent pair (session_init {Q = Q} {T = T} client w).1 x
                      (bio_new_lem w received er) (bio_new_lem w1 sent es) (ground arith)
              ]
        ]
  ]
