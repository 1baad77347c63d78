-- ===== src/Open/Accept.antt =====
-- session_accept (mux.c) in a sound session, whatever the session's pair gives.
use yamux.Common.{
  false, ℕ, if◌then◌else◌, ◌≡◌, refl, ap, ◌∙◌, sym, subst, true, Option, none, some, List, arith,
  inl, inr, Option-cases, Bool-cases, length, ◌==◌,
}
use yamux.Bio.{Buffer}
use yamux.Os.{Os}
use yamux.Stailq.{Stailq}
use yamux.Tree.{Tree}
use yamux.Frame.{go_away_internal_err}
use yamux.State.{assert, Stream, Sys, M, Code, success, failure, ◌>>=◌, ◌>>◌, pure}
use yamux.State.Rules.{Returns-map, Returns, Returns-bind}
use yamux.State.Calm.{Calm, Calm-world, Calm-trans}
use yamux.Sound.{IsSound}
use yamux.Streams.Find.{session_find_stream_lem}
use yamux.Incoming.Safe.{Steady, Calm-Steady, Steady-trans}
use yamux.Send.{send_window_update, session_go_away_for_reason}
use yamux.Send.Calm.{session_go_away_for_reason-Calm}
use yamux.Send.Steady.{Offers, send_window_update-Offers}
use yamux.Open.{session_accept}

module _ {W Q T : Type 0} ⦃os : Os W⦄ ⦃sq : Stailq Buffer Q⦄ ⦃tr : Tree T⦄ where
  -- After the read of the accepting end of the session's pair.
  abbrev heard : Sys W Q T → Sys W Q T
  heard s = record s { world = (os.read s.session.fd 4 s.world).1 }

  -- The stream at p has been offered a window update; it is returned exactly if that came off.
  abbrev Grants : ℕ → ℕ → Sys W Q T → Option ℕ → Sys W Q T → Type 0
  Grants id p s r s' =
      Steady s s'
      × (tr.find id s'.session.streams ≡ some p)
      × ((c : Code) × (send_window_update p (heard s) ≡ some (c, s'))
          × (r ≡ elim c [ success ↦ some p | failure ↦ none ]))

  abbrev AcceptsId : ℕ → Option ℕ → Sys W Q T → Option (Option ℕ × Sys W Q T) → Type 0
  AcceptsId id none s o = o ≡ none
  AcceptsId id (some p) s o = Returns (Grants id p s) o

  -- What session_accept ends in: NULL if the read fails; the stream under the id that is read, if
  -- it is four bytes and there is one; a failed assertion otherwise.
  abbrev pub Accepts : Option (List ℕ) → Sys W Q T → Option (Option ℕ × Sys W Q T) → Type 0
  Accepts none s o = Returns (λ r s'. (r ≡ none) × Steady s s') o
  Accepts (some bytes) s o =
      let id = os.u32_of_bytes bytes in
      if length bytes == 4 then AcceptsId id (tr.find id s.session.streams) s o else o ≡ none

  grants_lem :
      (id p : ℕ) (x : Stream Q) (s : Sys W Q T)
      → Steady s (heard s)
      → tr.find id s.session.streams ≡ some p
      → s.heap p ≡ some x
      → Returns (Grants id p s) (
          (do sent ← send_window_update p; pure (elim sent [ success ↦ some p | failure ↦ none ]))
            (heard s))
  grants_lem id p x s h found live =
      let o = send_window_update p (heard s) in
      let offers = send_window_update-Offers p x (heard s) h.sound live in
      elim (Option-cases o) [
        | inl e ↦ absurd (subst (Returns (λ (_ : Code) u. Offers p x (heard s) u)) e offers)
        | inr ((c, u), e) ↦
            let k = subst (Returns (λ (_ : Code) u. Offers p x (heard s) u)) e offers in
            rw (e, Returns)
              (
                Steady-trans s (heard s) u h k.steady,
                ap (tr.find id) k.streams ∙ found,
                (c, e, refl),
              )
      ]

  -- After the lookup.
  abbrev answer : Option ℕ → M W Q T (Option ℕ)
  answer none = do assert false; pure none
  answer (some p) = do
    sent ← send_window_update p
    pure (elim sent [ success ↦ some p | failure ↦ none ])

  -- What follows the lookup of an id.
  answer_lem :
      (id : ℕ) (o : Option ℕ) (s : Sys W Q T)
      → IsSound s
      → Steady s (heard s)
      → o ≡ tr.find id s.session.streams
      → AcceptsId id o s (answer o (heard s))
  answer_lem id none s v h e = refl
  answer_lem id (some p) s v h e =
      let (x, live, own) = v.found id p (sym e) in grants_lem id p x s h (sym e) live

  -- In a sound session, whatever the session's pair gives: if the read fails, session_accept
  -- returns NULL; if it gives the four bytes of an id under which the tree finds a stream, the
  -- stream is offered a window update, and session_accept returns exactly that stream, or NULL if
  -- the update fails, with the stream still in the tree; in both cases the session stays sound and
  -- its input as it was. If it gives another number of bytes, or an id that the tree does not
  -- find, an assertion fails.
  pub session_accept_lem :
      (s : Sys W Q T) → IsSound s → Accepts (os.read s.session.fd 4 s.world).0 s (session_accept s)
  unfolding session_accept
  session_accept_lem s v =
      let t = heard s in
      let c = Calm-world s t.world in
      let h = Calm-Steady s t v c in
      let vt = h.sound in
      elim (Option-cases (os.read s.session.fd 4 s.world).0) [
        | inl e ↦ rw (e) (
            Returns-bind (λ (_ : Code) u. Calm t u) (λ r s'. (r ≡ none) × Steady s s')
              (session_go_away_for_reason go_away_internal_err t) (λ _. pure none)
              (session_go_away_for_reason-Calm t go_away_internal_err)
              λ _ u k. (refl, Calm-Steady s u v (Calm-trans s t u c k)))
        | inr (bytes, e) ↦ elim (Bool-cases (length bytes == 4)) [
          | inr short ↦ rw (e, short) refl
          | inl whole ↦
              let id = os.u32_of_bytes bytes in
              let found = tr.find id s.session.streams in
              rw (e, whole)
                (subst
                  (λ o. AcceptsId id found s (elim o [ none ↦ none | some (r, u) ↦ answer r u ]))
                  (sym (session_find_stream_lem id t vt)) (answer_lem id found s v h refl))
        ]
      ]

  -- What the pair gives, in a session whose handlers alone write to it: nothing, or the id, in the
  -- machine's bytes, of a stream that is in the tree.
  abbrev pub Announced : Sys W Q T → Type 0
  Announced s =
      (bytes : List ℕ)
      → (os.read s.session.fd 4 s.world).0 ≡ some bytes
      → (length bytes ≡ 4)
        × ((p : ℕ) × (tr.find (os.u32_of_bytes bytes) s.session.streams ≡ some p))

  pub session_accept-Steady :
      (s : Sys W Q T)
      → IsSound s
      → Announced s
      → Returns (λ (_ : Option ℕ) s'. Steady s s') (session_accept s)
  session_accept-Steady s v told =
      let h = session_accept_lem s v in
      elim (Option-cases (os.read s.session.fd 4 s.world).0) [
        | inl e ↦ Returns-map _ _ (session_accept s) (rw e at h) λ r u k. k.1
        | inr (bytes, e) ↦
            let (long, (p, found)) = told bytes e in
            let whole : (length bytes == 4) ≡ true = ground arith in
            Returns-map _ _ (session_accept s) (rw (e, whole, found) at h) λ r u k. k.0
      ]
