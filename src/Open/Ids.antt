-- ===== src/Open/Ids.antt =====
-- The ids that session_open of mux.c reserves, while other threads reserve theirs.
use yamux.Common.{
  ℕ, suc, take, ◌%◌, ◌^◌, ◌≤◌, ◌<◌, ◌≡◌, ◌⊎◌, refl, ◌∙◌, Option, none, some, List, [], ◌∷◌, arith,
  inl, inr, leb, All, ◌==◌, Bool-cases, add32,
}
use yamux.State.{Sys}
use yamux.State.Rules.{Returns, Returns-map}
use yamux.Open.{reserve_id, set_next_id, uint32_max}

-- Another thread may change the next id, but not its parity or its width.
abbrev pub KeepsParity : (ℕ → ℕ) → Type 0
KeepsParity f = (v : ℕ) → v < 2 ^ 32 → (f v % 2 ≡ v % 2) × (f v < 2 ^ 32)

-- The next id after changes by other threads, one after the other.
abbrev pub after : List (ℕ → ℕ) → ℕ → ℕ
after [] v = v
after (f ∷ rest) v = after rest (f v)

module _ {W Q T : Type 0} where
  -- The id reserved was the next one when it was exchanged for the one after it; only the next id
  -- differs.
  pub record Reserves (races : List (ℕ → ℕ)) (r : Option ℕ) (s s' : Sys W Q T) : Type 0 where
    pub session : s' ≡ record s { session = record s.session { next_id = s'.session.next_id } }
    pub word : s'.session.next_id < 2 ^ 32
    pub parity : s'.session.next_id % 2 ≡ s.session.next_id % 2
    pub outcome :
        ((k : ℕ) × (r ≡ none)
          × (s'.session.next_id ≡ after (take k races) s.session.next_id)
          × (uint32_max ≤ s'.session.next_id))
        ⊎ ((id k : ℕ) × (r ≡ some id)
            × (id ≡ after (take k races) s.session.next_id)
            × (id ≡ after (take (suc k) races) s.session.next_id)
            × (id < uint32_max)
            × (id % 2 ≡ s.session.next_id % 2)
            × (s'.session.next_id ≡ add32 id 2))

  -- Whatever other threads that keep the parity and the width of the next id do to it between the
  -- load and the exchange of each round: the compare-and-swap loop of session_open ends. Either it
  -- gives an id below the maximum and of the session's parity, which is the next id after the
  -- changes of some rounds, where it is loaded, and also after that of one round more, if there is
  -- one, where it is exchanged for the id after it, so no change by another thread is lost; or it
  -- gives none, and the next id is at the maximum, as the other threads left it. Nothing else
  -- changes.
  pub reserve_id_lem :
      (races : List (ℕ → ℕ)) (s : Sys W Q T)
      → All KeepsParity races
      → s.session.next_id < 2 ^ 32
      → Returns (λ r s'. Reserves races r s s') (reserve_id races s)
  unfolding reserve_id set_next_id
  reserve_id_lem [] s keep word = elim (Bool-cases (leb uint32_max s.session.next_id)) [
    | inl e ↦
        rw (e, Returns)
          (record {
            session = refl;
            word = word;
            parity = refl;
            outcome = inl (0, refl, refl, ground arith);
          })
    | inr e ↦
        rw (e, Returns)
          (record {
            session = refl;
            word = omega arith;
            parity = omega arith;
            outcome = inr (s.session.next_id, 0, refl, refl, refl, ground arith, refl, refl);
          })
  ]
  reserve_id_lem (f ∷ rest) s keep word =
      let v = s.session.next_id in
      let t : Sys W Q T = record s { session = record s.session { next_id = f v } } in
      let k = keep.0 v word in
      elim (Bool-cases (leb uint32_max v)) [
        | inl e ↦
            rw (e, Returns)
              (record {
                session = refl;
                word = word;
                parity = refl;
                outcome = inl (0, refl, refl, ground arith);
              })
        | inr e ↦ elim (Bool-cases (f v == v)) [
          | inl same ↦
              rw (e, same, Returns)
                (record {
                  session = refl;
                  word = omega arith;
                  parity = omega arith;
                  outcome = inr (v, 0, refl, refl, ground (arith, same), ground arith, refl, refl);
                })
          | inr differs ↦
              rw (e, differs)
                (Returns-map _ _ (reserve_id rest t) (reserve_id_lem rest t keep.1 k.1) λ r u h.
                  record {
                    session = h.session;
                    word = h.word;
                    parity = h.parity ∙ k.0;
                    outcome = elim h.outcome [
                      | inl (n, z, last, over) ↦ inl (suc n, z, last, over)
                      | inr (id, n, z, loaded, stored, small, par, next) ↦
                          inr (id, suc n, z, loaded, stored, small, par ∙ k.0, next)
                    ];
                  })
        ]
      ]

-- Another thread takes ids too, so the next one does not go back.
abbrev pub Advances : (ℕ → ℕ) → Type 0
Advances f = (v : ℕ) → v ≤ f v

module _ {W Q T : Type 0} where
  -- The id is not below the one that was next at the call.
  pub reserve_id-fresh :
      (races : List (ℕ → ℕ)) (s : Sys W Q T)
      → All Advances races
      → Returns (λ r s'. (id : ℕ) → r ≡ some id → s.session.next_id ≤ id) (reserve_id races s)
  unfolding reserve_id set_next_id
  reserve_id-fresh [] s keep = elim (Bool-cases (leb uint32_max s.session.next_id)) [
    | inl e ↦ rw (e, Returns) (λ id h. cc)
    | inr e ↦ rw (e, Returns) (λ id h. ground arith)
  ]
  reserve_id-fresh (f ∷ rest) s keep =
      let v = s.session.next_id in
      let t : Sys W Q T = record s { session = record s.session { next_id = f v } } in
      elim (Bool-cases (leb uint32_max v)) [
        | inl e ↦ rw (e, Returns) (λ id h. cc)
        | inr e ↦ elim (Bool-cases (f v == v)) [
          | inl same ↦ rw (e, same, Returns) (λ id h. ground arith)
          | inr differs ↦
              rw (e, differs)
                (Returns-map _ _ (reserve_id rest t) (reserve_id-fresh rest t keep.1)
                  λ r u h id eq. omega (arith, h id eq, keep.0 v))
        ]
      ]
