-- ===== src/Tests/BioRuns.antt =====
-- The byte queue of bio.c on concrete inputs.
use yamux.Common.{
  true, ℕ, ◌%◌, ◌≤◌, ◌<◌, ◌≡◌, refl, List, [], ◌∷◌, ◌++◌, ◌⊎◌, arith, take, minus_one,
}
use yamux.Bio.{capacity, bio_read, bio_write, bio_peek}
use yamux.Bio.Contents.{contents, IsValid}
use yamux.Bio.Read.{bio_peek-bio_read}
use yamux.Bio.Write.{bio_write_lem}
use yamux.Tests.Platform.{test_os, test_stailq, sample_bio}

pub sample_bio-IsValid : IsValid sample_bio
sample_bio-IsValid = record { queued = omega arith; counted = refl; fits = omega arith }

bio_peek-bio_read_example :
    let (r, out, b) = bio_read true 9 sample_bio in bio_peek 9 sample_bio ≡ (r, out)
bio_peek-bio_read_example = bio_peek-bio_read 9 sample_bio sample_bio-IsValid

abbrev two_bytes : List ℕ
two_bytes = 6 ∷ 7 ∷ []

bio_write_example :
    let (r, b', w') = bio_write {W = ℕ} two_bytes 2 sample_bio 1000 in
    (k : ℕ) × (k ≤ 2)
    × (contents b' ≡ contents sample_bio ++ take k two_bytes)
    × IsValid b'
    × ((r ≡ 2) × (k ≡ 2) ⊎ (r ≡ minus_one) × (k < 2) × (k % capacity ≡ 0))
bio_write_example =
    bio_write_lem {W = ℕ} two_bytes 2 sample_bio 1000 (omega arith) sample_bio-IsValid (omega arith)

-- Memory for the first buffer only.
write_fails : (bio_write {W = ℕ} two_bytes 2 sample_bio 1).0 ≡ minus_one
unfolding bio_write
write_fails = refl
