-- ===== src/Dir/Bytes.antt =====
-- src/kernel/storage/fat16.h: the entries of a sector and its bytes.
use minidos.Common.{ℕ, ◌+◌, ◌*◌, ◌≡◌, ◌≢◌, ◌<◌, ◌≤◌, refl, false, [], ◌∷◌, ◌==◌, arith}
use minidos.Fat.{Sector}
use minidos.Dir.Entry.{entry_at}
use minidos.Dir.Remove.{mark_deleted}

-- The bytes of an entry make it.
pub entry_at-agree :
    (s t : Sector) (i : ℕ)
    → ((m : ℕ) → 32 * i ≤ m → m < 32 * i + 32 → s m ≡ t m)
    → entry_at s i ≡ entry_at t i
unfolding entry_at
entry_at-agree s t i h =
    let o : ℕ = 32 * i in
    let n0 : s o ≡ t o = h o (omega arith) (omega arith) in
    let n1 : s (o + 1) ≡ t (o + 1) = h (o + 1) (omega arith) (omega arith) in
    let n2 : s (o + 2) ≡ t (o + 2) = h (o + 2) (omega arith) (omega arith) in
    let n3 : s (o + 3) ≡ t (o + 3) = h (o + 3) (omega arith) (omega arith) in
    let n4 : s (o + 4) ≡ t (o + 4) = h (o + 4) (omega arith) (omega arith) in
    let n5 : s (o + 5) ≡ t (o + 5) = h (o + 5) (omega arith) (omega arith) in
    let n6 : s (o + 6) ≡ t (o + 6) = h (o + 6) (omega arith) (omega arith) in
    let n7 : s (o + 7) ≡ t (o + 7) = h (o + 7) (omega arith) (omega arith) in
    let n8 : s (o + 8) ≡ t (o + 8) = h (o + 8) (omega arith) (omega arith) in
    let n9 : s (o + 9) ≡ t (o + 9) = h (o + 9) (omega arith) (omega arith) in
    let n10 : s (o + 10) ≡ t (o + 10) = h (o + 10) (omega arith) (omega arith) in
    let attr : s (o + 11) ≡ t (o + 11) = h (o + 11) (omega arith) (omega arith) in
    let res : s (o + 12) ≡ t (o + 12) = h (o + 12) (omega arith) (omega arith) in
    let ctms : s (o + 13) ≡ t (o + 13) = h (o + 13) (omega arith) (omega arith) in
    let ct0 : s (o + 14) ≡ t (o + 14) = h (o + 14) (omega arith) (omega arith) in
    let ct1 : s (o + 14 + 1) ≡ t (o + 14 + 1) = h (o + 14 + 1) (omega arith) (omega arith) in
    let cd0 : s (o + 16) ≡ t (o + 16) = h (o + 16) (omega arith) (omega arith) in
    let cd1 : s (o + 16 + 1) ≡ t (o + 16 + 1) = h (o + 16 + 1) (omega arith) (omega arith) in
    let ad0 : s (o + 18) ≡ t (o + 18) = h (o + 18) (omega arith) (omega arith) in
    let ad1 : s (o + 18 + 1) ≡ t (o + 18 + 1) = h (o + 18 + 1) (omega arith) (omega arith) in
    let ch0 : s (o + 20) ≡ t (o + 20) = h (o + 20) (omega arith) (omega arith) in
    let ch1 : s (o + 20 + 1) ≡ t (o + 20 + 1) = h (o + 20 + 1) (omega arith) (omega arith) in
    let mt0 : s (o + 22) ≡ t (o + 22) = h (o + 22) (omega arith) (omega arith) in
    let mt1 : s (o + 22 + 1) ≡ t (o + 22 + 1) = h (o + 22 + 1) (omega arith) (omega arith) in
    let md0 : s (o + 24) ≡ t (o + 24) = h (o + 24) (omega arith) (omega arith) in
    let md1 : s (o + 24 + 1) ≡ t (o + 24 + 1) = h (o + 24 + 1) (omega arith) (omega arith) in
    let cl0 : s (o + 26) ≡ t (o + 26) = h (o + 26) (omega arith) (omega arith) in
    let cl1 : s (o + 26 + 1) ≡ t (o + 26 + 1) = h (o + 26 + 1) (omega arith) (omega arith) in
    let fs0 : s (o + 28) ≡ t (o + 28) = h (o + 28) (omega arith) (omega arith) in
    let fs1 : s (o + 28 + 1) ≡ t (o + 28 + 1) = h (o + 28 + 1) (omega arith) (omega arith) in
    let fs2 : s (o + 28 + 2) ≡ t (o + 28 + 2) = h (o + 28 + 2) (omega arith) (omega arith) in
    let fs3 : s (o + 28 + 2 + 1) ≡ t (o + 28 + 2 + 1) =
      h (o + 28 + 2 + 1) (omega arith) (omega arith) in
    λ k. record {
      name = n0 k ∷ n1 k ∷ n2 k ∷ n3 k ∷ n4 k ∷ n5 k ∷ n6 k ∷ n7 k ∷ n8 k ∷ n9 k ∷ n10 k ∷ [];
      attributes = attr k;
      reserved = res k;
      creation_time_ms = ctms k;
      creation_time = ct0 k + 256 * ct1 k;
      creation_date = cd0 k + 256 * cd1 k;
      access_date = ad0 k + 256 * ad1 k;
      cluster_high = ch0 k + 256 * ch1 k;
      modified_time = mt0 k + 256 * mt1 k;
      modified_date = md0 k + 256 * md1 k;
      cluster_low = cl0 k + 256 * cl1 k;
      file_size = fs0 k + 256 * fs1 k + 65536 * (fs2 k + 256 * fs3 k);
    }

-- An entry that another one is marked beside.
pub entry_at-mark_deleted :
    (b : Sector) (i j : ℕ) → i ≢ j → entry_at (mark_deleted i b) j ≡ entry_at b j
unfolding mark_deleted
entry_at-mark_deleted b i j ne = entry_at-agree (mark_deleted i b) b j (λ m lo hi.
    let apart : (m == 32 * i) ≡ false = ground (arith, λ (e : m ≡ 32 * i). ne (omega arith)) in
    rw apart refl)
