-- ===== src/File/Content.antt =====
-- src/kernel/storage/fat16_file.c: what is written to a cluster is what is read from it.
use minidos.Common.{
  ℕ, zero, suc, ◌+◌, ◌-◌, ◌≤◌, ◌<◌, ◌≡◌, ◌≢◌, refl, sym, ap, subst, ◌∙◌, false, List, [], ◌∷◌, ◌++◌,
  ◌==◌, min, take, drop, get_or, length, arith,
}
use minidos.Fat.{Device, Fs, Sector, sector_size, put_sector, read_sector, write_sector}
use minidos.Dir.Walk.{Outcome, ret}
use minidos.Dir.Created.{IsSolid}
use minidos.File.{fill_sector, write_sectors}
use minidos.File.Read.{bytes_from, Progress, read_piece, read_cluster}

-- The `n` sectors from `lba` on hold the beginning of a file.
abbrev pub Holds : Device → ℕ → ℕ → List ℕ → Type 0
Holds d lba zero bytes = Unit {0}
Holds d lba (suc n) bytes =
    (d.sectors lba ≡ fill_sector bytes) × Holds d (lba + 1) n (drop sector_size bytes)

abbrev pub drop_sectors : ℕ → List ℕ → List ℕ
drop_sectors zero bytes = bytes
drop_sectors (suc n) bytes = drop_sectors n (drop sector_size bytes)

bytes_from-cons :
    (x : ℕ) (xs : List ℕ) (i n : ℕ)
    → bytes_from (λ k. get_or (x ∷ xs) k 0) (suc i) n ≡ bytes_from (λ k. get_or xs k 0) i n
bytes_from-cons x xs i zero = refl
bytes_from-cons x xs i (suc n) = ap (λ t. get_or xs i 0 ∷ t) (bytes_from-cons x xs (suc i) n)

bytes_from-get_or : (xs : List ℕ) → bytes_from (λ i. get_or xs i 0) 0 (length xs) ≡ xs
bytes_from-get_or [] = refl
bytes_from-get_or (x ∷ xs) =
    ap (λ t. x ∷ t) (bytes_from-cons x xs 0 (length xs) ∙ bytes_from-get_or xs)

length-take : (n : ℕ) (xs : List ℕ) → length (take n xs) ≡ min n (length xs)
length-take zero xs = omega arith
length-take (suc n) [] = omega arith
length-take (suc n) (x ∷ xs) = omega (arith, length-take n xs)

-- The bytes that a read takes from the sector of a file are those that the write has put there.
bytes_from-fill_sector :
    (bytes : List ℕ) (n : ℕ)
    → n ≡ min sector_size (length bytes)
    → bytes_from (fill_sector bytes) 0 n ≡ take sector_size bytes
bytes_from-fill_sector bytes n is =
    subst (λ (k : ℕ). bytes_from (fill_sector bytes) 0 k ≡ take sector_size bytes)
      (length-take sector_size bytes ∙ sym is) (bytes_from-get_or (take sector_size bytes))

length-drop : (n : ℕ) (xs : List ℕ) → length (drop n xs) ≡ length xs - n
length-drop zero xs = omega arith
length-drop (suc n) [] = omega arith
length-drop (suc n) (x ∷ xs) = omega (arith, length-drop n xs)

take-drop : (n : ℕ) (xs : List ℕ) → take n xs ++ drop n xs ≡ xs
take-drop zero xs = refl
take-drop (suc n) [] = refl
take-drop (suc n) (x ∷ xs) = ap (λ t. x ∷ t) (take-drop n xs)

drop_sectors-nil : (n : ℕ) → drop_sectors n [] ≡ []
drop_sectors-nil zero = refl
drop_sectors-nil (suc n) = drop_sectors-nil n

abbrev pub at_bytes : List ℕ → List ℕ → ℕ → Progress
at_bytes got bytes room = record { bytes = got; size = length bytes; room = room }

read_piece-fill_sector :
    (got bytes : List ℕ) (room : ℕ)
    → length bytes ≤ room
    → read_piece (fill_sector bytes) (at_bytes got bytes room)
      ≡ at_bytes
          (got ++ take sector_size bytes)
          (drop sector_size bytes)
          (room - min sector_size (length bytes))
unfolding read_piece
read_piece-fill_sector got bytes room fits =
    let taken : ℕ = min (min sector_size (length bytes)) room in
    let all : taken ≡ min sector_size (length bytes) = omega arith in
    let here = bytes_from-fill_sector bytes taken all in
    let left : length bytes - min sector_size (length bytes) ≡ length (drop sector_size bytes) =
      omega (arith, length-drop sector_size bytes) in
    rw (here, left, all) refl

-- What has been read, from sectors that hold the rest of a file.
record Got (n : ℕ) (got bytes : List ℕ) (q : Progress) : Type 0 where
  whole : q.bytes ++ drop_sectors n bytes ≡ got ++ bytes
  left : q.size ≡ length (drop_sectors n bytes)

append_assoc : (xs ys zs : List ℕ) → (xs ++ ys) ++ zs ≡ xs ++ (ys ++ zs)
append_assoc [] ys zs = refl
append_assoc (x ∷ xs) ys zs = ap (λ t. x ∷ t) (append_assoc xs ys zs)

read_sector_lem :
    (fs : Fs) (lba : ℕ)
    → IsSolid fs.device
    → (read_sector fs lba).0 ≡ record fs { sector_buffer = fs.device.sectors lba }
unfolding read_sector
read_sector_lem fs lba solid = rw (solid.reads lba) refl

read_cluster_step :
    (lba n : ℕ) (fs : Fs) (p : Progress)
    → IsSolid fs.device
    → p.size ≢ 0
    → read_cluster lba (suc n) fs p
      ≡ read_cluster
          (lba + 1)
          n
          (record fs { sector_buffer = fs.device.sectors lba })
          (read_piece (fs.device.sectors lba) p)
unfolding read_cluster
read_cluster_step lba n fs p solid h =
    let going : (p.size == 0) ≡ false = ground arith in
    rw (going, read_sector_lem fs lba solid) refl

read_cluster-Got :
    (lba n : ℕ) (fs : Fs) (got bytes : List ℕ) (room : ℕ)
    → IsSolid fs.device
    → Holds fs.device lba n bytes
    → length bytes ≤ room
    → Got n got bytes (read_cluster lba n fs (at_bytes got bytes room)).1
unfolding read_cluster
read_cluster-Got lba zero fs got bytes room solid holds fits = record { whole = refl; left = refl }
read_cluster-Got lba (suc n) fs got [] room solid holds fits = record {
  whole = ap (λ t. got ++ t) (drop_sectors-nil n);
  left = sym (ap length (drop_sectors-nil n));
}
read_cluster-Got lba (suc n) fs got (c ∷ bs) room solid (here, holds) fits =
    let bytes : List ℕ = c ∷ bs in
    let fs1 : Fs = record fs { sector_buffer = fs.device.sectors lba } in
    let room1 : ℕ = room - min sector_size (length bytes) in
    let rest =
      read_cluster-Got (lba + 1) n fs1 (got ++ take sector_size bytes) (drop sector_size bytes)
        room1 solid holds (omega (arith, length-drop sector_size bytes)) in
    let piece =
      ap (λ s. read_piece s (at_bytes got bytes room)) here
      ∙ read_piece-fill_sector got bytes room fits in
    let step =
      read_cluster_step lba n fs (at_bytes got bytes room) solid (omega arith)
      ∙ ap (λ q. read_cluster (lba + 1) n fs1 q) piece in
    let joined =
      append_assoc got (take sector_size bytes) (drop sector_size bytes)
      ∙ ap (λ t. got ++ t) (take-drop sector_size bytes) in
    let all : Got (suc n) got bytes
        (read_cluster (lba + 1) n fs1
          (at_bytes (got ++ take sector_size bytes) (drop sector_size bytes) room1)).1 =
      record { whole = rest.whole ∙ joined; left = rest.left } in
    subst (λ (r : Fs × Progress). Got (suc n) got bytes r.1) (sym step) all

-- What a write of sectors comes to on a sound disk.
record Put (lba n : ℕ) (fs : Fs) (bytes : List ℕ) (r : Fs × Outcome (List ℕ)) : Type 0 where
  ends : r.1 ≡ ret (drop_sectors n bytes)
  holds : Holds r.0.device lba n bytes
  solid : IsSolid r.0.device
  below : (l : ℕ) → l < lba → r.0.device.sectors l ≡ fs.device.sectors l

put_sector_same : (d : Device) (lba : ℕ) (s : Sector) → (put_sector d lba s).sectors lba ≡ s
unfolding put_sector
put_sector_same d lba s = ground arith

put_sector_other :
    (d : Device) (lba l : ℕ) (s : Sector) → l ≢ lba → (put_sector d lba s).sectors l ≡ d.sectors l
unfolding put_sector
put_sector_other d lba l s h = ground arith

put_sector-IsSolid : (d : Device) (lba : ℕ) (s : Sector) → IsSolid d → IsSolid (put_sector d lba s)
unfolding put_sector
put_sector-IsSolid d lba s solid = record { reads = solid.reads; writes = solid.writes }

written : Fs → ℕ → Sector → Fs
written fs lba s = record fs { sector_buffer = s; device = put_sector fs.device lba s }

write_sectors_step :
    (first lba n : ℕ) (bytes : List ℕ) (fs : Fs)
    → IsSolid fs.device
    → write_sectors first lba (suc n) bytes fs
      ≡ write_sectors first
          (lba + 1)
          n
          (drop sector_size bytes)
          (written fs lba (fill_sector bytes))
unfolding write_sectors write_sector written
write_sectors_step first lba n bytes fs solid = rw (solid.writes lba) refl

write_sectors-Put :
    (first lba n : ℕ) (bytes : List ℕ) (fs : Fs)
    → IsSolid fs.device
    → Put lba n fs bytes (write_sectors first lba n bytes fs)
unfolding write_sectors written
write_sectors-Put first lba zero bytes fs solid = record {
  ends = refl;
  holds = tt;
  solid = solid;
  below = λ l h. refl;
}
write_sectors-Put first lba (suc n) bytes fs solid =
    let s : Sector = fill_sector bytes in
    let fs1 : Fs = written fs lba s in
    let rest =
      write_sectors-Put first (lba + 1) n (drop sector_size bytes) fs1
        (put_sector-IsSolid fs.device lba s solid) in
    subst (Put lba (suc n) fs bytes) (sym (write_sectors_step first lba n bytes fs solid)) (record {
      ends = rest.ends;
      holds = (rest.below lba (omega arith) ∙ put_sector_same fs.device lba s, rest.holds);
      solid = rest.solid;
      below = λ l h. rest.below l (omega arith) ∙ put_sector_other fs.device lba l s (omega arith);
    })

-- On a disk whose transfers succeed, a cluster that is written and then read, with room for what is
-- written, gives the bytes of the file that the cluster has taken, and leaves the rest: the two
-- make up the file.
pub read_cluster-write_sectors :
    (first lba n : ℕ) (bytes : List ℕ) (fs : Fs) (room : ℕ)
    → IsSolid fs.device
    → length bytes ≤ room
    → ((write_sectors first lba n bytes fs).1 ≡ ret (drop_sectors n bytes))
      × ((read_cluster lba n
              (write_sectors first lba n bytes fs).0
              (at_bytes [] bytes room)).1.bytes
            ++ drop_sectors n bytes
          ≡ bytes)
      × ((read_cluster lba n (write_sectors first lba n bytes fs).0 (at_bytes [] bytes room)).1.size
          ≡ length (drop_sectors n bytes))
read_cluster-write_sectors first lba n bytes fs room solid fits =
    let put = write_sectors-Put first lba n bytes fs solid in
    let got =
      read_cluster-Got lba n (write_sectors first lba n bytes fs).0 [] bytes room put.solid
        put.holds fits in
    (put.ends, got.whole, got.left)
