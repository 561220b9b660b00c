-- ===== src/File/Ends.antt =====
-- src/kernel/storage/fat16_file.c: the reading of a file ends, within the bounds of the buffer and
-- of the file.
use minidos.Common.{
  if_lem, ℕ, zero, suc, ◌+◌, ◌/◌, ◌%◌, ◌^◌, ◌≤◌, ◌<◌, ◌≡◌, ◌≢◌, refl, sym, ap, ◌∙◌, not, ◌&&◌, some,
  List, ◌++◌, ◌==◌, min, length, length-append, arith,
}
use minidos.Fat.Geometry.{fat_is_data_cluster}
use minidos.Fat.{
  FatType, fat12, fat16, Fs, Sector, sector_size, read_sector, read_aux, read_entry12, read_entry16,
  read_by_type, read_fat_entry,
}
use minidos.Dir.Entry.{DirEntry}
use minidos.Dir.Walk.{Outcome, ret, done, cluster_sector}
use minidos.File.Read.{
  look_in_dir, bytes_from, Progress, read_piece, read_cluster, read_clusters, start, finish_read,
  read_file_from_dir,
}

read_sector-bpb : (fs : Fs) (lba : ℕ) → (read_sector fs lba).0.bpb ≡ fs.bpb
unfolding read_sector
read_sector-bpb fs lba = ground arith

read_aux-bpb : (fs : Fs) (lba : ℕ) → (read_aux fs lba).0.bpb ≡ fs.bpb
unfolding read_aux
read_aux-bpb fs lba = ground arith

read_entry12-bpb : (fs : Fs) (cluster : ℕ) → (read_entry12 fs cluster).0.bpb ≡ fs.bpb
unfolding read_entry12
read_entry12-bpb fs cluster =
    let sector : ℕ = fs.bpb.reserved_sectors + (cluster + cluster / 2) / sector_size in
    let fs1 : Fs = (read_sector fs sector).0 in
    let first : fs1.bpb ≡ fs.bpb = read_sector-bpb fs sector in
    let both : (read_aux fs1 (sector + 1)).0.bpb ≡ fs.bpb = read_aux-bpb fs1 (sector + 1) ∙ first in
    ground (arith, first, both)

read_by_type-bpb :
    (t : FatType) (fs : Fs) (cluster : ℕ) → (read_by_type t fs cluster).0.bpb ≡ fs.bpb
unfolding read_by_type read_entry16 read_sector
read_by_type-bpb fat12 fs cluster = read_entry12-bpb fs cluster
read_by_type-bpb fat16 fs cluster = ground arith

read_fat_entry-bpb : (fs : Fs) (cluster : ℕ) → (read_fat_entry fs cluster).0.bpb ≡ fs.bpb
unfolding read_fat_entry
read_fat_entry-bpb fs cluster = read_by_type-bpb fs.fat_type fs cluster

length-bytes_from : (s : Sector) (i n : ℕ) → length (bytes_from s i n) ≡ n
length-bytes_from s i zero = refl
length-bytes_from s i (suc n) = ap suc (length-bytes_from s (suc i) n)

-- The bytes that come take as much room from the buffer, and no more than the file gives up.
record Goes (p q : Progress) : Type 0 where
  filled : length q.bytes + q.room ≡ length p.bytes + p.room
  given : length q.bytes + q.size ≤ length p.bytes + p.size

Goes-refl : (p : Progress) → Goes p p
Goes-refl p = record { filled = refl; given = omega arith }

Goes-trans : {p q r : Progress} → Goes p q → Goes q r → Goes p r
Goes-trans f g = record { filled = g.filled ∙ f.filled; given = omega (arith, f.given, g.given) }

read_piece-Goes : (s : Sector) (p : Progress) → Goes p (read_piece s p)
unfolding read_piece
read_piece-Goes s p =
    let taken : ℕ = min (min sector_size p.size) p.room in
    let long : length (p.bytes ++ bytes_from s 0 taken) ≡ length p.bytes + taken =
      length-append p.bytes (bytes_from s 0 taken)
      ∙ ap (λ n. length p.bytes + n) (length-bytes_from s 0 taken) in
    record { filled = omega (arith, long); given = omega (arith, long) }

read_piece-shrinks : (s : Sector) (p : Progress) → p.size ≢ 0 → (read_piece s p).size < p.size
unfolding read_piece
read_piece-shrinks s p h = omega (arith, h)

read_piece-stays : (s : Sector) (p : Progress) → (read_piece s p).size ≤ p.size
unfolding read_piece
read_piece-stays s p = omega arith

-- A cluster of at least one sector takes from a file that is not at its end.
record Reads (n : ℕ) (fs : Fs) (p : Progress) (r : Fs × Progress) : Type 0 where
  goes : Goes p r.1
  bpb : r.0.bpb ≡ fs.bpb
  shrinks : p.size ≢ 0 → n ≢ 0 → r.1.size < p.size
  stays : r.1.size ≤ p.size

read_cluster-Reads : (lba n : ℕ) (fs : Fs) (p : Progress) → Reads n fs p (read_cluster lba n fs p)
unfolding read_cluster
read_cluster-Reads lba zero fs p = record {
  goes = Goes-refl p;
  bpb = refl;
  shrinks = λ a b. absurd (b refl);
  stays = omega arith;
}
read_cluster-Reads lba (suc n) fs p =
    let fs1 : Fs = (read_sector fs lba).0 in
    let p1 : Progress = read_piece fs1.sector_buffer p in
    let rest = read_cluster-Reads (lba + 1) n fs1 p1 in
    if_lem (Reads (suc n) fs p) (p.size == 0) (fs, p) (read_cluster (lba + 1) n fs1 p1)
      (λ e. record {
        goes = Goes-refl p;
        bpb = refl;
        shrinks = λ a b. absurd (a (ground arith));
        stays = omega arith;
      })
      (λ e. record {
        goes = Goes-trans (read_piece-Goes fs1.sector_buffer p) rest.goes;
        bpb = rest.bpb ∙ read_sector-bpb fs lba;
        shrinks = λ a b. omega (arith, rest.stays, read_piece-shrinks fs1.sector_buffer p a);
        stays = omega (arith, rest.stays, read_piece-stays fs1.sector_buffer p);
      })

-- How the loop over clusters ends.
abbrev Ended : Progress → Outcome Progress → Type 0
Ended p o = (q : Progress) × (o ≡ ret q) × Goes p q

read_clusters-Ended :
    (fuel cluster : ℕ) (fs : Fs) (p : Progress)
    → fs.bpb.sectors_per_cluster ≢ 0
    → p.size < fuel
    → Ended p (read_clusters fuel cluster fs p).1
unfolding read_clusters
read_clusters-Ended zero cluster fs p some_sector enough = absurd (omega arith)
read_clusters-Ended (suc fuel) cluster fs p some_sector enough =
    let n : ℕ = fs.bpb.sectors_per_cluster in
    let r : Fs × Progress = read_cluster (cluster_sector fs cluster) n fs p in
    let reads = read_cluster-Reads (cluster_sector fs cluster) n fs p in
    let after : Fs × ℕ = read_fat_entry r.0 (cluster % 2 ^ 16) in
    let same : after.0.bpb ≡ fs.bpb = read_fat_entry-bpb r.0 (cluster % 2 ^ 16) ∙ reads.bpb in
    if_lem (λ (o : Fs × Outcome Progress). Ended p o.1)
      (fat_is_data_cluster fs.bpb cluster && not (p.room == 0) && not (p.size == 0))
      (read_clusters fuel after.1 after.0 r.1) (fs, ret p)
      (λ e.
        let less = reads.shrinks (ground arith) some_sector in
        let (q, is, goes) =
          read_clusters-Ended fuel after.1 after.0 r.1
            (λ z. some_sector (sym (ap (λ b. b.sectors_per_cluster) same) ∙ z))
            (omega (arith, less)) in
        (q, is, Goes-trans reads.goes goes))
      (λ e. (p, refl, Goes-refl p))

-- Once the entry of a file is found, reading it comes to an end with bytes that fit the buffer and
-- are no more than the entry's size, whatever the allocation table holds: its loop takes a step for
-- each byte of the file at most, where a cluster has a sector.
pub read_file_from_dir-ends :
    (fuel dir_cluster : ℕ) (name : List ℕ) (max_size : ℕ) (fs fs1 : Fs) (e : DirEntry)
    → look_in_dir fuel name fs dir_cluster ≡ (fs1, ret (done (some e)))
    → fs1.bpb.sectors_per_cluster ≢ 0
    → e.file_size < fuel
    → (bytes : List ℕ) × ((read_file_from_dir fuel dir_cluster name max_size fs).1 ≡ ret bytes)
      × (length bytes ≤ max_size)
      × (length bytes ≤ e.file_size)
unfolding read_file_from_dir
read_file_from_dir-ends fuel dir_cluster name max_size fs fs1 e found some_sector enough =
    let r : Fs × Outcome Progress = read_clusters fuel e.cluster_low fs1 (start e max_size) in
    let (q, is, goes) =
      read_clusters-Ended fuel e.cluster_low fs1 (start e max_size) some_sector enough in
    let got : (finish_read r.0 r.1).1 ≡ ret q.bytes = ap (λ o. (finish_read r.0 o).1) is in
    (q.bytes, rw found got, omega (arith, goes.filled), omega (arith, goes.given))
