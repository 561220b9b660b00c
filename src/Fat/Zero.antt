-- ===== src/Fat/Zero.antt =====
-- src/kernel/storage/fat16.c: `fat16_zero_cluster`.
use minidos.Common.{
  ℕ, zero, suc, ◌+◌, ◌-◌, ◌*◌, ◌≡◌, refl, true, false, ◌==◌, if◌then◌else◌, arith, Bool-cases, inl,
  inr, leb, ltb, ◌&&◌,
}
use minidos.Fat.Geometry.{get_data_start}
use minidos.Fat.{Fs, Device, put_sector, write_sector}
use minidos.Fat.Alloc.{zero_loop, zero_cluster}

-- The sector of a round, then the sectors of the rounds after it.
if_range :
    (l start n z w e : ℕ)
    → e ≡ (if leb (start + 1) l && ltb l (start + 1 + n) then 0 else w)
    → w ≡ (if l == start then 0 else z)
    → e ≡ (if leb start l && ltb l (start + suc n) then 0 else z)
if_range l start n z w e h g = ground arith

put_zero :
    (d : Device) (start l i : ℕ)
    → (put_sector d start (λ j. 0)).sectors l i ≡ (if l == start then 0 else d.sectors l i)
unfolding put_sector
put_zero d start l i = elim (Bool-cases (l == start)) [ inl e ↦ rw e refl | inr e ↦ rw e refl ]

zero_loop_lem :
    (n : ℕ) (fs : Fs) (start l i : ℕ)
    → ((m : ℕ) → fs.device.write_fails m ≡ false)
    → ((zero_loop fs start n).1 ≡ true)
      × ((zero_loop fs start n).0.device.sectors l i
          ≡ (if leb start l && ltb l (start + n) then 0 else fs.device.sectors l i))
unfolding zero_loop write_sector put_sector
zero_loop_lem zero fs start l i h = (refl, ground arith)
zero_loop_lem (suc n) fs start l i h =
    let fs1 : Fs = record fs {
      sector_buffer = λ j. 0;
      device = put_sector fs.device start (λ j. 0);
    } in
    let ih = zero_loop_lem n fs1 (start + 1) l i h in
    rw (h start) (
      ih.0,
      if_range l start n (fs.device.sectors l i) (fs1.device.sectors l i)
          ((zero_loop fs1 (start + 1) n).0.device.sectors l i) ih.1 (put_zero fs.device start l i),
    )

-- On a disk whose writes succeed, `fat16_zero_cluster` succeeds and leaves zeros in the sectors of
-- the cluster, and every other sector of the disk as it was.
zero_cluster_lem :
    (fs : Fs) (c l i : ℕ)
    → ((m : ℕ) → fs.device.write_fails m ≡ false)
    → ((zero_cluster fs c).1 ≡ true)
      × ((zero_cluster fs c).0.device.sectors l i ≡ (
          if leb (get_data_start fs.bpb + (c - 2) * fs.bpb.sectors_per_cluster) l
            && ltb l (
                get_data_start fs.bpb
                + (c - 2) * fs.bpb.sectors_per_cluster
                + fs.bpb.sectors_per_cluster)
          then 0
          else fs.device.sectors l i))
unfolding zero_cluster
zero_cluster_lem fs c l i h =
    zero_loop_lem fs.bpb.sectors_per_cluster fs
      (get_data_start fs.bpb + (c - 2) * fs.bpb.sectors_per_cluster) l i h
