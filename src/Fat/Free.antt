-- ===== src/Fat/Free.antt =====
-- src/kernel/storage/fat16.c: `fat16_free_cluster_chain_internal` on a chain of clusters.
use minidos.Common.{
  ℕ_discrete, ℕ, zero, suc, ◌+◌, ◌≤◌, ◌≡◌, ◌≢◌, ◌⊎◌, refl, ap, sym, subst, ◌∙◌, Bool, true, false,
  ◌==◌, if◌then◌else◌, arith, inl, inr, add32, List, [], ◌∷◌, length, ltb, ◌||◌,
}
use minidos.Fat.Geometry.{Bpb, get_total_clusters, fat_is_data_cluster}
use minidos.Fat.{FatType, fat12, fat16, Fs, read_fat_entry, write_fat_entry}
use minidos.Fat.Alloc.{free_loop, free_cluster_chain}
use minidos.Fat.Write.{fit}
use minidos.Fat.Entries.{
  read_fat_entry-SameDisk, SameDisk-IsReady, write_fat_entry-SameLayout, write_fat_entry-IsReady,
  entry, last_cluster, IsReady, read_fat_entry-entry, entry-read_fat_entry, entry-write_fat_entry,
}
use minidos.Fat.Chains.{NotIn, is_in, Linked, Linked-agree, chain_length}

-- The volume after a round of the loop.
abbrev after_round : Fs → ℕ → Fs
after_round fs c = (write_fat_entry (read_fat_entry fs c).0 c 0).0

fit_zero : (ty : FatType) → fit ty 0 ≡ 0
unfolding fit
fit_zero fat12 = refl
fit_zero fat16 = refl

round_bpb : (fs : Fs) (c : ℕ) → IsReady fs → (after_round fs c).bpb ≡ fs.bpb
round_bpb fs c r =
    let h = read_fat_entry-SameDisk fs c in
    (write_fat_entry-SameLayout (read_fat_entry fs c).0 c 0
      (SameDisk-IsReady fs (read_fat_entry fs c).0 h r).sound).bpb
    ∙ h.bpb

round_IsReady : (fs : Fs) (c : ℕ) → IsReady fs → IsReady (after_round fs c)
round_IsReady fs c r =
    write_fat_entry-IsReady (read_fat_entry fs c).0 c 0
      (SameDisk-IsReady fs (read_fat_entry fs c).0 (read_fat_entry-SameDisk fs c) r)

round_entry :
    (fs : Fs) (c d : ℕ)
    → IsReady fs
    → c ≤ last_cluster fs
    → d ≤ last_cluster fs
    → ((write_fat_entry (read_fat_entry fs c).0 c 0).1 ≡ true)
      × (entry (after_round fs c) d ≡ (if d == c then 0 else entry fs d))
round_entry fs c d r lc ld =
    let fs1 : Fs = (read_fat_entry fs c).0 in
    let h = read_fat_entry-SameDisk fs c in
    let w =
      entry-write_fat_entry fs1 c 0 d (SameDisk-IsReady fs fs1 h r)
        (subst (λ b. c ≤ get_total_clusters b + 1) (sym h.bpb) lc)
        (subst (λ b. d ≤ get_total_clusters b + 1) (sym h.bpb) ld) in
    (w.0, w.1 ∙ (λ i. if d == c then fit_zero fs1.fat_type i else entry-read_fat_entry fs c d i))

data_le : (fs : Fs) (c : ℕ) → IsReady fs → fat_is_data_cluster fs.bpb c ≡ true → c ≤ last_cluster fs
unfolding fat_is_data_cluster
data_le fs c r is = ground (arith, r.numbered)

free_loop_step :
    (fs : Fs) (c n : ℕ)
    → IsReady fs
    → fat_is_data_cluster fs.bpb c ≡ true
    → free_loop fs c (suc n) ≡ (
        if entry fs c == c
        then (after_round fs c, true)
        else free_loop (after_round fs c) (entry fs c) n)
unfolding free_loop
free_loop_step fs c n r is =
    let le = data_le fs c r is in
    rw is (rw ((round_entry fs c c r le le).0) (rw (read_fat_entry-entry fs c r) refl))

free_loop_stop :
    (fs : Fs) (c n : ℕ) → fat_is_data_cluster fs.bpb c ≡ false → free_loop fs c n ≡ (fs, true)
unfolding free_loop
free_loop_stop fs c zero h = refl
free_loop_stop fs c (suc n) h = rw h refl

abbrev pub Frees : Fs → List ℕ → ℕ → Fs × Bool → Type 0
Frees fs cs d r = (r.1 ≡ true) × (entry r.0 d ≡ (if is_in d cs then 0 else entry fs d))

if_or :
    (a b : Bool) (z w e : ℕ)
    → e ≡ (if b then 0 else w)
    → w ≡ (if a then 0 else z)
    → e ≡ (if a || b then 0 else z)
if_or a b z w e h g = ground arith

-- The rounds after the first one, where the entry leads on.
next_round :
    (fs : Fs) (c n : ℕ)
    → IsReady fs
    → fat_is_data_cluster fs.bpb c ≡ true
    → entry fs c ≢ c
    → free_loop fs c (suc n) ≡ free_loop (after_round fs c) (entry fs c) n
next_round fs c n r is ne =
    let on : (entry fs c == c) ≡ false = ground arith in
    free_loop_step fs c n r is
    ∙ ap (λ b. if b then (after_round fs c, true) else free_loop (after_round fs c) (entry fs c) n)
        on

-- The round that ends the loop.
last_round :
    (fs : Fs) (c n : ℕ)
    → IsReady fs
    → fat_is_data_cluster fs.bpb c ≡ true
    → (fat_is_data_cluster fs.bpb (entry fs c) ≡ false) ⊎ (entry fs c ≡ c)
    → free_loop fs c (suc n) ≡ (after_round fs c, true)
last_round fs c n r is end = elim (ℕ_discrete (entry fs c) c) [
  | yes e ↦
      let self : (entry fs c == c) ≡ true = ground arith in
      free_loop_step fs c n r is
      ∙ ap
          (λ b. if b then (after_round fs c, true) else free_loop (after_round fs c) (entry fs c) n)
          self
  | no ne ↦ elim end [
    | inr e ↦ absurd (ne e)
    | inl out ↦
        next_round fs c n r is ne
        ∙ free_loop_stop (after_round fs c) (entry fs c) n
            (ap (λ b. fat_is_data_cluster b (entry fs c)) (round_bpb fs c r) ∙ out)
  ]
]

round_Linked :
    (fs : Fs) (c x : ℕ) (cs : List ℕ)
    → IsReady fs
    → fat_is_data_cluster fs.bpb c ≡ true
    → NotIn c (x ∷ cs)
    → Linked fs.bpb (entry fs) x cs
    → Linked (after_round fs c).bpb (entry (after_round fs c)) x cs
round_Linked fs c x cs r is fresh rest =
    subst (λ b. Linked b (entry (after_round fs c)) x cs) (sym (round_bpb fs c r))
      (Linked-agree fs.bpb (entry fs) (entry (after_round fs c)) c x cs rest fresh (λ y ne inside.
        let other : (y == c) ≡ false = ground (arith, ne) in
        (round_entry fs c y r (data_le fs c r is) (data_le fs y r inside)).1
        ∙ ap (λ b. if b then 0 else entry fs y) other))

free_loop_lem :
    (cs : List ℕ) (fs : Fs) (c n d : ℕ)
    → IsReady fs
    → Linked fs.bpb (entry fs) c cs
    → length (c ∷ cs) ≤ n
    → d ≤ last_cluster fs
    → Frees fs (c ∷ cs) d (free_loop fs c n)
free_loop_lem [] fs c zero d r h le ld = absurd (omega (arith, le))
free_loop_lem (x ∷ cs) fs c zero d r h le ld = absurd (omega (arith, le))
free_loop_lem [] fs c (suc n) d r (is, end) le ld =
    let w = round_entry fs c d r (data_le fs c r is) ld in
    subst (Frees fs (c ∷ []) d) (sym (last_round fs c n r is end)) (
      refl,
      if_or (d == c) false (entry fs d) (entry (after_round fs c) d) (entry (after_round fs c) d)
          refl w.1,
    )
free_loop_lem (x ∷ cs) fs c (suc n) d r (is, link, fresh, rest) le ld =
    let w = round_entry fs c d r (data_le fs c r is) ld in
    let fs1 : Fs = after_round fs c in
    let ih =
      free_loop_lem cs fs1 x n d (round_IsReady fs c r) (round_Linked fs c x cs r is fresh rest)
        (omega (arith, le))
        (subst (λ b. d ≤ get_total_clusters b + 1) (sym (round_bpb fs c r)) ld) in
    subst (Frees fs (c ∷ x ∷ cs) d)
      (sym
        (next_round fs c n r is (λ e. fresh.0 (sym e ∙ link)) ∙ ap (λ y. free_loop fs1 y n) link))
      (
        ih.0,
        if_or (d == c) (is_in d (x ∷ cs)) (entry fs d) (entry fs1 d) (entry (free_loop fs1 x n).0 d)
            ih.1 w.1,
      )

data_from_two : (b : Bpb) (c : ℕ) → fat_is_data_cluster b c ≡ true → ltb c 2 ≡ false
unfolding fat_is_data_cluster
data_from_two b c is = ground arith

first_data : (fs : Fs) (c : ℕ) (cs : List ℕ) → Linked fs.bpb (entry fs) c cs → ltb c 2 ≡ false
first_data fs c [] (is, end) = data_from_two fs.bpb c is
first_data fs c (x ∷ cs) (is, link, fresh, rest) = data_from_two fs.bpb c is

-- On a ready volume, freeing a chain of data clusters succeeds, however long the chain is: the loop
-- has steps enough. It leaves 0 in the entries of all its clusters and every other entry as it was.
pub free_cluster_chain-Frees :
    (fs : Fs) (c d : ℕ) (cs : List ℕ)
    → IsReady fs
    → Linked fs.bpb (entry fs) c cs
    → d ≤ last_cluster fs
    → Frees fs (c ∷ cs) d (free_cluster_chain fs c)
unfolding free_cluster_chain
free_cluster_chain-Frees fs c d cs r h ld =
    let started : ltb c 2 ≡ false = first_data fs c cs h in
    let steps : add32 (get_total_clusters fs.bpb) 2 ≡ get_total_clusters fs.bpb + 2 =
      omega (arith, r.numbered) in
    rw started (
      rw steps (
        free_loop_lem cs fs c (get_total_clusters fs.bpb + 2) d r h
          (chain_length fs.bpb (entry fs) c cs (omega (arith, r.numbered)) h) ld))
