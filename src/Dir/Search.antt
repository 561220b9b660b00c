-- ===== src/Dir/Search.antt =====
-- src/kernel/storage/fat16_dir_lookup.inc and fat16_dir_mutation.inc: the search for a name against
-- the search for a free slot, in one sector.
use minidos.Common.{
  ℕ, zero, suc, ◌+◌, ◌≡◌, ◌≤◌, refl, sym, Bool, true, false, not, ◌||◌, Option, some, none, ◌⊎◌,
  arith, List, Bool-cases, inl, inr,
}
use minidos.Fat.{Sector}
use minidos.Dir.Name.{match_name}
use minidos.Dir.Entry.{
  DirEntry, entry_at, put_entry, is_end, is_deleted, is_volume_id, is_long_name,
}
use minidos.Dir.Walk.{Visit, more, done, and_then, visit_entries}
use minidos.Dir.{Found, find_visit}
use minidos.Dir.Change.{Slot, free_visit}
use minidos.Dir.Written.{Fits, entry_at-put_entry, entry_at-put_entry_ne}

abbrev pub no_found : Unit {0} → Option Found
no_found u = none

abbrev pub no_slot : Unit {0} → Option Slot
no_slot u = none

-- The searches through the entries of a sector.
abbrev pub find_in : List ℕ → ℕ → Sector → ℕ → ℕ → Visit (Unit {0}) (Option Found)
find_in name lba b i n = visit_entries (find_visit name) no_found lba b i n tt

abbrev pub free_in : ℕ → Sector → ℕ → ℕ → Visit (Unit {0}) (Option Slot)
free_in lba b i n = visit_entries free_visit no_slot lba b i n tt

-- The name is not found.
abbrev pub Misses : Visit (Unit {0}) (Option Found) → Type 0
Misses (more u) = Unit
Misses (done none) = Unit
Misses (done (some f)) = ⊥

-- An entry that a search for the name stops at.
pub record IsHit (name : List ℕ) (e : DirEntry) : Type 0 where
  pub alive : (is_end e || is_deleted e) ≡ false
  pub plain : (is_volume_id e || is_long_name e) ≡ false
  pub named : match_name name e.name ≡ true

no_skip :
    (a b c d m : Bool)
    → (a || b) ≡ false
    → (c || d) ≡ false
    → m ≡ true
    → (b || c || d || not m) ≡ false
no_skip a b c d m h g k = ground arith

hit_found :
    (name : List ℕ) (lba i : ℕ) (e : DirEntry)
    → IsHit name e
    → find_visit name tt lba i e ≡ done (some (record { entry = e; sector = lba; index = i }))
unfolding find_visit
hit_found name lba i e h =
    let a : is_end e ≡ false = ground (arith, h.alive) in
    let b : (is_deleted e || is_volume_id e || is_long_name e || not (match_name name e.name))
        ≡ false =
      no_skip (is_end e) (is_deleted e) (is_volume_id e) (is_long_name e) (match_name name e.name)
        h.alive h.plain h.named in
    rw a (rw b refl)

-- A slot that is taken leaves both searches going on, unless the name is found there.
free_on :
    (lba i : ℕ) (e : DirEntry)
    → (is_end e || is_deleted e) ≡ false
    → free_visit tt lba i e ≡ more tt
unfolding free_visit
free_on lba i e h = rw h refl

free_off :
    (lba i : ℕ) (e : DirEntry)
    → (is_end e || is_deleted e) ≡ true
    → free_visit tt lba i e ≡ done (some (lba, i))
unfolding free_visit
free_off lba i e h = rw h refl

skipped :
    (name : List ℕ) (lba i : ℕ) (e : DirEntry)
    → (is_end e || is_deleted e) ≡ false
    → Misses (find_visit name tt lba i e)
    → find_visit name tt lba i e ≡ more tt
unfolding find_visit
skipped name lba i e h m =
    let a : is_end e ≡ false = ground arith in
    elim (Bool-cases
      (is_deleted e || is_volume_id e || is_long_name e || not (match_name name e.name))) [
        | inl skip ↦ rw skip (rw a refl)
        | inr hit ↦ absurd (let g = rw hit at m in let g2 = rw a at g in g2)
      ]

no_hit_first :
    (v : Visit (Unit {0}) (Option Found)) (onward : Unit {0} → Visit (Unit {0}) (Option Found))
    → Misses (and_then v onward)
    → Misses v
no_hit_first (more u) onward m = tt
no_hit_first (done none) onward m = tt
no_hit_first (done (some f)) onward m = m

-- Where no slot of the sector is free and the name is not found, both searches go on.
pub find_in-more :
    (name : List ℕ) (lba : ℕ) (b : Sector) (n i : ℕ)
    → free_in lba b i n ≡ more tt
    → Misses (find_in name lba b i n)
    → find_in name lba b i n ≡ more tt
unfolding visit_entries
find_in-more name lba b zero i h m = refl
find_in-more name lba b (suc n) i h m =
    let e : DirEntry = entry_at b i in
    elim (Bool-cases (is_end e || is_deleted e)) [
      | inl free ↦ let g = rw (free_off lba i e free) at h in cc
      | inr used ↦
          let next : free_in lba b (i + 1) n ≡ more tt = rw (free_on lba i e used) at h in
          let here = skipped name lba i e used (no_hit_first (find_visit name tt lba i e) _ m) in
          let m' : Misses (find_in name lba b (i + 1) n) = rw here at m in
          rw here (find_in-more name lba b n (i + 1) next m')
    ]

-- A free slot that is found is one of the sector, from the first entry that is looked at on.
pub free_in-place :
    (lba : ℕ) (b : Sector) (n i k l : ℕ)
    → free_in lba b i n ≡ done (some (l, k))
    → (l ≡ lba) × (i ≤ k)
unfolding visit_entries
free_in-place lba b zero i k l h = cc
free_in-place lba b (suc n) i k l h =
    let e : DirEntry = entry_at b i in
    elim (Bool-cases (is_end e || is_deleted e)) [
      | inl free ↦ let g = rw (free_off lba i e free) at h in ground arith
      | inr used ↦
          let next : free_in lba b (i + 1) n ≡ done (some (l, k)) =
            rw (free_on lba i e used) at h in
          let ih = free_in-place lba b n (i + 1) k l next in (ih.0, omega (arith, ih.1))
    ]

-- Where the name is not found, an entry for it that is put into the free slot is.
pub find_in-put_entry :
    (name : List ℕ) (lba : ℕ) (b : Sector) (new : DirEntry) (n i k l : ℕ)
    → Fits new
    → IsHit name new
    → free_in lba b i n ≡ done (some (l, k))
    → Misses (find_in name lba b i n)
    → find_in name lba (put_entry b k new) i n
      ≡ done (some (record { entry = new; sector = lba; index = k }))
unfolding visit_entries
find_in-put_entry name lba b new zero i k l fits hit h m = cc
find_in-put_entry name lba b new (suc n) i k l fits hit h m =
    let e : DirEntry = entry_at b i in
    elim (Bool-cases (is_end e || is_deleted e)) [
      | inl free ↦
          let g = rw (free_off lba i e free) at h in
          let same : i ≡ k = ground arith in
          rw (sym same)
            (rw (entry_at-put_entry b i new fits) (rw (hit_found name lba i new hit) refl))
      | inr used ↦
          let here = skipped name lba i e used (no_hit_first (find_visit name tt lba i e) _ m) in
          let m' : Misses (find_in name lba b (i + 1) n) = rw here at m in
          let next : free_in lba b (i + 1) n ≡ done (some (l, k)) =
            rw (free_on lba i e used) at h in
          let past = (free_in-place lba b n (i + 1) k l next).1 in
          let beside = entry_at-put_entry_ne b k i new (λ q. omega (arith, past, q)) in
          rw beside (rw here (find_in-put_entry name lba b new n (i + 1) k l fits hit next m'))
    ]

-- The search for a free slot of the sector finds one, or goes on.
pub free_in-cases :
    (lba : ℕ) (b : Sector) (n i : ℕ)
    → (free_in lba b i n ≡ more tt) ⊎ ((k : ℕ) × (free_in lba b i n ≡ done (some (lba, k))))
unfolding visit_entries
free_in-cases lba b zero i = inl refl
free_in-cases lba b (suc n) i =
    let e : DirEntry = entry_at b i in
    elim (Bool-cases (is_end e || is_deleted e)) [
      | inl free ↦ inr (i, rw (free_off lba i e free) refl)
      | inr used ↦ rw (free_on lba i e used) (free_in-cases lba b n (i + 1))
    ]
