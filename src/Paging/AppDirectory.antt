-- ===== src/Paging/AppDirectory.antt =====
-- src/kernel/memory/paging.c: the tables that paging_build_app_directory leaves.
use Prim.Native.Nat.{bit_or}
use minidos.Common.{ℕ, zero, suc, ◌+◌, ◌*◌, ◌<◌, ◌≤◌, ◌≡◌, ◌⊎◌, refl, ◌∙◌, add32, arith, inl, inr}
use minidos.Memory.{Memory, write, write_self, write_ne}
use minidos.Paging.{copy_directory, map_app_pages, user_page_flags}

-- Two tables of 1024 words do not overlap.
unfoldable pub Apart : ℕ → ℕ → Type 0
Apart a b = (a + 4096 ≤ b) ⊎ (b + 4096 ≤ a)

split_at : (i j : ℕ) → i ≤ j → (j ≡ i) ⊎ (i + 1 ≤ j)
split_at i j h = ground arith

module _ (kernel_pd out_pd out_pt : ℕ) where
  pub copy_outside :
      (m : Memory) (i n b : ℕ)
      → (b < out_pd + 4 * i) ⊎ (out_pd + 4 * (i + n) ≤ b)
      → (b < out_pt + 4 * i) ⊎ (out_pt + 4 * (i + n) ≤ b)
      → copy_directory kernel_pd out_pd out_pt m i n b ≡ m b
  unfolding copy_directory
  copy_outside m i zero b h g = refl
  copy_outside m i (suc n) b h g =
      let copied : Memory = write m (out_pd + 4 * i) (m (kernel_pd + 4 * i)) in
      copy_outside (write copied (out_pt + 4 * i) 0) (i + 1) n b (omega arith) (omega arith)
      ∙ write_ne copied (out_pt + 4 * i) 0 b (λ e. omega arith)
      ∙ write_ne m (out_pd + 4 * i) (m (kernel_pd + 4 * i)) b (λ e. omega arith)

  copy_step_kernel :
      (m : Memory) (i j : ℕ)
      → i < 1024
      → j < 1024
      → Apart kernel_pd out_pd
      → Apart kernel_pd out_pt
      → write
          (write m (out_pd + 4 * i) (m (kernel_pd + 4 * i)))
          (out_pt + 4 * i)
          0
          (kernel_pd + 4 * j)
        ≡ m (kernel_pd + 4 * j)
  unfolding Apart
  copy_step_kernel m i j hi hj h g =
      write_ne (write m (out_pd + 4 * i) (m (kernel_pd + 4 * i))) (out_pt + 4 * i) 0
        (kernel_pd + 4 * j) (λ e. omega arith)
      ∙ write_ne m (out_pd + 4 * i) (m (kernel_pd + 4 * i)) (kernel_pd + 4 * j) (λ e. omega arith)

  pub copy_pd :
      (m : Memory) (i n j : ℕ)
      → i ≤ j
      → j < i + n
      → i + n ≤ 1024
      → Apart kernel_pd out_pd
      → Apart kernel_pd out_pt
      → Apart out_pd out_pt
      → copy_directory kernel_pd out_pd out_pt m i n (out_pd + 4 * j) ≡ m (kernel_pd + 4 * j)
  unfolding copy_directory Apart
  copy_pd m i zero j h g k a b c = absurd (omega arith)
  copy_pd m i (suc n) j h g k a b c =
      let v : ℕ = m (kernel_pd + 4 * i) in
      let copied : Memory = write m (out_pd + 4 * i) v in
      let next : Memory = write copied (out_pt + 4 * i) 0 in
      elim (split_at i j h) [
        | inl here ↦ rw here (
            copy_outside next (i + 1) n (out_pd + 4 * i) (omega arith) (omega arith)
            ∙ write_ne copied (out_pt + 4 * i) 0 (out_pd + 4 * i) (λ e. omega arith)
            ∙ write_self m (out_pd + 4 * i) v)
        | inr later ↦
            copy_pd next (i + 1) n j later (omega arith) (omega arith) a b c
            ∙ copy_step_kernel m i j (omega arith) (omega arith) a b
      ]

  pub copy_pt :
      (m : Memory) (i n j : ℕ)
      → i ≤ j
      → j < i + n
      → i + n ≤ 1024
      → Apart out_pd out_pt
      → copy_directory kernel_pd out_pd out_pt m i n (out_pt + 4 * j) ≡ 0
  unfolding copy_directory Apart
  copy_pt m i zero j h g k c = absurd (omega arith)
  copy_pt m i (suc n) j h g k c =
      let copied : Memory = write m (out_pd + 4 * i) (m (kernel_pd + 4 * i)) in
      let next : Memory = write copied (out_pt + 4 * i) 0 in
      elim (split_at i j h) [
        | inl here ↦ rw here (
            copy_outside next (i + 1) n (out_pt + 4 * i) (omega arith) (omega arith)
            ∙ write_self copied (out_pt + 4 * i) 0)
        | inr later ↦ copy_pt next (i + 1) n j later (omega arith) (omega arith) c
      ]

-- The entry of the page at `i` pages from the start of the application.
abbrev pub page_entry : ℕ → ℕ → ℕ
page_entry phys i = bit_or (add32 phys (i * 0x1000)) user_page_flags

module _ (out_pt first_index phys : ℕ) where
  pub map_outside :
      (m : Memory) (i n b : ℕ)
      → (b < out_pt + 4 * (first_index + i)) ⊎ (out_pt + 4 * (first_index + (i + n)) ≤ b)
      → map_app_pages out_pt first_index phys m i n b ≡ m b
  unfolding map_app_pages
  map_outside m i zero b h = refl
  map_outside m i (suc n) b h =
      map_outside (write m (out_pt + 4 * (first_index + i)) (page_entry phys i)) (i + 1) n b
        (omega arith)
      ∙ write_ne m (out_pt + 4 * (first_index + i)) (page_entry phys i) b (λ e. omega arith)

  pub map_inside :
      (m : Memory) (i n j : ℕ)
      → i ≤ j
      → j < i + n
      → map_app_pages out_pt first_index phys m i n (out_pt + 4 * (first_index + j))
        ≡ page_entry phys j
  unfolding map_app_pages
  map_inside m i zero j h g = absurd (omega arith)
  map_inside m i (suc n) j h g =
      let at_i : ℕ = out_pt + 4 * (first_index + i) in
      let next : Memory = write m at_i (page_entry phys i) in
      elim (split_at i j h) [
        | inl here ↦
            rw here (
              map_outside next (i + 1) n at_i (omega arith) ∙ write_self m at_i (page_entry phys i))
        | inr later ↦ map_inside next (i + 1) n j later (omega arith)
      ]
