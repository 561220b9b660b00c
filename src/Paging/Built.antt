-- ===== src/Paging/Built.antt =====
-- src/kernel/memory/paging.c: the page directory of an application, as a table of its entries.
use Prim.Native.Nat.{bit_or}
use minidos.Common.{
  ℕ, ◌+◌, ◌-◌, ◌*◌, ◌/◌, ◌%◌, ◌^◌, ◌<◌, ◌≤◌, ◌≡◌, ◌≢◌, ◌⊎◌, refl, ap, sym, subst, ◌∙◌, Bool, true,
  false, ◌&&◌, ltb, leb, ◌==◌, if◌then◌else◌, add32, arith, inl, inr, Bool-cases,
}
use minidos.Memory.{Memory, write, write_self, write_ne}
use minidos.Paging.{
  copy_directory, map_app_pages, app_request_refused, build_app_directory, user_page_flags,
}
use minidos.Paging.AppDirectory.{
  Apart, copy_outside, copy_pd, copy_pt, page_entry, map_outside, map_inside,
}

-- Entry `i` of the table of an application's pages: `count` pages from `first` on, at `phys`.
unfoldable pub table_entry : ℕ → ℕ → ℕ → ℕ → ℕ
table_entry first count phys i =
    if leb first i && ltb i (first + count) then page_entry phys (i - first) else 0

-- Entry `i` of an application's directory: the kernel's, save for the one of its own table.
unfoldable pub directory_entry : ℕ → Memory → ℕ → ℕ → ℕ → ℕ
directory_entry kernel_pd m out_pt pde_index i =
    if i == pde_index then bit_or out_pt user_page_flags else m (kernel_pd + 4 * i)

-- What an accepted request guarantees of the indices.
accepted_bounds :
    (kernel_pd : ℕ) (m : Memory) (out_pd out_pt phys virt bytes : ℕ)
    → app_request_refused kernel_pd m out_pd out_pt phys virt bytes ≡ false
    → (virt / 2 ^ 22 < 1024) × (virt / 2 ^ 12 % 1024 + add32 bytes 0xFFF / 2 ^ 12 ≤ 1024)
unfolding app_request_refused
accepted_bounds kernel_pd m out_pd out_pt phys virt bytes h = ground arith

mapped_entry :
    (m : Memory) (out_pt first phys count i : ℕ)
    → m (out_pt + 4 * i) ≡ 0
    → map_app_pages out_pt first phys m 0 count (out_pt + 4 * i) ≡ table_entry first count phys i
unfolding table_entry
mapped_entry m out_pt first phys count i h =
    elim (Bool-cases (leb first i && ltb i (first + count))) [
      | inl mapped ↦
          let within : (first ≤ i) × (i < first + count) = ground arith in
          let back : first + (i - first) ≡ i = omega arith in
          rw mapped (
            ap (λ k. map_app_pages out_pt first phys m 0 count (out_pt + 4 * k)) (sym back)
            ∙ map_inside out_pt first phys m 0 count (i - first) (omega arith) (omega arith))
      | inr free ↦
          let outside : (i < first) ⊎ (first + count ≤ i) = ground arith in
          rw free (map_outside out_pt first phys m 0 count (out_pt + 4 * i) (omega arith) ∙ h)
    ]

-- The directory, the table and the memory `m2` that hold an application's pages.
unfoldable pub Describes : ℕ → Memory → ℕ → ℕ → ℕ → ℕ → ℕ → Memory → ℕ → Type 0
Describes kernel_pd m out_pd out_pt phys virt bytes m2 i =
    (m2 (out_pd + 4 * i) ≡ directory_entry kernel_pd m out_pt (virt / 2 ^ 22) i)
    × (m2 (out_pt + 4 * i) ≡ table_entry (virt / 2 ^ 12 % 1024) (add32 bytes 0xFFF / 2 ^ 12) phys i)
    × (m2 (kernel_pd + 4 * i) ≡ m (kernel_pd + 4 * i))

-- From tables that are copied and cleared to those that are filled.
filled-Describes :
    (kernel_pd : ℕ) (m copied : Memory) (out_pd out_pt phys virt bytes i : ℕ)
    → i < 1024
    → Apart kernel_pd out_pd
    → Apart kernel_pd out_pt
    → Apart out_pd out_pt
    → app_request_refused kernel_pd m out_pd out_pt phys virt bytes ≡ false
    → copied (out_pd + 4 * i) ≡ m (kernel_pd + 4 * i)
    → copied (out_pt + 4 * i) ≡ 0
    → copied (kernel_pd + 4 * i) ≡ m (kernel_pd + 4 * i)
    → Describes kernel_pd m out_pd out_pt phys virt bytes
        (write
          (map_app_pages out_pt (virt / 2 ^ 12 % 1024) phys copied 0 (add32 bytes 0xFFF / 2 ^ 12))
          (out_pd + 4 * (virt / 2 ^ 22))
          (bit_or out_pt user_page_flags))
        i
unfolding Describes directory_entry Apart
filled-Describes kernel_pd m copied out_pd out_pt phys virt bytes i bound a b c accepted f g h =
    let pde : ℕ = virt / 2 ^ 22 in
    let first : ℕ = virt / 2 ^ 12 % 1024 in
    let count : ℕ = add32 bytes 0xFFF / 2 ^ 12 in
    let (small, fits) = accepted_bounds kernel_pd m out_pd out_pt phys virt bytes accepted in
    let mapped : Memory = map_app_pages out_pt first phys copied 0 count in
    let v : ℕ = bit_or out_pt user_page_flags in
    (
      elim (Bool-cases (i == pde)) [
        | inl own ↦
            let same : i ≡ pde = ground arith in
            rw own (rw same (write_self mapped (out_pd + 4 * pde) v))
        | inr other ↦
            let differs : i ≢ pde = ground arith in
            rw other (
              write_ne mapped (out_pd + 4 * pde) v (out_pd + 4 * i) (λ e. differs (omega arith))
              ∙ map_outside out_pt first phys copied 0 count (out_pd + 4 * i) (omega arith)
              ∙ f)
      ],
      write_ne mapped (out_pd + 4 * pde) v (out_pt + 4 * i) (λ e. omega arith)
          ∙ mapped_entry copied out_pt first phys count i g,
      write_ne mapped (out_pd + 4 * pde) v (kernel_pd + 4 * i) (λ e. omega arith)
          ∙ map_outside out_pt first phys copied 0 count (kernel_pd + 4 * i) (omega arith)
          ∙ h,
    )

choose_second : {A : Type 0} (test : Bool) (x y : A) → test ≡ false → (if test then x else y) ≡ y
choose_second test x y h = rw h refl

build_accepted :
    (kernel_pd : ℕ) (m : Memory) (out_pd out_pt phys virt bytes : ℕ)
    → app_request_refused kernel_pd m out_pd out_pt phys virt bytes ≡ false
    → build_app_directory kernel_pd m out_pd out_pt phys virt bytes ≡ (
      write
          (map_app_pages out_pt
            (virt / 2 ^ 12 % 1024)
            phys
            (copy_directory kernel_pd out_pd out_pt m 0 1024)
            0
            (add32 bytes 0xFFF / 2 ^ 12))
          (out_pd + 4 * (virt / 2 ^ 22))
          (bit_or out_pt user_page_flags),
      true,
    )
unfolding build_app_directory
build_accepted kernel_pd m out_pd out_pt phys virt bytes h =
    choose_second (app_request_refused kernel_pd m out_pd out_pt phys virt bytes) (m, false)
      (
        write
            (map_app_pages out_pt (virt / 2 ^ 12 % 1024) phys
              (copy_directory kernel_pd out_pd out_pt m 0 1024) 0 (add32 bytes 0xFFF / 2 ^ 12))
            (out_pd + 4 * (virt / 2 ^ 22)) (bit_or out_pt user_page_flags),
        true,
      )
      h

-- Where paging_build_app_directory accepts a request, and the kernel's directory and the two new
-- tables do not overlap, it answers yes, and for each index of 1024: the entry of the new
-- directory is the kernel's, save that the application's own entry leads to its table; the entry
-- of that table maps the pages asked for, in order, and no other; and the kernel's stays.
pub build_app_directory-Describes :
    (kernel_pd : ℕ) (m : Memory) (out_pd out_pt phys virt bytes i : ℕ)
    → i < 1024
    → Apart kernel_pd out_pd
    → Apart kernel_pd out_pt
    → Apart out_pd out_pt
    → app_request_refused kernel_pd m out_pd out_pt phys virt bytes ≡ false
    → ((build_app_directory kernel_pd m out_pd out_pt phys virt bytes).1 ≡ true)
      × Describes kernel_pd m out_pd out_pt phys virt bytes
          (build_app_directory kernel_pd m out_pd out_pt phys virt bytes).0
          i
unfolding Apart
build_app_directory-Describes kernel_pd m out_pd out_pt phys virt bytes i bound a b c accepted =
    let built = build_accepted kernel_pd m out_pd out_pt phys virt bytes accepted in
    (
      ap (λ r. r.1) built,
      subst (λ r. Describes kernel_pd m out_pd out_pt phys virt bytes r.0 i) (sym built)
          (filled-Describes kernel_pd m (copy_directory kernel_pd out_pd out_pt m 0 1024) out_pd
            out_pt phys virt bytes i bound a b c accepted
            (copy_pd kernel_pd out_pd out_pt m 0 1024 i (omega arith) bound (omega arith) a b c)
            (copy_pt kernel_pd out_pd out_pt m 0 1024 i (omega arith) bound (omega arith) c)
            (copy_outside kernel_pd out_pd out_pt m 0 1024 (kernel_pd + 4 * i) (omega arith)
              (omega arith))),
    )
