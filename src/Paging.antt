-- ===== src/Paging.antt =====
-- src/kernel/memory/paging.c: the walk from an address to its page-table entry, the unmapping of
-- a page, the registers that a task switch loads, and the page directory of an application.
-- Low memory is identity mapped, so a table is read at its physical address.
pub mod AppDirectory
pub mod Built
mod Tests
use Prim.Native.Nat.{bit_or}
use minidos.Common.{
  ℕ, zero, suc, ◌+◌, ◌-◌, ◌*◌, ◌/◌, ◌%◌, ◌^◌, Bool, true, false, not, ◌||◌, Option, some, none, ltb,
  leb, ◌==◌, if◌then◌else◌, add32,
}
use minidos.Memory.{Memory, write}

-- `memory` holds the tables, `cr3` and `esp0` are the page-directory register and the stack that
-- an interrupt from user mode switches to.
pub record Machine : Type 0 where
  pub memory : Memory
  pub cr3 : ℕ
  pub esp0 : ℕ

abbrev pub page_present_bit : ℕ
page_present_bit = 0x001

-- PAGE_PRESENT | PAGE_RW | PAGE_USER
abbrev pub user_page_flags : ℕ
user_page_flags = 0x007

abbrev pub lowmem_page_table_count : ℕ
lowmem_page_table_count = 4

abbrev pub app_slot_bytes : ℕ
app_slot_bytes = 0x00400000

-- `entry & PAGE_PRESENT`
abbrev pub is_present : ℕ → Bool
is_present entry = entry % 2 == 1

-- The address of the entry that maps `addr`; `none` is the null pointer.
unfoldable pub lookup_pte : ℕ → Memory → ℕ → Option ℕ
lookup_pte kernel_pd m addr =
    let pd_index : ℕ = addr / 2 ^ 22 in
    let pt_index : ℕ = addr / 2 ^ 12 % 1024 in
    let entry : ℕ = m (kernel_pd + 4 * pd_index) in
    if is_present entry then some (entry - entry % 4096 + 4 * pt_index) else none

unfoldable pub page_present : ℕ → Memory → ℕ → Bool
unfolding lookup_pte
page_present kernel_pd m addr = elim (lookup_pte kernel_pd m addr) [
  | none ↦ false
  | some pte ↦ is_present (m pte)
]

unfoldable pub unmap_page : ℕ → Memory → ℕ → Memory × Bool
unfolding lookup_pte
unmap_page kernel_pd m addr = elim (lookup_pte kernel_pd m addr) [
  | none ↦ (m, false)
  | some pte ↦ (write m pte 0, true)
]

unfoldable pub activate_directory : ℕ → Machine → ℕ → Machine
activate_directory kernel_pd k pd = record k { cr3 = if pd == 0 then kernel_pd else pd }

unfoldable pub set_kernel_stack_top : Machine → ℕ → Machine
set_kernel_stack_top k stack_top = record k { esp0 = stack_top }

-- The first loop of `paging_build_app_directory`: entry `i` of the kernel's directory is copied,
-- and entry `i` of the user table is cleared. `n` rounds are left.
unfoldable pub copy_directory : ℕ → ℕ → ℕ → Memory → ℕ → ℕ → Memory
copy_directory kernel_pd out_pd out_pt m i zero = m
copy_directory kernel_pd out_pd out_pt m i (suc n) =
    let copied : Memory = write m (out_pd + 4 * i) (m (kernel_pd + 4 * i)) in
    copy_directory kernel_pd out_pd out_pt (write copied (out_pt + 4 * i) 0) (i + 1) n

-- The second loop: page `i` of the application.
unfoldable pub map_app_pages : ℕ → ℕ → ℕ → Memory → ℕ → ℕ → Memory
map_app_pages out_pt first_index phys m i zero = m
map_app_pages out_pt first_index phys m i (suc n) =
    map_app_pages out_pt first_index phys
      (write m (out_pt + 4 * (first_index + i)) (bit_or (add32 phys (i * 0x1000)) user_page_flags))
      (i + 1) n

-- The guard of `paging_build_app_directory`: whether the request is refused.
unfoldable pub app_request_refused : ℕ → Memory → ℕ → ℕ → ℕ → ℕ → ℕ → Bool
app_request_refused kernel_pd m out_pd out_pt phys virt bytes =
    let pde_index : ℕ = virt / 2 ^ 22 in
    let first_index : ℕ = virt / 2 ^ 12 % 1024 in
    let page_count : ℕ = add32 bytes 0xFFF / 2 ^ 12 in
    out_pd == 0
    || out_pt == 0
    || bytes == 0
    || ltb app_slot_bytes bytes
    || ltb 1024 page_count
    || not (phys % 4096 == 0)
    || not (virt % 4096 == 0)
    || leb 1024 pde_index
    || ltb 1024 (first_index + page_count)
    || ltb pde_index lowmem_page_table_count
    || not (m (kernel_pd + 4 * pde_index) == 0)

unfoldable pub build_app_directory : ℕ → Memory → ℕ → ℕ → ℕ → ℕ → ℕ → Memory × Bool
unfolding app_request_refused copy_directory map_app_pages
build_app_directory kernel_pd m out_pd out_pt phys virt bytes =
    if app_request_refused kernel_pd m out_pd out_pt phys virt bytes
    then (m, false)
    else let pde_index : ℕ = virt / 2 ^ 22 in
      let first_index : ℕ = virt / 2 ^ 12 % 1024 in
      let page_count : ℕ = add32 bytes 0xFFF / 2 ^ 12 in
      let copied : Memory = copy_directory kernel_pd out_pd out_pt m 0 1024 in
      let mapped : Memory = map_app_pages out_pt first_index phys copied 0 page_count in
      (write mapped (out_pd + 4 * pde_index) (bit_or out_pt user_page_flags), true)
