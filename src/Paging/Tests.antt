-- ===== src/Paging/Tests.antt =====
-- The page directory of an application of two pages at 1 GiB.
use minidos.Common.{ℕ, ◌≡◌, refl, true, false, arith, inl}
use minidos.Memory.{Memory}
use minidos.Paging.{build_app_directory, app_request_refused}
use minidos.Paging.AppDirectory.{Apart}
use minidos.Paging.Built.{Describes, build_app_directory-Describes}

abbrev kernel_pd : ℕ
kernel_pd = 0x100000

abbrev app_pd : ℕ
app_pd = 0x200000

abbrev app_pt : ℕ
app_pt = 0x201000

abbrev memory : Memory
memory a = 0

abbrev app_base : ℕ
app_base = 0x40000000

accepted : app_request_refused kernel_pd memory app_pd app_pt 0x800000 app_base 0x1800 ≡ false
unfolding app_request_refused
accepted = refl

kernel_pd-Apart : Apart kernel_pd app_pd × Apart kernel_pd app_pt × Apart app_pd app_pt
unfolding Apart
kernel_pd-Apart = (inl (omega arith), inl (omega arith), inl (omega arith))

build_app_directory-Describes_example :
    ((build_app_directory kernel_pd memory app_pd app_pt 0x800000 app_base 0x1800).1 ≡ true)
    × Describes kernel_pd memory app_pd app_pt 0x800000 app_base 0x1800
        (build_app_directory kernel_pd memory app_pd app_pt 0x800000 app_base 0x1800).0
        1
build_app_directory-Describes_example =
    build_app_directory-Describes kernel_pd memory app_pd app_pt 0x800000 app_base 0x1800 1
      (omega arith) kernel_pd-Apart.0 kernel_pd-Apart.1 kernel_pd-Apart.2 accepted

too_low : app_request_refused kernel_pd memory app_pd app_pt 0x800000 0x400000 0x1800 ≡ true
unfolding app_request_refused
too_low = refl
