-- ===== src/Dir/Written.antt =====
-- src/kernel/storage/fat16.h: an entry that is written is the one that is read.
use minidos.Common.{
  ℕ, zero, suc, ◌+◌, ◌-◌, ◌*◌, ◌/◌, ◌%◌, ◌^◌, ◌≡◌, ◌≢◌, ◌<◌, ◌≤◌, refl, ap, sym, ◌∙◌, true, false,
  ◌&&◌, List, [], ◌∷◌, ◌++◌, ltb, leb, get_or, arith, length,
}
use minidos.Fat.{Sector}
use minidos.Dir.Entry.{DirEntry, entry_at, put_entry, entry_bytes, field_bytes}
use minidos.Dir.Bytes.{entry_at-agree}

-- The name has eleven bytes, and the other fields fit theirs.
pub record Fits (e : DirEntry) : Type 0 where
  pub name : length e.name ≡ 11
  pub creation_time : e.creation_time < 65536
  pub creation_date : e.creation_date < 65536
  pub access_date : e.access_date < 65536
  pub cluster_high : e.cluster_high < 65536
  pub modified_time : e.modified_time < 65536
  pub modified_date : e.modified_date < 65536
  pub cluster_low : e.cluster_low < 65536
  pub file_size : e.file_size < 2 ^ 32

get_or-append_left :
    (xs ys : List ℕ) (j : ℕ) → j < length xs → get_or (xs ++ ys) j 0 ≡ get_or xs j 0
get_or-append_left [] ys j h = absurd (omega arith)
get_or-append_left (x ∷ xs) ys zero h = refl
get_or-append_left (x ∷ xs) ys (suc j) h = get_or-append_left xs ys j (omega arith)

get_or-append_right :
    (xs ys : List ℕ) (j k : ℕ) → k ≡ length xs + j → get_or (xs ++ ys) k 0 ≡ get_or ys j 0
get_or-append_right [] ys j k h = ap (λ i. get_or ys i 0) (omega (arith, h))
get_or-append_right (x ∷ xs) ys j zero h = absurd (omega (arith, h))
get_or-append_right (x ∷ xs) ys j (suc k) h = get_or-append_right xs ys j k (omega (arith, h))

-- The list of the first `n` values of a function.
collect : ℕ → (ℕ → ℕ) → List ℕ
collect zero f = []
collect (suc n) f = f 0 ∷ collect n (λ i. f (suc i))

collect-get_or : (xs : List ℕ) → collect (length xs) (λ i. get_or xs i 0) ≡ xs
unfolding collect
collect-get_or [] = refl
collect-get_or (x ∷ xs) = ap (λ t. x ∷ t) (collect-get_or xs)

put_byte_of :
    (b : Sector) (i j m : ℕ) (e : DirEntry)
    → j ≡ 32 * i + m
    → m < 32
    → put_entry b i e j ≡ get_or (entry_bytes e) m 0
unfolding put_entry
put_byte_of b i j m e at lt =
    let lo : leb (32 * i) j ≡ true = ground arith in
    let hi : ltb j (32 * i + 32) ≡ true = ground arith in
    let back : j - 32 * i ≡ m = omega arith in
    rw lo (rw hi (ap (λ k. get_or (entry_bytes e) k 0) back))

name_byte :
    (b : Sector) (i j m : ℕ) (e : DirEntry)
    → j ≡ 32 * i + m
    → m < 11
    → length e.name ≡ 11
    → put_entry b i e j ≡ get_or e.name m 0
unfolding entry_bytes
name_byte b i j m e at lt len =
    put_byte_of b i j m e at (omega arith)
    ∙ get_or-append_left e.name (field_bytes e) m (omega arith)

field_byte :
    (b : Sector) (i j m : ℕ) (e : DirEntry)
    → j ≡ 32 * i + 11 + m
    → m < 21
    → length e.name ≡ 11
    → put_entry b i e j ≡ get_or (field_bytes e) m 0
unfolding entry_bytes
field_byte b i j m e at lt len =
    put_byte_of b i j (11 + m) e (omega arith) (omega arith)
    ∙ get_or-append_right e.name (field_bytes e) m (11 + m) (omega arith)

word_back : (w : ℕ) → w < 65536 → w % 256 + 256 * (w / 256 % 256) ≡ w
word_back w h = omega arith

dword_back :
    (w : ℕ)
    → w < 2 ^ 32
    → w % 256 + 256 * (w / 256 % 256) + 65536 * (w / 65536 % 256 + 256 * (w / 16777216 % 256)) ≡ w
dword_back w h = omega arith

-- The name of an entry that is written.
name_back :
    (b : Sector) (i : ℕ) (e : DirEntry)
    → length e.name ≡ 11
    → (entry_at (put_entry b i e) i).name ≡ e.name
unfolding entry_at collect
name_back b i e len =
    let o : ℕ = 32 * i in
    let n0 : put_entry b i e o ≡ get_or e.name 0 0 =
      name_byte b i o 0 e (omega arith) (omega arith) len in
    let n1 : put_entry b i e (o + 1) ≡ get_or e.name 1 0 =
      name_byte b i (o + 1) 1 e (omega arith) (omega arith) len in
    let n2 : put_entry b i e (o + 2) ≡ get_or e.name 2 0 =
      name_byte b i (o + 2) 2 e (omega arith) (omega arith) len in
    let n3 : put_entry b i e (o + 3) ≡ get_or e.name 3 0 =
      name_byte b i (o + 3) 3 e (omega arith) (omega arith) len in
    let n4 : put_entry b i e (o + 4) ≡ get_or e.name 4 0 =
      name_byte b i (o + 4) 4 e (omega arith) (omega arith) len in
    let n5 : put_entry b i e (o + 5) ≡ get_or e.name 5 0 =
      name_byte b i (o + 5) 5 e (omega arith) (omega arith) len in
    let n6 : put_entry b i e (o + 6) ≡ get_or e.name 6 0 =
      name_byte b i (o + 6) 6 e (omega arith) (omega arith) len in
    let n7 : put_entry b i e (o + 7) ≡ get_or e.name 7 0 =
      name_byte b i (o + 7) 7 e (omega arith) (omega arith) len in
    let n8 : put_entry b i e (o + 8) ≡ get_or e.name 8 0 =
      name_byte b i (o + 8) 8 e (omega arith) (omega arith) len in
    let n9 : put_entry b i e (o + 9) ≡ get_or e.name 9 0 =
      name_byte b i (o + 9) 9 e (omega arith) (omega arith) len in
    let n10 : put_entry b i e (o + 10) ≡ get_or e.name 10 0 =
      name_byte b i (o + 10) 10 e (omega arith) (omega arith) len in
    (λ k. n0 k ∷ n1 k ∷ n2 k ∷ n3 k ∷ n4 k ∷ n5 k ∷ n6 k ∷ n7 k ∷ n8 k ∷ n9 k ∷ n10 k ∷ [])
    ∙ ap (λ n. collect n (λ m. get_or e.name m 0)) (sym len)
    ∙ collect-get_or e.name

pub entry_at-put_entry :
    (b : Sector) (i : ℕ) (e : DirEntry) → Fits e → entry_at (put_entry b i e) i ≡ e
unfolding entry_at
entry_at-put_entry b i e h =
    let o : ℕ = 32 * i in
    let field : (j m : ℕ)
        → j ≡ 32 * i + 11 + m
        → m < 21
        → put_entry b i e j ≡ get_or (field_bytes e) m 0 =
      λ j m at lt. field_byte b i j m e at lt h.name in
    let attr : put_entry b i e (o + 11) ≡ get_or (field_bytes e) 0 0 =
      field (o + 11) 0 (omega arith) (omega arith) in
    let res : put_entry b i e (o + 12) ≡ get_or (field_bytes e) 1 0 =
      field (o + 12) 1 (omega arith) (omega arith) in
    let ctms : put_entry b i e (o + 13) ≡ get_or (field_bytes e) 2 0 =
      field (o + 13) 2 (omega arith) (omega arith) in
    let ct0 : put_entry b i e (o + 14) ≡ get_or (field_bytes e) 3 0 =
      field (o + 14) 3 (omega arith) (omega arith) in
    let ct1 : put_entry b i e (o + 14 + 1) ≡ get_or (field_bytes e) 4 0 =
      field (o + 14 + 1) 4 (omega arith) (omega arith) in
    let cd0 : put_entry b i e (o + 16) ≡ get_or (field_bytes e) 5 0 =
      field (o + 16) 5 (omega arith) (omega arith) in
    let cd1 : put_entry b i e (o + 16 + 1) ≡ get_or (field_bytes e) 6 0 =
      field (o + 16 + 1) 6 (omega arith) (omega arith) in
    let ad0 : put_entry b i e (o + 18) ≡ get_or (field_bytes e) 7 0 =
      field (o + 18) 7 (omega arith) (omega arith) in
    let ad1 : put_entry b i e (o + 18 + 1) ≡ get_or (field_bytes e) 8 0 =
      field (o + 18 + 1) 8 (omega arith) (omega arith) in
    let ch0 : put_entry b i e (o + 20) ≡ get_or (field_bytes e) 9 0 =
      field (o + 20) 9 (omega arith) (omega arith) in
    let ch1 : put_entry b i e (o + 20 + 1) ≡ get_or (field_bytes e) 10 0 =
      field (o + 20 + 1) 10 (omega arith) (omega arith) in
    let mt0 : put_entry b i e (o + 22) ≡ get_or (field_bytes e) 11 0 =
      field (o + 22) 11 (omega arith) (omega arith) in
    let mt1 : put_entry b i e (o + 22 + 1) ≡ get_or (field_bytes e) 12 0 =
      field (o + 22 + 1) 12 (omega arith) (omega arith) in
    let md0 : put_entry b i e (o + 24) ≡ get_or (field_bytes e) 13 0 =
      field (o + 24) 13 (omega arith) (omega arith) in
    let md1 : put_entry b i e (o + 24 + 1) ≡ get_or (field_bytes e) 14 0 =
      field (o + 24 + 1) 14 (omega arith) (omega arith) in
    let cl0 : put_entry b i e (o + 26) ≡ get_or (field_bytes e) 15 0 =
      field (o + 26) 15 (omega arith) (omega arith) in
    let cl1 : put_entry b i e (o + 26 + 1) ≡ get_or (field_bytes e) 16 0 =
      field (o + 26 + 1) 16 (omega arith) (omega arith) in
    let fs0 : put_entry b i e (o + 28) ≡ get_or (field_bytes e) 17 0 =
      field (o + 28) 17 (omega arith) (omega arith) in
    let fs1 : put_entry b i e (o + 28 + 1) ≡ get_or (field_bytes e) 18 0 =
      field (o + 28 + 1) 18 (omega arith) (omega arith) in
    let fs2 : put_entry b i e (o + 28 + 2) ≡ get_or (field_bytes e) 19 0 =
      field (o + 28 + 2) 19 (omega arith) (omega arith) in
    let fs3 : put_entry b i e (o + 28 + 2 + 1) ≡ get_or (field_bytes e) 20 0 =
      field (o + 28 + 2 + 1) 20 (omega arith) (omega arith) in
    (λ k. record {
      name = name_back b i e h.name k;
      attributes = attr k;
      reserved = res k;
      creation_time_ms = ctms k;
      creation_time = ct0 k + 256 * ct1 k;
      creation_date = cd0 k + 256 * cd1 k;
      access_date = ad0 k + 256 * ad1 k;
      cluster_high = ch0 k + 256 * ch1 k;
      modified_time = mt0 k + 256 * mt1 k;
      modified_date = md0 k + 256 * md1 k;
      cluster_low = cl0 k + 256 * cl1 k;
      file_size = fs0 k + 256 * fs1 k + 65536 * (fs2 k + 256 * fs3 k);
    })
    ∙ (λ k. record e {
      creation_time = word_back e.creation_time h.creation_time k;
      creation_date = word_back e.creation_date h.creation_date k;
      access_date = word_back e.access_date h.access_date k;
      cluster_high = word_back e.cluster_high h.cluster_high k;
      modified_time = word_back e.modified_time h.modified_time k;
      modified_date = word_back e.modified_date h.modified_date k;
      cluster_low = word_back e.cluster_low h.cluster_low k;
      file_size = dword_back e.file_size h.file_size k;
    })

outside_entry :
    (b : Sector) (i j m : ℕ) (e : DirEntry)
    → i ≢ j
    → 32 * j ≤ m
    → m < 32 * j + 32
    → put_entry b i e m ≡ b m
unfolding put_entry
outside_entry b i j m e ne lo hi =
    let out : (leb (32 * i) m && ltb m (32 * i + 32)) ≡ false =
      ground (arith, λ (p : 32 * i ≤ m) (q : m < 32 * i + 32). ne (omega arith)) in
    rw out refl

-- The entries beside one that is written.
pub entry_at-put_entry_ne :
    (b : Sector) (i j : ℕ) (e : DirEntry) → i ≢ j → entry_at (put_entry b i e) j ≡ entry_at b j
entry_at-put_entry_ne b i j e ne =
    entry_at-agree (put_entry b i e) b j (λ m lo hi. outside_entry b i j m e ne lo hi)
