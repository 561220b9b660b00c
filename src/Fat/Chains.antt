-- ===== src/Fat/Chains.antt =====
-- src/kernel/storage/fat16.c: chains of clusters, and what `fat16_free_cluster_chain_internal` does
-- to them.
use minidos.Common.{
  ℕ, zero, suc, ◌+◌, ◌^◌, ◌<◌, ◌≤◌, ◌≡◌, ◌≢◌, ◌⊎◌, sym, subst, ◌∙◌, Bool, true, false, ◌==◌,
  if◌then◌else◌, arith, Bool-cases, inl, inr, List, [], ◌∷◌, length, ◌||◌,
}
use minidos.Fat.Geometry.{Bpb, get_total_clusters, fat_is_data_cluster}

abbrev pub NotIn : ℕ → List ℕ → Type 0
NotIn a [] = Unit
NotIn a (x ∷ xs) = (a ≢ x) × NotIn a xs

abbrev pub is_in : ℕ → List ℕ → Bool
is_in a [] = false
is_in a (x ∷ xs) = a == x || is_in a xs

-- The clusters `cs` follow `c` in the table `e`, without a repetition. The last one's entry is no
-- data cluster, or the cluster itself.
abbrev pub Linked : Bpb → (ℕ → ℕ) → ℕ → List ℕ → Type 0
Linked b e c [] =
    (fat_is_data_cluster b c ≡ true) × ((fat_is_data_cluster b (e c) ≡ false) ⊎ (e c ≡ c))
Linked b e c (d ∷ cs) =
    (fat_is_data_cluster b c ≡ true) × (e c ≡ d) × NotIn c (d ∷ cs) × Linked b e d cs

-- A table that differs at most at a cluster off the chain has the same chain.
pub Linked-agree :
    (b : Bpb) (e e' : ℕ → ℕ) (a c : ℕ) (cs : List ℕ)
    → Linked b e c cs
    → NotIn a (c ∷ cs)
    → ((x : ℕ) → a ≢ x → fat_is_data_cluster b x ≡ true → e' x ≡ e x)
    → Linked b e' c cs
Linked-agree b e e' a c [] (is, end) (ne, out) same =
    (is, subst (λ y. (fat_is_data_cluster b y ≡ false) ⊎ (y ≡ c)) (sym (same c ne is)) end)
Linked-agree b e e' a c (d ∷ cs) (is, link, fresh, rest) (ne, out) same =
    (is, same c ne is ∙ link, fresh, Linked-agree b e e' a d cs rest out same)

-- Of the numbers below `n`, at most `n` are distinct.
abbrev Distinct : List ℕ → Type 0
Distinct [] = Unit
Distinct (x ∷ xs) = NotIn x xs × Distinct xs

abbrev Below : ℕ → List ℕ → Type 0
Below n [] = Unit
Below n (x ∷ xs) = (x < n) × Below n xs

drop_one : ℕ → List ℕ → List ℕ
drop_one a [] = []
drop_one a (x ∷ xs) = if x == a then xs else x ∷ drop_one a xs

length-drop_one : (a : ℕ) (xs : List ℕ) → length xs ≤ suc (length (drop_one a xs))
unfolding drop_one
length-drop_one a [] = omega arith
length-drop_one a (x ∷ xs) = ground (arith, length-drop_one a xs)

NotIn-drop_one : (c a : ℕ) (xs : List ℕ) → NotIn c xs → NotIn c (drop_one a xs)
unfolding drop_one
NotIn-drop_one c a [] h = tt
NotIn-drop_one c a (x ∷ xs) (ne, h) = elim (Bool-cases (x == a)) [
  | inl e ↦ rw e h
  | inr e ↦ rw e (ne, NotIn-drop_one c a xs h)
]

Distinct-drop_one : (a : ℕ) (xs : List ℕ) → Distinct xs → Distinct (drop_one a xs)
unfolding drop_one
Distinct-drop_one a [] h = tt
Distinct-drop_one a (x ∷ xs) (out, h) = elim (Bool-cases (x == a)) [
  | inl e ↦ rw e h
  | inr e ↦ rw e (NotIn-drop_one x a xs out, Distinct-drop_one a xs h)
]

Below-less : (n : ℕ) (xs : List ℕ) → NotIn n xs → Below (suc n) xs → Below n xs
Below-less n [] out h = tt
Below-less n (x ∷ xs) (ne, out) (lt, h) =
    (omega (arith, lt, λ (e : x ≡ n). ne (sym e)), Below-less n xs out h)

Below-drop_one : (n : ℕ) (xs : List ℕ) → Distinct xs → Below (suc n) xs → Below n (drop_one n xs)
unfolding drop_one
Below-drop_one n [] d h = tt
Below-drop_one n (x ∷ xs) (out, d) (lt, h) = elim (Bool-cases (x == n)) [
  | inl e ↦
      let same : x ≡ n = ground arith in rw e (Below-less n xs (subst (λ y. NotIn y xs) same out) h)
  | inr e ↦ let under : x < n = ground arith in rw e (under, Below-drop_one n xs d h)
]

length-Below : (n : ℕ) (xs : List ℕ) → Distinct xs → Below n xs → length xs ≤ n
length-Below zero [] d h = omega arith
length-Below zero (x ∷ xs) d (lt, h) = elim lt [ ]
length-Below (suc n) xs d h = omega (
  arith,
  length-drop_one n xs,
  length-Below n (drop_one n xs) (Distinct-drop_one n xs d) (Below-drop_one n xs d h),
)

chain-Distinct : (b : Bpb) (e : ℕ → ℕ) (c : ℕ) (cs : List ℕ) → Linked b e c cs → Distinct (c ∷ cs)
chain-Distinct b e c [] h = (tt, tt)
chain-Distinct b e c (d ∷ cs) (is, link, fresh, rest) = (fresh, chain-Distinct b e d cs rest)

data_below :
    (b : Bpb) (c : ℕ)
    → get_total_clusters b < 2 ^ 16
    → fat_is_data_cluster b c ≡ true
    → c < get_total_clusters b + 2
unfolding fat_is_data_cluster
data_below b c lim is = ground arith

chain-Below :
    (b : Bpb) (e : ℕ → ℕ) (c : ℕ) (cs : List ℕ)
    → get_total_clusters b < 2 ^ 16
    → Linked b e c cs
    → Below (get_total_clusters b + 2) (c ∷ cs)
chain-Below b e c [] lim (is, end) = (data_below b c lim is, tt)
chain-Below b e c (d ∷ cs) lim (is, link, fresh, rest) =
    (data_below b c lim is, chain-Below b e d cs lim rest)

-- A chain is no longer than the number of steps that the loop allows itself.
pub chain_length :
    (b : Bpb) (e : ℕ → ℕ) (c : ℕ) (cs : List ℕ)
    → get_total_clusters b < 2 ^ 16
    → Linked b e c cs
    → length (c ∷ cs) ≤ get_total_clusters b + 2
chain_length b e c cs lim h =
    length-Below (get_total_clusters b + 2) (c ∷ cs) (chain-Distinct b e c cs h)
      (chain-Below b e c cs lim h)
