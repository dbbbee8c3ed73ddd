-- ===== src/Pbft/Quorum.antt =====
-- src/pbft.rs, `PbftConfig`: how quorums of 2f + 1 meet, for every number n of nodes.
use Prim.Native.Nat.{min}
use p2p_pbft.Base.{
  ℕ, ◌+◌, ◌-◌, ◌*◌, ◌/◌, ◌%◌, ◌^◌, ◌≤◌, ◌<◌, ◌≡◌, ◌≢◌, zero, suc, Bool, ◌&&◌, arith, ltb, leb,
  if◌then◌else◌,
}
use p2p_pbft.Pbft.Config.{config_new, quorum}

-- For at least one node and fewer than 2^64, f is the largest number of faulty nodes with 3f < n, the
-- quorum has 2f + 1 nodes with no wrap, and the nodes that are not faulty are enough for it.
pub config_new_bounds :
    (n : ℕ)
    → 0 < n
    → n < 2 ^ 64
    → let c = config_new n in
      (3 * c.f < n) × (n ≤ 3 * c.f + 3) × (quorum c ≡ 2 * c.f + 1) × (quorum c + c.f ≤ n)
unfolding config_new quorum
config_new_bounds n pos fits = omega arith

-- A set of nodes is a test on the indices below n.
unfoldable pub count : (ℕ → Bool) → ℕ → ℕ
count p zero = 0
count p (suc n) = (if p n then 1 else 0) + count p n

abbrev pub both : (ℕ → Bool) → (ℕ → Bool) → ℕ → Bool
both p q i = p i && q i

-- The nodes from `a` on that come before `b`.
abbrev window : ℕ → ℕ → ℕ → Bool
window a b i = leb a i && ltb i b

count-both : (p q : ℕ → Bool) (n : ℕ) → count p n + count q n ≤ n + count (both p q) n
unfolding count
count-both p q zero = omega arith
count-both p q (suc n) = ground (arith, count-both p q n)

count-window : (a b n : ℕ) → count (window a b) n ≡ min b n - a
unfolding count
count-window a b zero = omega arith
count-window a b (suc n) = ground (arith, count-window a b n)

count-both-window :
    (a b c d n : ℕ) → a ≤ c → b ≤ d → count (both (window a b) (window c d)) n ≡ min b n - c
unfolding count
count-both-window a b c d zero h k = omega arith
count-both-window a b c d (suc n) h k = ground (arith, count-both-window a b c d n h k)

-- If the number of nodes is below 2^64 and of the form 3f + 1, any two sets of nodes that are each as
-- large as a quorum share more than f nodes, so at least one that is not faulty.
pub quorums_meet :
    (n : ℕ) (p q : ℕ → Bool)
    → n < 2 ^ 64
    → n % 3 ≡ 1
    → quorum (config_new n) ≤ count p n
    → quorum (config_new n) ≤ count q n
    → (config_new n).f < count (both p q) n
unfolding config_new quorum
quorums_meet n p q fits form hp hq = omega (arith, count-both p q n)

-- If the number of nodes is positive, below 2^64 and not of the form 3f + 1, there are two sets of nodes
-- that are each exactly as large as a quorum and share at most f nodes, which may all be faulty.
pub quorums_may_miss :
    (n : ℕ)
    → 0 < n
    → n < 2 ^ 64
    → n % 3 ≢ 1
    → (p : ℕ → Bool) × (q : ℕ → Bool) × (count p n ≡ quorum (config_new n))
      × (count q n ≡ quorum (config_new n))
      × (count (both p q) n ≤ (config_new n).f)
unfolding config_new quorum
quorums_may_miss n pos fits form =
    let k = 2 * ((n - 1) / 3) + 1 in
    (
      window 0 k,
      window (n - k) n,
      omega (arith, count-window 0 k n),
      omega (arith, count-window (n - k) n n),
      omega (arith, count-both-window 0 k (n - k) n n),
    )
