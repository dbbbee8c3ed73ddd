-- ===== src/Main/Replicas.antt =====
-- src/main.rs, `start_node`: the list of replicas of the nodes that are started with `--index`.
use mathlib.Core.HLevel.{⊥_prop}
use mathlib.Core.List.{
  dec_mem, Perm, Mem, Nodup, Nodup-nil, Nodup-cons, mem-cons, mem-cons_self, mem-cons_of_mem,
  not-mem-nil, perm_middle, append-nil,
}
use mathlib.Core.List.Perm
use mathlib.Core.Logic.Or
use p2p_pbft.Base.{
  ℕ, zero, suc, ◌%◌, ◌≤◌, ◌<◌, ◌≡◌, ◌≢◌, ◌↔◌, refl, ap, sym, subst, ◌∙◌, List, [], ◌∷◌, Option,
  none, some, length, length-append, get_elem?, get_elem?_total, ℕ_discrete, bytes_discrete, arith,
}
use native.Mathlib.Decide.{dec_lt}
use p2p_pbft.External.{External}
use p2p_pbft.Message.{NodeId}
use p2p_pbft.Pbft.State.{replica_for}
use p2p_pbft.Main.Sort.{insert_sorted, sort, sort-perm}
use p2p_pbft.Crypto.{KeyPair, from_seed, public_key_hex}
use p2p_pbft.Main.{
  Keys, found, refused, start_keys, index_seed, replica_id, replica_ids, replicas_of,
}

-- The ids of the nodes below `n`, the last first.
abbrev pub falling : (x : External) → ℕ → List NodeId
falling x zero = []
falling x (suc n) = replica_id x n ∷ falling x n

module _ (x : External) where
  replica_ids-perm : (n : ℕ) → Perm (replica_ids x n) (falling x n)
  unfolding replica_ids
  replica_ids-perm zero = Perm.rfl
  replica_ids-perm (suc n) = Perm.trans (perm_middle (replica_ids x n) []) (
      Perm.cons (replica_id x n) (
        subst (λ l. Perm l (falling x n)) (sym (append-nil (replica_ids x n)))
          (replica_ids-perm n)))

  sorted-perm : (n : ℕ) → Perm (sort (replica_ids x n)) (falling x n)
  sorted-perm n = Perm.trans (sort-perm (replica_ids x n)) (replica_ids-perm n)

  mem-falling : (i n : ℕ) → i < n → Mem (replica_id x i) (falling x n)
  mem-falling i zero h = absurd (omega arith)
  mem-falling i (suc n) h = elim (ℕ_discrete i n) [
    | yes p ↦ subst (λ j. Mem (replica_id x j) (falling x (suc n))) (sym p) mem-cons_self
    | no q ↦ mem-cons_of_mem _ (mem-falling i n (omega arith))
  ]

  length-insert_sorted :
      (a : NodeId) (l : List NodeId) → length (insert_sorted a l) ≡ suc (length l)
  unfolding insert_sorted
  length-insert_sorted a [] = refl
  length-insert_sorted a (c ∷ l) = ground (arith, length-insert_sorted a l)

  length-sort : (l : List NodeId) → length (sort l) ≡ length l
  unfolding sort
  length-sort [] = refl
  length-sort (a ∷ l) = length-insert_sorted a (sort l) ∙ ap suc (length-sort l)

  length-replica_ids : (n : ℕ) → length (replica_ids x n) ≡ n
  unfolding replica_ids
  length-replica_ids zero = refl
  length-replica_ids (suc n) =
      omega (arith, length-append (replica_ids x n) (replica_id x n ∷ []), length-replica_ids n)

  mem-get_elem? : (l : List NodeId) (i : ℕ) (a : NodeId) → get_elem? l i ≡ some a → Mem a l
  mem-get_elem? [] i a h = absurd (cc)
  mem-get_elem? (c ∷ l) zero a h =
      let same_id : c ≡ a = cc in subst (λ d. Mem d (c ∷ l)) same_id mem-cons_self
  mem-get_elem? (c ∷ l) (suc i) a h = mem-cons_of_mem c (mem-get_elem? l i a h)

  falling_index :
      (a : NodeId) (n : ℕ) → Mem a (falling x n) → (i : ℕ) × (i < n) × (a ≡ replica_id x i)
  falling_index a zero m = absurd (not-mem-nil m)
  falling_index a (suc n) m = elim (bytes_discrete a (replica_id x n)) [
    | yes last ↦ (n, omega arith, last)
    | no other ↦ elim (dec_mem bytes_discrete a (falling x n)) [
      | yes before ↦ let (i, below, e) = falling_index a n before in (i, omega arith, e)
      | no never ↦ absurd (Or.elim ⊥_prop (mem-cons.0 m) other never)
    ]
  ]

  -- If two nodes are started with `--index`, each with an index below the number n of nodes, and without
  -- `--seed`, then the keys that they start with put the ids of both into the list of replicas, which
  -- is the same for both and has n entries; and in every view the leader by that list has the id of the
  -- keys that some node gets that is started with an index below n and without `--seed`.
  pub indexed_replicas :
      (drawn drawn' : x.SigningKey) (n i j view : ℕ) (keys keys' : KeyPair x)
      → start_keys x drawn none (some i) ≡ found keys
      → start_keys x drawn' none (some j) ≡ found keys'
      → i < n
      → j < n
      → let replicas = replicas_of x (some i) n (public_key_hex x keys) in
        (replicas ≡ replicas_of x (some j) n (public_key_hex x keys'))
        × (length replicas ≡ n)
        × Mem (public_key_hex x keys) replicas
        × Mem (public_key_hex x keys') replicas
        × ((l : ℕ) × (leader : KeyPair x) × (l < n)
            × (start_keys x drawn none (some l) ≡ found leader)
            × (replica_for x replicas view ≡ some (public_key_hex x leader)))
  unfolding replicas_of replica_for start_keys
  indexed_replicas drawn drawn' n i j view keys keys' made made' h h' =
      let replicas = sort (replica_ids x n) in
      let of_keys : Keys x → NodeId =
        λ k. elim k [ found p ↦ public_key_hex x p | refused e ↦ [] ] in
      let named : replica_id x i ≡ public_key_hex x keys = ap of_keys made in
      let named' : replica_id x j ≡ public_key_hex x keys' = ap of_keys made' in
      let listed : (l : ℕ) → l < n → Mem (replica_id x l) replicas =
        λ l k. (Perm.mem_iff (sorted-perm n)).1 (mem-falling l n k) in
      let full : length replicas ≡ n = length-sort (replica_ids x n) ∙ length-replica_ids n in
      let (leader, leads) = get_elem?_total replicas (view % length replicas) (grind arith) in
      let (l, below, is_l) =
        falling_index leader n
          ((Perm.mem_iff (sorted-perm n)).0 (mem-get_elem? replicas _ leader leads)) in
      (
        refl,
        full,
        subst (λ id. Mem id replicas) named (listed i h),
        subst (λ id. Mem id replicas) named' (listed j h'),
        (l, from_seed x (index_seed l), below, refl, leads ∙ ap some is_l),
      )

  mem-falling_inv :
      (a : NodeId) (n : ℕ) → ((i : ℕ) → i < n → a ≢ replica_id x i) → ¬ Mem a (falling x n)
  mem-falling_inv a zero differs m = not-mem-nil m
  mem-falling_inv a (suc n) differs m =
      Or.elim ⊥_prop (mem-cons.0 m) (λ e. differs n (omega arith) e)
        (mem-falling_inv a n (λ i h. differs i (omega arith)))

  Nodup-falling :
      (n : ℕ)
      → ((i j : ℕ) → i < 256 → j < 256 → replica_id x i ≡ replica_id x j → i ≡ j)
      → n ≤ 256
      → Nodup (falling x n)
  Nodup-falling zero inj small = Nodup-nil
  Nodup-falling (suc n) inj small = Nodup-cons.1 (
    mem-falling_inv (replica_id x n) n
        (λ i h e. let same_index = inj n i (omega arith) (omega arith) e in absurd (omega arith)),
    Nodup-falling n inj (omega arith),
  )

  repeats : (n : ℕ) → 256 < n → ¬ Nodup (falling x n)
  repeats zero h d = absurd (omega arith)
  repeats (suc n) h d = elim (ℕ_discrete n 256) [
    | yes p ↦
        (Nodup-cons.0 d).0
          (subst (λ m. Mem (replica_id x m) (falling x n)) (sym p) (mem-falling 0 n (omega arith)))
    | no q ↦ repeats n (omega arith) (Nodup-cons.0 d).1
  ]

  -- If the seeds 0, .., 255 give distinct ids, the list of replicas for `n` nodes has no id twice exactly
  -- when there are at most 256 nodes, since a seed is the index modulo 256.
  pub replicas_distinct :
      (n i : ℕ)
      → ((i j : ℕ) → i < 256 → j < 256 → replica_id x i ≡ replica_id x j → i ≡ j)
      → Nodup (replicas_of x (some i) n (replica_id x i)) ↔ (n ≤ 256)
  unfolding replicas_of
  replicas_distinct n i inj =
      let same_ids = Perm.Nodup-iff (sorted-perm n) in
      (
        λ d. elim (dec_lt 256 n) [
          | yes many ↦ absurd (repeats n many (same_ids.0 d))
          | no few ↦ omega arith
        ],
        λ small. same_ids.1 (Nodup-falling n inj small),
      )

  pub length-replicas_of :
      (index : Option ℕ) (n : ℕ) (node_id : NodeId)
      → 0 < n
      → 0 < length (replicas_of x index n node_id)
  unfolding replicas_of
  length-replicas_of none n node_id pos = omega arith
  length-replicas_of (some i) n node_id pos =
      omega (arith, length-sort (replica_ids x n), length-replica_ids n)
