-- ===== src/Telemetry/SelfHeal/Repair.antt =====
-- Retransmission (adapters/telemetry/selfheal.py) completes a receiver and restores the stream.
use prismpath.Base.{
  ℕ, zero, suc, ◌<◌, ◌≤◌, Option, none, some, true, List, [], ◌∷◌, ◌++◌, length, get_elem?, map,
  take, drop, ◌≡◌, refl, sym, ap, ◌∙◌, arith, lt→ltb, ==_iff,
}
use prismpath.Telemetry.Zeckendorf.{Bits}
use prismpath.Telemetry.Merkle.{Hashes, Side, merkle_root, verify_leaf}
use prismpath.Telemetry.Merkle.Inclusion.{merkle_path-verify_leaf}
use prismpath.Telemetry.SelfHeal.{
  slices, chunk, join, Sender, Receiver, put, missing_from, held, collect, commit, verify_block,
  make_sender, serve, accept, missing, complete, assemble, repair_each, repair,
}

take-drop : (n : ℕ) (xs : Bits) → take n xs ++ drop n xs ≡ xs
take-drop zero xs = refl
take-drop (suc n) [] = refl
take-drop (suc n) (x ∷ xs) = ap (λ ys. x ∷ ys) (take-drop n xs)

length-drop_le : (n : ℕ) (xs : Bits) → length (drop n xs) ≤ length xs
length-drop_le zero xs = omega arith
length-drop_le (suc n) [] = omega arith
length-drop_le (suc n) (x ∷ xs) = omega (arith, length-drop_le n xs)

join-slices : (fuel n : ℕ) (bits : Bits) → length bits ≤ fuel → join (slices fuel n bits) ≡ bits
unfolding slices
join-slices fuel n [] bound = refl
join-slices zero n (b ∷ bits) bound = ground (arith, bound)
join-slices (suc fuel) n (b ∷ bits) bound =
    ap (λ rest. (b ∷ take n bits) ++ rest)
      (join-slices fuel n (drop n bits) (omega (arith, bound, length-drop_le n bits)))
    ∙ ap (λ rest. b ∷ rest) (take-drop n bits)

-- The blocks of a stream are not empty and give the stream back.
pub join-chunk :
    (bits : Bits) (n : ℕ)
    → (b : Bits) × (bs : List Bits) × (chunk bits (suc n) ≡ some (b ∷ bs)) × (join (b ∷ bs) ≡ bits)
unfolding chunk slices
join-chunk [] n = ([], [], refl, refl)
join-chunk (x ∷ bits) n = (
  x ∷ take n bits,
  slices (length bits) n (drop n bits),
  refl,
  join-slices (length (x ∷ bits)) n (x ∷ bits) (omega arith),
)

-- Each slot is empty or holds its block.
pub data Agrees : List (Option Bits) → List Bits → Type 0 where
  settled : Agrees [] []
  gap :
      {b : Bits} {slots : List (Option Bits)} {bs : List Bits}
      → Agrees slots bs
      → Agrees (none ∷ slots) (b ∷ bs)
  kept :
      {b : Bits} {slots : List (Option Bits)} {bs : List Bits}
      → Agrees slots bs
      → Agrees (some b ∷ slots) (b ∷ bs)

length-Agrees :
    (slots : List (Option Bits)) (bs : List Bits) → Agrees slots bs → length slots ≡ length bs
length-Agrees slots bs settled = refl
length-Agrees slots bs (gap a) = ap suc (length-Agrees _ _ a)
length-Agrees slots bs (kept a) = ap suc (length-Agrees _ _ a)

get_elem?-middle :
    {A : Type 0}
    → (xs : List A) (y : A) (ys : List A) → get_elem? (xs ++ y ∷ ys) (length xs) ≡ some y
get_elem?-middle [] y ys = refl
get_elem?-middle (x ∷ xs) y ys = get_elem?-middle xs y ys

get_elem?-map :
    {A B : Type 0}
    → (f : A → B) (xs : List A) (i : ℕ) (a : A) → get_elem? xs i ≡ some a
    → get_elem? (map f xs) i ≡ some (f a)
get_elem?-map f [] i a e = cc
get_elem?-map f (x ∷ xs) zero a e = cc
get_elem?-map f (x ∷ xs) (suc i) a e = get_elem?-map f xs i a e

put-middle :
    (front : List Bits) (b : Bits) (s : Option Bits) (slots : List (Option Bits))
    → put (length front) b (map some front ++ s ∷ slots) ≡ map some (front ++ b ∷ []) ++ slots
put-middle [] b s slots = refl
put-middle (x ∷ front) b s slots = ap (λ ss. some x ∷ ss) (put-middle front b s slots)

held-full : (bs : List Bits) → held (map some bs) ≡ length (map some bs)
held-full [] = refl
held-full (b ∷ bs) = ap suc (held-full bs)

collect-full : (bs : List Bits) → collect (map some bs) ≡ some bs
collect-full [] = refl
collect-full (b ∷ bs) = rw (collect-full bs)

append-middle :
    {A : Type 0} → (xs : List A) (y : A) (ys : List A) → (xs ++ y ∷ []) ++ ys ≡ xs ++ y ∷ ys
append-middle [] y ys = refl
append-middle (x ∷ xs) y ys = ap (λ zs. x ∷ zs) (append-middle xs y ys)

map-append-front :
    (front : List Bits) (b : Bits) (slots : List (Option Bits))
    → map some (front ++ b ∷ []) ++ slots ≡ map some front ++ some b ∷ slots
map-append-front [] b slots = refl
map-append-front (x ∷ front) b slots = ap (λ ss. some x ∷ ss) (map-append-front front b slots)

map-append-end : (front : List Bits) → map some front ++ [] ≡ map some (front ++ [])
map-append-end [] = refl
map-append-end (x ∷ front) = ap (λ ss. some x ∷ ss) (map-append-end front)

length-end : (front : List Bits) (b : Bits) → length (front ++ b ∷ []) ≡ suc (length front)
length-end [] b = refl
length-end (x ∷ front) b = ap suc (length-end front b)

length-middle_lt :
    (front : List Bits) (s : Option Bits) (slots : List (Option Bits))
    → length front < length (map some front ++ s ∷ slots)
length-middle_lt [] s slots = omega arith
length-middle_lt (x ∷ front) s slots = omega (arith, length-middle_lt front s slots)

pub same_answer : {A : Type 0} → (a b : A) → some a ≡ some b → a ≡ b
same_answer a b e = cc

module _ {Digest : Type 0} (h : Hashes Digest) where
  -- What is served verifies.
  pub serve-verify_block :
      (blocks : List Bits) (root : Digest)
      → commit h blocks ≡ some root
      → (i : ℕ) (b : Bits) → get_elem? blocks i ≡ some b
      → (proof : List (Side × Digest)) × (serve h (record { blocks = blocks; root = root }) i
          ≡ some (b, proof))
        × (verify_block h b proof root ≡ true)
  unfolding commit serve verify_block
  serve-verify_block blocks root c i b e =
      let (proof, r, p, m, v) =
        merkle_path-verify_leaf h (map h.leaf blocks) i (h.leaf b)
          (get_elem?-map h.leaf blocks i b e) in
      (
        proof,
        rw (e, p),
        ap (λ t. verify_leaf h (h.leaf b) proof t) (same_answer root r (sym c ∙ m)) ∙ v,
      )

  -- The blocks of a stream have a root.
  pub commit-chunk :
      (bits : Bits) (n : ℕ)
      → (blocks : List Bits) × (root : Digest) × (chunk bits (suc n) ≡ some blocks)
        × (commit h blocks ≡ some root)
  unfolding commit
  commit-chunk bits n =
      let (b, bs, cut, joined) = join-chunk bits n in
      let (proof, root, p, m, v) =
        merkle_path-verify_leaf h (map h.leaf (b ∷ bs)) 0 (h.leaf b) refl in
      (b ∷ bs, root, cut, m)

  accept-true :
      (i : ℕ) (b : Bits) (proof : List (Side × Digest)) (root : Digest) (slots : List (Option Bits))
      → i < length slots
      → verify_block h b proof root ≡ true
      → accept h i b proof (record { root = root; slots = slots })
        ≡ (true, record { root = root; slots = put i b slots })
  unfolding accept
  accept-true i b proof root slots l v = rw (lt→ltb i (length slots) l, v)

  repair_each-step :
      (s : Sender Digest) (i : ℕ) (is : List ℕ) (r r' r'' : Receiver Digest) (b : Bits)
      (proof : List (Side × Digest)) (more : List ℕ)
      → serve h s i ≡ some (b, proof)
      → accept h i b proof r ≡ (true, r')
      → repair_each h s is r' ≡ some (more, r'')
      → repair_each h s (i ∷ is) r ≡ some (i ∷ more, r'')
  unfolding repair_each
  repair_each-step s i is r r' r'' b proof more e a n = rw (e, a, n)

  fill :
      (blocks : List Bits) (root : Digest)
      → commit h blocks ≡ some root
      → (front todo : List Bits) (slots : List (Option Bits)) → Agrees slots todo
      → blocks ≡ front ++ todo
      → (i : ℕ) → i ≡ length front
      → (cur : List (Option Bits)) → cur ≡ map some front ++ slots
      → repair_each h
          (record { blocks = blocks; root = root })
          (missing_from i slots)
          (record { root = root; slots = cur })
        ≡ some (missing_from i slots, record { root = root; slots = map some blocks })
  unfolding repair_each
  fill blocks root c front todo slots settled split i at cur now =
      ap (λ ss. some ([], record { root = root; slots = ss }))
        (now ∙ map-append-end front ∙ ap (map some) (sym split))
  fill blocks root c front todo slots (kept {b = b} {slots = ss} {bs = bs} a) split i at cur now =
      fill blocks root c (front ++ b ∷ []) bs ss a (split ∙ sym (append-middle front b bs)) (suc i)
        (omega (arith, at, length-end front b)) cur (now ∙ sym (map-append-front front b ss))
  fill blocks root c front todo slots (gap {b = b} {slots = ss} {bs = bs} a) split i at cur now =
      let found : get_elem? blocks i ≡ some b =
        ap (λ xs. get_elem? xs i) split
        ∙ ap (get_elem? (front ++ b ∷ bs)) at
        ∙ get_elem?-middle front b bs in
      let inside : i < length cur =
        omega (arith, length-middle_lt front none ss, at, ap length now) in
      let filled : put i b cur ≡ map some (front ++ b ∷ []) ++ ss =
        ap (λ j. put j b cur) at ∙ ap (put (length front) b) now ∙ put-middle front b none ss in
      let (proof, served, valid) = serve-verify_block blocks root c i b found in
      repair_each-step (record { blocks = blocks; root = root }) i (missing_from (suc i) ss)
        (record { root = root; slots = cur }) (record { root = root; slots = put i b cur })
        (record { root = root; slots = map some blocks }) b proof (missing_from (suc i) ss) served
        (accept-true i b proof root cur inside valid)
        (fill blocks root c (front ++ b ∷ []) bs ss a (split ∙ sym (append-middle front b bs))
          (suc i) (omega (arith, at, length-end front b)) (put i b cur) filled)

  make_sender-commit :
      (bits : Bits) (size : ℕ) (blocks : List Bits) (root : Digest)
      → chunk bits size ≡ some blocks
      → commit h blocks ≡ some root
      → make_sender h bits size ≡ some (record { blocks = blocks; root = root })
  unfolding make_sender
  make_sender-commit bits size blocks root e c = rw (e, c)

  assemble-full :
      (root : Digest) (blocks : List Bits)
      → assemble h (record { root = root; slots = map some blocks }) ≡ some (join blocks)
  unfolding assemble complete
  assemble-full root blocks = rw (
    (==_iff (held (map some blocks)) (length (map some blocks))).1 (held-full blocks),
    collect-full blocks,
  )

  -- For a stream cut into blocks of `suc n` bits, and a receiver with the sender's root in which each slot is
  -- empty or holds its block, the sender is made, `repair` transmits the missing blocks and no other, and the
  -- receiver then assembles the stream.
  pub repair-assemble :
      (bits : Bits) (n : ℕ) (blocks : List Bits)
      → chunk bits (suc n) ≡ some blocks
      → (slots : List (Option Bits)) → Agrees slots blocks
      → (root : Digest) × (make_sender h bits (suc n)
          ≡ some (record { blocks = blocks; root = root }))
        × (repair h
              (record { blocks = blocks; root = root })
              (record { root = root; slots = slots })
            ≡ some (
              missing h (record { root = root; slots = slots }),
              record { root = root; slots = map some blocks },
            ))
        × (assemble h (record { root = root; slots = map some blocks }) ≡ some bits)
  unfolding commit repair missing
  repair-assemble bits n blocks e slots a =
      let (b, bs, cut, joined) = join-chunk bits n in
      let same : b ∷ bs ≡ blocks = same_answer (b ∷ bs) blocks (sym cut ∙ e) in
      let (proof, root, p, m, v) =
        merkle_path-verify_leaf h (map h.leaf (b ∷ bs)) 0 (h.leaf b) refl in
      let c : commit h blocks ≡ some root =
        ap (λ xs. merkle_root h (map h.leaf xs)) (sym same) ∙ m in
      (
        root,
        make_sender-commit bits (suc n) blocks root e c,
        fill blocks root c [] blocks slots a refl 0 refl slots refl,
        assemble-full root blocks ∙ ap (λ xs. some (join xs)) (sym same) ∙ ap some joined,
      )
