-- ===== src/Delta/Table/Range.antt =====
-- The block table's indices are in range and its chains go down.
use cp.Common.{
  ℕ, ◌+◌, ◌*◌, ◌/◌, ◌%◌, ◌^◌, ◌<◌, ◌≤◌, ◌≡◌, ◌⊎◌, refl, sym, ap, ◌∙◌, subst, inl, inr, List, [],
  ◌∷◌, Option, none, some, Bool, true, false, ltb, ◌==◌, ==_iff, Bool-cases, if◌then◌else◌, length,
  bit_and, bit_or, arith,
}
use cp.Common.Bits.{bit_and_mask, bit_or_shifted}
use cp.Common.Word.{u32, shr, shl64, wrapping_add}
use cp.Delta.Signature.{ChunkSignature}
use cp.Delta.Table.{
  Array, Index, u32_max, u64_max, update, head_big, head_traditional, insert_big,
  insert_traditional, insert_chunk, insert_chunks, build_index, scan_first, tail_first,
}

-- An entry of a chain is the end mark or a smaller index.
abbrev pub Down : Array → Type 0
Down chain = (j : ℕ) → (chain j ≡ u32_max) ⊎ (chain j < j)

-- A head entry is empty, or both of its readers get an index below `n`.
abbrev pub Entry : Bool → ℕ → ℕ → Type 0
Entry big n e = (e ≡ u64_max) ⊎ ((scan_first e < n) × (tail_first big e < n))

pub record Valid (n : ℕ) (x : Index) : Type 0 where
  pub down : Down x.chain
  pub vec : (t : ℕ) → Entry true n (x.head_vec t)
  pub arr : (t : ℕ) → Entry false n (x.head_arr t)

scan_first-mod : (e : ℕ) → scan_first e ≡ shr e 32 % 2 ^ 16
unfolding scan_first
scan_first-mod e = bit_and_mask 16 (shr e 32)

head_big-Entry : (w i : ℕ) → w < 2 ^ 32 → Entry true (i + 1) (head_big w i)
unfolding tail_first head_big
head_big-Entry w i hw =
    let l : shl64 (u32 i) 32 ≡ u32 i * 2 ^ 32 = omega arith in
    let e : head_big w i ≡ w + u32 i * 2 ^ 32 = ap (bit_or w) l ∙ bit_or_shifted 32 (u32 i) w hw in
    inr (omega (arith, scan_first-mod (head_big w i), e), omega (arith, e))

head_traditional-Entry :
    (w i f : ℕ)
    → w < 2 ^ 32
    → i < 2 ^ 16
    → f < 2 ^ 16
    → Entry false (i + 1) (head_traditional w i f)
unfolding tail_first head_traditional
head_traditional-Entry w i f hw hi hf =
    let l : shl64 (u32 i) 32 ≡ i * 2 ^ 32 = omega arith in
    let r : shl64 f 48 ≡ f * 2 ^ 48 = omega arith in
    let e : head_traditional w i f ≡ w + i * 2 ^ 32 + f * 2 ^ 48 =
      ap (λ t. bit_or (bit_or w t) (shl64 f 48)) l
      ∙ ap (λ t. bit_or t (shl64 f 48)) (bit_or_shifted 32 i w hw)
      ∙ ap (λ t. bit_or (w + i * 2 ^ 32) t) r
      ∙ bit_or_shifted 48 f (w + i * 2 ^ 32) (omega arith) in
    let m = bit_and_mask 16 (shr (head_traditional w i f) 32) in
    inr (omega (arith, scan_first-mod (head_traditional w i f), e), omega (arith, m, e))

Entry-later : (big : Bool) (n e : ℕ) → Entry big n e → Entry big (n + 1) e
Entry-later big n e (inl empty) = inl empty
Entry-later big n e (inr (a, b)) = inr (omega (arith, a), omega (arith, b))

module _ (P : ℕ → ℕ → Type 0) (a : Array) (i v : ℕ) where
  update_all : P i v → ((j : ℕ) → P j (a j)) → (j : ℕ) → P j (update a i v j)
  unfolding update
  update_all here others j = elim (Bool-cases (i == j)) [
    | inl same ↦ rw same (subst (λ t. P t v) ((==_iff i j).0 same) here)
    | inr other ↦ rw other (others j)
  ]

module _ (i w : ℕ) (fits : w < 2 ^ 32) (x : Index) (v : Valid i x) where
  insert_big-Valid : Valid (i + 1) (insert_big i w x)
  unfolding insert_big tail_first
  insert_big-Valid = record {
    down =
        update_all (λ j c. (c ≡ u32_max) ⊎ (c < j)) x.chain i _ (next (v.vec (w % x.tablesize)))
          v.down;
    vec =
        update_all (λ t e. Entry true (i + 1) e) x.head_vec (w % x.tablesize) (head_big w i)
          (head_big-Entry w i fits) (λ t. Entry-later true i (x.head_vec t) (v.vec t));
    arr = λ t. Entry-later false i (x.head_arr t) (v.arr t);
  }
    where
      old : ℕ
      old = x.head_vec (w % x.tablesize)

      next :
          Entry true i old
          → let c = if old == u64_max then u32_max else u32 (shr old 32) in (c ≡ u32_max) ⊎ (c < i)
      next entry = elim (Bool-cases (old == u64_max)) [
        | inl empty ↦ rw empty (inl refl)
        | inr full ↦ elim entry [
          | inl e ↦ absurd (ground (arith, full, e))
          | inr (a, b) ↦ rw full (inr b)
        ]
      ]

  insert_traditional-Valid : i < 2 ^ 16 → Valid (i + 1) (insert_traditional i w x)
  unfolding insert_traditional
  insert_traditional-Valid few = record {
    down = update_all (λ j c. (c ≡ u32_max) ⊎ (c < j)) x.chain i _ (next (v.arr slot)) v.down;
    vec = λ t. Entry-later true i (x.head_vec t) (v.vec t);
    arr =
        update_all (λ t e. Entry false (i + 1) e) x.head_arr slot _
          (head_traditional-Entry w i first fits few (omega (arith, first-mod)))
          (λ t. Entry-later false i (x.head_arr t) (v.arr t));
  }
    where
      slot : ℕ
      slot = bit_and (wrapping_add (bit_and w 0xffff) (shr w 16)) 0xffff

      old : ℕ
      old = x.head_arr slot

      first : ℕ
      first = bit_and (u32 (shr old 32)) 0xffff

      first-mod : first ≡ u32 (shr old 32) % 2 ^ 16
      first-mod = bit_and_mask 16 (u32 (shr old 32))

      next :
          Entry false i old
          → let c = if first == 0xffff then u32_max else first in (c ≡ u32_max) ⊎ (c < i)
      next entry = elim (Bool-cases (first == 0xffff)) [
        | inl empty ↦ rw empty (inl refl)
        | inr full ↦ elim entry [
          | inl e ↦ absurd (ground (arith, full, first-mod, e))
          | inr (a, b) ↦ rw full (inr (omega (arith, a, first-mod, scan_first-mod old)))
        ]
      ]

Valid-later : (i : ℕ) (x : Index) → Valid i x → Valid (i + 1) x
Valid-later i x v = record {
  down = v.down;
  vec = λ t. Entry-later true i (x.head_vec t) (v.vec t);
  arr = λ t. Entry-later false i (x.head_arr t) (v.arr t);
}

-- A table of 16-bit indices takes so few chunks.
abbrev Few : ℕ → Index → Type 0
Few n x = x.big ≡ false → n ≤ 2 ^ 16

insert_big-big : (i w : ℕ) (x : Index) → (insert_big i w x).big ≡ x.big
unfolding insert_big
insert_big-big i w x = refl

insert_traditional-big : (i w : ℕ) (x : Index) → (insert_traditional i w x).big ≡ x.big
unfolding insert_traditional
insert_traditional-big i w x = refl

either :
    (P : Index → Type 0) (b : Bool) (y z : Index)
    → (b ≡ true → P y)
    → (b ≡ false → P z)
    → P (if b then y else z)
either P true y z f g = f refl
either P false y z f g = g refl

insert_chunk-Valid :
    (i : ℕ) (weak : Option ℕ) (x : Index)
    → Few (i + 1) x
    → Valid i x
    → Valid (i + 1) (insert_chunk i weak x) × ((insert_chunk i weak x).big ≡ x.big)
unfolding insert_chunk
insert_chunk-Valid i none x few v = (Valid-later i x v, refl)
insert_chunk-Valid i (some w) x few v =
    either (λ y. Valid (i + 1) y × (y.big ≡ x.big)) x.big (insert_big i (u32 w) x)
      (insert_traditional i (u32 w) x)
      (λ h. (insert_big-Valid i (u32 w) (omega arith) x v, insert_big-big i (u32 w) x))
      (λ h. (
        insert_traditional-Valid i (u32 w) (omega arith) x v (omega (arith, few h)),
        insert_traditional-big i (u32 w) x,
      ))

insert_chunks-Valid :
    (i : ℕ) (cs : List ChunkSignature) (x : Index)
    → Few (i + length cs) x
    → Valid i x
    → Valid (i + length cs) (insert_chunks i cs x)
unfolding insert_chunks
insert_chunks-Valid i [] x few v = subst (λ n. Valid n x) (omega arith) v
insert_chunks-Valid i (c ∷ cs) x few v =
    let (v', same) = insert_chunk-Valid i c.weak x (λ h. omega (arith, few h)) v in
    subst (λ n. Valid n (insert_chunks (i + 1) cs (insert_chunk i c.weak x))) (omega arith)
      (insert_chunks-Valid (i + 1) cs (insert_chunk i c.weak x)
        (λ h. omega (arith, few (sym same ∙ h))) v')

pub build_index-Valid : (chunks : List ChunkSignature) → Valid (length chunks) (build_index chunks)
unfolding build_index
build_index-Valid chunks =
    let e : 0 + length chunks ≡ length chunks = omega arith in
    subst (λ n. Valid n (build_index chunks)) e
      (insert_chunks-Valid 0 chunks _ (λ h. omega (arith, few h))
        (record { down = λ j. inl refl; vec = λ t. inl refl; arr = λ t. inl refl }))
  where
    few : ltb (2 ^ 16) (length chunks / 8 * 10 + 11) ≡ false → length chunks ≤ 2 ^ 16
    few h = ground arith

-- The head entry of a bucket, by the kind of the table
pub head-Entry :
    (n t u : ℕ) (x : Index)
    → Valid n x
    → Entry x.big n (if x.big then x.head_vec t else x.head_arr u)
head-Entry n t u x v = go x.big refl
  where
    go : (b : Bool) → x.big ≡ b → Entry b n (if b then x.head_vec t else x.head_arr u)
    go true e = v.vec t
    go false e = v.arr u

-- A head entry that is not empty has two indices in range.
pub Entry-in_range :
    (big : Bool) (n e : ℕ)
    → Entry big n e
    → (e == u64_max) ≡ false
    → (scan_first e < n) × (tail_first big e < n)
Entry-in_range big n e (inl empty) full = absurd (ground (arith, empty, full))
Entry-in_range big n e (inr range) full = range
