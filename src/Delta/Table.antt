-- ===== src/Delta/Table.antt =====
-- src/delta/compute.rs, the block table of `compute_delta_rollsum` and the walk of one bucket.
-- An array is a function from the index; the chain and the heads are written at indices in range.
pub mod Heads
pub mod Probe
pub mod Range
pub mod Walk
use cp.Common.{ℕ, zero, suc, ◌+◌, ◌*◌, ◌/◌, ◌%◌, ◌^◌, ◌-◌, bit_and, bit_or}
use cp.Common.{Bytes, List, [], ◌∷◌, Option, none, some, length, get_elem?, bytes_eq}
use cp.Common.{Bool, true, false, ◌&&◌, ltb, leb, ◌==◌, if◌then◌else◌}
use cp.Common.Word.{u32, wrapping_add, shl64, shr}
use cp.Delta.Error.{DeltaResult, ok, panic, stuck}
use cp.Delta.Signature.{ChunkSignature}

-- `u32::MAX` and `u64::MAX` mark the end of a chain and an empty bucket.
abbrev pub u32_max : ℕ
u32_max = 2 ^ 32 - 1

abbrev pub u64_max : ℕ
u64_max = 2 ^ 64 - 1

abbrev pub max_chain_len : ℕ
max_chain_len = 1024

abbrev pub Array : Type 0
Array = ℕ → ℕ

update : Array → ℕ → ℕ → Array
update a i v j = if i == j then v else a j

pub record Index : Type 0 where
  pub big : Bool
  pub tablesize : ℕ
  pub head_vec : Array
  pub head_arr : Array
  pub chain : Array

-- `next_power_of_two`, by doubling from `p`.
next_power_of_two : ℕ → ℕ → ℕ → ℕ
next_power_of_two zero p n = p
next_power_of_two (suc fuel) p n = elim (leb n p) [
  | true ↦ p
  | false ↦ next_power_of_two fuel (2 * p) n
]

-- The packed head entries: weak(32) | idx(32), and weak(32) | idx1(16) | idx2(16).
unfoldable pub head_big : ℕ → ℕ → ℕ
head_big weak i = bit_or weak (shl64 (u32 i) 32)

unfoldable pub head_traditional : ℕ → ℕ → ℕ → ℕ
head_traditional weak i old_first = bit_or (bit_or weak (shl64 (u32 i) 32)) (shl64 old_first 48)

insert_big : ℕ → ℕ → Index → Index
unfolding head_big update
insert_big i weak x =
    let t = weak % x.tablesize in
    let old = x.head_vec t in
    let ci = u32 (shr old 32) in
    record x {
      chain = update x.chain i (if old == u64_max then u32_max else ci);
      head_vec = update x.head_vec t (head_big weak i);
    }

insert_traditional : ℕ → ℕ → Index → Index
unfolding head_traditional update
insert_traditional i weak x =
    let t = bit_and (wrapping_add (bit_and weak 0xffff) (shr weak 16)) 0xffff in
    let old = x.head_arr t in
    let old_first = bit_and (u32 (shr old 32)) 0xffff in
    record x {
      chain = update x.chain i (if old_first == 0xffff then u32_max else old_first);
      head_arr = update x.head_arr t (head_traditional weak i old_first);
    }

-- A weak sum is a u32.
insert_chunk : ℕ → Option ℕ → Index → Index
unfolding insert_big insert_traditional
insert_chunk i none x = x
insert_chunk i (some weak) x =
    let w = u32 weak in if x.big then insert_big i w x else insert_traditional i w x

insert_chunks : ℕ → List ChunkSignature → Index → Index
unfolding insert_chunk
insert_chunks i [] x = x
insert_chunks i (c ∷ cs) x = insert_chunks (i + 1) cs (insert_chunk i c.weak x)

unfoldable pub build_index : List ChunkSignature → Index
unfolding insert_chunks next_power_of_two
build_index chunks =
    let count = length chunks in
    let slots = count / 8 * 10 + 11 in
    insert_chunks 0 chunks (record {
      big = ltb (2 ^ 16) slots;
      tablesize = next_power_of_two 64 1 slots;
      head_vec = λ _. u64_max;
      head_arr = λ _. u64_max;
      chain = λ _. u32_max;
    })

-- The first index of a head entry as `scan_region` reads it, and as the tail probe reads it.
unfoldable pub scan_first : ℕ → ℕ
scan_first e = bit_and (shr e 32) 0xffff

unfoldable pub tail_first : Bool → ℕ → ℕ
tail_first big e = if big then u32 (shr e 32) else bit_and (shr e 32) 0xffff

abbrev pub weak_is : Option ℕ → ℕ → Bool
weak_is none sum = false
weak_is (some w) sum = w == sum

module _ (hash : Bytes → Bytes) where
  -- The loop of `probe_bucket`: an index out of the chunks is a panic. The chain has as many entries as
  -- there are chunks, so its own index is in range behind the chunk's. The strong hash of the window is
  -- the same each time, so its cache is left out. A chain goes down to its end mark, so its first index
  -- and two is fuel enough; a walk that does not end is stuck.
  probe_loop : ℕ → List ChunkSignature → ℕ → Array → ℕ → ℕ → Bytes → ℕ → DeltaResult (Option ℕ)
  probe_loop zero chunks i chain sum k window chain_len = stuck
  probe_loop (suc fuel) chunks i chain sum k window chain_len = elim (i == u32_max) [
    | true ↦ ok none
    | false ↦ elim (get_elem? chunks i) [
      | none ↦ panic
      | some c ↦
          let onward = λ (n : ℕ). probe_loop fuel chunks (chain i) chain sum k window n in
          elim (c.len == k && weak_is c.weak sum) [
            | false ↦ onward chain_len
            | true ↦ elim (ltb max_chain_len (chain_len + 1)) [
              | true ↦ ok none
              | false ↦ elim (bytes_eq (hash window) c.strong_hash) [
                | true ↦ ok (some i)
                | false ↦ onward (chain_len + 1)
              ]
            ]
          ]
    ]
  ]

  unfoldable pub probe_bucket :
      List ChunkSignature → ℕ → Array → ℕ → ℕ → Bytes → DeltaResult (Option ℕ)
  unfolding probe_loop bytes_eq
  probe_bucket chunks i chain sum k window = probe_loop (i + 2) chunks i chain sum k window 0
