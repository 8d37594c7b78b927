-- ===== src/Delta/Scan.antt =====
-- src/delta/compute.rs, `scan_region`: one round of its loops, and the loop.
-- A position keeps what is left of the region, `region[q..]`, and the filled part of the scratch.
pub mod Progress
pub mod Sound
use cp.Common.{ℕ, zero, suc, ◌+◌, ◌*◌, ◌/◌, ◌%◌, ◌^◌, bit_and}
use cp.Common.{
  Bytes, List, [], ◌∷◌, ◌++◌, Option, none, some, length, take, drop, get_or, get_elem?,
}
use cp.Common.{Bool, true, false, not, ◌&&◌, ◌||◌, ltb, leb, ◌==◌, if◌then◌else◌}
use cp.Common.Word.{u32, shr}
use cp.Delta.Error.{DeltaResult, ok, err, panic, stuck, literal_budget_exceeded}
use cp.Delta.Ops.{Delta, push_copy, push_literal}
use cp.Delta.Rollsum.{weak_init, state_pack, state_value, state_bucket, state_roll}
use cp.Delta.Signature.{ChunkSignature}
use cp.Delta.Table.{Index, u64_max, scan_first, probe_bucket}
use mathlib.Core.List.{tail}

abbrev pub scratch : ℕ
scratch = 64 * 1024

pub record Position : Type 0 where
  pub q : ℕ
  pub rest : Bytes
  pub st : ℕ
  pub lit : Bytes
  pub literal_bytes : ℕ
  pub matched : ℕ
  pub delta : Delta

-- What `scan_region` returns, with the delta that it changes.
pub record Scanned : Type 0 where
  pub consumed : ℕ
  pub literal : Bytes
  pub literal_bytes : ℕ
  pub matched : ℕ
  pub delta : Delta

pub data Outcome : Type 0 where
  return : DeltaResult Scanned → Outcome
  resume : Position → Outcome

abbrev pub is_nil : Bytes → Bool
is_nil [] = true
is_nil (b ∷ bs) = false

module _ (block max_literal : ℕ) where
  -- The last full window was probed with no match: its bytes are literal. A window that the empty
  -- scratch cannot take is a slice out of range.
  pub finish : Position → Outcome
  finish s =
      let spill = ltb scratch (length s.lit + block) && ltb 0 (length s.lit) in
      let flushed = if spill then push_literal s.lit s.delta else s.delta in
      let kept : Bytes = if spill then [] else s.lit in
      let literal_bytes = s.literal_bytes + block in
      if ltb scratch (length kept + block) || not (length s.rest == block)
      then return panic
      else if ltb max_literal literal_bytes
      then return (err (literal_budget_exceeded max_literal))
      else return (
          ok (record {
            consumed = s.q + length s.rest;
            literal = [];
            literal_bytes = literal_bytes;
            matched = s.matched;
            delta = push_literal (kept ++ s.rest) flushed;
          }))

  -- A miss: roll one byte, which is literal, or finish at the end of the region.
  pub miss : Position → Outcome
  unfolding finish
  miss s =
      let out = get_or s.rest 0 0 in
      let inn = get_or s.rest block 0 in
      let lit = s.lit ++ (out ∷ []) in
      let literal_bytes = s.literal_bytes + 1 in
      let full = length lit == scratch in
      if leb (length s.rest) block
      then finish s
      else if ltb max_literal literal_bytes
      then return (err (literal_budget_exceeded max_literal))
      else resume (record {
        q = s.q + 1;
        rest = tail s.rest;
        st = state_roll s.st (u32 block) out inn;
        lit = if full then [] else lit;
        literal_bytes = literal_bytes;
        matched = s.matched;
        delta = if full then push_literal lit s.delta else s.delta;
      })

  -- A verified match with the chunk `c`: flush the literals, emit the copy, jump the block.
  pub jump : ChunkSignature → Position → Outcome
  jump c s =
      let flushed = push_copy c.offset c.len (push_literal s.lit s.delta) in
      let rest = drop block s.rest in
      let matched = s.matched + c.len in
      let (a, b) = weak_init (take block rest) in
      if ltb (length rest) block
      then return (
          ok (record {
            consumed = s.q + block;
            literal = [];
            literal_bytes = s.literal_bytes;
            matched = matched;
            delta = flushed;
          }))
      else resume (record {
        q = s.q + block;
        rest = rest;
        st = state_pack a b;
        lit = [];
        literal_bytes = s.literal_bytes;
        matched = matched;
        delta = flushed;
      })

  module _ (hash : Bytes → Bytes) (chunks : List ChunkSignature) (x : Index) where
    -- The bucket's head entry at the present state.
    pub head_entry : ℕ → ℕ
    head_entry st =
        if x.big then x.head_vec (state_value st % x.tablesize) else x.head_arr (state_bucket st)

    -- The cold block: the walk runs on a weak match or a deeper chain.
    pub probe : ℕ → Position → DeltaResult (Option ℕ)
    probe e s =
        let sum = state_value s.st in
        let hweak = u32 e in
        let idx2 = bit_and (shr e 48) 0xffff in
        if hweak == sum || not (idx2 == 0xffff)
        then probe_bucket hash chunks (scan_first e) x.chain sum block (take block s.rest)
        else ok none

    pub found : DeltaResult (Option ℕ) → Position → Outcome
    unfolding miss jump
    found (err e) s = return (err e)
    found panic s = return panic
    found stuck s = return stuck
    found (ok none) s = miss s
    found (ok (some m)) s = elim (get_elem? chunks m) [ none ↦ return panic | some c ↦ jump c s ]

    pub round : Position → Outcome
    unfolding head_entry probe found
    round s = let e = head_entry s.st in if e == u64_max then miss s else found (probe e s) s

    -- A round that goes on leaves a shorter region, so its length is fuel enough.
    pub scan_loop : ℕ → Position → DeltaResult Scanned
    scan_loop zero s = stuck
    scan_loop (suc fuel) s = elim (round s) [ return r ↦ r | resume s' ↦ scan_loop fuel s' ]

    unfoldable pub scan_region : Bytes → Delta → DeltaResult Scanned
    unfolding scan_loop round
    scan_region region delta =
        let (s1, s2) = weak_init (take block region) in
        scan_loop (length region + 1) (record {
          q = 0;
          rest = region;
          st = state_pack s1 s2;
          lit = [];
          literal_bytes = 0;
          matched = 0;
          delta = delta;
        })
