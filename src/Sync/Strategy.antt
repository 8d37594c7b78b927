-- ===== src/Sync/Strategy.antt =====
-- src/sync/strategy.rs: the size tiers, and how a file is transferred.
use cp.Common.{ℕ, Bool, ◌&&◌, ltb, leb, if◌then◌else◌}

pub data TransferStrategy : Type 0 where
  copy : TransferStrategy
  delta : TransferStrategy

pub data FileClass : Type 0 where
  small : FileClass
  medium : FileClass
  large : FileClass

abbrev pub delta_min_size : ℕ
delta_min_size = 10485760

abbrev pub small_file_max : ℕ
small_file_max = 2097152

abbrev pub medium_file_max : ℕ
medium_file_max = 16777216

abbrev pub classify_file_size : ℕ → FileClass
classify_file_size size =
    if leb size small_file_max then small else if leb size medium_file_max then medium else large

abbrev pub determine_strategy : ℕ → Bool → TransferStrategy
determine_strategy src_size dest_exists =
    if dest_exists && ltb delta_min_size src_size then delta else copy
