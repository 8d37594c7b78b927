-- ===== src/Platform/File.antt =====
-- `std::fs::File` as POSIX has it, for the writers of src/sync/receiver.rs and
-- src/platform/staging.rs: the bytes of a file and the position of its handle. A write beyond the end
-- fills the gap with zeros, and a change of the length cuts the file or extends it with zeros.
use cp.Common.{ℕ, zero, suc, ◌+◌, ◌-◌, ◌≡◌, refl, arith, ap₂}
use cp.Common.{false, Bytes, [], ◌∷◌, ◌++◌, length, get_or, ltb, if◌then◌else◌, replicate}

pub record File : Type 0 where
  pub content : Bytes
  pub at : ℕ

-- `bytes` put over `content` from a position on
unfoldable pub overwrite : ℕ → Bytes → Bytes → Bytes
overwrite zero [] content = content
overwrite zero (b ∷ bytes) [] = b ∷ overwrite zero bytes []
overwrite zero (b ∷ bytes) (x ∷ content) = b ∷ overwrite zero bytes content
overwrite (suc at) [] content = content
overwrite (suc at) (b ∷ bytes) [] = 0 ∷ overwrite at (b ∷ bytes) []
overwrite (suc at) (b ∷ bytes) (x ∷ content) = x ∷ overwrite at (b ∷ bytes) content

unfoldable pub write_all : Bytes → File → File
unfolding overwrite
write_all bytes file = record {
  content = overwrite file.at bytes file.content;
  at = file.at + length bytes;
}

-- `SeekFrom::Current`, forwards
unfoldable pub seek_current : ℕ → File → File
seek_current n file = record file { at = file.at + n }

-- `ftruncate`
unfoldable pub resize : ℕ → Bytes → Bytes
resize zero content = []
resize (suc n) [] = 0 ∷ resize n []
resize (suc n) (x ∷ content) = x ∷ resize n content

unfoldable pub set_len : ℕ → File → File
unfolding resize
set_len n file = record file { content = resize n file.content }

-- A byte of the file: what is written has the new byte, all else is as before, and nothing is zero.
pub get_or-overwrite :
    (at : ℕ) (bytes content : Bytes) (i : ℕ)
    → get_or (overwrite at bytes content) i 0 ≡ (
        if ltb i at
        then get_or content i 0
        else if ltb i (at + length bytes)
        then get_or bytes (i - at) 0
        else get_or content i 0)
unfolding overwrite
get_or-overwrite zero [] content i = ground arith
get_or-overwrite zero (b ∷ bytes) [] zero = ground arith
get_or-overwrite zero (b ∷ bytes) [] (suc i) = ground (arith, get_or-overwrite zero bytes [] i)
get_or-overwrite zero (b ∷ bytes) (x ∷ content) zero = ground arith
get_or-overwrite zero (b ∷ bytes) (x ∷ content) (suc i) =
    ground (arith, get_or-overwrite zero bytes content i)
get_or-overwrite (suc at) [] content i = ground arith
get_or-overwrite (suc at) (b ∷ bytes) [] zero = ground arith
get_or-overwrite (suc at) (b ∷ bytes) [] (suc i) =
    ground (arith, get_or-overwrite at (b ∷ bytes) [] i)
get_or-overwrite (suc at) (b ∷ bytes) (x ∷ content) zero = ground arith
get_or-overwrite (suc at) (b ∷ bytes) (x ∷ content) (suc i) =
    ground (arith, get_or-overwrite at (b ∷ bytes) content i)

pub get_or-append :
    (xs ys : Bytes) (i : ℕ)
    → get_or (xs ++ ys) i 0
      ≡ (if ltb i (length xs) then get_or xs i 0 else get_or ys (i - length xs) 0)
get_or-append [] ys i = ground arith
get_or-append (x ∷ xs) ys zero = ground arith
get_or-append (x ∷ xs) ys (suc i) = ground (arith, get_or-append xs ys i)

-- Two files that agree byte for byte, zeros behind the shorter, are equal at any length.
pub resize-ext :
    (n : ℕ) (xs ys : Bytes) → ((i : ℕ) → get_or xs i 0 ≡ get_or ys i 0) → resize n xs ≡ resize n ys
unfolding resize
resize-ext zero xs ys same = refl
resize-ext (suc n) [] [] same = refl
resize-ext (suc n) [] (y ∷ ys) same = ap₂ ◌∷◌ (same 0) (resize-ext n [] ys (λ i. same (suc i)))
resize-ext (suc n) (x ∷ xs) [] same = ap₂ ◌∷◌ (same 0) (resize-ext n xs [] (λ i. same (suc i)))
resize-ext (suc n) (x ∷ xs) (y ∷ ys) same =
    ap₂ ◌∷◌ (same 0) (resize-ext n xs ys (λ i. same (suc i)))

pub resize-length : (xs : Bytes) → resize (length xs) xs ≡ xs
unfolding resize
resize-length [] = refl
resize-length (x ∷ xs) = ap₂ ◌∷◌ refl (resize-length xs)

pub get_or-replicate : (n i : ℕ) → get_or {A = ℕ} (replicate n 0) i 0 ≡ 0
get_or-replicate zero i = refl
get_or-replicate (suc n) zero = refl
get_or-replicate (suc n) (suc i) = get_or-replicate n i

pub get_or-beyond : (xs : Bytes) (i : ℕ) → ltb i (length xs) ≡ false → get_or xs i 0 ≡ 0
get_or-beyond [] i h = refl
get_or-beyond (x ∷ xs) zero h = ground arith
get_or-beyond (x ∷ xs) (suc i) h = get_or-beyond xs i (ground arith)
