-- ===== src/Delta/Reader/Stream.antt =====
-- Readers that do not fail: what they are read to is their content.
use cp.Common.{ℕ, zero, suc, ◌-◌, ◌≤◌, ◌<◌, ◌≡◌, refl, sym, ap, ◌∙◌, ◌⊎◌, inl, inr, arith}
use cp.Common.{Bytes, [], ◌∷◌, ◌++◌, append_assoc, true, leb, ltb, Bool-cases}
use cp.Common.{length, length-take, length-drop, take, drop, take-append-drop}
use cp.Delta.Error.{ok}
use cp.Delta.Reader.{Reader, available, failure, content, read, fill}

-- Every read gives bytes until the end of the stream.
abbrev pub Live : Reader → Type 0
Live [] = Unit
Live (failure ∷ r) = ⊥
Live (available bytes ∷ r) = (0 < length bytes) × Live r

-- What one read, or one refill, has done.
pub record Took (r : Reader) (bytes : Bytes) (r' : Reader) : Type 0 where
  pub split : content r ≡ bytes ++ content r'
  pub live : Live r'
  pub more : (0 < length bytes) ⊎ ((length bytes ≡ 0) × (content r ≡ []))

pub read-Live :
    (n : ℕ) (r : Reader)
    → 0 < n
    → Live r
    → (bytes : Bytes) × (r' : Reader) × (read n r ≡ ok (bytes, r'))
      × Took r bytes r'
      × (length bytes ≤ n)
unfolding read
read-Live n [] h l =
    ([], [], refl, record { split = refl; live = tt; more = inr (refl, refl) }, omega arith)
read-Live n (failure ∷ r) h l = absurd l
read-Live n (available bytes ∷ r) h (some_bytes, l) = elim (Bool-cases (leb (length bytes) n)) [
  | inl fits ↦
      (bytes, r, rw fits, record { split = refl; live = l; more = inl some_bytes }, ground arith)
  | inr long ↦ (
    take n bytes,
    available (drop n bytes) ∷ r,
    rw long,
    record {
      split =
          ap (λ (t : Bytes). t ++ content r) (sym (take-append-drop n bytes))
          ∙ append_assoc (take n bytes) (drop n bytes) (content r);
      live = (ground (arith, length-drop n bytes), l);
      more = inl (ground (arith, length-take n bytes));
    },
    omega (arith, length-take n bytes),
  )
]

module _ (fuel cap : ℕ) (r r' : Reader) (h : 0 < cap) where
  fill_end : read cap r ≡ ok ([], r') → fill (suc fuel) cap r ≡ ok ([], r')
  unfolding fill
  fill_end e = let t : ltb 0 cap ≡ true = ground arith in rw (t, fill) (rw (e, fill))

  fill_more :
      (b : ℕ) (bytes more : Bytes) (r'' : Reader)
      → read cap r ≡ ok (b ∷ bytes, r')
      → fill fuel (cap - suc (length bytes)) r' ≡ ok (more, r'')
      → fill (suc fuel) cap r ≡ ok ((b ∷ bytes) ++ more, r'')
  unfolding fill
  fill_more b bytes more r'' e f =
      let t : ltb 0 cap ≡ true = ground arith in rw (t, fill) (rw (e, fill) (rw f))

fill_full : (fuel : ℕ) (r : Reader) → fill fuel 0 r ≡ ok ([], r)
unfolding fill
fill_full zero r = refl
fill_full (suc fuel) r = refl

-- A loop of reads that has filled its buffer, or goes on with what is left to fill.
abbrev Filled : ℕ → ℕ → Reader → Type 0
Filled fuel cap r =
    (bytes : Bytes) × (r' : Reader) × (fill fuel cap r ≡ ok (bytes, r')) × Took r bytes r'

fill_rest :
    (fuel k : ℕ) (r : Reader)
    → (0 < k → Filled fuel k r)
    → Live r
    → (bytes : Bytes) × (r' : Reader) × (fill fuel k r ≡ ok (bytes, r'))
      × (content r ≡ bytes ++ content r')
      × Live r'
fill_rest fuel zero r ih l = ([], r, fill_full fuel r, refl, l)
fill_rest fuel (suc k) r ih l =
    let (bytes, r', e, t) = ih (omega arith) in (bytes, r', e, t.split, t.live)

fill_after :
    (fuel cap : ℕ) (r : Reader) (bytes : Bytes) (r' : Reader)
    → 0 < cap
    → (0 < length bytes → 0 < cap - length bytes → Filled fuel (cap - length bytes) r')
    → read cap r ≡ ok (bytes, r')
    → Took r bytes r'
    → Filled (suc fuel) cap r
fill_after fuel cap r [] r' h ih e t = ([], r', fill_end fuel cap r r' h e, t)
fill_after fuel cap r (b ∷ bytes) r' h ih e t =
    let (more, r'', f, split, live) =
      fill_rest fuel (cap - suc (length bytes)) r' (ih (omega arith)) t.live in
    (
      (b ∷ bytes) ++ more,
      r'',
      fill_more fuel cap r r' h b bytes more r'' e f,
      record {
        split =
            t.split
            ∙ ap (λ (u : Bytes). (b ∷ bytes) ++ u) split
            ∙ sym (append_assoc (b ∷ bytes) more (content r''));
        live = live;
        more = inl (omega arith);
      },
    )

-- The loop of reads gives a prefix of the stream, empty only at its end.
pub fill-Live : (fuel cap : ℕ) (r : Reader) → cap ≤ fuel → 0 < cap → Live r → Filled fuel cap r
fill-Live zero cap r hf h l = absurd (omega arith)
fill-Live (suc fuel) cap r hf h l =
    let (bytes, r', e, t, _) = read-Live cap r h l in
    fill_after fuel cap r bytes r' h
      (λ n p. fill-Live fuel (cap - length bytes) r' (omega arith) p t.live) e t
