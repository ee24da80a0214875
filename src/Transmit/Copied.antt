-- ===== src/Transmit/Copied.antt =====
-- The copying into segments against that into one buffer.
use platform.Common.{ℕ, zero, suc, ◌+◌, ◌-◌, ◌≤◌, ◌<◌, ◌≡◌, refl, ◌∙◌, sym, ap, arith, ok}
use platform.Common.{
  List, [], ◌∷◌, ◌++◌, length, take, drop, append_assoc, append_nil, length-append,
}
use platform.Common.{ltb, leb, Bool-cases, inl, inr, length-take_all, length-drop, take_append_drop}
use platform.Transmit.{write_at, copy_on, copy_buf_to_pkt_segs, copy_buf_to_pkt}

-- The bytes of the segments, one after the other.
unfoldable pub flat : List (List ℕ) → List ℕ
flat [] = []
flat (seg ∷ segs) = seg ++ flat segs

take-append_le : (n : ℕ) (xs ys : List ℕ) → n ≤ length xs → take n (xs ++ ys) ≡ take n xs
take-append_le zero xs ys h = refl
take-append_le (suc n) [] ys h = absurd (omega arith)
take-append_le (suc n) (x ∷ xs) ys h = ap (λ l. x ∷ l) (take-append_le n xs ys (omega arith))

drop-append_le : (n : ℕ) (xs ys : List ℕ) → n ≤ length xs → drop n (xs ++ ys) ≡ drop n xs ++ ys
drop-append_le zero xs ys h = refl
drop-append_le (suc n) [] ys h = absurd (omega arith)
drop-append_le (suc n) (x ∷ xs) ys h = drop-append_le n xs ys (omega arith)

take-append_add : (n : ℕ) (xs ys : List ℕ) → take (length xs + n) (xs ++ ys) ≡ xs ++ take n ys
take-append_add n [] ys = let e : 0 + n ≡ n = omega arith in rw e refl
take-append_add n (x ∷ xs) ys =
    let e : suc (length xs) + n ≡ suc (length xs + n) = omega arith in
    rw e (ap (λ l. x ∷ l) (take-append_add n xs ys))

drop-append_add : (n : ℕ) (xs ys : List ℕ) → drop (length xs + n) (xs ++ ys) ≡ drop n ys
drop-append_add n [] ys = let e : 0 + n ≡ n = omega arith in rw e refl
drop-append_add n (x ∷ xs) ys =
    let e : suc (length xs) + n ≡ suc (length xs + n) = omega arith in
    rw e (drop-append_add n xs ys)

drop_all : (xs : List ℕ) → drop (length xs) xs ≡ []
drop_all [] = refl
drop_all (x ∷ xs) = drop_all xs

-- Writing inside the first part.
write_at_first :
    (offset : ℕ) (buf xs ys : List ℕ)
    → offset + length buf ≤ length xs
    → write_at offset buf (xs ++ ys) ≡ write_at offset buf xs ++ ys
write_at_first offset buf xs ys h =
    rw
      (
        take-append_le offset xs ys (omega arith),
        drop-append_le (offset + length buf) xs ys h,
        append_assoc (take offset xs) (buf ++ drop (offset + length buf) xs) ys,
        append_assoc buf (drop (offset + length buf) xs) ys,
      )
      refl

-- Writing behind the first part.
pub write_at_behind :
    (offset : ℕ) (buf xs ys : List ℕ)
    → length xs ≤ offset
    → write_at offset buf (xs ++ ys) ≡ xs ++ write_at (offset - length xs) buf ys
write_at_behind offset buf xs ys h =
    let n = offset - length xs in
    let e : offset ≡ length xs + n = omega arith in
    let e' : length xs + n + length buf ≡ length xs + (n + length buf) = omega arith in
    ap (λ (k : ℕ). write_at k buf (xs ++ ys)) e
    ∙ rw
        (
          take-append_add n xs ys,
          e',
          drop-append_add (n + length buf) xs ys,
          append_assoc xs (take n ys) (buf ++ drop (n + length buf) ys),
        )
        refl

-- Writing over the end of the first part.
write_at_across :
    (offset : ℕ) (buf xs ys : List ℕ)
    → offset ≤ length xs
    → length xs ≤ offset + length buf
    → write_at offset buf (xs ++ ys)
      ≡ write_at offset (take (length xs - offset) buf) xs
        ++ write_at 0 (drop (length xs - offset) buf) ys
write_at_across offset buf xs ys lo hi =
    let c = length xs - offset in
    let part = length-take_all c buf (omega arith) in
    let left = length-drop c buf (omega arith) in
    let n = length (drop c buf) in
    let e : offset + length buf ≡ length xs + n = omega (arith, left) in
    let e' : offset + length (take c buf) ≡ length xs = omega (arith, part) in
    let z : 0 + n ≡ n = omega arith in
    ap (λ (k : ℕ). take offset (xs ++ ys) ++ (buf ++ drop k (xs ++ ys))) e
    ∙ rw (take-append_le offset xs ys lo, drop-append_add n xs ys) refl
    ∙ ap (λ l. take offset xs ++ (l ++ drop n ys)) (sym (take_append_drop c buf))
    ∙ rw
        (
          append_assoc (take c buf) (drop c buf) (drop n ys),
          e',
          drop_all xs,
          z,
          append_nil (take c buf),
          append_assoc (take offset xs) (take c buf) (drop c buf ++ drop n ys),
        )
        refl

length-write_at :
    (offset : ℕ) (buf xs : List ℕ)
    → offset + length buf ≤ length xs
    → length (write_at offset buf xs) ≡ length xs
length-write_at offset buf xs h = omega (
  arith,
  length-append (take offset xs) (buf ++ drop (offset + length buf) xs),
  length-append buf (drop (offset + length buf) xs),
  length-take_all offset xs (omega arith),
  length-drop (offset + length buf) xs h,
)

-- The lengths of the segments.
abbrev pub lengths : List (List ℕ) → List ℕ
lengths [] = []
lengths (seg ∷ segs) = length seg ∷ lengths segs

-- What a copy leaves: the bytes as if they were in one buffer, in segments as long as before.
pub record IsCopy (buf : List ℕ) (offset : ℕ) (segs segs' : List (List ℕ)) : Type 0 where
  pub bytes : flat segs' ≡ write_at offset buf (flat segs)
  pub same_lengths : lengths segs' ≡ lengths segs

abbrev pub Starts : ℕ → List (List ℕ) → Type 0
Starts offset [] = Unit {0}
Starts offset (seg ∷ segs) = offset ≤ length seg

pub starts_zero : (segs : List (List ℕ)) → Starts 0 segs
starts_zero [] = tt
starts_zero (seg ∷ segs) = omega arith

first-IsCopy :
    (buf seg : List ℕ) (segs : List (List ℕ)) (offset : ℕ)
    → offset + length buf ≤ length seg
    → IsCopy buf offset (seg ∷ segs) (write_at offset buf seg ∷ segs)
unfolding flat
first-IsCopy buf seg segs offset h = record {
  bytes = sym (write_at_first offset buf seg (flat segs) h);
  same_lengths = ap (λ (n : ℕ). n ∷ lengths segs) (length-write_at offset buf seg h);
}

copy_on-IsCopy :
    (buf : List ℕ) (segs : List (List ℕ)) (offset : ℕ)
    → Starts offset segs
    → 0 < length buf
    → offset + length buf ≤ length (flat segs)
    → (segs' : List (List ℕ)) × (copy_on buf segs offset ≡ ok segs') × IsCopy buf offset segs segs'
unfolding copy_on flat
copy_on-IsCopy buf [] offset st some_bytes h = absurd (omega arith)
copy_on-IsCopy buf (seg ∷ segs) offset st some_bytes h =
    let c = length seg - offset in
    let whole = length-append seg (flat segs) in
    elim (Bool-cases (ltb c (length buf))) [
      | inr e ↦
          let fits : offset + length buf ≤ length seg = ground (arith, e) in
          (write_at offset buf seg ∷ segs, rw e refl, first-IsCopy buf seg segs offset fits)
      | inl e ↦
          let more : c < length buf = ground (arith, e) in
          let part = length-take_all c buf (omega (arith, more)) in
          let left = length-drop c buf (omega (arith, more)) in
          let (rest, run, k) =
            copy_on-IsCopy (drop c buf) segs 0 (starts_zero segs) (omega (arith, left, more))
              (omega (arith, left, whole)) in
          let fits : offset + length (take c buf) ≤ length seg = omega (arith, part) in
          (
            write_at offset (take c buf) seg ∷ rest,
            rw (e, run) refl,
            record {
              bytes =
                  ap (λ l. write_at offset (take c buf) seg ++ l) k.bytes
                  ∙ sym (write_at_across offset buf seg (flat segs) st (omega (arith, more)));
              same_lengths =
                  ap (λ l. length (write_at offset (take c buf) seg) ∷ l) k.same_lengths
                  ∙ ap (λ (n : ℕ). n ∷ lengths segs) (length-write_at offset (take c buf) seg fits);
            },
          )
    ]

segs-IsCopy :
    (buf : List ℕ) (segs : List (List ℕ)) (offset : ℕ)
    → 0 < length buf
    → offset + length buf ≤ length (flat segs)
    → (segs' : List (List ℕ)) × (copy_buf_to_pkt_segs buf segs offset ≡ ok segs')
      × IsCopy buf offset segs segs'
unfolding copy_buf_to_pkt_segs flat
segs-IsCopy buf [] offset some_bytes h = absurd (omega arith)
segs-IsCopy buf (seg ∷ segs) offset some_bytes h =
    let whole = length-append seg (flat segs) in
    elim (Bool-cases (leb (length seg) offset)) [
      | inl e ↦
          let past : length seg ≤ offset = ground (arith, e) in
          let (rest, run, k) =
            segs-IsCopy buf segs (offset - length seg) some_bytes (omega (arith, whole, past)) in
          (
            seg ∷ rest,
            rw (e, run) refl,
            record {
              bytes =
                  ap (λ l. seg ++ l) k.bytes
                  ∙ sym (write_at_behind offset buf seg (flat segs) past);
              same_lengths = ap (λ l. length seg ∷ l) k.same_lengths;
            },
          )
      | inr e ↦
          let (rest, run, k) =
            copy_on-IsCopy buf (seg ∷ segs) offset (ground (arith, e)) some_bytes h in
          (rest, rw e run, k)
    ]

-- If the segments together hold the place and what is copied there, and that is not empty,
-- copy_buf_to_pkt returns.
pub copy_buf_to_pkt-IsCopy :
    (buf : List ℕ) (segs : List (List ℕ)) (offset : ℕ)
    → 0 < length buf
    → offset + length buf ≤ length (flat segs)
    → (segs' : List (List ℕ)) × (copy_buf_to_pkt buf segs offset ≡ ok segs')
      × IsCopy buf offset segs segs'
unfolding copy_buf_to_pkt flat
copy_buf_to_pkt-IsCopy buf [] offset some_bytes h = absurd (omega arith)
copy_buf_to_pkt-IsCopy buf (seg ∷ segs) offset some_bytes h =
    elim (Bool-cases (leb (offset + length buf) (length seg))) [
      | inl e ↦ (
        write_at offset buf seg ∷ segs,
        rw e refl,
        first-IsCopy buf seg segs offset (ground (arith, e)),
      )
      | inr e ↦
          let (rest, run, k) = segs-IsCopy buf (seg ∷ segs) offset some_bytes h in
          (rest, rw e run, k)
    ]
