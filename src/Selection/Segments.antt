-- ===== src/Selection/Segments.antt =====
-- The segments of the packets that are sent, `set_tx_pkt_segments`.
use platform.Common.{
  ℕ, suc, ◌+◌, ◌%◌, ◌^◌, ◌≤◌, ◌<◌, ◌≡◌, refl, sym, ◌∙◌, true, Bool-cases, arith, inl, inr,
}
use platform.Common.{
  List, [], ◌∷◌, length, ok, store-ok, update, ltb, leb, eq-cases, eq→==, ne→==, sum_to,
  sum_to-update_ge,
}
use native.Mathlib.Nat.{mod-eq_of_lt}
use platform.Selection.{Config, total_length, write_lengths, set_tx_pkt_segments, empty_packet}

-- The lengths together.
unfoldable pub sum : List ℕ → ℕ
sum [] = 0
sum (x ∷ xs) = x + sum xs

-- No segment is longer than a buffer.
AllFit : ℕ → List ℕ → Type 0
AllFit size [] = Unit {0}
AllFit size (x ∷ xs) = (x ≤ size) × AllFit size xs

-- What holds of the packet that is configured.
pub record IsPacket (s : Config) : Type 0 where
  pub total : s.tx_pkt_length ≡ sum_to s.tx_pkt_nb_segs s.tx_pkt_seg_lengths
  pub headers : 42 ≤ s.tx_pkt_length
  pub buffers : (j : ℕ) → j < s.tx_pkt_nb_segs → s.tx_pkt_seg_lengths j ≤ s.mbuf_data_size
  pub descriptors : s.tx_pkt_nb_segs < s.nb_txd

total_length-sum :
    (size : ℕ) (xs : List ℕ) (len : ℕ)
    → len + sum xs < 2 ^ 16
    → (total_length size xs len).1 ≡ true
    → ((total_length size xs len).0 ≡ len + sum xs) × AllFit size xs
unfolding total_length sum AllFit
total_length-sum size [] len small e = (omega arith, tt)
total_length-sum size (x ∷ xs) len small e = elim (Bool-cases (ltb size x)) [
  | inl long ↦ let bad = rw long at e in absurd (cc)
  | inr fits ↦
      let exact : (len + x) % 2 ^ 16 ≡ len + x = mod-eq_of_lt (omega (arith, small)) in
      let e' : (total_length size xs (len + x)).1 ≡ true = rw (fits, exact) at e in
      let (total, all) = total_length-sum size xs (len + x) (omega (arith, small)) e' in
      rw (fits, exact) (omega (arith, total), (ground (arith, fits), all))
]

-- The sum up to the cell that is written.
sum_to-written : (i x : ℕ) (a : ℕ → ℕ) → sum_to (i + 1) (update a i x) ≡ sum_to i a + x
unfolding sum_to
sum_to-written i x a =
    let e : i + 1 ≡ suc i = omega arith in
    rw (e, eq→== i i refl, sum_to-update_ge i a i x (omega arith)) refl

record Written (size i : ℕ) (xs : List ℕ) (old new : ℕ → ℕ) : Type 0 where
  sums : sum_to (i + length xs) new ≡ sum_to i old + sum xs
  fit : (j : ℕ) → i ≤ j → j < i + length xs → new j ≤ size
  before : (j : ℕ) → j < i → new j ≡ old j

write_lengths-Written :
    (size i : ℕ) (xs : List ℕ) (a : ℕ → ℕ)
    → i + length xs ≤ 255
    → sum xs < 2 ^ 16
    → AllFit size xs
    → (new : ℕ → ℕ) × (write_lengths 255 i xs a ≡ ok new) × Written size i xs a new
unfolding write_lengths sum AllFit
write_lengths-Written size i [] a room small all =
    let z : i + 0 ≡ i = omega arith in
    (
      a,
      refl,
      record {
        sums = rw z (omega arith);
        fit = λ j lo hi. absurd (omega arith);
        before = λ j lt. refl;
      },
    )
write_lengths-Written size i (x ∷ xs) a room small (fits, all) =
    let (new, run, w) =
      write_lengths-Written size (i + 1) xs (update a i x) (omega arith) (omega (arith, small))
        all in
    let exact : x % 2 ^ 16 ≡ x = mod-eq_of_lt (omega (arith, small)) in
    let here : new i ≡ x = w.before i (omega arith) ∙ rw (eq→== i i refl) refl in
    (
      new,
      rw (exact, store-ok 255 a i x (omega arith)) run,
      record {
        sums =
            let z : i + length (x ∷ xs) ≡ i + 1 + length xs = omega arith in
            rw (z, w.sums, sum_to-written i x a) (omega arith);
        fit = λ j lo hi. elim (eq-cases j i) [
          | inl e ↦ rw (e, here) fits
          | inr ne ↦ w.fit j (omega (arith, ne)) (omega arith)
        ];
        before =
            λ j lt. w.before j (omega arith) ∙ rw (ne→== j i (λ y. absurd (omega (arith, y)))) refl;
      },
    )

-- Let the packet that is configured have the length of its segments together, at least 42, its
-- segments fit a buffer and be fewer than the descriptors. For at most 255 lengths that are below
-- 65536 together, set_tx_pkt_segments returns and the same holds after it.
pub set_tx_pkt_segments-IsPacket :
    (seg_lengths : List ℕ) (s : Config)
    → length seg_lengths ≤ 255
    → sum seg_lengths < 2 ^ 16
    → IsPacket s
    → (t : Config) × (set_tx_pkt_segments seg_lengths s ≡ ok t) × IsPacket t
unfolding set_tx_pkt_segments sum sum_to
set_tx_pkt_segments-IsPacket xs s room small p =
    let total = total_length s.mbuf_data_size xs 0 in
    elim (Bool-cases (leb s.nb_txd (length xs))) [
      | inl e ↦ (s, rw e refl, p)
      | inr e ↦ elim (Bool-cases total.1) [
        | inr f ↦ (s, rw (e, f) refl, p)
        | inl f ↦ elim (Bool-cases (ltb total.0 empty_packet)) [
          | inl g ↦ (s, rw (e, f, g) refl, p)
          | inr g ↦
              let (sums, all) = total_length-sum s.mbuf_data_size xs 0 (omega (arith, small)) f in
              let (new, run, w) =
                write_lengths-Written s.mbuf_data_size 0 xs s.tx_pkt_seg_lengths (omega arith) small
                  all in
              let exact : length xs % 2 ^ 8 ≡ length xs = mod-eq_of_lt (omega arith) in
              let zeros : 0 + length xs ≡ length xs = omega arith in
              (
                record s {
                  tx_pkt_seg_lengths = new;
                  tx_pkt_length = total.0;
                  tx_pkt_nb_segs = length xs;
                },
                rw (e, f, g, run, exact) refl,
                record {
                  total = sums ∙ sym (rw zeros at w.sums);
                  headers = ground (arith, g);
                  buffers = λ j lt. w.fit j (omega arith) (omega (arith, lt));
                  descriptors = ground (arith, e);
                },
              )
        ]
      ]
    ]
